-- ===== src/Prelude/Post.antt =====
-- What holds after an action that succeeds; nothing is claimed of one that fails.
use bokken.Prelude.Result.{Result, ok, err}
use bokken.Prelude.Action.{Action, reads, ◌>>=◌}
use bokken.Prelude.Tests.{if◌then◌else◌}
use mathlib.Core.Path.{◌≡◌, refl, subst⁻¹}
use mathlib.Core.Bool.{Bool, true, false}
use mathlib.Core.Option.{Option, none, some}

abbrev pub PostOf : {S E A : Type 0} → Result E A × S → (A → S → Type 0) → Type 0
PostOf (ok a, t) Q = Q a t
PostOf (err e, t) Q = Unit {0}

abbrev pub Post : {S E A : Type 0} → Action S E A → S → (A → S → Type 0) → Type 0
Post m s Q = PostOf (m s) Q

module _ {S E A B : Type 0} where
  bind_of :
      (r : Result E A × S) (f : A → Action S E B) (P : A → S → Type 0) (Q : B → S → Type 0)
      → PostOf r P
      → ((a : A) (t : S) → P a t → Post (f a) t Q)
      → PostOf (let q : Result E B × S = elim r.0 [ ok a ↦ f a r.1 | err e ↦ (err e, r.1) ] in q) Q
  bind_of (ok a, t) f P Q h k = k a t h
  bind_of (err e, t) f P Q h k = tt

  -- The rule for a step and what follows it.
  pub bind_post :
      (m : Action S E A) (f : A → Action S E B) (s : S) (P : A → S → Type 0) (Q : B → S → Type 0)
      → Post m s P
      → ((a : A) (t : S) → P a t → Post (f a) t Q)
      → Post (m >>= f) s Q
  bind_post m f s P Q h k = bind_of (m s) f P Q h k

module _ {S E A : Type 0} where
  -- An action after which the impossible would hold has failed.
  pub fails_of : (r : Result E A × S) → PostOf r (λ _ _. ⊥) → (e : E) × (r.0 ≡ err e)
  fails_of (ok a, t) h = absurd h
  fails_of (err e, t) h = (e, refl)

-- What holds of the value of a result that is no error.
abbrev pub OkOf : {E A : Type 0} → (A → Type 0) → Result E A → Type 0
OkOf P (ok a) = P a
OkOf P (err e) = Unit {0}

-- A test and what is known in each of its branches.
pub by_bool {ℓ} :
    {B : Type ℓ} (C : B → Type 0) (b : Bool) (x y : B)
    → (b ≡ true → C x)
    → (b ≡ false → C y)
    → C (elim b [ true ↦ x | false ↦ y ])
by_bool C true x y h k = h refl
by_bool C false x y h k = k refl

pub by_if {ℓ} :
    {B : Type ℓ} (C : B → Type 0) (b : Bool) (x y : B)
    → (b ≡ true → C x)
    → (b ≡ false → C y)
    → C (if b then x else y)
by_if C true x y h k = h refl
by_if C false x y h k = k refl

pub by_option {ℓ} :
    {A : Type 0} {B : Type ℓ} (C : B → Type 0) (o : Option A) (n : B) (f : A → B)
    → (o ≡ none → C n)
    → ((a : A) → o ≡ some a → C (f a))
    → C (elim o [ none ↦ n | some a ↦ f a ])
by_option C none n f h k = h refl
by_option C (some a) n f h k = k a refl

pub by_result {ℓ} :
    {E A : Type 0} {B : Type ℓ} (C : B → Type 0) (r : Result E A) (n : E → B) (f : A → B)
    → ((e : E) → r ≡ err e → C (n e))
    → ((a : A) → r ≡ ok a → C (f a))
    → C (elim r [ err e ↦ n e | ok a ↦ f a ])
by_result C (ok a) n f h k = k a refl
by_result C (err e) n f h k = h e refl

pub reads-OkOf :
    {S E A B : Type 0} (P : B → Type 0) (r : Result E A) (k : A → Action S E B) (s : S)
    → ((a : A) → OkOf P (k a s).0)
    → OkOf P ((reads (λ _. r) >>= k) s).0
reads-OkOf P (ok a) k s h = h a
reads-OkOf P (err e) k s h = tt

any_post : {S E A : Type 0} (q : Result E A × S) → PostOf q (λ _ _. Unit {0})
any_post (ok a, s) = tt
any_post (err e, s) = tt

module _ {S E A B : Type 0} where
  pub reads_post :
      (P : A → Type 0) (r : Result E A) (f : A → Action S E B) (s : S) (Q : B → S → Type 0)
      → OkOf P r
      → ((a : A) → P a → Post (f a) s Q)
      → Post (reads (λ _. r) >>= f) s Q
  reads_post P (ok a) f s Q h k = k a h
  reads_post P (err e) f s Q h k = tt

  -- A step of which nothing is used.
  pub then_post :
      (m : Action S E A) (f : A → Action S E B) (s : S) (Q : B → S → Type 0)
      → ((a : A) (t : S) → Post (f a) t Q)
      → Post (m >>= f) s Q
  then_post m f s Q k = bind_post m f s (λ _ _. Unit {0}) Q (any_post (m s)) (λ a t _. k a t)

pub post_map :
    {S E A : Type 0} (P Q : A → S → Type 0) (q : Result E A × S)
    → ((a : A) (t : S) → P a t → Q a t)
    → PostOf q P
    → PostOf q Q
post_map P Q (ok a, s) k h = k a s h
post_map P Q (err e, s) k h = tt

module _ {S E A B : Type 0} where
  -- A step whose outcome is known.
  pub known_post :
      (m : Action S E A) (f : A → Action S E B) (s : S) (Q : B → S → Type 0) (a : A) (t : S)
      → m s ≡ (ok a, t)
      → Post (f a) t Q
      → Post (m >>= f) s Q
  known_post m f s Q a t e h =
      subst⁻¹
        (λ q.
          PostOf (let p : Result E B × S = elim q.0 [ ok b ↦ f b q.1 | err x ↦ (err x, q.1) ] in p)
            Q)
        e h

any-OkOf : {E A : Type 0} (r : Result E A) → OkOf (λ _. Unit {0}) r
any-OkOf (ok a) = tt
any-OkOf (err e) = tt

-- A read of which nothing is used.
pub read_any :
    {S E A B : Type 0} (f : A → Action S E B) (s : S) (Q : B → S → Type 0) (r : Result E A)
    → ((a : A) → Post (f a) s Q)
    → Post (reads (λ _. r) >>= f) s Q
read_any f s Q r k = reads_post (λ _. Unit {0}) r f s Q (any-OkOf r) (λ a _. k a)

-- The rules for both outcomes of an action.
module _ {S E A B : Type 0} where
  pub reads_all :
      (r : Result E A) (f : A → Action S E B) (s : S) (Q : Result E B × S → Type 0)
      → ((e : E) → Q (err e, s))
      → ((a : A) → Q (f a s))
      → Q ((reads (λ _. r) >>= f) s)
  reads_all (ok a) f s Q h k = k a
  reads_all (err e) f s Q h k = h e

  all_of :
      (q : Result E A × S) (f : A → Action S E B) (P : S → Type 0) (Q : Result E B × S → Type 0)
      → P q.1
      → ((e : E) (t : S) → P t → Q (err e, t))
      → ((a : A) (t : S) → P t → Q (f a t))
      → Q (let p : Result E B × S = elim q.0 [ ok a ↦ f a q.1 | err e ↦ (err e, q.1) ] in p)
  all_of (ok a, t) f P Q p h k = k a t p
  all_of (err e, t) f P Q p h k = h e t p

  pub bind_all :
      (m : Action S E A) (f : A → Action S E B) (s : S) (P : S → Type 0)
      (Q : Result E B × S → Type 0)
      → P (m s).1
      → ((e : E) (t : S) → P t → Q (err e, t))
      → ((a : A) (t : S) → P t → Q (f a t))
      → Q ((m >>= f) s)
  bind_all m f s P Q p h k = all_of (m s) f P Q p h k
