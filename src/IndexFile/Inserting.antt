-- ===== src/IndexFile/Inserting.antt =====
-- `insert` of utils/indexable_file.rs: what its copying loop does to the slots, and so to the map.
use bokken.Prelude.{
  ℕ, zero, suc, ◌+◌, ◌*◌, ◌≤◌, ◌<◌, ◌≡◌, refl, sym, ap, ◌∙◌, subst, none, List, [], ◌∷◌, ◌++◌,
  append-nil, append_assoc, arith, Bytes, length, set, replicate, length-append, length-replicate,
  take_all,
}
use bokken.Prelude.Result.{ok}
use bokken.FileBytes.{write, write_mid, read_exact, read_exact_mid}
use bokken.IndexFile.{
  Format, IndexableFile, not_found, stride, index_to_offset, binary_search, old_entry,
}
use bokken.IndexFile.Editing.{copy_up, copy_all_up, make_room, write_entry, insert}
use bokken.IndexFile.Layout.{
  flat, flat-append, Encodes, AllEncode, Stores, len-Stores, AllEncode-length,
}
use bokken.IndexFile.Slots.{
  pad, slot_bytes, Codable, Codable-record, serialize_into_fits, write_entry_parts,
}
use bokken.IndexFile.Appending.{grow-Stores}

-- The list after the copying loop of `insert` and the write at place `k`. The loop copies every
-- item up, so the first one stands twice before the write.
abbrev pub inserted {ℓ} : {A : Type ℓ} → List A → ℕ → A → List A
inserted [] k a = a ∷ []
inserted (x ∷ xs) k a = set (x ∷ x ∷ xs) k a

-- The list after the copying loop, with the free slot `z` at its end before.
abbrev copied_up : List Bytes → Bytes → List Bytes
copied_up [] z = z ∷ []
copied_up (s ∷ ss) z = s ∷ s ∷ ss

-- A list cut at one of its items.
cut_at :
    (ss : List Bytes) (k : ℕ)
    → k < length ss
    → (pre : List Bytes) × (s : Bytes) × (post : List Bytes) × (ss ≡ pre ++ s ∷ post)
      × (length pre ≡ k)
      × ((v : Bytes) → set ss k v ≡ pre ++ v ∷ post)
cut_at [] k h = absurd (omega arith)
cut_at (s ∷ ss) zero h = ([], s, ss, refl, refl, λ v. refl)
cut_at (s ∷ ss) (suc k) h =
    let (pre, t, post, eq, count, sets) = cut_at ss k (omega arith) in
    (s ∷ pre, t, post, ap (◌∷◌ s) eq, omega arith, λ v. ap (◌∷◌ s) (sets v))

-- The last slot of a list and those before it.
unsnoc :
    (ss : List Bytes) (n : ℕ)
    → length ss ≡ suc n
    → (pre : List Bytes) × (s : Bytes) × (ss ≡ pre ++ s ∷ []) × (length pre ≡ n)
unsnoc [] n e = absurd (omega arith)
unsnoc (s ∷ []) n e = ([], s, refl, omega arith)
unsnoc (s ∷ t ∷ ss) zero e = absurd (omega arith)
unsnoc (s ∷ t ∷ ss) (suc n) e =
    let (pre, last, eq, count) = unsnoc (t ∷ ss) n (omega arith) in
    (s ∷ pre, last, ap (◌∷◌ s) eq, omega arith)

copied_up-snoc :
    (pre : List Bytes) (y z : Bytes) → copied_up (pre ++ y ∷ []) z ≡ copied_up pre y ++ y ∷ []
copied_up-snoc [] y z = refl
copied_up-snoc (s ∷ pre) y z = refl

abbrev pub AllSized : ℕ → List Bytes → Type 0
AllSized n [] = Unit {0}
AllSized n (s ∷ ss) = (length s ≡ n) × AllSized n ss

AllSized-append :
    (n : ℕ) (ss ts : List Bytes) → AllSized n (ss ++ ts) → AllSized n ss × AllSized n ts
AllSized-append n [] ts h = (tt, h)
AllSized-append n (s ∷ ss) ts h = let r = AllSized-append n ss ts h.1 in ((h.0, r.0), r.1)

flat-sized : (n : ℕ) (ss : List Bytes) → AllSized n ss → length (flat ss) ≡ length ss * n
flat-sized n [] h = omega arith
flat-sized n (s ∷ ss) h = omega (arith, flat-sized n ss h.1, length-append s (flat ss))

module _ {T : Type 0} (fmt : Format T) where
  copy_up_parts :
      (i : ℕ) (f : IndexableFile) (a y x b : Bytes)
      → f.file ≡ a ++ (y ++ (x ++ b))
      → length a ≡ index_to_offset fmt f i
      → length y ≡ stride fmt f
      → length x ≡ stride fmt f
      → copy_up fmt i f ≡ (ok tt, record f { file = a ++ (y ++ (y ++ b)) })
  unfolding copy_up index_to_offset
  copy_up_parts i f a y x b content offset ly lx =
      let n = stride fmt f in
      ground (
        arith,
        subst (λ c. read_exact c (fmt.header_size + i * n) n ≡ ok y) (sym content)
            (read_exact_mid a y (x ++ b) (fmt.header_size + i * n) 0 n (omega arith) (omega arith)
              ∙ ap ok (take_all n y (omega arith))),
        subst (λ c. write c (fmt.header_size + (i + 1) * n) y ≡ a ++ (y ++ (y ++ b)))
            (sym (content ∙ sym (append_assoc a y (x ++ b))))
            (write_mid (a ++ y) x b y (fmt.header_size + (i + 1) * n)
                (omega (arith, length-append a y)) (omega arith)
              ∙ append_assoc a y (y ++ b)),
      )

  -- The loop, over the slots that it has yet to copy (`pre`), the slot behind those, and the rest.
  copy_all_up_slots :
      (i : ℕ) (f : IndexableFile) (hd : Bytes) (pre : List Bytes) (x : Bytes) (post : List Bytes)
      → length pre ≡ i
      → length hd ≡ fmt.header_size
      → AllSized (stride fmt f) pre
      → length x ≡ stride fmt f
      → f.file ≡ hd ++ flat (pre ++ x ∷ post)
      → copy_all_up fmt i f ≡ (ok tt, record f { file = hd ++ flat (copied_up pre x ++ post) })
  unfolding copy_all_up stride index_to_offset
  copy_all_up_slots zero f hd [] x post count header sized lx content =
      ap (λ z. (ok tt, record f { file = z })) content
  copy_all_up_slots zero f hd (p ∷ pre) x post count header sized lx content = absurd (omega arith)
  copy_all_up_slots (suc i) f hd pre x post count header sized lx content =
      let (q, y, eq, shorter) = unsnoc pre i count in
      let (sized_q, sized_y) =
        AllSized-append (stride fmt f) q (y ∷ []) (subst (AllSized (stride fmt f)) eq sized) in
      let slots : f.file ≡ hd ++ flat (q ++ y ∷ x ∷ post) =
        content
        ∙ ap (λ p. hd ++ flat (p ++ x ∷ post)) eq
        ∙ ap (λ p. hd ++ flat p) (append_assoc q (y ∷ []) (x ∷ post)) in
      let g = record f { file = (hd ++ flat q) ++ (y ++ (y ++ flat post)) } in
      ground (
        arith,
        copy_up_parts i f (hd ++ flat q) y x (flat post) (slots ∙ split q (y ∷ x ∷ post))
            (omega (
              arith,
              length-append hd (flat q),
              flat-sized (stride fmt f) q sized_q,
              ap (λ m. m * stride fmt f) shorter,
              header,
            ))
            sized_y.0 lx,
        copy_all_up_slots i g hd q y (y ∷ post) shorter header sized_q sized_y.0
            (sym (split q (y ∷ y ∷ post))),
        ap (λ p. hd ++ flat (copied_up p x ++ post)) eq
            ∙ ap (λ p. hd ++ flat (p ++ post)) (copied_up-snoc q y x)
            ∙ ap (λ p. hd ++ flat p) (append_assoc (copied_up q y) (y ∷ []) post),
      )
    where
      split : (q r : List Bytes) → hd ++ flat (q ++ r) ≡ (hd ++ flat q) ++ flat r
      split q r = ap (◌++◌ hd) (flat-append q r) ∙ sym (append_assoc hd (flat q) (flat r))

  module _ (f : IndexableFile) (hd : Bytes) (ss : List Bytes) (es : List (ℕ × T))
      (st : Stores fmt f hd ss es) where
    pub AllEncode-sized :
        (rs : List Bytes) (ds : List (ℕ × T)) → AllEncode fmt f rs ds → AllSized (stride fmt f) rs
    AllEncode-sized [] [] h = tt
    AllEncode-sized [] (d ∷ ds) h = absurd h
    AllEncode-sized (r ∷ rs) [] h = absurd h
    AllEncode-sized (r ∷ rs) (d ∷ ds) h = (h.0.sized, AllEncode-sized rs ds h.1)

    -- Making room copies every slot up by one.
    make_room-Stores : make_room fmt none f ≡ (
      ok tt,
      record f {
        file = hd ++ flat (copied_up ss (replicate (stride fmt f) 0));
        file_len = length f.file + stride fmt f;
      },
    )
    unfolding make_room stride
    make_room-Stores =
        let n = stride fmt f in
        let z : Bytes = replicate n 0 in
        let g = record f { file = f.file ++ z; file_len = length f.file + n } in
        ground (
          arith,
          len-Stores fmt f hd ss es st,
          grow-Stores fmt f hd ss es st,
          copy_all_up_slots (length es) g hd ss z [] (AllEncode-length fmt f ss es st.entries)
              st.header (AllEncode-sized ss es st.entries) (length-replicate n 0)
              (ap (λ b. b ++ z) st.content
                ∙ append_assoc hd (flat ss) z
                ∙ ap (◌++◌ hd)
                    (ap (◌++◌ (flat ss)) (sym (append-nil z)) ∙ sym (flat-append ss (z ∷ [])))),
          append-nil (copied_up ss z),
        )

  pub AllEncode-set :
      (f : IndexableFile) (ss : List Bytes) (es : List (ℕ × T)) (i : ℕ) (s : Bytes) (e : ℕ × T)
      → AllEncode fmt f ss es
      → Encodes fmt f s e
      → AllEncode fmt f (set ss i s) (set es i e)
  AllEncode-set f [] [] i s e h k = tt
  AllEncode-set f [] (d ∷ es) i s e h k = absurd h
  AllEncode-set f (r ∷ ss) [] i s e h k = absurd h
  AllEncode-set f (r ∷ ss) (d ∷ es) zero s e h k = (k, h.1)
  AllEncode-set f (r ∷ ss) (d ∷ es) (suc i) s e h k = (h.0, AllEncode-set f ss es i s e h.1 k)

  pub AllEncode-inserted :
      (f : IndexableFile) (ss : List Bytes) (es : List (ℕ × T)) (i : ℕ) (s : Bytes) (e : ℕ × T)
      → AllEncode fmt f ss es
      → Encodes fmt f s e
      → AllEncode fmt f (inserted ss i s) (inserted es i e)
  AllEncode-inserted f [] [] i s e h k = (k, tt)
  AllEncode-inserted f [] (d ∷ es) i s e h k = absurd h
  AllEncode-inserted f (r ∷ ss) [] i s e h k = absurd h
  AllEncode-inserted f (r ∷ ss) (d ∷ es) i s e h k =
      AllEncode-set f (r ∷ r ∷ ss) (d ∷ d ∷ es) i s e (h.0, h) k

  -- Writing an entry sets one slot.
  pub write_entry_slots :
      (g : IndexableFile) (hd : Bytes) (slots : List Bytes) (k key : ℕ) (value : T)
      → g.file ≡ hd ++ flat slots
      → length hd ≡ fmt.header_size
      → AllSized (stride fmt g) slots
      → k < length slots
      → Codable fmt g key value
      → write_entry fmt k key (pad g.entry_size (fmt.encode_entry value)) g
        ≡ (ok tt, record g { file = hd ++ flat (set slots k (slot_bytes fmt g key value)) })
  unfolding index_to_offset
  write_entry_slots g hd slots k key value content header sized inside c =
      let (pre, s, post, eq, count, sets) = cut_at slots k inside in
      let (sized_pre, sized_post) =
        AllSized-append (stride fmt g) pre (s ∷ post) (subst (AllSized (stride fmt g)) eq sized) in
      let slot = slot_bytes fmt g key value in
      write_entry_parts fmt g.file g.file_len g.entry_size g.identifier_is_separate k key value
        (hd ++ flat pre) s (flat post) c
        (content
          ∙ ap (λ p. hd ++ flat p) eq
          ∙ ap (◌++◌ hd) (flat-append pre (s ∷ post))
          ∙ sym (append_assoc hd (flat pre) (s ++ flat post)))
        (omega (
          arith,
          length-append hd (flat pre),
          flat-sized (stride fmt g) pre sized_pre,
          ap (λ m. m * stride fmt g) count,
          header,
        ))
        sized_post.0
      ∙ ap (λ b. (ok tt, record g { file = b }))
          (append_assoc hd (flat pre) (slot ++ flat post)
            ∙ ap (◌++◌ hd) (sym (flat-append pre (slot ∷ post)))
            ∙ ap (λ p. hd ++ flat p) (sym (sets slot)))

  copied_up-sized :
      (n : ℕ) (ss : List Bytes) (z : Bytes)
      → AllSized n ss
      → length z ≡ n
      → AllSized n (copied_up ss z)
  copied_up-sized n [] z h k = (k, tt)
  copied_up-sized n (s ∷ ss) z h k = (h.0, h)

  length-copied_up : (ss : List Bytes) (z : Bytes) → length (copied_up ss z) ≡ suc (length ss)
  length-copied_up [] z = refl
  length-copied_up (s ∷ ss) z = refl

  set-copied_up :
      (ss : List Bytes) (z s : Bytes) (k : ℕ)
      → k ≤ length ss
      → set (copied_up ss z) k s ≡ inserted ss k s
  set-copied_up [] z s zero h = refl
  set-copied_up [] z s (suc k) h = absurd (omega arith)
  set-copied_up (r ∷ ss) z s k h = refl

  -- The file after an `insert` whose search ended at `k` without finding the key.
  abbrev pub inserted_file : IndexableFile → Bytes → List Bytes → ℕ → ℕ → T → IndexableFile
  inserted_file f hd ss k key value = record f {
    file = hd ++ flat (inserted ss k (slot_bytes fmt f key value));
    file_len = length f.file + stride fmt f;
  }

  module _ (f : IndexableFile) (hd : Bytes) (ss : List Bytes) (es : List (ℕ × T))
      (st : Stores fmt f hd ss es) where
    pub insert_runs :
        (k key : ℕ) (value : T)
        → binary_search fmt f key ≡ ok (not_found k)
        → k ≤ length es
        → Codable fmt f key value
        → insert fmt key value f ≡ (ok none, inserted_file f hd ss k key value)
    unfolding insert old_entry stride
    insert_runs k key value search le c =
        let n = stride fmt f in
        let z : Bytes = replicate n 0 in
        let g = record f { file = hd ++ flat (copied_up ss z); file_len = length f.file + n } in
        ground (
          arith,
          search,
          make_room-Stores f hd ss es st,
          serialize_into_fits f.entry_size (fmt.encode_entry value) c.entry_fits,
          write_entry_slots g hd (copied_up ss z) k key value refl st.header
              (copied_up-sized n ss z (AllEncode-sized f hd ss es st ss es st.entries)
                (length-replicate n 0))
              (omega (arith, length-copied_up ss z, AllEncode-length fmt f ss es st.entries))
              (Codable-record fmt f g.file g.file_len key value c),
          set-copied_up ss z (slot_bytes fmt f key value) k
              (omega (arith, AllEncode-length fmt f ss es st.entries)),
        )
