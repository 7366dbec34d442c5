-- ===== src/IndexFile/Layout.antt =====
-- How the bytes of an index file (utils/indexable_file.rs) hold its entries: the header, then one
-- slot of equal size for each entry. What the reading calls return follows from that.
use native.Mathlib.Nat.{mul-div_cancel}
use bokken.Prelude.{
  ℕ, zero, suc, ◌+◌, ◌-◌, ◌*◌, ◌/◌, ◌≤◌, ◌<◌, ◌≡◌, refl, sym, ◌∙◌, ap, inl, inr, subst⁻¹,
  Bool-cases, ==_iff, some, List, [], ◌∷◌, ◌++◌, get_elem?, append_assoc, arith, Bytes, length,
  take, drop, length-append, length-take, length-drop, ◌==◌, if◌then◌else◌,
}
use bokken.Prelude.Result.{ok}
use bokken.FileBytes.{read_exact, read_exact_mid}
use bokken.IndexFile.{
  Format, IndexableFile, as_u64, stride, index_to_offset, len, entry_offset,
  read_identifier_at_index, read_entry_at_index,
}

-- The slots one after another.
abbrev pub flat : List Bytes → Bytes
flat [] = []
flat (s ∷ ss) = s ++ flat ss

pub flat-append : (ss ts : List Bytes) → flat (ss ++ ts) ≡ flat ss ++ flat ts
flat-append [] ts = refl
flat-append (s ∷ ss) ts = rw (flat-append ss ts, append_assoc s (flat ss) (flat ts))

len_of_size : (h l n : ℕ) → 0 < n → (if h + l * n == 0 then 0 else (h + l * n - h) / n) ≡ l
len_of_size h l n pos = elim (Bool-cases (h + l * n == 0)) [
  | inl empty ↦ rw empty (grind (arith, (==_iff (h + l * n) 0).0 empty))
  | inr some_entry ↦
      rw (some_entry, let e : h + l * n - h ≡ l * n = omega arith in e, mul-div_cancel l pos)
]

-- A total read of an identifier, for statements; every use stands under a bound on the index.
infixl 90 ◌!◌
abbrev pub ◌!◌ : List ℕ → ℕ → ℕ
[] ! i = 0
(k ∷ ks) ! zero = k
(k ∷ ks) ! suc i = ks ! i

module _ {T : Type 0} where
  abbrev pub keys : List (ℕ × T) → List ℕ
  keys [] = []
  keys ((k, v) ∷ es) = k ∷ keys es

  pub length-keys : (es : List (ℕ × T)) → length (keys es) ≡ length es
  length-keys [] = refl
  length-keys (e ∷ es) = ap suc (length-keys es)

module _ {T : Type 0} (fmt : Format T) where
  -- The slot `s` of the file `f` holds the entry `e`.
  pub record Encodes (f : IndexableFile) (s : Bytes) (e : ℕ × T) : Type 0 where
    pub sized : length s ≡ stride fmt f
    pub identifier : fmt.decode_identifier (take fmt.identifier_size s) ≡ some e.0
    pub entry :
        fmt.decode_entry
          (take f.entry_size (drop (fmt.identifier_size * as_u64 f.identifier_is_separate) s))
        ≡ some e.1

  abbrev pub AllEncode : IndexableFile → List Bytes → List (ℕ × T) → Type 0
  AllEncode f [] [] = Unit {0}
  AllEncode f (s ∷ ss) (e ∷ es) = Encodes f s e × AllEncode f ss es
  AllEncode f _ _ = ⊥

  -- The file `f` is the header `hd` and the slots `ss`, which hold the entries `es`.
  pub record Stores (f : IndexableFile) (hd : Bytes) (ss : List Bytes) (es : List (ℕ × T))
      : Type 0 where
    pub header : length hd ≡ fmt.header_size
    pub content : f.file ≡ hd ++ flat ss
    pub size : f.file_len ≡ length f.file
    pub entries : AllEncode f ss es
    pub room : 0 < stride fmt f
    pub inside : fmt.identifier_size ≤ stride fmt f

  module _ (f : IndexableFile) where
    pub length-flat :
        (ss : List Bytes) (es : List (ℕ × T))
        → AllEncode f ss es
        → length (flat ss) ≡ length es * stride fmt f
    length-flat [] [] h = omega arith
    length-flat [] (e ∷ es) h = absurd h
    length-flat (s ∷ ss) [] h = absurd h
    length-flat (s ∷ ss) (e ∷ es) h =
        omega (arith, length-append s (flat ss), length-flat ss es h.1, h.0.sized)

    pub AllEncode-append :
        (ss ts : List Bytes) (es ds : List (ℕ × T))
        → AllEncode f ss es
        → AllEncode f ts ds
        → AllEncode f (ss ++ ts) (es ++ ds)
    AllEncode-append [] ts [] ds h k = k
    AllEncode-append [] ts (e ∷ es) ds h k = absurd h
    AllEncode-append (s ∷ ss) ts [] ds h k = absurd h
    AllEncode-append (s ∷ ss) ts (e ∷ es) ds h k = (h.0, AllEncode-append ss ts es ds h.1 k)

    pub AllEncode-length :
        (ss : List Bytes) (es : List (ℕ × T)) → AllEncode f ss es → length ss ≡ length es
    AllEncode-length [] [] h = refl
    AllEncode-length [] (e ∷ es) h = absurd h
    AllEncode-length (s ∷ ss) [] h = absurd h
    AllEncode-length (s ∷ ss) (e ∷ es) h = ap suc (AllEncode-length ss es h.1)

  -- The number of entries is computed from the size of the file.
  pub len-Stores :
      (f : IndexableFile) (hd : Bytes) (ss : List Bytes) (es : List (ℕ × T))
      → Stores f hd ss es
      → len fmt f ≡ length es
  unfolding len stride
  len-Stores f hd ss es st =
      let whole : f.file_len ≡ fmt.header_size + length es * stride fmt f = omega (
        arith,
        st.size,
        ap length st.content,
        length-append hd (flat ss),
        length-flat f ss es st.entries,
        st.header,
      ) in
      rw whole (len_of_size fmt.header_size (length es) (stride fmt f) st.room)

  -- What a Stores says at the slot `s` that stands behind the slots `pre`.
  module _ (f : IndexableFile) (hd pre_bytes s post : Bytes) (i : ℕ) (e : ℕ × T)
      (content : f.file ≡ (hd ++ pre_bytes) ++ (s ++ post)) (header : length hd ≡ fmt.header_size)
      (before : length pre_bytes ≡ i * stride fmt f) (here : Encodes f s e)
      (inside : fmt.identifier_size ≤ stride fmt f) where
    pub read_identifier_slot : read_identifier_at_index fmt f i ≡ ok e.0
    unfolding read_identifier_at_index index_to_offset
    read_identifier_slot = ground (
      arith,
      here.identifier,
      length-take fmt.identifier_size s,
      here.sized,
      subst⁻¹
          (λ c.
            read_exact c (fmt.header_size + i * stride fmt f) fmt.identifier_size
            ≡ ok (take fmt.identifier_size s))
          content
          (read_exact_mid (hd ++ pre_bytes) s post (fmt.header_size + i * stride fmt f) 0
            fmt.identifier_size (omega (arith, length-append hd pre_bytes, header, before))
            (omega (arith, here.sized, inside))),
    )

    pub read_entry_slot : read_entry_at_index fmt f i ≡ ok e.1
    unfolding read_entry_at_index entry_offset index_to_offset stride
    read_entry_slot =
        let o = fmt.identifier_size * as_u64 f.identifier_is_separate in
        ground (
          arith,
          here.entry,
          length-take f.entry_size (drop o s),
          length-drop o s,
          here.sized,
          subst⁻¹
              (λ c.
                read_exact c (fmt.header_size + i * stride fmt f + o) f.entry_size
                ≡ ok (take f.entry_size (drop o s)))
              content
              (read_exact_mid (hd ++ pre_bytes) s post (fmt.header_size + i * stride fmt f + o) o
                f.entry_size (omega (arith, length-append hd pre_bytes, header, before))
                (omega (arith, here.sized))),
        )

  -- The slot of the entry `i`, with the slots before and behind it.
  pub record SlotAt (f : IndexableFile) (ss : List Bytes) (es : List (ℕ × T)) (i : ℕ) : Type 0 where
    pub pre : List Bytes
    pub slot : Bytes
    pub post : List Bytes
    pub entry : ℕ × T
    pub splits : ss ≡ pre ++ slot ∷ post
    pub before : length (flat pre) ≡ i * stride fmt f
    pub encodes : Encodes f slot entry
    pub is_entry : get_elem? es i ≡ some entry
    pub is_key : keys es ! i ≡ entry.0

  pub slot_at :
      (f : IndexableFile) (ss : List Bytes) (es : List (ℕ × T)) (i : ℕ)
      → AllEncode f ss es
      → i < length es
      → SlotAt f ss es i
  slot_at f [] [] i h lt = absurd (omega arith)
  slot_at f [] (e ∷ es) i h lt = absurd h
  slot_at f (s ∷ ss) [] i h lt = absurd h
  slot_at f (s ∷ ss) (e ∷ es) zero h lt = record {
    pre = [];
    slot = s;
    post = ss;
    entry = e;
    splits = refl;
    before = omega arith;
    encodes = h.0;
    is_entry = refl;
    is_key = refl;
  }
  slot_at f (s ∷ ss) (e ∷ es) (suc i) h lt =
      let r : SlotAt f ss es i = slot_at f ss es i h.1 (omega arith) in
      record {
        pre = s ∷ r.pre;
        slot = r.slot;
        post = r.post;
        entry = r.entry;
        splits = ap (◌∷◌ s) r.splits;
        before = omega (arith, r.before, h.0.sized, length-append s (flat r.pre));
        encodes = r.encodes;
        is_entry = r.is_entry;
        is_key = r.is_key;
      }

  module _ {f : IndexableFile} {hd : Bytes} {ss : List Bytes} {es : List (ℕ × T)}
      (st : Stores f hd ss es) where
    content_at :
        (i : ℕ) (r : SlotAt f ss es i) → f.file ≡ (hd ++ flat r.pre) ++ (r.slot ++ flat r.post)
    content_at i r =
        st.content
        ∙ (rw (r.splits, flat-append r.pre (r.slot ∷ r.post))
            (sym (append_assoc hd (flat r.pre) (r.slot ++ flat r.post))))

    -- Every identifier in range is read back.
    pub read_identifier-Stores :
        (i : ℕ) → i < length es → read_identifier_at_index fmt f i ≡ ok (keys es ! i)
    read_identifier-Stores i lt =
        let r : SlotAt f ss es i = slot_at f ss es i st.entries lt in
        read_identifier_slot f hd (flat r.pre) r.slot (flat r.post) i r.entry (content_at i r)
          st.header r.before r.encodes st.inside
        ∙ ap ok (sym r.is_key)

    -- Every entry in range is read back.
    pub read_entry-Stores :
        (i : ℕ)
        → i < length es
        → (e : ℕ × T) × (read_entry_at_index fmt f i ≡ ok e.1)
          × (get_elem? es i ≡ some e)
          × (keys es ! i ≡ e.0)
    read_entry-Stores i lt =
        let r : SlotAt f ss es i = slot_at f ss es i st.entries lt in
        (
          r.entry,
          read_entry_slot f hd (flat r.pre) r.slot (flat r.post) i r.entry (content_at i r)
              st.header r.before r.encodes st.inside,
          r.is_entry,
          r.is_key,
        )
