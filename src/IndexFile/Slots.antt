-- ===== src/IndexFile/Slots.antt =====
-- The bytes that the writing calls of utils/indexable_file.rs put into one slot.
use bokken.Prelude.{
  ℕ, ◌-◌, ◌*◌, ◌≤◌, ◌≡◌, refl, sym, Bool, true, false, some, ◌++◌, arith, Bytes, length, take,
  replicate, length-append, length-replicate, take-append_length, take_all, drop-append_length,
  le→leb, lt→leb, ◌<◌,
}
use bokken.Prelude.Result.{ok, err}
use bokken.Errors.{io, write_zero}
use bokken.FileBytes.{write_mid, write_two}
use bokken.IndexFile.{Format, IndexableFile, stride, index_to_offset, serialize_into}
use bokken.IndexFile.Editing.{write_entry}
use bokken.IndexFile.Layout.{Encodes}

-- An encoding in a buffer of `n` bytes that was zero before.
abbrev pub pad : ℕ → Bytes → Bytes
pad n bytes = bytes ++ replicate (n - length bytes) 0

pub length-pad : (n : ℕ) (bytes : Bytes) → length bytes ≤ n → length (pad n bytes) ≡ n
length-pad n bytes h = omega (
  arith,
  length-append bytes (replicate (n - length bytes) 0),
  length-replicate (n - length bytes) (let z : ℕ = 0 in z),
)

pub serialize_into_fits :
    (n : ℕ) (bytes : Bytes) → length bytes ≤ n → serialize_into n bytes ≡ ok (pad n bytes)
unfolding serialize_into
serialize_into_fits n bytes h = rw (le→leb (length bytes) n h)

pub serialize_into_too_long :
    (n : ℕ) (bytes : Bytes) → n < length bytes → serialize_into n bytes ≡ err (io write_zero)
unfolding serialize_into
serialize_into_too_long n bytes h = rw (lt→leb (length bytes) n h)

module _ {T : Type 0} (fmt : Format T) where
  abbrev pub slot_of : Bool → ℕ → ℕ → T → Bytes
  slot_of true entry_size key value =
      pad fmt.identifier_size (fmt.encode_identifier key) ++ pad entry_size (fmt.encode_entry value)
  slot_of false entry_size key value = pad entry_size (fmt.encode_entry value)

  -- The slot that `insert` and `append` write for a key and a value.
  abbrev pub slot_bytes : IndexableFile → ℕ → T → Bytes
  slot_bytes f = slot_of f.identifier_is_separate f.entry_size

  -- What borsh promises of this key and this value: their encodings fit, and are read back from
  -- the front of a longer buffer. Without bytes of its own the identifier is read off the entry.
  pub record Codable (f : IndexableFile) (key : ℕ) (value : T) : Type 0 where
    pub identifier_fits :
        f.identifier_is_separate ≡ true → length (fmt.encode_identifier key) ≤ fmt.identifier_size
    pub entry_fits : length (fmt.encode_entry value) ≤ f.entry_size
    pub own_identifier :
        (n : ℕ)
        → f.identifier_is_separate ≡ true
        → fmt.decode_identifier (fmt.encode_identifier key ++ replicate n 0) ≡ some key
    pub shared_identifier :
        (n : ℕ)
        → f.identifier_is_separate ≡ false
        → fmt.decode_identifier (take fmt.identifier_size (fmt.encode_entry value ++ replicate n 0))
          ≡ some key
    pub entry_back :
        (n : ℕ) → fmt.decode_entry (fmt.encode_entry value ++ replicate n 0) ≡ some value

  pub Codable-record :
      (f : IndexableFile) (file : Bytes) (n key : ℕ) (value : T)
      → Codable f key value
      → Codable (record f { file = file; file_len = n }) key value
  Codable-record f file n key value c = record {
    identifier_fits = c.identifier_fits;
    entry_fits = c.entry_fits;
    own_identifier = c.own_identifier;
    shared_identifier = c.shared_identifier;
    entry_back = c.entry_back;
  }

  module _ (file : Bytes) (file_len entry_size : ℕ) where
    abbrev pub at : Bool → IndexableFile
    at b = record {
      file = file;
      file_len = file_len;
      entry_size = entry_size;
      identifier_is_separate = b;
    }

    pub slot_bytes-Encodes :
        (b : Bool) (key : ℕ) (value : T)
        → Codable (at b) key value
        → Encodes fmt (at b) (slot_bytes (at b) key value) (key, value)
    unfolding stride
    slot_bytes-Encodes true key value c =
        let i = pad fmt.identifier_size (fmt.encode_identifier key) in
        let v = pad entry_size (fmt.encode_entry value) in
        let li : length i ≡ fmt.identifier_size = length-pad _ _ (c.identifier_fits refl) in
        let lv : length v ≡ entry_size = length-pad _ _ c.entry_fits in
        record {
          sized = omega (arith, length-append i v);
          identifier = rw (take-append_length fmt.identifier_size i v li) (c.own_identifier _ refl);
          entry =
              rw
                (
                  let e : fmt.identifier_size * 1 ≡ fmt.identifier_size = omega arith in e,
                  drop-append_length fmt.identifier_size i v li,
                  take_all entry_size v (omega arith),
                )
                (c.entry_back _);
        }
    slot_bytes-Encodes false key value c =
        let v = pad entry_size (fmt.encode_entry value) in
        let lv : length v ≡ entry_size = length-pad _ _ c.entry_fits in
        record {
          sized = omega arith;
          identifier = c.shared_identifier _ refl;
          entry =
              rw
                (
                  let e : fmt.identifier_size * 0 ≡ 0 = omega arith in e,
                  take_all entry_size v (omega arith),
                )
                (c.entry_back _);
        }

    pub write_entry_parts :
        (b : Bool) (index key : ℕ) (value : T) (a s z : Bytes)
        → Codable (at b) key value
        → file ≡ a ++ (s ++ z)
        → length a ≡ index_to_offset fmt (at b) index
        → length s ≡ stride fmt (at b)
        → write_entry fmt index key (pad entry_size (fmt.encode_entry value)) (at b)
          ≡ (ok tt, record (at b) { file = a ++ (slot_bytes (at b) key value ++ z) })
    unfolding write_entry stride index_to_offset
    write_entry_parts true index key value a s z c content offset sized =
        let i = pad fmt.identifier_size (fmt.encode_identifier key) in
        let v = pad entry_size (fmt.encode_entry value) in
        rw (
          serialize_into_fits fmt.identifier_size (fmt.encode_identifier key)
              (c.identifier_fits refl),
          content,
          write_two a s z i v (index_to_offset fmt (at true) index) (sym offset) (
              omega (
                arith,
                sized,
                length-pad _ _ (c.identifier_fits refl),
                length-pad _ _ c.entry_fits,
              )),
        )
    write_entry_parts false index key value a s z c content offset sized = rw (
      content,
      write_mid a s z (pad entry_size (fmt.encode_entry value))
          (index_to_offset fmt (at false) index) (sym offset)
          (omega (arith, sized, length-pad _ _ c.entry_fits)),
    )
