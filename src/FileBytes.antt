-- ===== src/FileBytes.antt =====
-- An open file as the bytes that it holds, under the calls that utils/indexable_file.rs makes:
-- a seek is the offset of the call behind it. `tokio::fs` forwards these calls to `std::fs`; a
-- `write` takes the whole buffer.
use bokken.Prelude.{
  ℕ, ◌+◌, ◌-◌, ◌≤◌, ◌<◌, ◌≡◌, refl, subst, ◌++◌, append-nil, append_assoc, arith, Bytes, length,
  take, drop, replicate, length-append, length-take, length-drop, length-replicate, take_all,
  take-append-drop, take-append_length, take-append_le, drop-add, drop-append_length,
  drop-append_le, leb, le→leb, lt→leb, if◌then◌else◌,
}
use bokken.Prelude.Result.{Result, ok, err}
use bokken.Errors.{BokkenError, io, unexpected_eof}

-- `seek(SeekFrom::Start(off))` and `read_exact` into a buffer of `n` bytes.
unfoldable pub read_exact : Bytes → ℕ → ℕ → Result BokkenError Bytes
read_exact file off n =
    if leb (off + n) (length file) then ok (take n (drop off file)) else err (io unexpected_eof)

-- `set_len(n)`: cut off, or filled up with zeros.
unfoldable pub set_len : Bytes → ℕ → Bytes
set_len file n = take n file ++ replicate (n - length file) 0

-- `seek(SeekFrom::Start(off))` and `write(bytes)`.
unfoldable pub write : Bytes → ℕ → Bytes → Bytes
unfolding set_len
write file off bytes = set_len file off ++ (bytes ++ drop (off + length bytes) file)

pub length-set_len : (file : Bytes) (n : ℕ) → length (set_len file n) ≡ n
unfolding set_len
length-set_len file n = omega (
  arith,
  length-append (take n file) (replicate (n - length file) 0),
  length-take n file,
  length-replicate (n - length file) (let z : ℕ = 0 in z),
)

-- A read inside the middle one of three parts of a file.
pub read_exact_mid :
    (a s b : Bytes) (off o k : ℕ)
    → off ≡ length a + o
    → o + k ≤ length s
    → read_exact (a ++ (s ++ b)) off k ≡ ok (take k (drop o s))
unfolding read_exact
read_exact_mid a s b off o k e h = rw (
  e,
  le→leb (length a + o + k) (length (a ++ (s ++ b)))
      (omega (arith, length-append a (s ++ b), length-append s b)),
  drop-add (length a) o (a ++ (s ++ b)),
  drop-append_length (length a) a (s ++ b) refl,
  drop-append_le o s b (omega arith),
  take-append_le k (drop o s) b (omega (arith, length-drop o s)),
)

-- A read past the end fails.
pub read_exact_past :
    (file : Bytes) (off n : ℕ)
    → length file < off + n
    → read_exact file off n ≡ err (io unexpected_eof)
unfolding read_exact
read_exact_past file off n h = rw (lt→leb (off + n) (length file) h)

-- Overwriting the middle one of three parts of a file.
pub write_mid :
    (a s b bytes : Bytes) (off : ℕ)
    → off ≡ length a
    → length bytes ≡ length s
    → write (a ++ (s ++ b)) off bytes ≡ a ++ (bytes ++ b)
unfolding write
write_mid a s b bytes off e h = rw (
  e,
  h,
  take-append_length (length a) a (s ++ b) refl,
  let fits : length a - length (a ++ (s ++ b)) ≡ 0 = omega (arith, length-append a (s ++ b)) in
      fits,
  append-nil a,
  drop-add (length a) (length s) (a ++ (s ++ b)),
  drop-append_length (length a) a (s ++ b) refl,
  drop-append_length (length s) s b refl,
)

-- Growing a file appends zeros.
pub set_len_grow : (file : Bytes) (n : ℕ) → set_len file (length file + n) ≡ file ++ replicate n 0
unfolding set_len
set_len_grow file n = rw (
  take_all (length file + n) file (omega arith),
  let e : length file + n - length file ≡ n = omega arith in e,
)

write_two_parts :
    (a s t b p q : Bytes) (off : ℕ)
    → off ≡ length a
    → length p ≡ length s
    → length q ≡ length t
    → write (write (a ++ ((s ++ t) ++ b)) off p) (off + length p) q ≡ a ++ ((p ++ q) ++ b)
write_two_parts a s t b p q off e h k = rw (
  append_assoc s t b,
  write_mid a s (t ++ b) p off e h,
  ← append_assoc a p (t ++ b),
  write_mid (a ++ p) t b q (off + length p) (omega (arith, length-append a p)) k,
  append_assoc a p (q ++ b),
  append_assoc p q b,
)

-- Two writes in a row fill the middle one of three parts of a file.
pub write_two :
    (a s b p q : Bytes) (off : ℕ)
    → off ≡ length a
    → length p + length q ≡ length s
    → write (write (a ++ (s ++ b)) off p) (off + length p) q ≡ a ++ ((p ++ q) ++ b)
write_two a s b p q off e h =
    subst (λ m. write (write (a ++ (m ++ b)) off p) (off + length p) q ≡ a ++ ((p ++ q) ++ b))
      (take-append-drop (length p) s)
      (write_two_parts a (take (length p) s) (drop (length p) s) b p q off e
        (omega (arith, length-take (length p) s)) (omega (arith, length-drop (length p) s)))
