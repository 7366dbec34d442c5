-- ===== src/Ipc/Reading.antt =====
-- The reading task of ipc_comm.rs takes a stream of frames apart, however the socket cuts it up.
use bokken.Prelude.{
  ℕ, ◌+◌, ◌≤◌, ◌<◌, ◌^◌, ◌≡◌, refl, sym, ap, ◌∙◌, subst, inl, inr, List, [], ◌∷◌, ◌++◌,
  append_assoc, arith, Bytes, length, take, drop, replicate, length-append, length-take,
  length-drop, length-replicate, take_all, take-append_length, drop-append_length, to_le_bytes,
  from_le_bytes, length-to_le_bytes, from_le_bytes-to_le_bytes, ◌==◌, Bool-cases, ==_ne, false,
}
use bokken.Errors.{would_block}
use bokken.Ipc.{
  ReadState, msg_length, msg_body, waiting, message, ReadHandler, read_bytes, read_failed, Tick,
  ticked, new_read_handler, on_full, filled, on_bytes, on_event, read_tick,
}

-- The bytes of messages on the wire.
unfoldable pub frames : List Bytes → Bytes
frames [] = []
frames (m ∷ ms) = to_le_bytes 8 (length m) ++ (m ++ frames ms)

-- Messages that can be framed: none is empty, and each length fits into eight bytes.
abbrev pub AllFramable : List Bytes → Type 0
AllFramable [] = Unit {0}
AllFramable (m ∷ ms) = (0 < length m) × (length m < 256 ^ 8) × AllFramable ms

-- What stands in the buffer before its index.
abbrev pub got : ReadHandler → Bytes
got h = take h.buffer_index h.buffer

-- The handler `h` is still to see the bytes `rest`, and the messages `ms` are in what it has of an
-- unfinished frame and in `rest`.
abbrev pub AwaitsIn : ReadState → ReadHandler → Bytes → List Bytes → Type 0
AwaitsIn msg_length h rest ms = (length h.buffer ≡ 8) × (got h ++ rest ≡ frames ms)
AwaitsIn msg_body h rest [] = ⊥
AwaitsIn msg_body h rest (m ∷ ms) = (length h.buffer ≡ length m) × (got h ++ rest ≡ m ++ frames ms)

pub record Awaits (h : ReadHandler) (rest : Bytes) (ms : List Bytes) : Type 0 where
  pub room : h.buffer_index < length h.buffer
  pub content : AwaitsIn h.state h rest ms
  pub framable : AllFramable ms

pub new-Awaits : (ms : List Bytes) → AllFramable ms → Awaits new_read_handler (frames ms) ms
unfolding new_read_handler
new-Awaits ms ok = record { room = omega arith; content = (refl, refl); framable = ok }

-- What a tick may come to while `ms` are awaited and `rest` is left.
abbrev pub Advances : Tick → Bytes → List Bytes → Type 0
Advances (ticked waiting h) rest ms = Awaits h rest ms
Advances (ticked (message m) h) rest ms = (ns : List Bytes) × (ms ≡ m ∷ ns) × Awaits h rest ns
Advances _ rest ms = ⊥

got-filled :
    (h : ReadHandler) (bs : Bytes)
    → h.buffer_index + length bs ≤ length h.buffer
    → (got (filled h bs) ≡ got h ++ bs) × (length (filled h bs).buffer ≡ length h.buffer)
unfolding filled
got-filled h bs fits =
    let i = h.buffer_index in
    let t : length (take i h.buffer) ≡ i = omega (arith, length-take i h.buffer) in
    (
      rw (
        ← append_assoc (take i h.buffer) bs (drop (i + length bs) h.buffer),
        take-append_length (i + length bs) (take i h.buffer ++ bs) (drop (i + length bs) h.buffer)
            (omega (arith, length-append (take i h.buffer) bs)),
      ),
      omega (
        arith,
        length-append (take i h.buffer) (bs ++ drop (i + length bs) h.buffer),
        length-append bs (drop (i + length bs) h.buffer),
        length-drop (i + length bs) h.buffer,
      ),
    )

pub append_split : (a b x y : Bytes) → length a ≡ length b → a ++ x ≡ b ++ y → (a ≡ b) × (x ≡ y)
append_split a b x y e h = (
  sym (take-append_length (length b) a x e)
      ∙ ap (take (length b)) h
      ∙ take-append_length (length b) b y refl,
  sym (drop-append_length (length b) a x e)
      ∙ ap (drop (length b)) h
      ∙ drop-append_length (length b) b y refl,
)

-- A full buffer.
full-Advances :
    (st : ReadState) (b rest : Bytes) (ms : List Bytes)
    → AwaitsIn st (record { buffer = b; buffer_index = length b; state = st }) rest ms
    → AllFramable ms
    → Advances (on_full (record { buffer = b; buffer_index = length b; state = st })) rest ms
unfolding on_full new_read_handler frames
full-Advances msg_length b rest [] c ok = absurd (
    omega
      (arith, c.0, ap length c.1, length-append (take (length b) b) rest, length-take (length b) b))
full-Advances msg_length b rest (m ∷ ms) c ok =
    let all : take (length b) b ≡ b = take_all (length b) b (omega arith) in
    let (head, tail) =
      append_split b (to_le_bytes 8 (length m)) rest (m ++ frames ms)
        (c.0 ∙ sym (length-to_le_bytes 8 (length m))) (sym (ap (λ z. z ++ rest) all) ∙ c.1) in
    let size : from_le_bytes b ≡ length m =
      ap from_le_bytes head ∙ from_le_bytes-to_le_bytes 8 (length m) ok.1 in
    let count : length (replicate (from_le_bytes b) (let z : ℕ = 0 in z)) ≡ length m =
      length-replicate (from_le_bytes b) 0 ∙ size in
    record { room = omega (arith, ok.0); content = (count, tail); framable = ok }
full-Advances msg_body b rest [] c ok = absurd c
full-Advances msg_body b rest (m ∷ ms) c ok =
    let all : take (length b) b ≡ b = take_all (length b) b (omega arith) in
    let (head, tail) =
      append_split b m rest (frames ms) c.0 (sym (ap (λ z. z ++ rest) all) ∙ c.1) in
    (
      ms,
      ap (λ z. z ∷ ms) (sym head),
      record { room = omega arith; content = (refl, tail); framable = ok.2 },
    )

filled_content :
    (st : ReadState) (h : ReadHandler) (bs rest : Bytes) (ms : List Bytes)
    → h.buffer_index + length bs ≤ length h.buffer
    → AwaitsIn st h (bs ++ rest) ms
    → AwaitsIn st (filled h bs) rest ms
filled_content msg_length h bs rest ms fits c =
    let (g, l) = got-filled h bs fits in
    (l ∙ c.0, ap (λ z. z ++ rest) g ∙ append_assoc (got h) bs rest ∙ c.1)
filled_content msg_body h bs rest [] fits c = c
filled_content msg_body h bs rest (m ∷ ms) fits c =
    let (g, l) = got-filled h bs fits in
    (l ∙ c.0, ap (λ z. z ++ rest) g ∙ append_assoc (got h) bs rest ∙ c.1)

on_bytes-Advances :
    (h : ReadHandler) (rest : Bytes) (ms : List Bytes)
    → h.buffer_index ≤ length h.buffer
    → AwaitsIn h.state h rest ms
    → AllFramable ms
    → Advances (on_bytes h) rest ms
unfolding on_bytes
on_bytes-Advances h rest ms le c ok = elim (Bool-cases (h.buffer_index == length h.buffer)) [
  | inl full ↦
      let e : h.buffer_index ≡ length h.buffer = ground arith in
      rw full (
        subst
          (λ i.
            Advances (on_full (record { buffer = h.buffer; buffer_index = i; state = h.state }))
              rest ms)
          (sym e)
          (full-Advances h.state h.buffer rest ms
            (subst
              (λ i.
                AwaitsIn h.state (record { buffer = h.buffer; buffer_index = i; state = h.state })
                  rest ms)
              e c)
            ok))
  | inr part ↦ rw part (record { room = ground arith; content = c; framable = ok })
]

-- One tick over bytes that fit into the free part of the buffer takes them off the stream. It ends
-- a message only if that is the next one awaited, and otherwise waits for the same messages.
pub read_tick-Advances :
    (h : ReadHandler) (b : ℕ) (bs rest : Bytes) (ms : List Bytes)
    → Awaits h ((b ∷ bs) ++ rest) ms
    → h.buffer_index + length (b ∷ bs) ≤ length h.buffer
    → Advances (read_tick h (read_bytes (b ∷ bs))) rest ms
unfolding read_tick on_event filled
read_tick-Advances h b bs rest ms a fits =
    rw
      (let open_slice : (length (drop h.buffer_index h.buffer) == 0) ≡ false =
          ==_ne _ _ (omega (arith, length-drop h.buffer_index h.buffer, a.room)) in
        open_slice)
      (on_bytes-Advances (filled h (b ∷ bs)) rest ms (omega (arith, (got-filled h (b ∷ bs) fits).1))
        (filled_content h.state h (b ∷ bs) rest ms fits a.content) a.framable)

-- A read that would block changes nothing.
pub read_tick_idle :
    (h : ReadHandler)
    → h.buffer_index < length h.buffer
    → read_tick h (read_failed would_block) ≡ ticked waiting h
unfolding read_tick on_event
read_tick_idle h room = rw (
    let open_slice : (length (drop h.buffer_index h.buffer) == 0) ≡ false =
      ==_ne _ _ (omega (arith, length-drop h.buffer_index h.buffer)) in
    open_slice)
