-- ===== src/Packet/Store.antt =====
-- What the `put_*` operations of src/qqpacket.c do to the bytes already written.
use myqq.Base.{
  ℕ, ◌+◌, ◌≤◌, ◌<◌, ◌≡◌, refl, inl, inr, List, [], ◌∷◌, ◌++◌, arith, leb, Bool-cases, length, take,
  length-overwrite, take-overwrite_end,
}
use myqq.Packet.{ByteBuffer, store, put_byte, put_word, put_int, put_data, word_bytes, int_bytes}

-- The cursor is inside the room, and the room inside the array.
pub record IsWritable (b : ByteBuffer) : Type 0 where
  pub cursor : b.pos ≤ b.size
  pub room : b.size ≤ length b.bytes

-- the bytes in front of the cursor
abbrev pub written : ByteBuffer → List ℕ
written b = take b.pos b.bytes

-- `b'` is `b` with `xs` appended.
pub record Appends (b : ByteBuffer) (xs : List ℕ) (b' : ByteBuffer) : Type 0 where
  pub moved : b'.pos ≡ b.pos + length xs
  pub same_len : b'.len ≡ b.len
  pub same_size : b'.size ≡ b.size
  pub same_array : length b'.bytes ≡ length b.bytes
  pub content : written b' ≡ written b ++ xs

pub store-Appends :
    (b : ByteBuffer) (xs : List ℕ) → b.pos + length xs ≤ length b.bytes → Appends b xs (store b xs)
store-Appends b xs h = record {
  moved = refl;
  same_len = refl;
  same_size = refl;
  same_array = length-overwrite b.bytes b.pos xs;
  content = take-overwrite_end b.bytes b.pos xs _ refl h;
}

-- `put_data` on a writable buffer either appends exactly its bytes, when they fit, or leaves the
-- buffer as it was; the buffer stays writable.
pub put_data_lem :
    (b : ByteBuffer) (xs : List ℕ)
    → IsWritable b
    → IsWritable (put_data b xs)
      × ((b.pos + length xs ≤ b.size → Appends b xs (put_data b xs))
          × (b.size < b.pos + length xs → put_data b xs ≡ b))
unfolding put_data
put_data_lem b xs w = elim (Bool-cases (leb (b.pos + length xs) b.size)) [
  | inl e ↦ rw e (
    record { cursor = ground arith; room = rw length-overwrite w.room },
    ((λ h. store-Appends b xs (omega (arith, w.room))), (λ h. absurd (ground arith))),
  )
  | inr e ↦ rw e (w, ((λ h. absurd (ground arith)), (λ h. refl)))
]

-- The fixed-width writers are `put_data` of the bytes of their number.
pub put_byte-eq-put_data : (b : ByteBuffer) (x : ℕ) → put_byte b x ≡ put_data b (x ∷ [])
unfolding put_byte put_data
put_byte-eq-put_data b x = ground arith

pub put_word-eq-put_data : (b : ByteBuffer) (w : ℕ) → put_word b w ≡ put_data b (word_bytes w)
unfolding put_word put_data
put_word-eq-put_data b w = ground arith

pub put_int-eq-put_data : (b : ByteBuffer) (w : ℕ) → put_int b w ≡ put_data b (int_bytes w)
unfolding put_int put_data
put_int-eq-put_data b w = ground arith
