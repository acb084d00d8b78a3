-- ===== src/Packet/RoundTrip.antt =====
-- A sequence of fields written by the `put_*` operations is what the `get_*` operations read.
use myqq.Base.{
  ℕ, zero, suc, ◌+◌, ◌-◌, ◌≤◌, ◌<◌, ◌≡◌, refl, sym, ap, ◌∙◌, some, List, [], ◌∷◌, ◌++◌, map,
  append_assoc, append-nil, arith, length, take, replicate, overwrite, length-append,
  length-replicate, take-append, length-overwrite, drop-overwrite, overwrite-overwrite,
}
use myqq.Packet.{
  ByteBuffer, M, ◌>>=◌, pure, store, advance, put_byte, put_word, put_int, put_data, get_byte,
  get_word, get_int, get_data, word_bytes, int_bytes,
}
use myqq.Packet.Store.{IsWritable, put_byte-eq-put_data, put_word-eq-put_data, put_int-eq-put_data}
use myqq.Packet.Unread.{
  unread, length-unread-le, fits_of_unread, load-unread, unread-advance, get_byte-unread,
  get_word-unread, get_int-unread,
}

-- one value of a packet's layout
pub data Field : Type 0 where
  byte : ℕ → Field
  word : ℕ → Field
  int : ℕ → Field
  block : List ℕ → Field

-- what the reader must know of a field
pub data Shape : Type 0 where
  byte word int : Shape
  block : ℕ → Shape

abbrev pub shape : Field → Shape
shape (byte x) = Shape.byte
shape (word w) = Shape.word
shape (int w) = Shape.int
shape (block xs) = Shape.block (length xs)

abbrev pub IsField : Field → Type 0
IsField (byte x) = x < 256
IsField (word w) = w < 65536
IsField (int w) = w < 4294967296
IsField (block xs) = Unit {0}

abbrev pub AreFields : List Field → Type 0
AreFields [] = Unit {0}
AreFields (f ∷ fs) = IsField f × AreFields fs

abbrev pub encode : List Field → List ℕ
encode [] = []
encode (byte x ∷ fs) = x ∷ encode fs
encode (word w ∷ fs) = word_bytes w ++ encode fs
encode (int w ∷ fs) = int_bytes w ++ encode fs
encode (block xs ∷ fs) = xs ++ encode fs

unfoldable pub put_fields : ByteBuffer → List Field → ByteBuffer
put_fields b [] = b
put_fields b (byte x ∷ fs) = put_fields (put_byte b x) fs
put_fields b (word w ∷ fs) = put_fields (put_word b w) fs
put_fields b (int w ∷ fs) = put_fields (put_int b w) fs
put_fields b (block xs ∷ fs) = put_fields (put_data b xs) fs

get_field : Shape → M Field
get_field Shape.byte = do x ← get_byte; pure (byte x)
get_field Shape.word = do x ← get_word; pure (word x)
get_field Shape.int = do x ← get_int; pure (int x)
get_field (Shape.block n) = do r ← get_data (replicate n 0) n; pure (block r.1)

unfoldable pub get_fields : List Shape → M (List Field)
unfolding get_field
get_fields [] = pure []
get_fields (s ∷ ss) = do f ← get_field s; fs ← get_fields ss; pure (f ∷ fs)

store-nil : (b : ByteBuffer) → store b [] ≡ b
store-nil b = λ i. record b { bytes = overwrite-nil b.bytes b.pos i; pos = p i }
  where
    p : b.pos + 0 ≡ b.pos
    p = omega arith

    overwrite-nil : (bs : List ℕ) (i : ℕ) → overwrite bs i [] ≡ bs
    overwrite-nil [] i = refl
    overwrite-nil (x ∷ bs) zero = refl
    overwrite-nil (x ∷ bs) (suc i) = ap (λ t. x ∷ t) (overwrite-nil bs i)

store-store :
    (b : ByteBuffer) (xs ys : List ℕ)
    → b.pos + length xs ≤ length b.bytes
    → store (store b xs) ys ≡ store b (xs ++ ys)
store-store b xs ys h =
    λ i. record b { bytes = overwrite-overwrite b.bytes b.pos xs ys h i; pos = p i }
  where
    p : b.pos + length xs + length ys ≡ b.pos + length (xs ++ ys)
    p = omega (arith, length-append xs ys)

put_data-store :
    (b : ByteBuffer) (xs : List ℕ) → b.pos + length xs ≤ b.size → put_data b xs ≡ store b xs
unfolding put_data
put_data-store b xs h = ground arith

-- one more block in front of fields that fit
put_data-step :
    (b : ByteBuffer) (xs ys : List ℕ) (k : ByteBuffer → ByteBuffer)
    → ((c : ByteBuffer) → IsWritable c → c.pos + length ys ≤ c.size → k c ≡ store c ys)
    → IsWritable b
    → b.pos + length (xs ++ ys) ≤ b.size
    → k (put_data b xs) ≡ store b (xs ++ ys)
put_data-step b xs ys k rest w h =
    let l = length-append xs ys in
    let fits : b.pos + length xs ≤ b.size = omega arith in
    ap k (put_data-store b xs fits)
    ∙ (rest (store b xs) (record { cursor = fits; room = rw length-overwrite w.room }) (omega arith)
        ∙ store-store b xs ys (omega (arith, w.room)))

pub put_fields-store :
    (fs : List Field) (b : ByteBuffer)
    → IsWritable b
    → b.pos + length (encode fs) ≤ b.size
    → put_fields b fs ≡ store b (encode fs)
unfolding put_fields
put_fields-store [] b w h = sym (store-nil b)
put_fields-store (byte x ∷ fs) b w h =
    ap (λ c. put_fields c fs) (put_byte-eq-put_data b x)
    ∙ put_data-step b (x ∷ []) (encode fs) (λ c. put_fields c fs) (put_fields-store fs) w h
put_fields-store (word x ∷ fs) b w h =
    ap (λ c. put_fields c fs) (put_word-eq-put_data b x)
    ∙ put_data-step b (word_bytes x) (encode fs) (λ c. put_fields c fs) (put_fields-store fs) w h
put_fields-store (int x ∷ fs) b w h =
    ap (λ c. put_fields c fs) (put_int-eq-put_data b x)
    ∙ put_data-step b (int_bytes x) (encode fs) (λ c. put_fields c fs) (put_fields-store fs) w h
put_fields-store (block xs ∷ fs) b w h =
    put_data-step b xs (encode fs) (λ c. put_fields c fs) (put_fields-store fs) w h

overwrite-all : (n : ℕ) (xs : List ℕ) → length xs ≡ n → overwrite (replicate n 0) 0 xs ≡ xs
overwrite-all zero [] e = refl
overwrite-all zero (x ∷ xs) e = absurd (omega arith)
overwrite-all (suc n) [] e = absurd (omega arith)
overwrite-all (suc n) (x ∷ xs) e = ap (λ t. x ∷ t) (overwrite-all n xs (omega arith))

pub get_data-unread :
    (b : ByteBuffer) (xs rest : List ℕ)
    → b.pos ≤ b.len
    → unread b ≡ xs ++ rest
    → get_data (replicate (length xs) 0) (length xs) b
      ≡ some ((length xs, xs), advance b (length xs))
unfolding get_data
get_data-unread b xs rest p e =
    let fits : b.pos + length xs ≤ b.len =
      omega (arith, length-unread-le b, ap length e, length-append xs rest) in
    let l = load-unread b xs rest (length xs) e refl fits in
    ground (
      arith,
      fits,
      l,
      ap length l,
      length-replicate {A = ℕ} (length xs) 0,
      overwrite-all (length xs) xs refl,
    )

advance-advance : (b : ByteBuffer) (n m : ℕ) → advance (advance b n) m ≡ advance b (n + m)
advance-advance b n m = λ i. record b { pos = p i }
  where
    p : b.pos + n + m ≡ b.pos + (n + m)
    p = omega arith

get_fields-step :
    (s : Shape) (ss : List Shape) (b : ByteBuffer) (f : Field) (fs : List Field) (n m k : ℕ)
    → get_field s b ≡ some (f, advance b n)
    → get_fields ss (advance b n) ≡ some (fs, advance (advance b n) m)
    → n + m ≡ k
    → get_fields (s ∷ ss) b ≡ some (f ∷ fs, advance b k)
unfolding get_fields
get_fields-step s ss b f fs n m k p q e =
    let r : advance (advance b n) m ≡ advance b k = advance-advance b n m ∙ ap (advance b) e in
    ground (arith, p, q, r)

-- Reading field by field, whatever follows the fields.
get_fields-unread :
    (fs : List Field) (b : ByteBuffer) (rest : List ℕ)
    → AreFields fs
    → b.pos ≤ b.len
    → unread b ≡ encode fs ++ rest
    → get_fields (map shape fs) b ≡ some (fs, advance b (length (encode fs)))
unfolding get_fields
get_fields-unread [] b rest h p e =
    let z : b.pos ≡ b.pos + 0 = omega arith in λ i. some ([], record b { pos = z i })
get_fields-unread (byte x ∷ fs) b rest h p e =
    let e' = e in
    get_fields-step Shape.byte (map shape fs) b (byte x) fs 1 (length (encode fs)) _
      (ground (arith, get_byte-unread b x (encode fs ++ rest) e'))
      (get_fields-unread fs (advance b 1) rest h.1
        (fits_of_unread b (x ∷ []) (encode fs ++ rest) {n = 0} e' refl)
        (unread-advance b (x ∷ []) (encode fs ++ rest) 1 e' refl))
      (omega arith)
get_fields-unread (word x ∷ fs) b rest h p e =
    let e' = e in
    get_fields-step Shape.word (map shape fs) b (word x) fs 2 (length (encode fs)) _
      (ground (arith, get_word-unread b x (encode fs ++ rest) h.0 e'))
      (get_fields-unread fs (advance b 2) rest h.1
        (fits_of_unread b (word_bytes x) (encode fs ++ rest) {n = 1} e' refl)
        (unread-advance b (word_bytes x) (encode fs ++ rest) 2 e' refl))
      (omega arith)
get_fields-unread (int x ∷ fs) b rest h p e =
    let e' = e in
    get_fields-step Shape.int (map shape fs) b (int x) fs 4 (length (encode fs)) _
      (ground (arith, get_int-unread b x (encode fs ++ rest) h.0 e'))
      (get_fields-unread fs (advance b 4) rest h.1
        (fits_of_unread b (int_bytes x) (encode fs ++ rest) {n = 3} e' refl)
        (unread-advance b (int_bytes x) (encode fs ++ rest) 4 e' refl))
      (omega arith)
get_fields-unread (block xs ∷ fs) b rest h p e =
    let e' = e ∙ append_assoc xs (encode fs) rest in
    get_fields-step (Shape.block (length xs)) (map shape fs) b (block xs) fs (length xs)
      (length (encode fs)) _ (ground (arith, get_data-unread b xs (encode fs ++ rest) p e'))
      (get_fields-unread fs (advance b (length xs)) rest h.1
        (omega (arith, length-unread-le b, ap length e', length-append xs (encode fs ++ rest)))
        (unread-advance b xs (encode fs ++ rest) (length xs) e' refl))
      (sym (length-append xs (encode fs)))

-- the buffer that `b'`, filled from `start` on, is to its reader
abbrev pub reader : ByteBuffer → ℕ → ByteBuffer
reader b' start = record b' { pos = start; len = b'.pos }

-- Fields that are in range, written to a writable buffer with room left for them, are read back in
-- order, to the last byte.
pub get_fields-put_fields :
    (fs : List Field) (b : ByteBuffer)
    → AreFields fs
    → IsWritable b
    → b.pos + length (encode fs) ≤ b.size
    → (r : ByteBuffer) × (get_fields (map shape fs) (reader (put_fields b fs) b.pos) ≡ some (fs, r))
      × (r.pos ≡ r.len)
get_fields-put_fields fs b h w fits = (
  advance (reader c b.pos) (length (encode fs)),
  ap (λ d. get_fields (map shape fs) (reader d b.pos)) (put_fields-store fs b w fits)
      ∙ get_fields-unread fs (reader (store b (encode fs)) b.pos) [] h (omega arith) whole
      ∙ ap (λ d. some (fs, advance (reader d b.pos) (length (encode fs))))
          (sym (put_fields-store fs b w fits)),
  ap (λ (d : ByteBuffer). d.pos) (sym (put_fields-store fs b w fits)),
)
  where
    c : ByteBuffer
    c = put_fields b fs

    whole : unread (reader (store b (encode fs)) b.pos) ≡ encode fs ++ []
    whole =
        ap (take (b.pos + length (encode fs) - b.pos))
          (drop-overwrite b.bytes b.pos (encode fs) (omega (arith, w.room)))
        ∙ (take-append (encode fs) _ _ (omega arith) ∙ sym (append-nil (encode fs)))
