-- ===== src/Packet/Unread.antt =====
-- What the `get_*` operations of src/qqpacket.c read, as a prefix of the bytes still unread.
use myqq.Base.{
  ℕ, zero, suc, ◌+◌, ◌-◌, ◌≤◌, ◌<◌, ◌≡◌, refl, sym, ap, ap₂, ◌∙◌, some, List, [], ◌∷◌, ◌++◌, arith,
  length, get_or, take, drop, length-append, length-take, take-append, drop-append, take-nil,
  drop-drop, take-take, drop-take,
}
use myqq.Packet.{ByteBuffer, advance, load, get_byte, get_word, get_int, word_bytes, int_bytes}

-- the bytes from the cursor up to `len`
abbrev pub unread : ByteBuffer → List ℕ
unread b = take (b.len - b.pos) (drop b.pos b.bytes)

pub length-unread-le : (b : ByteBuffer) → length (unread b) ≤ b.len - b.pos
length-unread-le b = omega (arith, length-take (b.len - b.pos) (drop b.pos b.bytes))

-- `n` bytes at hand are inside `len`.
pub fits_of_unread :
    (b : ByteBuffer) (xs rest : List ℕ) {n : ℕ}
    → unread b ≡ xs ++ rest
    → length xs ≡ suc n
    → b.pos + suc n ≤ b.len
fits_of_unread b xs rest e h = omega (arith, length-unread-le b, ap length e, length-append xs rest)

pub load-unread :
    (b : ByteBuffer) (xs rest : List ℕ) (n : ℕ)
    → unread b ≡ xs ++ rest
    → length xs ≡ n
    → b.pos + n ≤ b.len
    → load b n ≡ xs
load-unread b xs rest n e h fits =
    sym (take-take n (b.len - b.pos) (drop b.pos b.bytes) (omega arith))
    ∙ (ap (take n) e ∙ take-append xs rest n (sym h))

pub unread-advance :
    (b : ByteBuffer) (xs rest : List ℕ) (n : ℕ)
    → unread b ≡ xs ++ rest
    → length xs ≡ n
    → unread (advance b n) ≡ rest
unread-advance b xs rest n e h =
    ap₂ take {x = b.len - (b.pos + n)} {y = b.len - b.pos - n} (omega arith)
      (sym (drop-drop n b.pos b.bytes))
    ∙ (sym (drop-take n (b.len - b.pos) (drop b.pos b.bytes))
        ∙ (ap (drop n) e ∙ drop-append xs rest n (sym h)))

-- reading one element of an array through its tail
pub get_or-drop : (xs : List ℕ) (i : ℕ) (d : ℕ) → get_or xs i d ≡ get_or (drop i xs) 0 d
get_or-drop [] zero d = refl
get_or-drop [] (suc i) d = refl
get_or-drop (x ∷ xs) zero d = refl
get_or-drop (x ∷ xs) (suc i) d = get_or-drop xs i d

pub get_or-load :
    (b : ByteBuffer) (n i : ℕ) → i < n → get_or b.bytes (b.pos + i) 0 ≡ get_or (load b n) i 0
get_or-load b n i h =
    get_or-drop b.bytes (b.pos + i) 0
    ∙ (ap (λ t. get_or t 0 0) (sym (drop-drop i b.pos b.bytes))
        ∙ (sym (get_or-drop (drop b.pos b.bytes) i 0)
            ∙ sym (get_or-take (drop b.pos b.bytes) i n 0 h)))
  where
    get_or-take : (xs : List ℕ) (i n d : ℕ) → i < n → get_or (take n xs) i d ≡ get_or xs i d
    get_or-take [] i n d h = ap (λ t. get_or t i d) (take-nil n)
    get_or-take (x ∷ xs) i zero d h = absurd (omega arith)
    get_or-take (x ∷ xs) zero (suc n) d h = refl
    get_or-take (x ∷ xs) (suc i) (suc n) d h = get_or-take xs i n d (omega arith)

pub get_byte-unread :
    (b : ByteBuffer) (x : ℕ) (rest : List ℕ)
    → unread b ≡ x ∷ rest
    → get_byte b ≡ some (x, advance b 1)
unfolding get_byte
get_byte-unread b x rest e =
    let fits = fits_of_unread b (x ∷ []) rest {n = 0} e refl in
    let l = load-unread b (x ∷ []) rest 1 e refl fits in
    let g = get_or-load b 1 0 (omega arith) in ground (arith, fits, ap (λ t. get_or t 0 0) l, g)

pub get_word-unread :
    (b : ByteBuffer) (w : ℕ) (rest : List ℕ)
    → w < 65536
    → unread b ≡ word_bytes w ++ rest
    → get_word b ≡ some (w, advance b 2)
unfolding get_word
get_word-unread b w rest h e =
    let fits = fits_of_unread b (word_bytes w) rest {n = 1} e refl in
    let l = load-unread b (word_bytes w) rest 2 e refl fits in
    let g = get_or-load b 2 0 (omega arith) in
    let g' = get_or-load b 2 1 (omega arith) in
    ground (arith, fits, ap (λ t. get_or t 0 0) l, ap (λ t. get_or t 1 0) l, g, g')

pub get_int-unread :
    (b : ByteBuffer) (w : ℕ) (rest : List ℕ)
    → w < 4294967296
    → unread b ≡ int_bytes w ++ rest
    → get_int b ≡ some (w, advance b 4)
unfolding get_int
get_int-unread b w rest h e =
    let fits = fits_of_unread b (int_bytes w) rest {n = 3} e refl in
    let l = load-unread b (int_bytes w) rest 4 e refl fits in
    ground (
      arith,
      fits,
      ap (λ t. get_or t 0 0) l,
      ap (λ t. get_or t 1 0) l,
      ap (λ t. get_or t 2 0) l,
      ap (λ t. get_or t 3 0) l,
      get_or-load b 4 0 (omega arith),
      get_or-load b 4 1 (omega arith),
      get_or-load b 4 2 (omega arith),
      get_or-load b 4 3 (omega arith),
    )
