-- ===== src/Crypt/Blocks.antt =====
-- The chaining of src/qqcrypt.c block by block, and the laws of `xor_bytes`.
use myqq.Base.{
  ℕ, zero, suc, ◌*◌, ◌<◌, bit_xor, ◌≡◌, refl, ap, ap₂, ◌∙◌, List, [], ◌∷◌, ◌++◌, arith, length,
  get_or, take, drop, length-append, xor_cancel, bit_xor-lt,
}
use myqq.Crypt.{xor_bytes, encipher}
use myqq.Crypt.Tea.{AreBytes, IsBlock, encipher-IsBlock}

pub length-xor_bytes : (p q : List ℕ) → length (xor_bytes p q) ≡ length p
unfolding xor_bytes
length-xor_bytes [] q = refl
length-xor_bytes (x ∷ p) [] = refl
length-xor_bytes (x ∷ p) (y ∷ q) = ap suc (length-xor_bytes p q)

pub AreBytes-xor_bytes : (p q : List ℕ) → AreBytes p → AreBytes q → AreBytes (xor_bytes p q)
unfolding xor_bytes
AreBytes-xor_bytes [] q h g = tt
AreBytes-xor_bytes (x ∷ p) [] h g = h
AreBytes-xor_bytes (x ∷ p) (y ∷ q) h g = (bit_xor-lt 8 x y h.0 g.0, AreBytes-xor_bytes p q h.1 g.1)

-- `q ^ ( p ^ q )` is `p`.
pub xor_bytes_cancel : (p q : List ℕ) → length p ≡ length q → xor_bytes q (xor_bytes p q) ≡ p
unfolding xor_bytes
xor_bytes_cancel [] [] e = refl
xor_bytes_cancel [] (y ∷ q) e = absurd (omega arith)
xor_bytes_cancel (x ∷ p) [] e = absurd (omega arith)
xor_bytes_cancel (x ∷ p) (y ∷ q) e = ap₂ ◌∷◌ (xor_cancel y x) (xor_bytes_cancel p q (omega arith))

pub get_or-xor_bytes :
    (p q : List ℕ) (i : ℕ)
    → length p ≡ length q
    → i < length p
    → get_or (xor_bytes p q) i 0 ≡ bit_xor (get_or p i 0) (get_or q i 0)
unfolding xor_bytes
get_or-xor_bytes [] q i e h = absurd (omega arith)
get_or-xor_bytes (x ∷ p) [] i e h = absurd (omega arith)
get_or-xor_bytes (x ∷ p) (y ∷ q) zero e h = refl
get_or-xor_bytes (x ∷ p) (y ∷ q) (suc i) e h = get_or-xor_bytes p q i (omega arith) (omega arith)

pub IsBlock-xor_bytes : (p q : List ℕ) → IsBlock p → IsBlock q → IsBlock (xor_bytes p q)
IsBlock-xor_bytes p q b c = record {
  eight = length-xor_bytes p q ∙ b.eight;
  bytes = AreBytes-xor_bytes p q b.bytes c.bytes;
}

pub AreBytes-append : (p q : List ℕ) → AreBytes p → AreBytes q → AreBytes (p ++ q)
AreBytes-append [] q h g = g
AreBytes-append (x ∷ p) q h g = (h.0, AreBytes-append p q h.1 g)

pub AreBytes-take : (n : ℕ) (p : List ℕ) → AreBytes p → AreBytes (take n p)
AreBytes-take zero p h = tt
AreBytes-take (suc n) [] h = tt
AreBytes-take (suc n) (x ∷ p) h = (h.0, AreBytes-take n p h.1)

pub AreBytes-drop : (n : ℕ) (p : List ℕ) → AreBytes p → AreBytes (drop n p)
AreBytes-drop zero p h = h
AreBytes-drop (suc n) [] h = tt
AreBytes-drop (suc n) (x ∷ p) h = AreBytes-drop n p h.1

-- What is enciphered of a block `p` after the ciphertext `c`, and what is written for it after
-- the block enciphered before, `x`.
abbrev pub chain_in : List ℕ → List ℕ → List ℕ
chain_in p c = xor_bytes p c

abbrev pub chain_out : List ℕ → List ℕ → List ℕ → List ℕ
chain_out key x p = xor_bytes (encipher key p) x

-- The ciphertext of `m` blocks of `s`.
unfoldable pub enc_stream : List ℕ → ℕ → List ℕ → List ℕ → List ℕ → List ℕ
enc_stream key zero x c s = []
enc_stream key (suc m) x c s =
    let p = chain_in (take 8 s) c in
    let o = chain_out key x p in o ++ enc_stream key m p o (drop 8 s)

pub IsBlock-chain_out : (key x p : List ℕ) → IsBlock x → IsBlock (chain_out key x p)
IsBlock-chain_out key x p b = IsBlock-xor_bytes (encipher key p) x (encipher-IsBlock key p) b

pub length-enc_stream :
    (key : List ℕ) (m : ℕ) (x c s : List ℕ) → length (enc_stream key m x c s) ≡ 8 * m
unfolding enc_stream
length-enc_stream key zero x c s = refl
length-enc_stream key (suc m) x c s =
    let p = chain_in (take 8 s) c in
    let o = chain_out key x p in
    omega (
      arith,
      length-append o (enc_stream key m p o (drop 8 s)),
      length-enc_stream key m p o (drop 8 s),
      length-xor_bytes (encipher key p) x,
      (encipher-IsBlock key p).eight,
    )

pub enc_stream-suc :
    (key : List ℕ) (m : ℕ) (x c s : List ℕ)
    → let p = chain_in (take 8 s) c in
      let o = chain_out key x p in
      enc_stream key (suc m) x c s ≡ o ++ enc_stream key m p o (drop 8 s)
unfolding enc_stream
enc_stream-suc key m x c s = refl
