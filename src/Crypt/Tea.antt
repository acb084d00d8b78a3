-- ===== src/Crypt/Tea.antt =====
-- `decipher` of src/qqcrypt.c undoes `encipher`, for every key.
use myqq.Base.{
  ℕ, zero, suc, ◌+◌, ◌*◌, ◌%◌, ◌^◌, ◌<◌, ◌≡◌, refl, ap, ap₂, ◌∙◌, List, [], ◌∷◌, ◌++◌, arith,
  length,
}
use myqq.Packet.{int_at, int_bytes}
use myqq.Crypt.{
  key_words, encipher, decipher, add32, sub32, delta, mix, Key, encipher_rounds, decipher_rounds,
}

-- `sum` after `n` rounds of `encipher`
abbrev sum_after : ℕ → ℕ → ℕ
sum_after zero sum = sum
sum_after (suc n) sum = sum_after n (add32 sum delta)

sub32-add32 : (a b : ℕ) → a < 2 ^ 32 → sub32 (add32 a b) b ≡ a
sub32-add32 a b h = omega arith

-- One round forth and back.
decipher_rounds-suc :
    (k : Key) (m sum y z : ℕ)
    → sum < 2 ^ 32
    → y < 2 ^ 32
    → z < 2 ^ 32
    → let sum' = add32 sum delta in
      let y' = add32 y (mix z k.a k.b sum') in
      let z' = add32 z (mix y' k.c k.d sum') in
      decipher_rounds k (suc m) sum' y' z' ≡ decipher_rounds k m sum y z
unfolding decipher_rounds
decipher_rounds-suc k m sum y z hs hy hz =
    let sum' = add32 sum delta in
    let y' = add32 y (mix z k.a k.b sum') in
    let e = sub32-add32 z (mix y' k.c k.d sum') hz in
    rw e (rw (sub32-add32 y (mix z k.a k.b sum') hy) (rw (sub32-add32 sum delta hs)))

decipher_rounds-encipher_rounds :
    (k : Key) (n m sum y z : ℕ)
    → sum < 2 ^ 32
    → y < 2 ^ 32
    → z < 2 ^ 32
    → let (y', z') = encipher_rounds k n sum y z in
      decipher_rounds k (n + m) (sum_after n sum) y' z' ≡ decipher_rounds k m sum y z
unfolding encipher_rounds
decipher_rounds-encipher_rounds k zero m sum y z hs hy hz =
    ap (λ i. decipher_rounds k i sum y z) {x = 0 + m} (omega arith)
decipher_rounds-encipher_rounds k (suc n) m sum y z hs hy hz =
    let sum' = add32 sum delta in
    let y' = add32 y (mix z k.a k.b sum') in
    let z' = add32 z (mix y' k.c k.d sum') in
    let (y'', z'') = encipher_rounds k n sum' y' z' in
    ap (λ i. decipher_rounds k i (sum_after n sum') y'' z'') {x = suc n + m} {y = n + suc m}
      (omega arith)
    ∙ (decipher_rounds-encipher_rounds k n (suc m) sum' y' z' (omega arith) (omega arith)
          (omega arith)
        ∙ decipher_rounds-suc k m sum y z hs hy hz)

-- the words of a block whose bytes are the digits of two words
int_at-int_bytes :
    (y z : ℕ)
    → (int_at (int_bytes y ++ int_bytes z) 0 ≡ y % 2 ^ 32)
      × (int_at (int_bytes y ++ int_bytes z) 4 ≡ z % 2 ^ 32)
int_at-int_bytes y z = omega arith

encipher_rounds-lt :
    (k : Key) (n sum y z : ℕ)
    → y < 2 ^ 32
    → z < 2 ^ 32
    → let (y', z') = encipher_rounds k n sum y z in (y' < 2 ^ 32) × (z' < 2 ^ 32)
unfolding encipher_rounds
encipher_rounds-lt k zero sum y z hy hz = (hy, hz)
encipher_rounds-lt k (suc n) sum y z hy hz =
    let sum' = add32 sum delta in
    let y' = add32 y (mix z k.a k.b sum') in
    encipher_rounds-lt k n sum' y' (add32 z (mix y' k.c k.d sum')) (omega arith) (omega arith)

abbrev pub AreBytes : List ℕ → Type 0
AreBytes [] = Unit {0}
AreBytes (x ∷ xs) = (x < 256) × AreBytes xs

pub record IsBlock (v : List ℕ) : Type 0 where
  pub eight : length v ≡ 8
  pub bytes : AreBytes v

pub IsBlock-int_bytes : (y z : ℕ) → IsBlock (int_bytes y ++ int_bytes z)
IsBlock-int_bytes y z = record { eight = refl; bytes = omega arith }

digits4 :
    (a b c d : ℕ)
    → a < 256
    → b < 256
    → c < 256
    → d < 256
    → int_bytes (a * 16777216 + b * 65536 + c * 256 + d) ≡ a ∷ b ∷ c ∷ d ∷ []
digits4 a b c d ha hb hc hd =
    ap₂ ◌∷◌ (omega arith)
      (ap₂ ◌∷◌ (omega arith) (ap₂ ◌∷◌ (omega arith) (ap (λ t. t ∷ []) (omega arith))))

int_bytes-int_at :
    (v : List ℕ) → length v ≡ 8 → AreBytes v → int_bytes (int_at v 0) ++ int_bytes (int_at v 4) ≡ v
int_bytes-int_at (a ∷ b ∷ c ∷ d ∷ e ∷ f ∷ g ∷ h ∷ []) n w =
    ap₂ ◌++◌ (digits4 a b c d w.0 w.1.0 w.1.1.0 w.1.1.1.0)
      (digits4 e f g h w.1.1.1.1.0 w.1.1.1.1.1.0 w.1.1.1.1.1.1.0 w.1.1.1.1.1.1.1.0)
int_bytes-int_at _ n w = absurd (omega arith)

int_at-lt : (v : List ℕ) → length v ≡ 8 → AreBytes v → (int_at v 0 < 2 ^ 32) × (int_at v 4 < 2 ^ 32)
int_at-lt (a ∷ b ∷ c ∷ d ∷ e ∷ f ∷ g ∷ h ∷ []) n w = omega arith
int_at-lt _ n w = absurd (omega arith)

sixteen_rounds : sum_after 16 0 ≡ 0xE3779B90
sixteen_rounds = refl

-- `encipher` and `decipher` return eight bytes.
pub encipher-IsBlock : (k v : List ℕ) → IsBlock (encipher k v)
unfolding encipher
encipher-IsBlock k v = IsBlock-int_bytes _ _

pub decipher-IsBlock : (k v : List ℕ) → IsBlock (decipher k v)
unfolding decipher
decipher-IsBlock k v = IsBlock-int_bytes _ _

-- For every key, `decipher` of what `encipher` makes of eight bytes is those bytes.
pub decipher-encipher : (k v : List ℕ) → IsBlock v → decipher k (encipher k v) ≡ v
unfolding decipher encipher
decipher-encipher k v b =
    let key = key_words k in
    let w = int_at-lt v b.eight b.bytes in
    let (y, z) = encipher_rounds key 16 0 (int_at v 0) (int_at v 4) in
    let lt = encipher_rounds-lt key 16 0 (int_at v 0) (int_at v 4) w.0 w.1 in
    let words = int_at-int_bytes y z in
    let y_same : int_at (int_bytes y ++ int_bytes z) 0 ≡ y = omega (arith, words.0, lt.0) in
    let z_same : int_at (int_bytes y ++ int_bytes z) 4 ≡ z = omega (arith, words.1, lt.1) in
    let back =
      decipher_rounds-encipher_rounds key 16 0 0 (int_at v 0) (int_at v 4) (omega arith) w.0 w.1 in
    ap₂
      (λ p q. let (y', z') = decipher_rounds key 16 0xE3779B90 p q in int_bytes y' ++ int_bytes z')
      y_same z_same
    ∙ (ap (λ (t : ℕ × ℕ). int_bytes t.0 ++ int_bytes t.1)
          (back ∙ last_round key (int_at v 0) (int_at v 4))
        ∙ int_bytes-int_at v b.eight b.bytes)
  where
    last_round : (key : Key) (y z : ℕ) → decipher_rounds key 0 0 y z ≡ (y, z)
    last_round key y z = unfold decipher_rounds in refl
