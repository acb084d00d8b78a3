-- ===== src/Config/Words.antt =====
-- The lines that src/config.c can read back, and what its two arrays hold while it reads them.
use myqq.Base.{
  ℕ, zero, suc, ◌-◌, ◌≤◌, ◌<◌, ◌≡◌, refl, sym, ap, ap₂, ◌∙◌, ◌≢◌, false, List, [], ◌∷◌, ◌++◌, arith,
  ◌==◌, length, get_or, set, take, drop,
}
use myqq.Packet.{c_string}
use myqq.Config.{name_len, value_len, trim}

-- bytes that the parser keeps in a value, and in a name
abbrev pub IsPlain : ℕ → Type 0
IsPlain c = (c ≢ 0) × (c ≢ 10) × (c ≢ 13) × (c ≢ 92)

unfoldable pub ArePlain : List ℕ → Type 0
ArePlain [] = 0 ≤ 0
ArePlain (c ∷ cs) = IsPlain c × ArePlain cs

unfoldable pub HasNoEquals : List ℕ → Type 0
HasNoEquals [] = 0 ≤ 0
HasNoEquals (c ∷ cs) = (c ≢ 61) × HasNoEquals cs

-- the text of a pair, and the pairs that a line can hold
abbrev pub Pair : Type 0
Pair = List ℕ × List ℕ

pub record IsWord (w : List ℕ) (cap : ℕ) : Type 0 where
  pub plain : ArePlain w
  pub fits : length w < cap
  pub first : get_or w 0 0 ≢ 32
  pub last : get_or w (length w - 1) 0 ≢ 32

pub record IsPair (p : Pair) : Type 0 where
  pub named : 0 < length p.0
  pub is_name : IsWord p.0 name_len
  pub is_value : IsWord p.1 value_len
  pub no_equals : HasNoEquals p.0
  pub no_comment : get_or p.0 0 0 ≢ 35

abbrev pub line : Pair → List ℕ
line p = p.0 ++ (32 ∷ 61 ∷ 32 ∷ (p.1 ++ (10 ∷ [])))

unfoldable pub text_of : List Pair → List ℕ
text_of [] = []
text_of (p ∷ ps) = line p ++ text_of ps

pub get_or-take : (n i : ℕ) (xs : List ℕ) → i < n → get_or (take n xs) i 0 ≡ get_or xs i 0
get_or-take zero i xs h = absurd (omega arith)
get_or-take (suc n) i [] h = refl
get_or-take (suc n) zero (x ∷ xs) h = refl
get_or-take (suc n) (suc i) (x ∷ xs) h = get_or-take n i xs (omega arith)

pub get_or-append_end : (xs : List ℕ) (c : ℕ) → get_or (xs ++ (c ∷ [])) (length xs) 0 ≡ c
get_or-append_end [] c = refl
get_or-append_end (x ∷ xs) c = get_or-append_end xs c

pub get_or-append_first :
    (xs ys : List ℕ) (i : ℕ) → i < length xs → get_or (xs ++ ys) i 0 ≡ get_or xs i 0
get_or-append_first [] ys i h = absurd (omega arith)
get_or-append_first (x ∷ xs) ys zero h = refl
get_or-append_first (x ∷ xs) ys (suc i) h = get_or-append_first xs ys i (omega arith)

-- No space at the end: nothing is cut off.
pub trim_stop : (buf : List ℕ) (k : ℕ) → (0 < k → get_or buf (k - 1) 0 ≢ 32) → trim buf k ≡ k
unfolding trim
trim_stop buf zero h = refl
trim_stop buf (suc k) h =
    let other : get_or buf k 0 ≢ 32 =
      λ e. h (omega arith) (ap (λ i. get_or buf i 0) {x = suc k - 1} {y = k} (omega arith) ∙ e) in
    ground arith

pub trim-word :
    (buf w : List ℕ)
    → take (length w) buf ≡ w
    → get_or w (length w - 1) 0 ≢ 32
    → trim buf (length w) ≡ length w
trim-word buf w e last = trim_stop buf (length w) (λ h q. last (
    ap (λ t. get_or t (length w - 1) 0) (sym e)
    ∙ (get_or-take (length w) (length w - 1) buf (omega arith) ∙ q)))

-- One space behind the word is cut off.
pub trim-word_space :
    (buf w : List ℕ)
    → take (suc (length w)) buf ≡ w ++ (32 ∷ [])
    → take (length w) buf ≡ w
    → get_or w (length w - 1) 0 ≢ 32
    → trim buf (suc (length w)) ≡ length w
unfolding trim
trim-word_space buf w e f last =
    let space : get_or buf (length w) 0 ≡ 32 =
      sym (get_or-take (suc (length w)) (length w) buf (omega arith))
      ∙ (ap (λ t. get_or t (length w) 0) e ∙ get_or-append_end w 32) in
    ground (arith, space, trim-word buf w f last)

pub c_string-set :
    (w buf : List ℕ)
    → ArePlain w
    → length w < length buf
    → take (length w) buf ≡ w
    → c_string (set buf (length w) 0) ≡ w
unfolding ArePlain
c_string-set w [] a h e = absurd (omega arith)
c_string-set [] (b ∷ buf) a h e = refl
c_string-set (c ∷ w) (b ∷ buf) (p, a) h e =
    let tail : take (length w) buf ≡ w = ap (drop 1) e in
    let head : b ≡ c = ap (λ t. get_or t 0 0) e in
    let some_c : (b == 0) ≡ false = ground (arith, head, p.0) in
    rw some_c (ap₂ ◌∷◌ head (c_string-set w buf a (omega arith) tail))

pub take-take_less :
    (n : ℕ) (xs ys : List ℕ) (z : ℕ)
    → take (suc n) xs ≡ ys ++ (z ∷ [])
    → length ys ≡ n
    → take n xs ≡ ys
take-take_less zero xs [] z e k = refl
take-take_less zero xs (y ∷ ys) z e k = absurd (omega arith)
take-take_less (suc n) xs [] z e k = absurd (omega arith)
take-take_less (suc n) [] (y ∷ ys) z e k = absurd (omega (arith, ap length e))
take-take_less (suc n) (x ∷ xs) (y ∷ ys) z e k =
    ap₂ ◌∷◌ (ap (λ t. get_or t 0 0) e) (take-take_less n xs ys z (ap (drop 1) e) (omega arith))
