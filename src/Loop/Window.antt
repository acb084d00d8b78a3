-- ===== src/Loop/Window.antt =====
-- The items of a loop in order, and what one slot's change does to them.
use myqq.Base.{
  ℕ, zero, suc, ◌+◌, ◌-◌, ◌≤◌, ◌<◌, ◌≡◌, refl, ap, ap₂, List, [], ◌∷◌, ◌++◌, arith, leb, ◌==◌,
  if◌then◌else◌, length, get_or, set, get_or-set_ne,
}
use native.Mathlib.Nat.{mod-eq_of_lt, mod-eq-sub-mod}
use native.Mathlib.Decide.{dec_lt}
use myqq.Loop.{Loop, after, before}

pub record IsLoop {A : Type 0} (l : Loop A) : Type 0 where
  pub room : 1 < l.size
  pub array : length l.items ≡ l.size
  pub head_in : l.head < l.size
  pub tail_in : l.tail < l.size

-- the number of items
abbrev pub count : {A : Type 0} → Loop A → ℕ
count l = if leb l.head l.tail then l.tail - l.head else l.tail + l.size - l.head

module _ {A : Type 0} (null : A) (size : ℕ) where
  -- `n` items from index `i` on
  abbrev pub window : List A → ℕ → ℕ → List A
  window items i zero = []
  window items i (suc n) = get_or items i null ∷ window items (after size i) n

  pub length-window : (items : List A) (i n : ℕ) → length (window items i n) ≡ n
  length-window items i zero = refl
  length-window items i (suc n) = ap suc (length-window items (after size i) n)

abbrev pub contents : {A : Type 0} → A → Loop A → List A
contents null l = window null l.size l.items l.head (count l)

-- `after` and `before` with no remainder
pub after_lem : (size i : ℕ) → i < size → after size i ≡ (if suc i == size then 0 else suc i)
after_lem size i h = elim (dec_lt (i + 1) size) [
  | yes p ↦ ground (arith, mod-eq_of_lt {n = i + 1} {m = size} p)
  | no p ↦ ground (
    arith,
    mod-eq-sub-mod {n = i + 1} {m = size} (omega arith),
    mod-eq_of_lt {n = i + 1 - size} {m = size} (omega arith),
  )
]

pub before_lem : (size i : ℕ) → i < size → before size i ≡ (if i == 0 then size - 1 else i - 1)
before_lem size i h = elim (dec_lt 0 i) [
  | yes p ↦ ground (
    arith,
    mod-eq-sub-mod {n = size + i - 1} {m = size} (omega arith),
    mod-eq_of_lt {n = size + i - 1 - size} {m = size} (omega arith),
  )
  | no p ↦ ground (arith, mod-eq_of_lt {n = size + i - 1} {m = size} (omega arith))
]

-- the distance from `i` forward to `j`
abbrev pub gap : ℕ → ℕ → ℕ → ℕ
gap size i j = if leb i j then j - i else j + size - i

module _ {A : Type 0} (null : A) (size : ℕ) where
  -- A write outside a window does not change it.
  pub window-set_out :
      (items : List A) (i n j : ℕ) (x : A)
      → i < size
      → j < size
      → n ≤ gap size i j
      → window null size (set items j x) i n ≡ window null size items i n
  window-set_out items i zero j x hi hj h = refl
  window-set_out items i (suc n) j x hi hj h =
      ap₂ ◌∷◌ (get_or-set_ne items j i x null (ground arith)) (
        window-set_out items (after size i) n j x (ground (arith, after_lem size i hi)) hj
          (ground (arith, after_lem size i hi)))

  -- The last item of a window.
  pub window-suc :
      (items : List A) (i n j : ℕ)
      → i < size
      → j < size
      → gap size i j ≡ n
      → window null size items i (suc n) ≡ window null size items i n ++ (get_or items j null ∷ [])
  window-suc items i zero j hi hj h = ap (λ k. get_or items k null ∷ []) (ground arith)
  window-suc items i (suc n) j hi hj h =
      ap (λ t. get_or items i null ∷ t)
        (window-suc items (after size i) n j (ground (arith, after_lem size i hi)) hj
          (ground (arith, after_lem size i hi)))
