-- ===== src/Roster/Compare.antt =====
-- `buddy_comp` of src/buddy.c, the order that the buddies are sorted by.
use myqq.Base.{ℕ, ◌+◌, ◌-◌, ◌^◌, ◌<◌, ◌≡◌, true, false, arith, ltb}
use native.Mathlib.Decide.{dec_lt}
use native.Mathlib.Nat.{mod-eq_of_lt, mod-eq-sub-mod}
use myqq.Roster.{buddy_comp, positive}

-- Of two 32-bit numbers less than 2^31 apart `buddy_comp` calls the larger one greater; of two that
-- are further apart it calls the smaller one greater.
pub buddy_comp_lem :
    (p q : ℕ)
    → p < 2 ^ 32
    → q < 2 ^ 32
    → (p < q + 2 ^ 31 → q < p + 2 ^ 31 → positive (buddy_comp p q) ≡ ltb q p)
      × (q + 2 ^ 31 < p → positive (buddy_comp p q) ≡ false)
      × (p + 2 ^ 31 < q → positive (buddy_comp p q) ≡ true)
unfolding buddy_comp
buddy_comp_lem p q hp hq = (
  (λ a b. elim (dec_lt p q) [
    | yes h ↦ ground (arith, mod-eq_of_lt {n = p + 2 ^ 32 - q} {m = 2 ^ 32} (omega arith))
    | no h ↦ ground (
      arith,
      mod-eq-sub-mod {n = p + 2 ^ 32 - q} {m = 2 ^ 32} (omega arith),
      mod-eq_of_lt {n = p + 2 ^ 32 - q - 2 ^ 32} {m = 2 ^ 32} (omega arith),
    )
  ]),
  (λ a. ground (
    arith,
    mod-eq-sub-mod {n = p + 2 ^ 32 - q} {m = 2 ^ 32} (omega arith),
    mod-eq_of_lt {n = p + 2 ^ 32 - q - 2 ^ 32} {m = 2 ^ 32} (omega arith),
  )),
  (λ a. ground (arith, mod-eq_of_lt {n = p + 2 ^ 32 - q} {m = 2 ^ 32} (omega arith))),
)
