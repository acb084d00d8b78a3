-- ===== src/Roster/Batches.antt =====
-- `qun_update_memberinfo` of src/qun.c asks for the members in batches.
use myqq.Base.{
  ℕ, zero, suc, ◌≤◌, ◌<◌, ◌≡◌, refl, ap, ◌∙◌, true, some, List, [], ◌∷◌, ◌++◌, map, arith, ltb,
  if◌then◌else◌, length, take, drop, length-take, length-drop, take-append-drop,
}
use myqq.PtrList.Contents.{IsPtrList, contents}
use myqq.Roster.{Qun, batches, qun_update_memberinfo}

-- the batches one behind the other
unfoldable pub flat : List (List ℕ) → List ℕ
flat [] = []
flat (b ∷ bs) = b ++ flat bs

-- every batch has from 1 to 30 numbers
unfoldable pub AreSmall : List (List ℕ) → Type 0
AreSmall [] = 0 ≤ 0
AreSmall (b ∷ bs) = (0 < length b) × (length b ≤ 30) × AreSmall bs

batches-flat :
    (fuel : ℕ) (xs : List ℕ)
    → length xs ≤ fuel
    → (flat (batches fuel xs) ≡ xs) × AreSmall (batches fuel xs)
unfolding batches flat AreSmall
batches-flat zero [] h = (refl, omega arith)
batches-flat zero (x ∷ xs) h = absurd (omega arith)
batches-flat (suc fuel) [] h = (refl, omega arith)
batches-flat (suc fuel) (x ∷ xs) h =
    let ys = x ∷ xs in
    let send = if ltb (length ys) 30 then length ys else 30 in
    let some_left : ltb 0 (length ys) ≡ true = ground arith in
    let t = length-take send ys in
    let small : (0 < send) × (send ≤ 30) × (send ≤ length ys) =
      (ground arith, ground arith, ground arith) in
    let (f, r) = batches-flat fuel (drop send ys) (omega (arith, length-drop send ys, small)) in
    rw (some_left) (
      ap (λ z. take send ys ++ z) f ∙ take-append-drop send ys,
      (omega (arith, t, small), omega (arith, t, small), r),
    )

-- If the member list is well formed and unlocked, each member number is asked for once, in the
-- order of the list, in calls of 1 to 30 numbers.
pub qun_update_memberinfo-flat :
    (q : Qun)
    → IsPtrList q.member_list
    → (bs : List (List ℕ)) × (qun_update_memberinfo q ≡ some bs)
      × (flat bs ≡ map (λ m. m.number) (contents q.member_list))
      × AreSmall bs
unfolding qun_update_memberinfo
qun_update_memberinfo-flat q v =
    let numbers = map (λ m. m.number) (contents q.member_list) in
    (
      batches (length numbers) numbers,
      rw (v.open_lock) refl,
      (batches-flat (length numbers) numbers (omega arith)).0,
      (batches-flat (length numbers) numbers (omega arith)).1,
    )
