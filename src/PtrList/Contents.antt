-- ===== src/PtrList/Contents.antt =====
-- The operations of src/list.c on the items in use.
use myqq.Base.{
  ℕ, zero, suc, ◌+◌, ◌-◌, ◌≤◌, ◌<◌, ◌≡◌, refl, ap, ◌∙◌, inl, inr, Bool, true, false, Option, none,
  some, List, [], ◌∷◌, ◌++◌, arith, ltb, leb, ◌==◌, if◌then◌else◌, ==_iff, Bool-cases, length,
  get_or, set, take, drop, length-set, length-take, length-replicate, drop-get_or,
}
use mathlib.Core.List.{Perm, perm_middle, perm_append_singleton}
use mathlib.Core.List.Perm
use myqq.PtrList.{
  list_remove, list_cleanup, PtrList, slot, find_index, list_create, list_append, list_search,
}

pub record IsPtrList {A : Type 0} (l : PtrList A) : Type 0 where
  pub array : length l.items ≡ l.size
  pub fits : l.count ≤ l.size
  pub open_lock : l.locked ≡ false

abbrev pub contents : {A : Type 0} → PtrList A → List A
contents l = take l.count l.items

pub length-contents : {A : Type 0} (l : PtrList A) → IsPtrList l → length (contents l) ≡ l.count
length-contents l v = omega (arith, length-take l.count l.items, v.array, v.fits)

-- the first item that passes a test
unfoldable pub find? : {A : Type 0} → (A → Bool) → List A → Option A
find? test [] = none
find? test (x ∷ xs) = if test x then some x else find? test xs

module _ {A : Type 0} where
  take-set_end :
      (xs : List A) (n : ℕ) (x : A)
      → n < length xs
      → take (suc n) (set xs n x) ≡ take n xs ++ (x ∷ [])
  take-set_end [] n x h = absurd (omega arith)
  take-set_end (y ∷ ys) zero x h = refl
  take-set_end (y ∷ ys) (suc n) x h = ap (λ t. y ∷ t) (take-set_end ys n x (omega arith))

  -- What stands at index `i` of a prefix, between the items before and behind it.
  take-split :
      (d : A) (xs : List A) (i n : ℕ)
      → i < n
      → n ≤ length xs
      → take n xs ≡ take i xs ++ (get_or xs i d ∷ take (n - i - 1) (drop (suc i) xs))
  take-split d [] i n h k = absurd (omega arith)
  take-split d (x ∷ xs) i zero h k = absurd (omega arith)
  take-split d (x ∷ xs) zero (suc n) h k = ap (λ m. x ∷ take m xs) (omega arith)
  take-split d (x ∷ xs) (suc i) (suc n) h k =
      ap (λ t. x ∷ t)
        (take-split d xs i n (omega arith) (omega arith)
          ∙ ap (λ m. take i xs ++ (get_or xs i d ∷ take m (drop (suc i) xs))) (omega arith))

  take-set_inside :
      (xs : List A) (i n : ℕ) (x : A)
      → i < n
      → n ≤ length xs
      → take n (set xs i x) ≡ take i xs ++ (x ∷ take (n - i - 1) (drop (suc i) xs))
  take-set_inside [] i n x h k = absurd (omega arith)
  take-set_inside (y ∷ xs) i zero x h k = absurd (omega arith)
  take-set_inside (y ∷ xs) zero (suc n) x h k = ap (λ m. x ∷ take m xs) (omega arith)
  take-set_inside (y ∷ xs) (suc i) (suc n) x h k =
      ap (λ t. y ∷ t)
        (take-set_inside xs i n x (omega arith) (omega arith)
          ∙ ap (λ m. take i xs ++ (x ∷ take m (drop (suc i) xs))) (omega arith))

  take-suc :
      (d : A) (xs : List A) (n : ℕ)
      → n < length xs
      → take (suc n) xs ≡ take n xs ++ (get_or xs n d ∷ [])
  take-suc d [] n h = absurd (omega arith)
  take-suc d (x ∷ xs) zero h = refl
  take-suc d (x ∷ xs) (suc n) h = ap (λ t. x ∷ t) (take-suc d xs n (omega arith))

  -- Taking `x` out of a list and putting its last item in its place.
  swap_perm :
      (ts rs : List A) (x y : A) → Perm ((ts ++ (x ∷ rs)) ++ (y ∷ [])) (x ∷ (ts ++ (y ∷ rs)))
  swap_perm ts rs x y = Perm.trans (perm_append_singleton y (ts ++ (x ∷ rs))) (
      Perm.trans (Perm.cons y (perm_middle ts rs))
        (Perm.trans (Perm.swap x y (ts ++ rs)) (Perm.cons x (Perm.symm (perm_middle ts rs)))))

  removed_perm :
      (d : A) (xs : List A) (i n : ℕ)
      → i ≤ n
      → n < length xs
      → Perm
          (take (suc n) xs)
          (get_or xs i d ∷ take n (if i == n then xs else set xs i (get_or xs n d)))
  removed_perm d xs i n h k = elim (Bool-cases (i == n)) [
    | inl e ↦
        let i_n : i ≡ n = (==_iff i n).0 e in
        rw e (rw i_n (rw (take-suc d xs n k) (perm_append_singleton (get_or xs n d) (take n xs))))
    | inr e ↦
        let lt : i < n = ground arith in
        rw e (
          rw (take-suc d xs n k) (
            rw (take-split d xs i n lt (omega arith)) (
              rw (take-set_inside xs i n (get_or xs n d) lt (omega arith))
                (swap_perm (take i xs) _ (get_or xs i d) (get_or xs n d)))))
  ]

  removed_perm_count :
      (d : A) (xs : List A) (i n m : ℕ)
      → m ≡ suc n
      → i ≤ n
      → n < length xs
      → Perm (take m xs) (get_or xs i d ∷ take n (if i == n then xs else set xs i (get_or xs n d)))
  removed_perm_count d xs i n m e h k = rw e (removed_perm d xs i n h k)

module _ {A : Type 0} (null : A) where
  pub list_create-contents :
      (n : ℕ) → IsPtrList (list_create null n) × (contents (list_create null n) ≡ [])
  unfolding list_create
  list_create-contents n =
      (record { array = length-replicate n null; fits = omega arith; open_lock = refl }, refl)

  -- On a well-formed, unlocked list `list_append` appends, unless `size` items are there: then it
  -- returns -1 and changes nothing. The list stays well formed and unlocked.
  pub list_append-contents :
      (l : PtrList A) (x : A)
      → IsPtrList l
      → (ret : Bool) × (l' : PtrList A) × (list_append null l x ≡ some (ret, l'))
        × IsPtrList l'
        × (l.count < l.size → (ret ≡ true) × (contents l' ≡ contents l ++ (x ∷ [])))
        × (l.count ≡ l.size → (ret ≡ false) × (l' ≡ l))
  unfolding list_append
  list_append-contents l x v = elim (Bool-cases (leb l.size l.count)) [
    | inl full ↦ (
      false,
      l,
      ground (arith, v.open_lock, full),
      v,
      (λ h. absurd (ground arith)),
      (λ h. (refl, refl)),
    )
    | inr room ↦ (
      true,
      record l { count = l.count + 1; items = set l.items l.count x },
      ground (arith, v.open_lock, room),
      record {
        array = length-set l.items l.count x ∙ v.array;
        fits = ground arith;
        open_lock = v.open_lock;
      },
      (λ h. (
        refl,
        ap (λ n. take n (set l.items l.count x)) {x = l.count + 1} {y = suc l.count} (omega arith)
            ∙ take-set_end l.items l.count x (omega (arith, v.array)),
      )),
      (λ h. absurd (ground arith)),
    )
  ]

  -- the search loop from index `i` on
  find_index-find? :
      (l : PtrList A) (test : A → Bool) (left i : ℕ)
      → i + left ≡ l.count
      → l.count ≤ length l.items
      → (if ltb (find_index null l test left i) l.count
          then some (slot null l (find_index null l test left i))
          else none)
        ≡ find? test (take left (drop i l.items))
  unfolding find_index find?
  find_index-find? l test zero i e h = ground arith
  find_index-find? l test (suc left) i e h =
      let d = drop-get_or l.items i null (omega arith) in
      elim (Bool-cases (test (slot null l i))) [
        | inl y ↦ rw d (rw y (ground (arith, y)))
        | inr o ↦ rw d (
            rw o (
              find_index-find? l test left (i + 1) (omega arith) h
              ∙ ap (λ n. find? test (take left (drop n l.items))) {x = i + 1} {y = suc i}
                  (omega arith)))
      ]

  -- On a well-formed, unlocked list `list_search` returns the first item in use that passes the
  -- test, or NULL.
  pub list_search-find? :
      (l : PtrList A) (test : A → Bool)
      → IsPtrList l
      → list_search null l test ≡ some (find? test (contents l))
  unfolding list_search
  list_search-find? l test v =
      let f = find_index-find? l test l.count 0 (omega arith) (omega (arith, v.array, v.fits)) in
      ground (arith, v.open_lock, f)

  find_index-lt :
      (l : PtrList A) (test : A → Bool) (left i : ℕ)
      → i + left ≡ l.count
      → find_index null l test left i ≤ l.count
  unfolding find_index
  find_index-lt l test zero i e = omega arith
  find_index-lt l test (suc left) i e =
      ground (arith, find_index-lt l test left (i + 1) (omega arith))

  -- On a well-formed, unlocked list `list_remove` takes out the first item that is the pointer
  -- asked for; the others stay, in some order. If it is not there, nothing changes. The list stays
  -- well formed and unlocked.
  pub list_remove-contents :
      (l : PtrList A) (test : A → Bool)
      → IsPtrList l
      → (l' : PtrList A) × (list_remove null l test ≡ some l')
        × IsPtrList l'
        × (find? test (contents l) ≡ none → l' ≡ l)
        × ((x : A) → find? test (contents l) ≡ some x → Perm (contents l) (x ∷ contents l'))
  unfolding list_remove
  list_remove-contents l test v =
      let i = find_index null l test l.count 0 in
      let found =
        find_index-find? l test l.count 0 (omega arith) (omega (arith, v.array, v.fits)) in
      elim (Bool-cases (ltb i l.count)) [
        | inl e ↦
            let at_i : some (slot null l i) ≡ find? test (contents l) = rw e at found in
            let n : l.count ≡ suc (l.count - 1) = ground (arith, e) in
            let p =
              removed_perm_count null l.items i (l.count - 1) l.count n (ground (arith, e))
                (ground (arith, e, v.array, v.fits)) in
            (
              record l {
                count = l.count - 1;
                items =
                    if i == l.count - 1 then l.items else set l.items i (slot null l (l.count - 1));
              },
              ground (arith, v.open_lock, e),
              record {
                array = ground (arith, v.array, length-set l.items i (slot null l (l.count - 1)));
                fits = omega (arith, v.fits);
                open_lock = v.open_lock;
              },
              (λ q. absurd (cc (at_i ∙ q))),
              (λ x q. let w : slot null l i ≡ x = cc (at_i ∙ q) in rw (← w) p),
            )
        | inr e ↦
            let none_found : none ≡ find? test (contents l) = rw e at found in
            (
              l,
              ground (arith, v.open_lock, e),
              v,
              (λ q. refl),
              (λ x q. absurd (cc (none_found ∙ q))),
            )
      ]

  -- The pointers that `list_cleanup` frees are the items in use, each once.
  pub list_cleanup-contents :
      (l : PtrList A) → IsPtrList l → list_cleanup null l ≡ some (contents l)
  unfolding list_cleanup
  list_cleanup-contents l v = elim (Bool-cases (ltb 0 l.count)) [
    | inl e ↦ ground (arith, v.open_lock, e)
    | inr e ↦
        let z : l.count ≡ 0 = ground (arith, e) in
        ground (arith, v.open_lock, e, ap (λ n. take n l.items) z)
  ]
