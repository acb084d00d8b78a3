-- ===== src/Roster/Find.antt =====
-- Looking up, adding and removing records by number: buddies, groups and members.
use myqq.Base.{
  ℕ, ◌+◌, ◌≤◌, ◌<◌, ◌≡◌, refl, sym, ap, ◌∙◌, ◌≢◌, inl, inr, Bool, true, false, Option, none, some,
  List, [], ◌∷◌, ◌++◌, arith, ◌==◌, if◌then◌else◌, Bool-cases, Option-cases,
}
use mathlib.Core.List.{Perm, foldr}
use mathlib.Core.List.Perm
use native.Mathlib.Nat.{ℕ_set}
use native.Mathlib.Decide.{dec_lt}
use myqq.PtrList.{PtrList}
use myqq.PtrList.Contents.{
  IsPtrList, contents, find?, list_search-find?, list_append-contents, list_remove-contents,
}
use myqq.Roster.{
  Buddy, new_buddy, null_buddy, find_or_add, find_and_remove, buddy_get, buddy_remove,
}

module _ {A : Type 0} (key : A → ℕ) where
  -- how many records have a number
  unfoldable pub count_of : ℕ → List A → ℕ
  count_of n [] = 0
  count_of n (x ∷ xs) = (if key x == n then 1 else 0) + count_of n xs

  -- no two records of a list have the same number
  abbrev pub IsUnique : PtrList A → Type 0
  IsUnique l = (n : ℕ) → count_of n (contents l) ≤ 1

  count_of-append : (n : ℕ) (xs ys : List A) → count_of n (xs ++ ys) ≡ count_of n xs + count_of n ys
  unfolding count_of
  count_of-append n [] ys = omega arith
  count_of-append n (x ∷ xs) ys = omega (arith, count_of-append n xs ys)

  abbrev tally : ℕ → A → ℕ → ℕ
  tally n x c = (if key x == n then 1 else 0) + c

  count_of-foldr : (n : ℕ) (xs : List A) → count_of n xs ≡ foldr (tally n) 0 xs
  unfolding count_of
  count_of-foldr n [] = refl
  count_of-foldr n (x ∷ xs) = ap (tally n x) (count_of-foldr n xs)

  count_of-Perm : (n : ℕ) (xs ys : List A) → Perm xs ys → count_of n xs ≡ count_of n ys
  count_of-Perm n xs ys p =
      count_of-foldr n xs
      ∙ (Perm.foldr-eq ℕ_set (tally n) (λ a b x. omega arith) p 0 ∙ sym (count_of-foldr n ys))

  find?-none : (n : ℕ) (xs : List A) → find? (λ x. key x == n) xs ≡ none → count_of n xs ≡ 0
  unfolding find? count_of
  find?-none n [] e = refl
  find?-none n (x ∷ xs) e = ground (arith, find?-none n xs)

  find?-zero : (n : ℕ) (xs : List A) → count_of n xs ≡ 0 → find? (λ x. key x == n) xs ≡ none
  unfolding find? count_of
  find?-zero n [] e = refl
  find?-zero n (x ∷ xs) e = ground (arith, find?-zero n xs)

  find?-append :
      (n : ℕ) (xs : List A) (y : A)
      → find? (λ x. key x == n) xs ≡ none
      → key y ≡ n
      → find? (λ x. key x == n) (xs ++ (y ∷ [])) ≡ some y
  unfolding find?
  find?-append n [] y e k = ground arith
  find?-append n (x ∷ xs) y e k = ground (arith, find?-append n xs y)

  find?-key : (n : ℕ) (xs : List A) (x : A) → find? (λ y. key y == n) xs ≡ some x → key x ≡ n
  unfolding find?
  find?-key n [] x e = absurd (cc e)
  find?-key n (y ∷ xs) x e = elim (Bool-cases (key y == n)) [
    | inl t ↦
        let k : key y ≡ n = ground arith in
        let same : some y ≡ some x = sym (rw t refl) ∙ e in ap key (sym (cc same)) ∙ k
    | inr f ↦ find?-key n xs x (sym (rw f refl) ∙ e)
  ]

module _ {A : Type 0} (null : A) (key : A → ℕ) (new : A) (l : PtrList A) (v : IsPtrList l) (n : ℕ)
    (named : key new ≡ n) (real : n ≢ 0) where
  abbrev test : A → Bool
  test x = key x == n

  -- what `find_or_add` comes to when it may add
  pub record Added (r : Option A) (l' : PtrList A) : Type 0 where
    pub is_list : IsPtrList l'
    pub unique : IsUnique key l → IsUnique key l'
    pub finds : find? test (contents l') ≡ r
    pub keeps : (x : A) → find? test (contents l) ≡ some x → (r ≡ some x) × (l' ≡ l)
    pub adds :
        find? test (contents l) ≡ none
        → l.count < l.size
        → (r ≡ some new) × (contents l' ≡ contents l ++ (new ∷ []))
    pub full : find? test (contents l) ≡ none → l.count ≡ l.size → (r ≡ none) × (l' ≡ l)

  found-Added : (x : A) → find? test (contents l) ≡ some x → Added (some x) l
  found-Added x e = record {
    is_list = v;
    unique = λ u. u;
    finds = e;
    keeps = λ y f. (sym e ∙ f, refl);
    adds = λ f _. absurd (cc (e, f));
    full = λ f _. absurd (cc (e, f));
  }

  added-IsUnique :
      (l' : PtrList A)
      → contents l' ≡ contents l ++ (new ∷ [])
      → find? test (contents l) ≡ none
      → IsUnique key l
      → IsUnique key l'
  unfolding count_of
  added-IsUnique l' e f u m =
      let z = find?-none key n (contents l) f in
      let a = count_of-append key m (contents l) (new ∷ []) in
      rw e (elim (Bool-cases (key new == m)) [
        | inl t ↦
            let same : n ≡ m = sym named ∙ ground arith in
            ground (arith, a, t, sym (ap (λ k. count_of key k (contents l)) same) ∙ z)
        | inr t ↦ ground (arith, a, u m)
      ])

  pub find_or_add-Added :
      (r : Option A) × (l' : PtrList A) × (find_or_add null key new l n true ≡ some (r, l'))
      × Added r l'
  unfolding find_or_add
  find_or_add-Added =
      let zero_no : (n == 0) ≡ false = ground arith in
      let s = list_search-find? null l test v in
      elim (Option-cases (find? test (contents l))) [
        | inr (x, e) ↦ (some x, l, rw (find_or_add, zero_no, s, e) refl, found-Added x e)
        | inl e ↦
            let (ret, l', q, v', room, full) = list_append-contents null l new v in
            elim (dec_lt l.count l.size) [
              | yes h ↦
                  let (t, c) = room h in
                  (
                    some new,
                    l',
                    rw (find_or_add, zero_no, s, e, q, t) refl,
                    record {
                      is_list = v';
                      unique = added-IsUnique l' c e;
                      finds = ap (find? test) c ∙ find?-append key n (contents l) new e named;
                      keeps = λ x f. absurd (cc (e, f));
                      adds = λ _ _. (refl, c);
                      full = λ _ k. absurd (omega arith);
                    },
                  )
              | no h ↦
                  let (t, c) = full (omega (arith, v.fits)) in
                  (
                    none,
                    l,
                    rw (find_or_add, zero_no, s, e, q, t, c) refl,
                    record {
                      is_list = v;
                      unique = λ u. u;
                      finds = e;
                      keeps = λ x f. absurd (cc (e, f));
                      adds = λ _ k. absurd (h k);
                      full = λ _ _. (refl, refl);
                    },
                  )
            ]
      ]

module _ {A : Type 0} (null : A) (key : A → ℕ) (l : PtrList A) (v : IsPtrList l)
    (u : IsUnique key l) (n : ℕ) where
  -- Where numbers are unique, removing a number leaves no record with it, keeps the others and
  -- keeps numbers unique.
  pub find_and_remove-gone :
      (l' : PtrList A) × (find_and_remove null key l n ≡ some l')
      × IsPtrList l'
      × IsUnique key l'
      × (find? (λ x. key x == n) (contents l') ≡ none)
      × ((m : ℕ) → m ≢ n → count_of key m (contents l') ≡ count_of key m (contents l))
  unfolding find_and_remove count_of
  find_and_remove-gone =
      let s = list_search-find? null l (λ x. key x == n) v in
      let (l', q, v', same, perm) = list_remove-contents null l (λ x. key x == n) v in
      elim (Option-cases (find? (λ x. key x == n) (contents l))) [
        | inl e ↦ (l, rw (find_and_remove, s, e) refl, v, u, e, (λ m h. refl))
        | inr (x, e) ↦
            let c : (m : ℕ)
                → count_of key m (contents l)
                  ≡ (if key x == m then 1 else 0) + count_of key m (contents l') =
              λ m. count_of-Perm key m (contents l) (x ∷ contents l') (perm x e) in
            let k = find?-key key n (contents l) x e in
            (
              l',
              rw (find_and_remove, s, e) q,
              v',
              (λ m. omega (arith, c m, u m)),
              find?-zero key n (contents l') (ground (arith, c n, u n, k)),
              (λ m h. ground (arith, c m, k)),
            )
      ]

module _ (print : ℕ → List ℕ) (l : PtrList Buddy) (v : IsPtrList l) (n : ℕ) (real : n ≢ 0) where
  -- On a well-formed, unlocked list `buddy_get` with `create`, for a number that is not 0, returns
  -- the buddy with that number if there is one and changes nothing; else it appends a new one and
  -- returns it, unless the list is full: then it returns NULL and changes nothing. A later search
  -- finds exactly what it returned, and no number is there twice if none was.
  pub buddy_get-Added :
      (r : Option Buddy) × (l' : PtrList Buddy) × (buddy_get print l n true ≡ some (r, l'))
      × Added null_buddy (λ b. b.number) (new_buddy print n) l v n refl real r l'
  unfolding buddy_get
  buddy_get-Added = find_or_add-Added null_buddy (λ b. b.number) (new_buddy print n) l v n refl real

-- On a well-formed, unlocked list in which no number is there twice, a buddy that is removed is not
-- found again, every other number is there as often as before, and no number is there twice.
pub buddy_remove-gone :
    (l : PtrList Buddy)
    → IsPtrList l
    → IsUnique (λ b. b.number) l
    → (n : ℕ)
    → (l' : PtrList Buddy) × (buddy_remove l n ≡ some l')
      × IsPtrList l'
      × IsUnique (λ b. b.number) l'
      × (find? (λ b. b.number == n) (contents l') ≡ none)
      × ((m : ℕ)
          → m ≢ n
          → count_of (λ b. b.number) m (contents l') ≡ count_of (λ b. b.number) m (contents l))
unfolding buddy_remove
buddy_remove-gone l v u n = find_and_remove-gone null_buddy (λ b. b.number) l v u n
