-- ===== src/PtrList/Tests.antt =====
-- Examples for the lists of src/list.c.
use myqq.Base.{
  ℕ, ◌<◌, ◌≡◌, refl, inl, inr, Bool, true, false, none, some, List, [], ◌∷◌, arith, leb, ◌==◌,
  if◌then◌else◌, Bool-cases, length,
}
use mathlib.Core.List.{Perm}
use mathlib.Core.List.Perm
use myqq.PtrList.{PtrList, list_create, list_append, list_remove, list_search, list_sort}
use myqq.PtrList.Contents.{
  IsPtrList, contents, find?, list_create-contents, list_append-contents, list_remove-contents,
}
use myqq.PtrList.Sort.{list_sort-contents, list_sort-empty}

abbrev two : PtrList ℕ
two = record { size = 3; count = 2; items = 6 ∷ 5 ∷ 0 ∷ []; locked = false }

two-IsPtrList : IsPtrList two
two-IsPtrList = record { array = refl; fits = omega arith; open_lock = refl }

abbrev is_six : ℕ → Bool
is_six x = x == 6

list_append-contents_example :
    (ret : Bool) × (l : PtrList ℕ) × (list_append 0 two 7 ≡ some (ret, l))
    × IsPtrList l
    × (two.count < two.size → (ret ≡ true) × (contents l ≡ 6 ∷ 5 ∷ 7 ∷ []))
    × (two.count ≡ two.size → (ret ≡ false) × (l ≡ two))
list_append-contents_example = list_append-contents 0 two 7 two-IsPtrList

list_remove-contents_example :
    (l : PtrList ℕ) × (list_remove 0 two is_six ≡ some l)
    × IsPtrList l
    × (find? is_six (contents two) ≡ none → l ≡ two)
    × ((x : ℕ) → find? is_six (contents two) ≡ some x → Perm (contents two) (x ∷ contents l))
list_remove-contents_example = list_remove-contents 0 two is_six two-IsPtrList

-- a stand-in for `qsort` that sorts two items
abbrev sort_two : List ℕ → List ℕ
sort_two [] = []
sort_two (x ∷ []) = x ∷ []
sort_two (x ∷ (y ∷ xs)) = if leb x y then x ∷ (y ∷ xs) else y ∷ (x ∷ xs)

sort_two-Perm : (xs : List ℕ) → Perm (sort_two xs) xs
sort_two-Perm [] = Perm.refl []
sort_two-Perm (x ∷ []) = Perm.refl (x ∷ [])
sort_two-Perm (x ∷ (y ∷ xs)) = elim (Bool-cases (leb x y)) [
  | inl e ↦ rw e (Perm.refl (x ∷ (y ∷ xs)))
  | inr e ↦ rw e (Perm.swap x y xs)
]

length-sort_two : (xs : List ℕ) → length (sort_two xs) ≡ length xs
length-sort_two [] = refl
length-sort_two (x ∷ []) = refl
length-sort_two (x ∷ (y ∷ xs)) = ground arith

list_sort-contents_example :
    (l : PtrList ℕ) × (list_sort 0 sort_two two ≡ some l)
    × IsPtrList l
    × (contents l ≡ 5 ∷ 6 ∷ [])
    × Perm (contents l) (6 ∷ 5 ∷ [])
list_sort-contents_example =
    list_sort-contents 0 sort_two sort_two-Perm length-sort_two two two-IsPtrList (omega arith)

list_sort-empty_example :
    (l : PtrList ℕ) × (list_sort 0 sort_two (list_create 0 3) ≡ some l)
    × (list_append 0 l 7 ≡ none)
    × (list_search 0 l is_six ≡ none)
    × (list_remove 0 l is_six ≡ none)
    × (list_sort 0 sort_two l ≡ none)
unfolding list_create
list_sort-empty_example =
    list_sort-empty 0 sort_two (list_create 0 3) 7 is_six (list_create-contents 0 3).0 refl
