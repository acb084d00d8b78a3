-- ===== src/PtrList/Sort.antt =====
-- `list_sort` of src/list.c, over a `qsort` that permutes its input.
use myqq.Base.{
  ◌≡◌, refl, ◌∙◌, ◌≢◌, Bool, true, none, some, List, arith, length, take, overwrite,
  length-overwrite, take-overwrite_end,
}
use mathlib.Core.List.{Perm}
use myqq.PtrList.{PtrList, list_append, list_remove, list_search, list_sort}
use myqq.PtrList.Contents.{IsPtrList, contents, length-contents}

module _ {A : Type 0} (null : A) (qsort : List A → List A)
    (permutes : (xs : List A) → Perm (qsort xs) xs)
    (same_length : (xs : List A) → length (qsort xs) ≡ length xs) where
  -- If `qsort` permutes: a well-formed, unlocked list with items is sorted in place. What is in use
  -- afterwards is what `qsort` returns for what was in use before, a permutation of it, and the
  -- list is well formed and unlocked.
  pub list_sort-contents :
      (l : PtrList A)
      → IsPtrList l
      → l.count ≢ 0
      → (l' : PtrList A) × (list_sort null qsort l ≡ some l')
        × IsPtrList l'
        × (contents l' ≡ qsort (contents l))
        × Perm (contents l') (contents l)
  unfolding list_sort
  list_sort-contents l v ne =
      let s = qsort (contents l) in
      let k : length s ≡ l.count = same_length (contents l) ∙ length-contents l v in
      let c : take l.count (overwrite l.items 0 s) ≡ s =
        take-overwrite_end l.items 0 s l.count (omega (arith, k))
          (omega (arith, v.array, v.fits)) in
      (
        record l { items = overwrite l.items 0 s },
        ground (arith, v.open_lock),
        record {
          array = length-overwrite l.items 0 s ∙ v.array;
          fits = v.fits;
          open_lock = v.open_lock;
        },
        c,
        rw c (permutes (contents l)),
      )

-- Sorting a well-formed, unlocked list without items returns with the mutex held, so that a later
-- append, search, removal or sort blocks for ever.
pub list_sort-empty :
    {A : Type 0} (null : A) (qsort : List A → List A) (l : PtrList A) (x : A) (test : A → Bool)
    → IsPtrList l
    → l.count ≡ 0
    → (l' : PtrList A) × (list_sort null qsort l ≡ some l')
      × (list_append null l' x ≡ none)
      × (list_search null l' test ≡ none)
      × (list_remove null l' test ≡ none)
      × (list_sort null qsort l' ≡ none)
unfolding list_sort list_append list_search list_remove
list_sort-empty null qsort l x test v e =
    (record l { locked = true }, ground (arith, v.open_lock, e), refl, refl, refl, refl)
