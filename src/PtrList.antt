-- ===== src/PtrList.antt =====
-- src/list.c and src/list.h: a bounded array of pointers under a mutex.
-- Each operation locks the mutex first. `none` means that it blocks there for ever, because the
-- mutex is still held; `locked` says whether the operation leaves it so.
pub mod Contents
pub mod Sort
mod Tests
use myqq.Base.{
  ℕ, zero, suc, ◌+◌, ◌-◌, Bool, true, false, Option, none, some, List, [], ltb, leb, ◌==◌,
  if◌then◌else◌, get_or, set, take, replicate, overwrite,
}

pub record PtrList (A : Type 0) : Type 0 where
  pub size : ℕ
  pub count : ℕ
  pub items : List A
  pub locked : Bool

-- `pthread_mutex_lock`, then the rest of the function
abbrev pub with_lock {ℓ} : {A : Type 0} {B : Type ℓ} → PtrList A → B → Option B
with_lock l rest = if l.locked then none else some rest

infixl 5 ◌>>=◌
abbrev pub ◌>>=◌ {ℓ κ} : {A : Type ℓ} {B : Type κ} → Option A → (A → Option B) → Option B
m >>= f = elim m [ none ↦ none | some a ↦ f a ]

module _ {A : Type 0} (null : A) where
  abbrev pub slot : PtrList A → ℕ → A
  slot l i = get_or l.items i null

  unfoldable pub list_create : ℕ → PtrList A
  list_create n = record { size = n; count = 0; items = replicate n null; locked = false }

  -- `false` is the -1 of a full list.
  unfoldable pub list_append : PtrList A → A → Option (Bool × PtrList A)
  list_append l x = with_lock l (
      if leb l.size l.count
      then (false, l)
      else (true, record l { count = l.count + 1; items = set l.items l.count x }))

  -- `for( i; i<count; i++ ) if( test( items[i] ) ) break;` with `left` rounds left
  unfoldable pub find_index : PtrList A → (A → Bool) → ℕ → ℕ → ℕ
  find_index l test zero i = i
  find_index l test (suc left) i =
      let rest = find_index l test left (i + 1) in if test (slot l i) then i else rest

  -- The last item takes the place of the one removed.
  unfoldable pub list_remove : PtrList A → (A → Bool) → Option (PtrList A)
  unfolding find_index
  list_remove l same =
      let i = find_index l same l.count 0 in
      let last = l.count - 1 in
      with_lock l (
        if ltb i l.count
        then record l {
          count = last;
          items = if i == last then l.items else set l.items i (slot l last);
        }
        else l)

  unfoldable pub list_search : PtrList A → (A → Bool) → Option (Option A)
  unfolding find_index
  list_search l test =
      let i = find_index l test l.count 0 in
      with_lock l (if ltb i l.count then some (slot l i) else none)

  -- `qsort` of the C library on the items in use. An empty list returns with the mutex held.
  unfoldable pub list_sort : (List A → List A) → PtrList A → Option (PtrList A)
  list_sort qsort l = with_lock l (
      if l.count == 0
      then record l { locked = true }
      else record l { items = overwrite l.items 0 (qsort (take l.count l.items)) })

  -- the pointers that are freed, in order
  unfoldable pub list_cleanup : PtrList A → Option (List A)
  list_cleanup l = with_lock l (if ltb 0 l.count then take l.count l.items else [])
