-- ===== src/Loop.antt =====
-- src/loop.c and src/loop.h: a circular queue of pointers on an array of `size` slots.
-- One slot stays free, so a full loop drops an item to make room. Each operation holds the
-- loop's mutex from its first line to its last, so it is one step here.
pub mod Window
pub mod Refine
pub mod Search
mod Tests
use myqq.Base.{
  ℕ, zero, suc, ◌+◌, ◌-◌, ◌%◌, Bool, Option, none, some, List, [], ◌∷◌, ◌==◌, if◌then◌else◌, get_or,
  set, replicate,
}

-- A pointer is an item that a Boolean test can compare; `items` holds `size` slots.
pub record Loop (A : Type 0) : Type 0 where
  pub size : ℕ
  pub head : ℕ
  pub tail : ℕ
  pub items : List A

-- the next index round the loop, and the one before
abbrev pub after : ℕ → ℕ → ℕ
after size i = (i + 1) % size

abbrev pub before : ℕ → ℕ → ℕ
before size i = (size + i - 1) % size

module _ {A : Type 0} (null : A) where
  -- `null` fills the slots that `malloc` leaves undefined.
  unfoldable pub loop_create : ℕ → Loop A
  loop_create n = record { size = n; head = 0; tail = 0; items = replicate n null }

  abbrev pub item : Loop A → ℕ → A
  item l i = get_or l.items i null

  unfoldable pub loop_is_empty : Loop A → Bool
  loop_is_empty l = l.head == l.tail

  -- The result has the item that `del_func` is called on, if the loop is full.
  unfoldable pub loop_push_to_tail : Loop A → A → Option A × Loop A
  loop_push_to_tail l x =
      let full = after l.size l.tail == l.head in
      let head = if full then after l.size l.head else l.head in
      (
        (if full then some (item l l.head) else none),
        record l { head = head; items = set l.items l.tail x; tail = after l.size l.tail },
      )

  unfoldable pub loop_push_to_head : Loop A → A → Option A × Loop A
  loop_push_to_head l x =
      let full = before l.size l.head == l.tail in
      let tail = if full then before l.size l.tail else l.tail in
      let head = before l.size l.head in
      (
        (if full then some (item l tail) else none),
        record l { tail = tail; head = head; items = set l.items head x },
      )

  unfoldable pub loop_pop_from_head : Loop A → Option A × Loop A
  loop_pop_from_head l =
      if l.tail == l.head
      then (none, l)
      else (some (item l l.head), record l { head = after l.size l.head })

  unfoldable pub loop_pop_from_tail : Loop A → Option A × Loop A
  loop_pop_from_tail l =
      if l.tail == l.head
      then (none, l)
      else (some (item l (before l.size l.tail)), record l { tail = before l.size l.tail })

  -- `for( i; i!=tail; i=(i+1)%size )` with fuel: the index where `test` stops it, or `tail`.
  unfoldable pub find_from : Loop A → (A → Bool) → ℕ → ℕ → ℕ
  find_from l test zero i = i
  find_from l test (suc fuel) i =
      let rest = find_from l test fuel (after l.size i) in
      if i == l.tail then i else (if test (item l i) then i else rest)

  -- the items from `i` on move one slot towards the head, up to the new tail
  unfoldable pub shift_from : ℕ → ℕ → ℕ → ℕ → List A → List A
  shift_from size tail zero i items = items
  shift_from size tail (suc fuel) i items =
      let rest =
        shift_from size tail fuel (after size i) (set items i (get_or items (after size i) null)) in
      if i == tail then items else rest

  -- A round of the loop is shorter than `size`.
  unfoldable pub loop_search : Loop A → (A → Bool) → Option A
  unfolding find_from
  loop_search l test =
      let i = find_from l test l.size l.head in if i == l.tail then none else some (item l i)

  unfoldable pub loop_remove : Loop A → (A → Bool) → Loop A
  unfolding find_from shift_from
  loop_remove l same =
      let i = find_from l same l.size l.head in
      let tail = before l.size l.tail in
      if i == l.tail
      then l
      else record l { tail = tail; items = shift_from l.size tail l.size i l.items }

  -- the calls of `del_func`, in order; `loop_cleanup` frees the array behind them
  unfoldable pub drain : Loop A → ℕ → ℕ → List A
  drain l zero i = []
  drain l (suc fuel) i =
      let rest = item l i ∷ drain l fuel (after l.size i) in if i == l.tail then [] else rest

  unfoldable pub loop_cleanup : Loop A → List A
  unfolding drain
  loop_cleanup l = drain l l.size l.head
