-- ===== src/Loop/Search.antt =====
-- `loop_search` and `loop_remove` of src/loop.c as searches in the list of the items in order.
use myqq.Base.{
  ℕ, zero, suc, ◌≤◌, ◌<◌, ◌≡◌, refl, sym, ap, ap₂, ◌∙◌, ◌≢◌, inl, inr, Bool, true, false, Option,
  none, some, List, [], ◌∷◌, arith, ◌==◌, if◌then◌else◌, Bool-cases, length, get_or, set,
  length-set, get_or-set_self, get_or-set_ne,
}
use myqq.Loop.{
  drain, loop_cleanup, Loop, after, before, item, find_from, shift_from, loop_search, loop_remove,
}
use myqq.Loop.Window.{IsLoop, count, window, contents, after_lem, before_lem, gap, window-set_out}

-- the first item that passes a test, and the list without it
unfoldable pub find? : {A : Type 0} → (A → Bool) → List A → Option A
find? test [] = none
find? test (x ∷ xs) = if test x then some x else find? test xs

unfoldable pub remove_first : {A : Type 0} → (A → Bool) → List A → List A
remove_first test [] = []
remove_first test (x ∷ xs) = if test x then xs else x ∷ remove_first test xs

remove_first-none :
    {A : Type 0} (test : A → Bool) (xs : List A) → find? test xs ≡ none → remove_first test xs ≡ xs
unfolding find? remove_first
remove_first-none test [] e = refl
remove_first-none test (x ∷ xs) e = ground (arith, remove_first-none test xs)

gap-after :
    (size i j : ℕ) → i < size → j < size → i ≢ j → suc (gap size (after size i) j) ≡ gap size i j
gap-after size i j hi hj ne = ground (arith, after_lem size i hi)

after-lt : (size i : ℕ) → i < size → after size i < size
after-lt size i h = ground (arith, after_lem size i h)

module _ {A : Type 0} (null : A) (l : Loop A) (v : IsLoop l) (test : A → Bool) where
  -- What the search loop leaves behind when it stops.
  find_from-find? :
      (fuel i n : ℕ)
      → i < l.size
      → gap l.size i l.tail ≡ n
      → n ≤ fuel
      → (if find_from null l test fuel i == l.tail
          then none
          else some (item null l (find_from null l test fuel i)))
        ≡ find? test (window null l.size l.items i n)
  unfolding find_from find?
  find_from-find? zero i zero hi e h = ground arith
  find_from-find? zero i (suc n) hi e h = absurd (omega arith)
  find_from-find? (suc fuel) i zero hi e h = ground arith
  find_from-find? (suc fuel) i (suc n) hi e h =
      let ne : (i == l.tail) ≡ false = ground arith in
      elim (Bool-cases (test (item null l i))) [
        | inl y ↦ rw ne (rw y (rw ne))
        | inr o ↦ rw ne (
            rw o (
              find_from-find? fuel (after l.size i) n (after-lt l.size i hi)
                (ground (arith, gap-after l.size i l.tail hi v.tail_in)) (omega arith)))
      ]

  -- The index found is in the loop, between `i` and the tail.
  find_from-range :
      (fuel i : ℕ)
      → i < l.size
      → (find_from null l test fuel i < l.size)
        × (gap l.size (find_from null l test fuel i) l.tail ≤ gap l.size i l.tail)
  unfolding find_from
  find_from-range zero i hi = omega arith
  find_from-range (suc fuel) i hi =
      let r = find_from-range fuel (after l.size i) (after-lt l.size i hi) in
      ground (arith, r, gap-after l.size i l.tail hi v.tail_in)

  -- On a well-formed loop `loop_search` returns the first item, from the head on, that passes the
  -- test, or NULL.
  pub loop_search-find? : loop_search null l test ≡ find? test (contents null l)
  unfolding loop_search
  loop_search-find? = find_from-find? l.size l.head (count l) v.head_in refl (ground arith)

module _ {A : Type 0} (null : A) (size tail : ℕ) (room : 1 < size) (tail_in : tail < size) where
  length-shift_from :
      (fuel i : ℕ) (items : List A) → length (shift_from null size tail fuel i items) ≡ length items
  unfolding shift_from
  length-shift_from zero i items = refl
  length-shift_from (suc fuel) i items = ground (
    arith,
    length-shift_from fuel (after size i) (set items i (get_or items (after size i) null)),
    length-set items i (get_or items (after size i) null),
  )

  -- Moving the items between `i` and `tail` leaves the other slots alone.
  shift_from-out :
      (fuel i j : ℕ) (items : List A)
      → i < size
      → j < size
      → gap size i tail ≤ gap size i j
      → get_or (shift_from null size tail fuel i items) j null ≡ get_or items j null
  unfolding shift_from
  shift_from-out zero i j items hi hj h = refl
  shift_from-out (suc fuel) i j items hi hj h = elim (Bool-cases (i == tail)) [
    | inl e ↦ rw e
    | inr e ↦
        let ne : i ≢ tail = ground arith in
        let ne' : i ≢ j = ground arith in
        rw e (
          shift_from-out fuel (after size i) j (set items i (get_or items (after size i) null))
            (after-lt size i hi) hj
            (omega (arith, gap-after size i tail hi tail_in ne, gap-after size i j hi hj ne'))
          ∙ get_or-set_ne items i j (get_or items (after size i) null) null ne')
  ]

  shift_from-suc :
      (fuel i : ℕ) (items : List A)
      → i ≢ tail
      → shift_from null size tail (suc fuel) i items
        ≡ shift_from null size tail fuel
            (after size i)
            (set items i (get_or items (after size i) null))
  unfolding shift_from
  shift_from-suc fuel i items ne = ground arith

  shift_from-window :
      (fuel i m : ℕ) (items : List A)
      → i < size
      → length items ≡ size
      → gap size i tail ≡ m
      → m ≤ fuel
      → window null size (shift_from null size tail fuel i items) i m
        ≡ window null size items (after size i) m
  shift_from-window fuel i zero items hi len e h = refl
  shift_from-window zero i (suc m) items hi len e h = absurd (omega arith)
  shift_from-window (suc fuel) i (suc m) items hi len e h =
      let ne : i ≢ tail = ground arith in
      let x = get_or items (after size i) null in
      let j = after size i in
      let hj = after-lt size i hi in
      let g = gap-after size i tail hi tail_in ne in
      ap (λ t. window null size t i (suc m)) (shift_from-suc fuel i items ne)
      ∙ ap₂ ◌∷◌
          (shift_from-out fuel j i (set items i x) hj hi (ground (arith, after_lem size i hi))
            ∙ get_or-set_self items i x null (omega (arith, len)))
          (shift_from-window fuel j m (set items i x) hj (length-set items i x ∙ len)
              (omega (arith, g)) (omega arith)
            ∙ window-set_out null size items (after size j) m i x (after-lt size j hj) hi
                (ground (arith, after_lem size i hi, after_lem size j hj)))

module _ {A : Type 0} (null : A) (l : Loop A) (v : IsLoop l) (test : A → Bool) where
  abbrev last_slot : ℕ
  last_slot = before l.size l.tail

  abbrev moved : ℕ → List A
  moved i = shift_from null l.size last_slot l.size i l.items

  last-lt : last_slot < l.size
  last-lt = ground (arith, before_lem l.size l.tail v.tail_in)

  find_from-tail : (fuel : ℕ) → find_from null l test fuel l.tail ≡ l.tail
  unfolding find_from
  find_from-tail zero = refl
  find_from-tail (suc fuel) = ground arith

  find_from-here :
      (fuel i : ℕ)
      → i ≢ l.tail
      → test (item null l i) ≡ true
      → find_from null l test (suc fuel) i ≡ i
  unfolding find_from
  find_from-here fuel i ne y = ground (arith, y)

  find_from-next :
      (fuel i : ℕ)
      → i ≢ l.tail
      → test (item null l i) ≡ false
      → find_from null l test (suc fuel) i ≡ find_from null l test fuel (after l.size i)
  unfolding find_from
  find_from-next fuel i ne o = ground (arith, o)

  moved-here :
      (i n : ℕ)
      → i < l.size
      → gap l.size i l.tail ≡ suc n
      → window null l.size (moved i) i n ≡ window null l.size l.items (after l.size i) n
  moved-here i n hi e =
      shift_from-window null l.size last_slot v.room last-lt l.size i n l.items hi v.array
        (ground (arith, before_lem l.size l.tail v.tail_in)) (ground arith)

  -- the items without the one at the index that the search found
  find_from-moved :
      (fuel i n : ℕ)
      → i < l.size
      → gap l.size i l.tail ≡ suc n
      → suc n ≤ fuel
      → find_from null l test fuel i ≢ l.tail
      → window null l.size (moved (find_from null l test fuel i)) i n
        ≡ remove_first test (window null l.size l.items i (suc n))
  find_from-moved zero i n hi e h ne = absurd (omega arith)
  find_from-moved (suc fuel) i zero hi e h ne =
      let off : i ≢ l.tail = ground arith in
      elim (Bool-cases (test (item null l i))) [
        | inl y ↦ unfold remove_first in ground (arith, y)
        | inr o ↦
            let at_end : after l.size i ≡ l.tail = ground (arith, after_lem l.size i hi) in
            absurd (
              ne (
                find_from-next fuel i off o
                ∙ ap (find_from null l test fuel) at_end
                ∙ find_from-tail fuel))
      ]
  find_from-moved (suc fuel) i (suc n) hi e h ne =
      let off : i ≢ l.tail = ground arith in
      let j = after l.size i in
      let hj = after-lt l.size i hi in
      elim (Bool-cases (test (item null l i))) [
        | inl y ↦
            ap (λ k. window null l.size (moved k) i (suc n)) (find_from-here fuel i off y)
            ∙ (moved-here i (suc n) hi e ∙ unfold remove_first in ground (arith, y))
        | inr o ↦
            let f = find_from null l test fuel j in
            let found : f ≢ l.tail = λ q. ne (find_from-next fuel i off o ∙ q) in
            let r = find_from-range null l v test fuel j hj in
            let g = gap-after l.size i l.tail hi v.tail_in off in
            let ih = find_from-moved fuel j n hj (omega (arith, g)) (omega arith) found in
            let same : get_or (moved f) i null ≡ item null l i =
              shift_from-out null l.size last_slot v.room last-lt l.size f i l.items r.0 hi
                (ground (arith, r.1, g, before_lem l.size l.tail v.tail_in)) in
            ap (λ k. window null l.size (moved k) i (suc n)) (find_from-next fuel i off o)
            ∙ (ap₂ ◌∷◌ same ih ∙ unfold remove_first in ground (arith, o))
      ]

  -- On a well-formed loop `loop_remove` takes out the first item, from the head on, that is the
  -- pointer asked for, keeps the order of the others, and removes nothing if it is not there. The
  -- loop stays well formed.
  pub loop_remove-remove_first :
      IsLoop (loop_remove null l test)
      × (contents null (loop_remove null l test) ≡ remove_first test (contents null l))
  unfolding loop_remove
  loop_remove-remove_first =
      let f = find_from null l test l.size l.head in
      elim (Bool-cases (f == l.tail)) [
        | inl e ↦
            let none_found : find? test (contents null l) ≡ none =
              sym (
                find_from-find? null l v test l.size l.head (count l) v.head_in refl (ground arith))
              ∙ ap (λ b. if b then none else some (item null l f)) e in
            rw e (v, sym (remove_first-none test (contents null l) none_found))
        | inr e ↦
            let l' = record l { tail = last_slot; items = moved f } in
            let apart : l.head ≢ l.tail = λ q.
              absurd
                (ground (arith, e, ap (find_from null l test l.size) q ∙ find_from-tail l.size)) in
            let n : count l ≡ suc (count l') = ground (arith, before_lem l.size l.tail v.tail_in) in
            rw e (
              record {
                room = v.room;
                array =
                    length-shift_from null l.size last_slot v.room last-lt l.size f l.items
                    ∙ v.array;
                head_in = v.head_in;
                tail_in = last-lt;
              },
              find_from-moved l.size l.head (count l') v.head_in n (ground arith)
                    (ground (arith, e))
                  ∙ ap (λ k. remove_first test (window null l.size l.items l.head k)) (sym n),
            )
      ]

module _ {A : Type 0} (null : A) (l : Loop A) (v : IsLoop l) where
  drain-window :
      (fuel i n : ℕ)
      → i < l.size
      → gap l.size i l.tail ≡ n
      → n ≤ fuel
      → drain null l fuel i ≡ window null l.size l.items i n
  unfolding drain
  drain-window zero i zero hi e h = refl
  drain-window zero i (suc n) hi e h = absurd (omega arith)
  drain-window (suc fuel) i zero hi e h = ground arith
  drain-window (suc fuel) i (suc n) hi e h = ground (
    arith,
    gap-after l.size i l.tail hi v.tail_in,
    drain-window fuel (after l.size i) n (after-lt l.size i hi),
  )

  -- On a well-formed loop `loop_cleanup` calls `del_func` once for each item, from the head on.
  pub loop_cleanup-contents : loop_cleanup null l ≡ contents null l
  unfolding loop_cleanup
  loop_cleanup-contents = drain-window l.size l.head (count l) v.head_in refl (ground arith)
