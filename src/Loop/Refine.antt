-- ===== src/Loop/Refine.antt =====
-- The operations of src/loop.c on the items in order: a double-ended queue of at most `size - 1`
-- items that drops from the other end when it is full.
use myqq.Base.{
  ℕ, suc, ◌-◌, ◌<◌, ◌≡◌, refl, sym, ap, ap₂, ◌∙◌, ◌≢◌, ◌↔◌, inl, inr, true, not, Option, none, some,
  List, [], ◌∷◌, ◌++◌, arith, ltb, ◌==◌, Bool-cases, length, set, drop, length-set, get_or-set_self,
  length-replicate,
}
use myqq.Loop.{
  Loop, item, after, before, loop_create, loop_is_empty, loop_push_to_tail, loop_push_to_head,
  loop_pop_from_head, loop_pop_from_tail,
}
use myqq.Loop.Window.{
  IsLoop, count, window, contents, length-window, after_lem, before_lem, window-set_out, window-suc,
}

-- the last item of a list, and what stands before it
unfoldable pub last? : {A : Type 0} → List A → Option A
last? [] = none
last? (x ∷ xs) = elim (last? xs) [ none ↦ some x | some y ↦ some y ]

unfoldable pub init : {A : Type 0} → List A → List A
init [] = []
init (x ∷ []) = []
init (x ∷ (y ∷ ys)) = x ∷ init (y ∷ ys)

unfoldable pub first? : {A : Type 0} → List A → Option A
first? [] = none
first? (x ∷ xs) = some x

pub last?-append : {A : Type 0} (xs : List A) (x : A) → last? (xs ++ (x ∷ [])) ≡ some x
unfolding last?
last?-append [] x = refl
last?-append (y ∷ ys) x = rw (last?-append ys x, last?)

pub init-append : {A : Type 0} (xs : List A) (x : A) → init (xs ++ (x ∷ [])) ≡ xs
unfolding init
init-append [] x = refl
init-append (y ∷ []) x = refl
init-append (y ∷ (z ∷ zs)) x = ap (λ t. y ∷ t) (init-append (z ∷ zs) x)

module _ {A : Type 0} (null : A) where
  pub loop_create-IsLoop :
      (n : ℕ) → 1 < n → IsLoop (loop_create null n) × (contents null (loop_create null n) ≡ [])
  unfolding loop_create
  loop_create-IsLoop n h = (
    record {
      room = h;
      array = length-replicate n null;
      head_in = omega arith;
      tail_in = omega arith;
    },
    refl,
  )

  pub loop_is_empty_lem :
      (l : Loop A) → IsLoop l → (loop_is_empty null l ≡ true) ↔ (contents null l ≡ [])
  unfolding loop_is_empty
  loop_is_empty_lem l v =
      let k = length-window null l.size l.items l.head (count l) in
      (
        (λ e. ap (window null l.size l.items l.head) {y = 0} (ground arith)),
        (λ e. ground (arith, k, ap length e)),
      )

  pop_head-contents :
      (l : Loop A)
      → IsLoop l
      → l.tail ≢ l.head
      → let l' = record l { head = after l.size l.head } in
        IsLoop l'
        × (count l ≡ suc (count l'))
        × (contents null l ≡ item null l l.head ∷ contents null l')
  pop_head-contents l v ne =
      let l' = record l { head = after l.size l.head } in
      let n : count l ≡ suc (count l') = ground (arith, after_lem l.size l.head v.head_in) in
      (
        record {
          room = v.room;
          array = v.array;
          head_in = ground (arith, after_lem l.size l.head v.head_in);
          tail_in = v.tail_in;
        },
        n,
        ap (window null l.size l.items l.head) n,
      )

  pop_tail-contents :
      (l : Loop A)
      → IsLoop l
      → l.tail ≢ l.head
      → let l' = record l { tail = before l.size l.tail } in
        IsLoop l'
        × (count l ≡ suc (count l'))
        × (contents null l ≡ contents null l' ++ (item null l (before l.size l.tail) ∷ []))
  pop_tail-contents l v ne =
      let l' = record l { tail = before l.size l.tail } in
      let n : count l ≡ suc (count l') = ground (arith, before_lem l.size l.tail v.tail_in) in
      let t : before l.size l.tail < l.size = ground (arith, before_lem l.size l.tail v.tail_in) in
      (
        record { room = v.room; array = v.array; head_in = v.head_in; tail_in = t },
        n,
        ap (window null l.size l.items l.head) n
            ∙ window-suc null l.size l.items l.head (count l') (before l.size l.tail) v.head_in t
                refl,
      )

  push_tail-contents :
      (l : Loop A) (x : A)
      → IsLoop l
      → count l < l.size - 1
      → let l' = record l { items = set l.items l.tail x; tail = after l.size l.tail } in
        IsLoop l' × (contents null l' ≡ contents null l ++ (x ∷ []))
  push_tail-contents l x v h =
      let l' = record l { items = set l.items l.tail x; tail = after l.size l.tail } in
      let n : count l' ≡ suc (count l) = ground (arith, after_lem l.size l.tail v.tail_in) in
      (
        record {
          room = v.room;
          array = length-set l.items l.tail x ∙ v.array;
          head_in = v.head_in;
          tail_in = ground (arith, after_lem l.size l.tail v.tail_in);
        },
        ap (window null l.size l'.items l.head) n
            ∙ window-suc null l.size l'.items l.head (count l) l.tail v.head_in v.tail_in refl
            ∙ ap₂ (λ w y. w ++ (y ∷ []))
                (window-set_out null l.size l.items l.head (count l) l.tail x v.head_in v.tail_in
                  (omega arith))
                (get_or-set_self l.items l.tail x null (omega (arith, v.array, v.tail_in))),
      )

  push_head-contents :
      (l : Loop A) (x : A)
      → IsLoop l
      → count l < l.size - 1
      → let h = before l.size l.head in
        let l' = record l { items = set l.items h x; head = h } in
        IsLoop l' × (contents null l' ≡ x ∷ contents null l)
  push_head-contents l x v h =
      let i = before l.size l.head in
      let l' = record l { items = set l.items i x; head = i } in
      let b = before_lem l.size l.head v.head_in in
      let i_in : i < l.size = ground (arith, b) in
      let back : after l.size i ≡ l.head = ground (arith, after_lem l.size i i_in, b) in
      let n : count l' ≡ suc (count l) = ground (arith, b) in
      (
        record {
          room = v.room;
          array = length-set l.items i x ∙ v.array;
          head_in = i_in;
          tail_in = v.tail_in;
        },
        ap (window null l.size l'.items i) n
            ∙ ap₂ ◌∷◌ (get_or-set_self l.items i x null (omega (arith, v.array, i_in))) (
                ap (λ k. window null l.size l'.items k (count l)) back
                ∙ window-set_out null l.size l.items l.head (count l) i x v.head_in i_in
                    (ground (arith, b))),
      )

  pub count-lt-size : (l : Loop A) → IsLoop l → count l < l.size
  count-lt-size l v = ground arith

  -- The loop has room exactly if the tail, moved on, does not meet the head.
  full_tail :
      (l : Loop A) → IsLoop l → (after l.size l.tail == l.head) ≡ not (ltb (count l) (l.size - 1))
  full_tail l v = ground (arith, after_lem l.size l.tail v.tail_in)

  full_head :
      (l : Loop A) → IsLoop l → (before l.size l.head == l.tail) ≡ not (ltb (count l) (l.size - 1))
  full_head l v = ground (arith, before_lem l.size l.head v.head_in)

  -- On a well-formed loop a pop from the head gives the first item, or nothing if there is none,
  -- and leaves the others. The loop stays well formed.
  pub loop_pop_from_head_lem :
      (l : Loop A)
      → IsLoop l
      → let (x, l') = loop_pop_from_head null l in
        IsLoop l' × (x ≡ first? (contents null l)) × (contents null l' ≡ drop 1 (contents null l))
  unfolding loop_pop_from_head first?
  loop_pop_from_head_lem l v = elim (Bool-cases (l.tail == l.head)) [
    | inl e ↦
        let z : contents null l ≡ [] =
          ap (window null l.size l.items l.head) {y = 0} (ground arith) in
        rw e (v, sym (ap first? z), z ∙ sym (ap (drop 1) z))
    | inr e ↦
        let c = pop_head-contents l v (ground arith) in
        rw e (c.0, sym (ap first? c.2), sym (ap (drop 1) c.2))
  ]

  -- On a well-formed loop a pop from the tail gives the last item, or nothing if there is none, and
  -- leaves those before it. The loop stays well formed.
  pub loop_pop_from_tail_lem :
      (l : Loop A)
      → IsLoop l
      → let (x, l') = loop_pop_from_tail null l in
        IsLoop l' × (x ≡ last? (contents null l)) × (contents null l' ≡ init (contents null l))
  unfolding loop_pop_from_tail last? init
  loop_pop_from_tail_lem l v = elim (Bool-cases (l.tail == l.head)) [
    | inl e ↦
        let z : contents null l ≡ [] =
          ap (window null l.size l.items l.head) {y = 0} (ground arith) in
        rw e (v, sym (ap last? z), z ∙ sym (ap init z))
    | inr e ↦
        let c = pop_tail-contents l v (ground arith) in
        let l' = record l { tail = before l.size l.tail } in
        rw e (
          c.0,
          sym (ap last? c.2 ∙ last?-append (contents null l') _),
          sym (ap init c.2 ∙ init-append (contents null l') _),
        )
  ]

  -- On a well-formed loop a push to the tail appends its item. When `size - 1` items are there
  -- already, the first of them is dropped (and handed to `del_func`); with fewer, none is. The loop
  -- stays well formed.
  pub loop_push_to_tail_lem :
      (l : Loop A) (x : A)
      → IsLoop l
      → let (dropped, l') = loop_push_to_tail null l x in
        IsLoop l'
        × (count l < l.size - 1
            → (dropped ≡ none) × (contents null l' ≡ contents null l ++ (x ∷ [])))
        × (count l ≡ l.size - 1
            → (dropped ≡ first? (contents null l))
              × (contents null l' ≡ drop 1 (contents null l) ++ (x ∷ [])))
  unfolding loop_push_to_tail first?
  loop_push_to_tail_lem l x v = elim (Bool-cases (ltb (count l) (l.size - 1))) [
    | inl e ↦
        let p = push_tail-contents l x v (ground arith) in
        rw (full_tail l v) (rw e (p.0, (λ h. (refl, p.1)), (λ h. absurd (ground arith))))
    | inr e ↦
        let c = pop_head-contents l v (ground arith) in
        let l' = record l { head = after l.size l.head } in
        let p = push_tail-contents l' x c.0 (omega (arith, c.1, count-lt-size l v)) in
        rw (full_tail l v) (
          rw e (
            p.0,
            (λ h. absurd (ground arith)),
            (λ h. (sym (ap first? c.2), p.1 ∙ ap (λ t. drop 1 t ++ (x ∷ [])) (sym c.2))),
          ))
  ]

  -- On a well-formed loop a push to the head puts its item in front. When `size - 1` items are
  -- there already, the last of them is dropped (and handed to `del_func`); with fewer, none is. The
  -- loop stays well formed.
  pub loop_push_to_head_lem :
      (l : Loop A) (x : A)
      → IsLoop l
      → let (dropped, l') = loop_push_to_head null l x in
        IsLoop l'
        × (count l < l.size - 1 → (dropped ≡ none) × (contents null l' ≡ x ∷ contents null l))
        × (count l ≡ l.size - 1
            → (dropped ≡ last? (contents null l)) × (contents null l' ≡ x ∷ init (contents null l)))
  unfolding loop_push_to_head last? init
  loop_push_to_head_lem l x v = elim (Bool-cases (ltb (count l) (l.size - 1))) [
    | inl e ↦
        let p = push_head-contents l x v (ground arith) in
        rw (full_head l v) (rw e (p.0, (λ h. (refl, p.1)), (λ h. absurd (ground arith))))
    | inr e ↦
        let c = pop_tail-contents l v (ground arith) in
        let l' = record l { tail = before l.size l.tail } in
        let p = push_head-contents l' x c.0 (omega (arith, c.1, count-lt-size l v)) in
        rw (full_head l v) (
          rw e (
            p.0,
            (λ h. absurd (ground arith)),
            (λ h. (
              sym (ap last? c.2 ∙ last?-append (contents null l') _),
              p.1 ∙ ap (λ t. x ∷ t) (sym (ap init c.2 ∙ init-append (contents null l') _)),
            )),
          ))
  ]

-- A list is its last item behind the rest.
pub last?-none : {A : Type 0} (xs : List A) → last? xs ≡ none → xs ≡ []
unfolding last?
last?-none [] e = refl
last?-none (x ∷ xs) e = absurd (ground arith)

pub last?-some : {A : Type 0} (xs : List A) (y : A) → last? xs ≡ some y → xs ≡ init xs ++ (y ∷ [])
unfolding last? init
last?-some [] y e = absurd (cc e)
last?-some (x ∷ []) y e = ap (λ t. t ∷ []) (cc e)
last?-some (x ∷ (z ∷ zs)) y e =
    ap (λ t. x ∷ t) (last?-some (z ∷ zs) y (unfold last? in ground arith))

module _ {A : Type 0} (null : A) (l : Loop A) (x : A) where
  pub size-push_to_head : (loop_push_to_head null l x).1.size ≡ l.size
  unfolding loop_push_to_head
  size-push_to_head = refl

  pub size-push_to_tail : (loop_push_to_tail null l x).1.size ≡ l.size
  unfolding loop_push_to_tail
  size-push_to_tail = refl
