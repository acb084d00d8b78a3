-- ===== src/Loop/Tests.antt =====
-- Examples for the loops of src/loop.c: one of four slots that goes round the end of its array.
use myqq.Base.{ℕ, ◌<◌, ◌≡◌, refl, Bool, none, [], ◌∷◌, ◌++◌, arith, ◌==◌}
use myqq.Loop.{
  Loop, loop_push_to_tail, loop_push_to_head, loop_pop_from_head, loop_pop_from_tail, loop_search,
  loop_remove,
}
use myqq.Loop.Window.{IsLoop, count, contents}
use myqq.Loop.Refine.{
  first?, last?, init, loop_pop_from_head_lem, loop_pop_from_tail_lem, loop_push_to_tail_lem,
  loop_push_to_head_lem,
}
use myqq.Loop.Search.{find?, remove_first, loop_search-find?, loop_remove-remove_first}

abbrev three : Loop ℕ
three = record { size = 4; head = 2; tail = 1; items = 30 ∷ 0 ∷ 10 ∷ 20 ∷ [] }

three-IsLoop : IsLoop three
three-IsLoop = record {
  room = omega arith;
  array = refl;
  head_in = omega arith;
  tail_in = omega arith;
}

abbrev is_twenty : ℕ → Bool
is_twenty x = x == 20

loop_pop_from_head_lem_example :
    let (x, l) = loop_pop_from_head 0 three in
    IsLoop l × (x ≡ first? (contents 0 three)) × (contents 0 l ≡ 20 ∷ 30 ∷ [])
loop_pop_from_head_lem_example = loop_pop_from_head_lem 0 three three-IsLoop

loop_pop_from_tail_lem_example :
    let (x, l) = loop_pop_from_tail 0 three in
    IsLoop l × (x ≡ last? (contents 0 three)) × (contents 0 l ≡ init (contents 0 three))
loop_pop_from_tail_lem_example = loop_pop_from_tail_lem 0 three three-IsLoop

loop_push_to_tail_lem_example :
    let (dropped, l) = loop_push_to_tail 0 three 40 in
    IsLoop l
    × (count three < 3 → (dropped ≡ none) × (contents 0 l ≡ contents 0 three ++ (40 ∷ [])))
    × (count three ≡ 3 → (dropped ≡ first? (contents 0 three)) × (contents 0 l ≡ 20 ∷ 30 ∷ 40 ∷ []))
loop_push_to_tail_lem_example = loop_push_to_tail_lem 0 three 40 three-IsLoop

loop_push_to_head_lem_example :
    let (dropped, l) = loop_push_to_head 0 three 40 in
    IsLoop l
    × (count three < 3 → (dropped ≡ none) × (contents 0 l ≡ 40 ∷ contents 0 three))
    × (count three ≡ 3
        → (dropped ≡ last? (contents 0 three)) × (contents 0 l ≡ 40 ∷ init (contents 0 three)))
loop_push_to_head_lem_example = loop_push_to_head_lem 0 three 40 three-IsLoop

loop_search-find?_example : loop_search 0 three is_twenty ≡ find? is_twenty (contents 0 three)
loop_search-find?_example = loop_search-find? 0 three three-IsLoop is_twenty

loop_remove-remove_first_example :
    IsLoop (loop_remove 0 three is_twenty)
    × (contents 0 (loop_remove 0 three is_twenty) ≡ remove_first is_twenty (contents 0 three))
loop_remove-remove_first_example = loop_remove-remove_first 0 three three-IsLoop is_twenty
