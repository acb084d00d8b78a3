-- ===== src/Client/Events.antt =====
-- `qqclient_get_event` of src/qqclient.c against the two queues that it takes events from.
use myqq.Base.{
  ◌≡◌, refl, sym, ap, ap₂, ◌∙◌, inl, inr, Bool, true, false, Option, none, some, List, [], ◌∷◌, ltb,
  if◌then◌else◌, Bool-cases, Option-cases, drop,
}
use myqq.Loop.{loop_pop_from_head}
use myqq.Loop.Window.{IsLoop, contents}
use myqq.Loop.Refine.{loop_pop_from_head_lem, first?}
use myqq.Session.{Event, null_event, is_init}
use myqq.Client.{Client, Result, event, no_event, refused, next_event, poll, qqclient_get_event}

abbrev pub events : Client → List Event
events c = contents null_event c.session.event_loop

abbrev pub messages : Client → List Event
messages c = contents null_event c.msg_loop

-- the event that is next: one of `event_loop` first, then, after ten rounds online, a message
unfoldable pub due : Client → List Event → List Event → Option (Event × List Event × List Event)
due c (e ∷ es) ms = some (e, es, ms)
due c [] [] = none
due c [] (m ∷ ms) = if ltb 10 c.session.online_clock then some (m, [], ms) else none

first?-some : (xs : List Event) (x : Event) → first? xs ≡ some x → xs ≡ x ∷ drop 1 xs
unfolding first?
first?-some [] x e = absurd (cc e)
first?-some (y ∷ xs) x e = ap (λ t. t ∷ xs) (cc e)

first?-none : (xs : List Event) → first? xs ≡ none → xs ≡ []
unfolding first?
first?-none [] e = refl
first?-none (y ∷ xs) e = absurd (cc e)

due_early :
    (c : Client) (ms : List Event) → ltb 10 c.session.online_clock ≡ false → due c [] ms ≡ none
unfolding due
due_early c [] o = refl
due_early c (m ∷ ms) o = rw (due, o) refl

due_message :
    (c : Client) (m : Event) (ms : List Event)
    → ltb 10 c.session.online_clock ≡ true
    → due c [] (m ∷ ms) ≡ some (m, [], ms)
unfolding due
due_message c m ms o = rw (due, o) refl

-- what a round comes to, by what it finds
abbrev pub outcome : Client → Option (Event × Client) → Result × Client
outcome c none = (no_event, c)
outcome c (some (x, c')) = (event x, c')

get_event-next :
    (between : Client → Client) (c : Client) (o : Option (Event × Client))
    → c.locked ≡ false
    → is_init c.session.process ≡ false
    → next_event c ≡ o
    → qqclient_get_event between 0 c ≡ outcome c o
unfolding qqclient_get_event poll
get_event-next between c o free live e =
    ap (λ (b : Bool). if b then (refused, c) else poll between 0 c) free
    ∙ (ap (λ (b : Bool). round_of b (next_event c)) live
        ∙ (by_next (next_event c) ∙ ap (outcome c) e))
  where
    round_of : Bool → Option (Event × Client) → Result × Client
    round_of b o = elim b [
      | true ↦ (refused, c)
      | false ↦ elim o [ some (x, c') ↦ (event x, c') | none ↦ (no_event, c) ]
    ]

    by_next : (o : Option (Event × Client)) → round_of false o ≡ outcome c o
    by_next none = refl
    by_next (some (x, c')) = refl

-- If both queues are well formed, a client that is not in P_INIT and not waited for, asked without
-- waiting, gives the event that is due and drops it from its queue, the other queue staying as it
-- is; if none is due, it returns 0 and changes nothing.
pub qqclient_get_event-due :
    (between : Client → Client) (c : Client)
    → IsLoop c.session.event_loop
    → IsLoop c.msg_loop
    → c.locked ≡ false
    → is_init c.session.process ≡ false
    → let (r, c') = qqclient_get_event between 0 c in
      (due c (events c) (messages c) ≡ none → (r ≡ no_event) × (c' ≡ c))
      × ((e : Event) (es ms : List Event)
          → due c (events c) (messages c) ≡ some (e, es, ms)
          → (r ≡ event e) × (events c' ≡ es) × (messages c' ≡ ms))
unfolding next_event due
qqclient_get_event-due between c ve vm free live =
    let (v1, x1, r1) = loop_pop_from_head_lem null_event c.session.event_loop ve in
    let (v2, x2, r2) = loop_pop_from_head_lem null_event c.msg_loop vm in
    let pop1 = loop_pop_from_head null_event c.session.event_loop in
    let pop2 = loop_pop_from_head null_event c.msg_loop in
    elim (Option-cases pop1.0) [
      | inr (x, e) ↦
          let d : due c (events c) (messages c) ≡ some (x, drop 1 (events c), messages c) =
            ap (λ t. due c t (messages c)) (first?-some (events c) x (sym x1 ∙ e)) in
          let c1 = record c { session = record (c.session) { event_loop = pop1.1 } } in
          let run : qqclient_get_event between 0 c ≡ (event x, c1) =
            get_event-next between c (some (x, c1)) free live (rw (next_event, e) refl) in
          rw run (
            (λ q. absurd (cc (q, d))),
            (λ y es ms q.
                let w : Event × List Event × List Event = (x, drop 1 (events c), messages c) in
                let t : w ≡ (y, es, ms) = cc (sym d ∙ q) in
                (ap (λ z. event z.0) t, r1 ∙ ap (λ z. z.1) t, ap (λ z. z.2) t)),
          )
      | inl e ↦
          let z : events c ≡ [] = first?-none (events c) (sym x1 ∙ e) in
          elim (Bool-cases (ltb 10 c.session.online_clock)) [
            | inr o ↦
                let d : due c (events c) (messages c) ≡ none =
                  ap (λ t. due c t (messages c)) z ∙ due_early c (messages c) o in
                let run : qqclient_get_event between 0 c ≡ (no_event, c) =
                  get_event-next between c none free live (rw (next_event, e, o) refl) in
                rw run ((λ q. (refl, refl)), (λ y es ms q. absurd (cc (q, d))))
            | inl o ↦ elim (Option-cases pop2.0) [
              | inr (x, f) ↦
                  let d : due c (events c) (messages c) ≡ some (x, [], drop 1 (messages c)) =
                    ap₂ (due c) z (first?-some (messages c) x (sym x2 ∙ f))
                    ∙ due_message c x (drop 1 (messages c)) o in
                  let c1 = record c { msg_loop = pop2.1 } in
                  let run : qqclient_get_event between 0 c ≡ (event x, c1) =
                    get_event-next between c (some (x, c1)) free live
                      (rw (next_event, e, o, f) refl) in
                  rw run (
                    (λ q. absurd (cc (q, d))),
                    (λ y es ms q.
                        let w : Event × List Event × List Event = (x, [], drop 1 (messages c)) in
                        let t : w ≡ (y, es, ms) = cc (sym d ∙ q) in
                        (ap (λ k. event k.0) t, z ∙ ap (λ k. k.1) t, r2 ∙ ap (λ k. k.2) t)),
                  )
              | inl f ↦
                  let d : due c (events c) (messages c) ≡ none =
                    ap₂ (due c) z (first?-none (messages c) (sym x2 ∙ f)) in
                  let run : qqclient_get_event between 0 c ≡ (no_event, c) =
                    get_event-next between c none free live (rw (next_event, e, o, f) refl) in
                  rw run ((λ q. (refl, refl)), (λ y es ms q. absurd (cc (q, d))))
            ]
          ]
    ]
