-- ===== src/PacketMgr/Flush.antt =====
-- The packets that a handler posts while the receiving thread works are moved in front of those
-- that are ready, in the order in which they were posted.
use myqq.Base.{
  ℕ, zero, suc, ◌+◌, ◌≤◌, ◌<◌, ◌≡◌, refl, sym, ap, ap₂, ◌∙◌, inl, inr, List, [], ◌∷◌, ◌++◌,
  append_assoc, arith, Option-cases, length, length-append,
}
use myqq.Loop.{Loop, loop_push_to_head, loop_pop_from_tail}
use myqq.Loop.Window.{IsLoop, count, contents, length-window}
use myqq.Loop.Refine.{
  last?, init, last?-none, last?-some, loop_pop_from_tail_lem, loop_push_to_head_lem,
  size-push_to_head, count-lt-size,
}
use myqq.Protocol.{QqPacket}
use myqq.Session.{PacketMgr, null_packet}
use myqq.PacketMgr.{flush_temp, flush}

abbrev pub packets : Loop QqPacket → List QqPacket
packets l = contents null_packet l

pub length-packets : (l : Loop QqPacket) → length (packets l) ≡ count l
length-packets l = length-window null_packet l.size l.items l.head (count l)

-- what emptying `temp` in front of `ready` comes to
pub record IsFlushed (temp ready temp' ready' : Loop QqPacket) : Type 0 where
  pub temp_loop : IsLoop temp'
  pub ready_loop : IsLoop ready'
  pub emptied : packets temp' ≡ []
  pub moved : packets ready' ≡ packets temp ++ packets ready

flush_temp-IsFlushed :
    (fuel : ℕ) (temp ready : Loop QqPacket)
    → IsLoop temp
    → IsLoop ready
    → length (packets temp) ≤ fuel
    → length (packets temp) + length (packets ready) < ready.size
    → let (temp', ready') = flush_temp fuel temp ready in IsFlushed temp ready temp' ready'
unfolding flush_temp
flush_temp-IsFlushed zero temp ready vt vr h room = record {
  temp_loop = vt;
  ready_loop = vr;
  emptied = none_left;
  moved = ap (λ t. t ++ packets ready) (sym none_left);
}
  where
    empty : (xs : List QqPacket) → length xs ≤ 0 → xs ≡ []
    empty [] e = refl
    empty (x ∷ xs) e = absurd (omega arith)

    none_left : packets temp ≡ []
    none_left = empty (packets temp) h
flush_temp-IsFlushed (suc fuel) temp ready vt vr h room =
    elim (Option-cases (loop_pop_from_tail null_packet temp).0) [
      | inl e ↦
          let z : packets temp ≡ [] = last?-none (packets temp) (sym pop.1 ∙ e) in
          rw (e, flush_temp)
            (record {
              temp_loop = vt;
              ready_loop = vr;
              emptied = z;
              moved = ap (λ t. t ++ packets ready) (sym z);
            })
      | inr (t, e) ↦
          let split : packets temp ≡ init (packets temp) ++ (t ∷ []) =
            last?-some (packets temp) t (sym pop.1 ∙ e) in
          let n = ap length split in
          let l = length-append (init (packets temp)) (t ∷ []) in
          let push = loop_push_to_head_lem null_packet ready t vr in
          let front = (push.1 (omega (arith, length-packets ready, n, l))).1 in
          let temp1 = (loop_pop_from_tail null_packet temp).1 in
          let ready1 = (loop_push_to_head null_packet ready t).1 in
          let r =
            flush_temp-IsFlushed fuel temp1 ready1 pop.0 push.0
              (omega (arith, ap length pop.2, n, l))
              (omega (
                arith,
                ap length pop.2,
                ap length front,
                n,
                l,
                size-push_to_head null_packet ready t,
              )) in
          rw (e, flush_temp)
            (record {
              temp_loop = r.temp_loop;
              ready_loop = r.ready_loop;
              emptied = r.emptied;
              moved =
                  r.moved
                  ∙ (ap₂ ◌++◌ pop.2 front
                      ∙ (sym (append_assoc (init (packets temp)) (t ∷ []) (packets ready))
                          ∙ ap (λ q. q ++ packets ready) (sym split)));
            })
    ]
  where
    pop :
        IsLoop (loop_pop_from_tail null_packet temp).1
        × ((loop_pop_from_tail null_packet temp).0 ≡ last? (packets temp))
        × (packets (loop_pop_from_tail null_packet temp).1 ≡ init (packets temp))
    pop = loop_pop_from_tail_lem null_packet temp vt

-- If `temp_loop` and `ready_loop` are well formed and `ready_loop` has room for the packets of
-- both, those of `temp_loop` end up in front of those of `ready_loop`, both in their order,
-- `temp_loop` is empty, and both are well formed; `sent_loop` and `recv_loop` are as they were.
pub flush-IsFlushed :
    (m : PacketMgr)
    → IsLoop m.temp_loop
    → IsLoop m.ready_loop
    → length (packets m.temp_loop) + length (packets m.ready_loop) < m.ready_loop.size
    → IsFlushed m.temp_loop m.ready_loop (flush m).temp_loop (flush m).ready_loop
      × ((flush m).sent_loop ≡ m.sent_loop)
      × ((flush m).recv_loop ≡ m.recv_loop)
unfolding flush
flush-IsFlushed m vt vr room = (
  flush_temp-IsFlushed m.temp_loop.size m.temp_loop m.ready_loop vt vr
      (omega (arith, length-packets m.temp_loop, count-lt-size null_packet m.temp_loop vt)) room,
  refl,
  refl,
)
