-- ===== src/Client/Frame.antt =====
-- What the packet manager leaves alone: sending, posting and looking for packets whose time is up
-- change neither the list of quns nor the clock that counts the rounds online.
use myqq.Base.{
  ℕ, ◌+◌, ◌≡◌, refl, ◌∙◌, inl, inr, Bool, true, false, not, ◌||◌, none, some, [], ◌∷◌, ◌++◌, ltb,
  leb, ◌==◌, if◌then◌else◌, Option-cases,
}
use myqq.Loop.{loop_pop_from_head, loop_is_empty, loop_search}
use myqq.Packet.{ByteBuffer}
use myqq.Protocol.{KeyType, QqPacket}
use myqq.Protocol.Seal.{seal_packet}
use myqq.Protocol.Commands
use myqq.Session.{
  PacketMgr, Process, Event, Notice, Session, Env, null_packet, qqclient_put_event,
  qqclient_set_process, is_login,
}
use myqq.PacketMgr.{
  with_mgr, wire, send_ready, check_ready_packets, packetmgr_put_urge, packetmgr_put, post_packet,
  packetmgr_new_send, packetmgr_new_packet, packetmgr_inc_seqno, time_out, packetmgr_check_packet,
}
use myqq.Prot.{send_packet}

pub record Same (s t : Session) : Type 0 where
  pub quns : t.qun_list ≡ s.qun_list
  pub clock : t.online_clock ≡ s.online_clock

pub Same-refl : (s : Session) → Same s s
Same-refl s = record { quns = refl; clock = refl }

pub Same-trans : (s t u : Session) → Same s t → Same t u → Same s u
Same-trans s t u a b = record { quns = b.quns ∙ a.quns; clock = b.clock ∙ a.clock }

pub Same-if : (b : Bool) (s t u : Session) → Same s t → Same s u → Same s (if b then t else u)
Same-if true s t u a c = a
Same-if false s t u a c = c

with_mgr-Same : (s : Session) (m : PacketMgr) → Same s (with_mgr s m)
with_mgr-Same s m = record { quns = refl; clock = refl }

qqclient_set_process-Same : (s : Session) (p : Process) → Same s (qqclient_set_process s p)
unfolding qqclient_set_process qqclient_put_event
qqclient_set_process-Same s p = record { quns = refl; clock = refl }

send_ready-Same : (env : Env) (p : QqPacket) (s : Session) → Same s (send_ready env p s)
unfolding send_ready
send_ready-Same env p s =
    Same-if (not (p.head == 0x02) || not (p.tail == 0x03)) s s _ (Same-refl s) (
      Same-if (not (env.socket (wire p) == p.buf.len)) s _ _
        (qqclient_set_process-Same s Process.error)
        (Same-if p.need_ack s _ s (with_mgr-Same s _) (Same-refl s)))

check_ready_packets-Same : (env : Env) (s : Session) → Same s (check_ready_packets env s)
unfolding check_ready_packets
check_ready_packets-Same env s =
    let pop = loop_pop_from_head null_packet s.mgr.ready_loop in
    let s' = with_mgr s (record (s.mgr) { ready_loop = pop.1 }) in
    let first = with_mgr-Same s (record (s.mgr) { ready_loop = pop.1 }) in
    let sent : Same s (elim pop.0 [ none ↦ s' | some q ↦ send_ready env q s' ]) =
      elim (Option-cases pop.0) [
        | inl e ↦ rw e first
        | inr (q, e) ↦ rw e (Same-trans s s' _ first (send_ready-Same env q s'))
      ] in
    Same-if
      (not (loop_is_empty null_packet s.mgr.sent_loop)
        || loop_is_empty null_packet s.mgr.ready_loop)
      s s _ (Same-refl s) sent

packetmgr_put_urge-Same :
    (env : Env) (in_recv : Bool) (p : QqPacket) (s : Session)
    → Same s (packetmgr_put_urge env in_recv p s)
unfolding packetmgr_put_urge
packetmgr_put_urge-Same env true p s = with_mgr-Same s _
packetmgr_put_urge-Same env false p s =
    Same-trans s _ _ (with_mgr-Same s _) (check_ready_packets-Same env _)

time_out-Same : (env : Env) (p : QqPacket) (s : Session) → Same s (time_out env p s)
unfolding time_out qqclient_put_event
time_out-Same env p s =
    let s1 =
      if p.command == Commands.send_im
      then record s { callbacks = s.callbacks ++ ((10000, Notice.send_failed) ∷ []) }
      else s in
    let v1 : Same s s1 =
      Same-if (p.command == Commands.send_im) s _ s (record { quns = refl; clock = refl })
        (Same-refl s) in
    let s2 = qqclient_put_event s1 (Event.send_failed p.command p.seqno) in
    let s3 = with_mgr s2 (record (s2.mgr) { failed_packets = s2.mgr.failed_packets + 1 }) in
    let v3 : Same s s3 = record { quns = v1.quns; clock = v1.clock } in
    Same-if (leb 5 p.send_times) s _ _
      (Same-if (ltb 5 s3.mgr.failed_packets || not (is_login s3.process)) s _ _
        (Same-trans s s3 _ v3 (qqclient_set_process-Same s3 Process.error)) v3)
      (packetmgr_put_urge-Same env false p s)

pub packetmgr_check_packet-Same :
    (env : Env) (timeout : ℕ) (s : Session) → Same s (packetmgr_check_packet env timeout s)
unfolding packetmgr_check_packet
packetmgr_check_packet-Same env timeout s =
    let found =
      loop_search null_packet s.mgr.sent_loop (λ p. ltb (p.time_alive + timeout) env.now) in
    elim (Option-cases found) [
      | inl e ↦ rw (packetmgr_check_packet, e) (check_ready_packets-Same env s)
      | inr (p, e) ↦
          rw (packetmgr_check_packet, e)
            (Same-trans s _ _ (with_mgr-Same s _)
              (Same-trans _ _ _ (time_out-Same env p _) (check_ready_packets-Same env _)))
    ]

post_packet-Same :
    (env : Env) (in_recv : Bool) (p : QqPacket) (k : KeyType) (s : Session)
    → Same s (post_packet env in_recv p k s)
unfolding post_packet packetmgr_put
post_packet-Same env in_recv p k s =
    packetmgr_put_urge-Same env in_recv (seal_packet s.account p k) s

pub send_packet-Same :
    (env : Env) (in_recv : Bool) (cmd : ℕ) (need_ack : Bool)
    (fill : Session → QqPacket → ByteBuffer → ByteBuffer) (s : Session)
    → Same s (send_packet env in_recv cmd need_ack fill s)
unfolding send_packet packetmgr_new_send packetmgr_new_packet packetmgr_inc_seqno
send_packet-Same env in_recv cmd need_ack fill s =
    let (p, t) = packetmgr_new_send env cmd s in
    let q = record p { need_ack = need_ack; buf = fill s p p.buf } in
    Same-trans s t _ (record { quns = refl; clock = refl })
      (post_packet-Same env in_recv q KeyType.session_key t)
