-- ===== src/Client/Sends.antt =====
-- What the requests of a round of `qqclient_keepalive` of src/qqclient.c leave in flight, and what they
-- leave alone.
use myqq.Base.{
  ℕ, ◌%◌, ◌≡◌, refl, ap, ◌∙◌, ◌≢◌, inl, inr, Bool, true, false, some, List, [], ◌∷◌, arith, ◌==◌,
  Bool-cases, take,
}
use myqq.Roster.{Qun}
use myqq.Packet.{ByteBuffer}
use myqq.Protocol.{QqPacket}
use myqq.Prot.{send_packet}
use myqq.Session.{Session, Env}
use myqq.PacketMgr.InFlight.{InFlight}
use myqq.Prot.Keeps.{Sends-send_packet}
use myqq.Prot.BuddySend.{prot_buddy_update_online}
use myqq.Prot.QunSend.{prot_qun_get_online}
use myqq.Prot.UserSend.{prot_user_change_status}
use myqq.Client.{
  every, get_online_each, qun_update_online_all, minute_sends, online_sends, status_sends,
  round_sends,
}
use myqq.Client.Frame.{Same, Same-refl, Same-trans, send_packet-Same}

-- `t` has at most one packet in flight if `s` has, and is as `s` in the quns and the clock.
pub record Fine (s t : Session) : Type 0 where
  pub same : Same s t
  pub flight : InFlight s.mgr → InFlight t.mgr

pub Fine-refl : (s : Session) → Fine s s
Fine-refl s = record { same = Same-refl s; flight = λ v. v }

pub Fine-trans : (s t u : Session) → Fine s t → Fine t u → Fine s u
Fine-trans s t u a b = record {
  same = Same-trans s t u a.same b.same;
  flight = λ v. b.flight (a.flight v);
}

Fine-every :
    (n counter : ℕ) (f : Session → Session) (s : Session)
    → Fine s (f s)
    → Fine s (every n counter f s)
Fine-every n counter f s a = elim (Bool-cases (counter % n == 0)) [
  | inl e ↦ rw e a
  | inr e ↦ rw e (Fine-refl s)
]

send_packet-Fine :
    (env : Env) (cmd : ℕ) (need_ack : Bool) (fill : Session → QqPacket → ByteBuffer → ByteBuffer)
    (s : Session)
    → Fine s (send_packet env false cmd need_ack fill s)
send_packet-Fine env cmd need_ack fill s = record {
  same = send_packet-Same env false cmd need_ack fill s;
  flight = (Sends-send_packet env false cmd need_ack fill).at s;
}

get_online_each-Fine : (env : Env) (qs : List Qun) (s : Session) → Fine s (get_online_each env qs s)
unfolding get_online_each
get_online_each-Fine env [] s = Fine-refl s
get_online_each-Fine env (q ∷ qs) s =
    Fine-trans s (prot_qun_get_online env false q.number s) _ (send_packet-Fine env _ true _ s)
      (get_online_each-Fine env qs _)

module _ (print : ℕ → List ℕ) (env : Env) where
  minute_sends-Fine : (s : Session) → Fine s (minute_sends print env s)
  unfolding minute_sends
  minute_sends-Fine s = send_packet-Fine env _ true _ s

  status_sends-Fine : (s : Session) → Fine s (status_sends print env s)
  unfolding status_sends
  status_sends-Fine s =
      Fine-trans s (prot_user_change_status print env false s) _ (send_packet-Fine env _ true _ s)
        (send_packet-Fine env _ true _ _)

  -- With the list of quns not locked, they are asked for.
  online_sends-Fine :
      (s : Session)
      → s.qun_list.locked ≡ false
      → (t : Session) × (online_sends print env s ≡ some t) × Fine s t
  unfolding online_sends qun_update_online_all
  online_sends-Fine s free =
      let s1 = prot_buddy_update_online env false 0 s in
      let first : Fine s s1 = send_packet-Fine env _ true _ s in
      let l = s1.qun_list in
      let open_lock : l.locked ≡ false = ap (λ q. q.locked) first.same.quns ∙ free in
      let qs = take l.count l.items in
      let t = get_online_each env qs s1 in
      (t, rw open_lock refl, Fine-trans s s1 t first (get_online_each-Fine env qs s1))

  pub round_sends-Fine :
      (counter : ℕ) (s : Session)
      → s.qun_list.locked ≡ false
      → (t : Session) × (round_sends print env counter s ≡ some t) × Fine s t
  unfolding round_sends
  round_sends-Fine counter s free =
      let s2 = every 30 counter (minute_sends print env) s in
      let f2 : Fine s s2 = Fine-every 30 counter (minute_sends print env) s (minute_sends-Fine s) in
      let free2 : s2.qun_list.locked ≡ false = ap (λ q. q.locked) f2.same.quns ∙ free in
      elim (Bool-cases (counter % 600 == 0)) [
        | inr e ↦ (
          every 1800 counter (status_sends print env) s2,
          rw (round_sends, e) refl,
          Fine-trans s s2 _ f2
              (Fine-every 1800 counter (status_sends print env) s2 (status_sends-Fine s2)),
        )
        | inl e ↦
            let (s3, q, f3) = online_sends-Fine s2 free2 in
            (
              every 1800 counter (status_sends print env) s3,
              rw (round_sends, e, q) refl,
              Fine-trans s s2 _ f2 (
                  Fine-trans s2 s3 _ f3
                    (Fine-every 1800 counter (status_sends print env) s3 (status_sends-Fine s3))),
            )
      ]

  pub round_sends-quiet :
      (counter : ℕ) (s : Session) → counter % 30 ≢ 0 → round_sends print env counter s ≡ some s
  unfolding round_sends
  round_sends-quiet counter s h =
      let a : (counter % 30 == 0) ≡ false = ground (arith, h) in
      let b : (counter % 600 == 0) ≡ false = ground (arith, h) in
      let d : (counter % 1800 == 0) ≡ false = ground (arith, h) in rw (round_sends, a, b, d) refl
