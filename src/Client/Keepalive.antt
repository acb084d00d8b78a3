-- ===== src/Client/Keepalive.antt =====
-- What a round of `qqclient_keepalive` of src/qqclient.c does.
use myqq.Base.{
  ℕ, ◌+◌, ◌%◌, ◌≡◌, refl, ap, ◌∙◌, ◌≢◌, ◌↔◌, inl, inr, Bool, true, false, ◌&&◌, some, List, [],
  arith, ◌==◌, if◌then◌else◌, Bool-cases,
}
use myqq.Loop.Window.{contents}
use myqq.Loop.Refine.{loop_is_empty_lem}
use myqq.Session.{Session, Env, PacketMgr, null_packet, is_login}
use myqq.PacketMgr.{packetmgr_check_packet}
use myqq.PacketMgr.InFlight.{InFlight}
use myqq.PacketMgr.Steps.{packetmgr_check_packet-InFlight}
use myqq.Client.{Client, is_active, nothing_to_send, qqclient_keepalive}
use myqq.Client.Frame.{Same, Same-refl, Same-trans, packetmgr_check_packet-Same}
use myqq.Client.Sends.{round_sends-Fine, round_sends-quiet}

module _ (print : ℕ → List ℕ) (env : Env) where
  -- the client is logged in, also after the time-outs
  abbrev pub is_online : Client → Bool
  is_online c =
      is_active c.session.process && is_login (packetmgr_check_packet env 5 c.session).process

  -- what a round makes of the client `c`
  pub record IsRound (c c' : Client) : Type 0 where
    pub flight : InFlight c'.session.mgr
    pub counter : c'.keep_alive_counter ≡ c.keep_alive_counter + 1
    pub clock :
        c'.session.online_clock
        ≡ (if is_online c then c.session.online_clock + 1 else c.session.online_clock)
    pub finish :
        c.login_finish ≡ 0
        → (c'.login_finish ≡ 1) ↔ (
            (is_online c ≡ true)
            × (contents null_packet c'.session.mgr.ready_loop ≡ [])
            × (contents null_packet c'.session.mgr.sent_loop ≡ []))
    pub finished : c.login_finish ≢ 0 → c'.login_finish ≡ c.login_finish
    pub quiet :
        c.keep_alive_counter % 30 ≢ 0
        → is_online c ≡ true
        → c'.session ≡ (
            let s = packetmgr_check_packet env 5 c.session in
            record s { online_clock = s.online_clock + 1 })

nothing_to_send_lem :
    (m : PacketMgr)
    → InFlight m
    → (nothing_to_send m ≡ true)
      ↔ ((contents null_packet m.ready_loop ≡ []) × (contents null_packet m.sent_loop ≡ []))
nothing_to_send_lem m v =
    let r = loop_is_empty_lem null_packet m.ready_loop v.ready in
    let s = loop_is_empty_lem null_packet m.sent_loop v.sent in
    (
      (λ e. (r.0 (ground (arith, e)), s.0 (ground (arith, e)))),
      (λ (x, y). let a = r.1 x in let b = s.1 y in ground (arith, a, b)),
    )

module _ (print : ℕ → List ℕ) (env : Env) where
  -- a round of a client that is not logged in, which leaves the session `s`
  idle-IsRound :
      (c : Client) (s : Session)
      → Same c.session s
      → InFlight s.mgr
      → is_online print env c ≡ false
      → IsRound print env c
          (record c { session = s; keep_alive_counter = c.keep_alive_counter + 1 })
  idle-IsRound c s a v off = record {
    flight = v;
    counter = refl;
    clock = rw off (a.clock);
    finish = λ z. ((λ o. absurd (omega (arith, z, o))), (λ (o, x, y). absurd (cc (o, off))));
    finished = λ z. refl;
    quiet = λ z o. absurd (cc (o, off));
  }

  -- a round of a client that is logged in, which sends what leaves the session `s`
  online-IsRound :
      (c : Client) (s : Session)
      → Same c.session s
      → InFlight s.mgr
      → is_online print env c ≡ true
      → (c.keep_alive_counter % 30 ≢ 0 → s ≡ packetmgr_check_packet env 5 c.session)
      → IsRound print env c (record c {
        session = record s { online_clock = s.online_clock + 1 };
        keep_alive_counter = c.keep_alive_counter + 1;
        login_finish = if c.login_finish == 0 && nothing_to_send s.mgr then 1 else c.login_finish;
      })
  online-IsRound c s a v on still =
      let (to, fro) = nothing_to_send_lem s.mgr v in
      record {
        flight = v;
        counter = refl;
        clock = rw on (ap (λ n. n + 1) a.clock);
        finish = λ z. (
          (λ o.
              let e : nothing_to_send s.mgr ≡ true = ground (arith, z, o) in
              let (x, y) = to e in (on, x, y)),
          (λ (o, x, y). let e = fro (x, y) in rw (e, z) refl),
        );
        finished = λ z. let e : (c.login_finish == 0) ≡ false = ground (arith, z) in rw e refl;
        quiet =
            λ z o. ap (λ (t : Session). record t { online_clock = t.online_clock + 1 }) (still z);
      }

  -- If at most one packet is in flight and nobody holds the mutex of the list of quns, a round of the
  -- keeper returns, with the packets that src/prot_user.c, src/prot_buddy.c and src/prot_qun.c send.
  -- At most one packet is in flight after it, and the round is counted. If the client is logged in,
  -- also after the time-outs, `online_clock` goes up by 1, and otherwise it stays. `login_finish`
  -- goes from 0 to 1 if and only if the client is logged in and `ready_loop` and `sent_loop` hold no
  -- packet at the end, and keeps every other value. In a round whose number is no multiple of 30, a
  -- client that is logged in asks for nothing: its session is as the time-outs leave it, but for
  -- the clock.
  pub qqclient_keepalive-IsRound :
      (c : Client)
      → InFlight c.session.mgr
      → c.session.qun_list.locked ≡ false
      → (c' : Client) × (qqclient_keepalive print env c ≡ some c') × IsRound print env c c'
  unfolding qqclient_keepalive
  qqclient_keepalive-IsRound c v free =
      let s1 = packetmgr_check_packet env 5 c.session in
      let same = packetmgr_check_packet-Same env 5 c.session in
      let v1 = packetmgr_check_packet-InFlight env 5 c.session v in
      let counted : Session → Client =
        λ s. record c { session = s; keep_alive_counter = c.keep_alive_counter + 1 } in
      elim (Bool-cases (is_active c.session.process)) [
        | inr x ↦ (
          counted c.session,
          rw (qqclient_keepalive, x) refl,
          idle-IsRound c c.session (Same-refl c.session) v (rw x refl),
        )
        | inl x ↦ elim (Bool-cases (is_login s1.process)) [
          | inr y ↦ (
            counted s1,
            rw (qqclient_keepalive, x, y) refl,
            idle-IsRound c s1 same v1 (rw (x, y) refl),
          )
          | inl y ↦
              let (s4, e, f) =
                round_sends-Fine print env c.keep_alive_counter s1
                  (ap (λ q. q.locked) same.quns ∙ free) in
              let still : c.keep_alive_counter % 30 ≢ 0 → s4 ≡ s1 =
                λ z. let q = round_sends-quiet print env c.keep_alive_counter s1 z in cc (e, q) in
              (
                _,
                rw (qqclient_keepalive, x, y, e) refl,
                online-IsRound c s4 (Same-trans c.session s1 s4 same f.same) (f.flight v1)
                    (rw (x, y) refl) still,
              )
        ]
      ]
