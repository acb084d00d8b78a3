-- ===== src/PacketMgr/Steps.antt =====
-- The steps of a session in src/packetmgr.c as a relation: a packet is posted, data arrives, or
-- the keeper looks for a packet whose time is up. The three entry points hold `ready_loop`'s,
-- `temp_loop`'s and `sent_loop`'s mutexes call by call only. Each is taken as one step all the same:
-- what two threads can do that are both between the test of `sent_loop` and the push to it, in
-- `check_ready_packets`, is not modelled.
use myqq.Base.{
  ℕ, ◌+◌, ◌≡◌, refl, inl, inr, Bool, true, false, not, ◌||◌, Option, none, some, List, [], ◌∷◌,
  ◌++◌, ltb, leb, ◌==◌, if◌then◌else◌, Bool-cases, Option-cases,
}
use myqq.Loop.{loop_push_to_tail, loop_search}
use myqq.Packet.{ByteBuffer}
use myqq.Protocol.{QqPacket}
use myqq.Protocol.Commands
use myqq.Protocol.Commands.{Handler}
use myqq.Protocol.Open.{process_packet}
use myqq.Session.{
  Event, Notice, Session, Env, null_packet, qqclient_put_event, qqclient_set_process, is_login,
}
use myqq.PacketMgr.{
  Handlers, with_mgr, chk_repeat, is_repeated, match_packet, accept, run_handler, settle,
  handle_body, check_header, flush, check_ready_packets, handle_packet, time_out,
  packetmgr_check_packet, packetmgr_start, packetmgr_put,
}
use myqq.PacketMgr.InFlight.{
  InFlight, packetmgr_start-InFlight, check_ready_packets-InFlight, packetmgr_put_urge-InFlight,
  flush-InFlight, remove-InFlight,
}

either :
    (b : Bool) (s t : Session) → InFlight s.mgr → InFlight t.mgr → InFlight (if b then s else t).mgr
either true s t v w = v
either false s t v w = w

-- handlers that keep the invariant
abbrev pub KeepsInFlight : Handlers → Type 0
KeepsInFlight run =
    (h : Handler) (q : QqPacket) (s t : Session)
    → run h q s ≡ some t
    → InFlight s.mgr
    → InFlight t.mgr

module _ (run : Handlers) (keeps : KeepsInFlight run) where
  run_handler-InFlight :
      (o : Option (QqPacket × Handler)) (s t : Session)
      → run_handler run o s ≡ some t
      → InFlight s.mgr
      → InFlight t.mgr
  unfolding run_handler
  run_handler-InFlight none s t e v = let q : t ≡ s = cc e in rw q v
  run_handler-InFlight (some (q, h)) s t e v = keeps h q s t e v

  settle-InFlight :
      (matched : Option QqPacket) (s : Session) → InFlight s.mgr → InFlight (settle matched s).mgr
  unfolding settle
  settle-InFlight none s v =
      let r = flush-InFlight s.mgr v in
      record { ready = r.ready; temp = r.temp; sent = r.sent; one = r.one }
  settle-InFlight (some q) s v =
      let r = remove-InFlight (flush s.mgr) q (flush-InFlight s.mgr v) in
      record { ready = r.ready; temp = r.temp; sent = r.sent; one = r.one }

  accept-InFlight :
      (env : Env) (p : QqPacket) (buf : ByteBuffer) (s t : Session)
      → accept env run p buf s ≡ some t
      → InFlight s.mgr
      → InFlight t.mgr
  unfolding accept
  accept-InFlight env p buf s t e v =
      let m = record (s.mgr) {
        recv_loop = (loop_push_to_tail 0 s.mgr.recv_loop (chk_repeat p)).1;
      } in
      let matched = match_packet m p in
      let opened = process_packet s.account matched (record p { time_alive = env.now }) buf in
      elim (Option-cases (run_handler run opened (with_mgr s m))) [
        | inl x ↦
            (let same : accept env run p buf s ≡ none = rw (accept, x) refl in
              absurd (cc (e, same)))
        | inr (u, x) ↦
            let same : accept env run p buf s ≡ some (settle matched u) = rw (accept, x) refl in
            let q : t ≡ settle matched u = cc (e, same) in
            rw q (
              settle-InFlight matched u (
                run_handler-InFlight opened (with_mgr s m) u x
                  (record { ready = v.ready; temp = v.temp; sent = v.sent; one = v.one })))
      ]

  handle_body-InFlight :
      (env : Env) (p : QqPacket) (buf : ByteBuffer) (s t : Session)
      → handle_body env run p buf s ≡ some t
      → InFlight s.mgr
      → InFlight t.mgr
  unfolding handle_body
  handle_body-InFlight env p buf s t e v =
      let b = record buf { pos = buf.pos + 3 } in
      let ready : (u : Session)
          → InFlight u.mgr
          → handle_body env run p buf s ≡ some (check_ready_packets env u)
          → InFlight t.mgr =
        λ u w same.
          let q : t ≡ check_ready_packets env u = cc (e, same) in
          rw q (check_ready_packets-InFlight env u w) in
      elim (Bool-cases (is_repeated s.mgr (chk_repeat p))) [
        | inl x ↦ ready s v (rw (handle_body, x) refl)
        | inr x ↦ elim (Option-cases (accept env run p b s)) [
          | inl y ↦
              (let same : handle_body env run p buf s ≡ none = rw (handle_body, x, y) refl in
                absurd (cc (e, same)))
          | inr (u, y) ↦ ready u (accept-InFlight env p b s u y v) (rw (handle_body, x, y) refl)
        ]
      ]

  -- A packet that arrives leaves at most one packet in flight, whatever it holds, if the handlers
  -- do.
  pub handle_packet-InFlight :
      (env : Env) (p : QqPacket) (bytes : List ℕ) (s t : Session) (ok : Bool)
      → handle_packet env run p bytes s ≡ some (ok, t)
      → InFlight s.mgr
      → InFlight t.mgr
  unfolding handle_packet
  handle_packet-InFlight env p bytes s t ok e v =
      let s1 = with_mgr s (record (s.mgr) { recv_packets = s.mgr.recv_packets + 1 }) in
      let v1 : InFlight s1.mgr = record {
        ready = v.ready;
        temp = v.temp;
        sent = v.sent;
        one = v.one;
      } in
      elim (Option-cases (check_header s.account.network p bytes)) [
        | inl x ↦
            let same : handle_packet env run p bytes s ≡ some (false, s1) =
              rw (handle_packet, x) refl in
            let q : t ≡ s1 = cc (e, same) in rw q v1
        | inr ((p1, buf), x) ↦ elim (Option-cases (handle_body env run p1 buf s1)) [
          | inl y ↦
              (let same : handle_packet env run p bytes s ≡ none = rw (handle_packet, x, y) refl in
                absurd (cc (e, same)))
          | inr (u, y) ↦
              let same : handle_packet env run p bytes s ≡ some (true, u) =
                rw (handle_packet, x, y) refl in
              let q : t ≡ u = cc (e, same) in rw q (handle_body-InFlight env p1 buf s1 u y v1)
        ]
      ]

time_out-InFlight :
    (env : Env) (p : QqPacket) (s : Session) → InFlight s.mgr → InFlight (time_out env p s).mgr
unfolding time_out qqclient_set_process qqclient_put_event
time_out-InFlight env p s v =
    let s1 =
      if p.command == Commands.send_im
      then record s { callbacks = s.callbacks ++ ((10000, Notice.send_failed) ∷ []) }
      else s in
    let v1 : InFlight s1.mgr =
      either (p.command == Commands.send_im)
        (record s { callbacks = s.callbacks ++ ((10000, Notice.send_failed) ∷ []) }) s v v in
    let s2 = qqclient_put_event s1 (Event.send_failed p.command p.seqno) in
    let s3 = with_mgr s2 (record (s2.mgr) { failed_packets = s2.mgr.failed_packets + 1 }) in
    let v3 : InFlight s3.mgr = record {
      ready = v1.ready;
      temp = v1.temp;
      sent = v1.sent;
      one = v1.one;
    } in
    elim (Bool-cases (leb 5 p.send_times)) [
      | inl x ↦ elim (Bool-cases (ltb 5 s3.mgr.failed_packets || not (is_login s3.process))) [
        | inl y ↦ rw (x, y) v3
        | inr y ↦ rw (x, y) v3
      ]
      | inr x ↦ rw x (packetmgr_put_urge-InFlight env false p s v)
    ]

-- Looking for a packet whose time is up leaves at most one packet in flight.
pub packetmgr_check_packet-InFlight :
    (env : Env) (timeout : ℕ) (s : Session)
    → InFlight s.mgr
    → InFlight (packetmgr_check_packet env timeout s).mgr
unfolding packetmgr_check_packet
packetmgr_check_packet-InFlight env timeout s v =
    let found =
      loop_search null_packet s.mgr.sent_loop (λ p. ltb (p.time_alive + timeout) env.now) in
    elim (Option-cases found) [
      | inl e ↦ rw (packetmgr_check_packet, e) (check_ready_packets-InFlight env s v)
      | inr (p, e) ↦
          rw (packetmgr_check_packet, e)
            (check_ready_packets-InFlight env _
              (time_out-InFlight env p _ (remove-InFlight s.mgr p v)))
    ]

-- `run` has the handlers, given what the system gives a call.
module _ (run : Env → Handlers) where
  -- One step of a session, with what the system gives it.
  pub data Step (s : Session) : Session → Type 0 where
    post : (env : Env) (in_recv : Bool) (p : QqPacket) → Step s (packetmgr_put env in_recv p s)
    receive :
        (env : Env) (p : QqPacket) (bytes : List ℕ) (ok : Bool) (t : Session)
        → handle_packet env (run env) p bytes s ≡ some (ok, t)
        → Step s t
    check : (env : Env) (timeout : ℕ) → Step s (packetmgr_check_packet env timeout s)

  -- The sessions that a session can come to.
  pub data Reach (s : Session) : Session → Type 0 where
    done : Reach s s
    next : (t u : Session) → Reach s t → Step t u → Reach s u

module _ (run : Env → Handlers) (keeps : (env : Env) → KeepsInFlight (run env)) where
  Step-InFlight : (s t : Session) → Step run s t → InFlight s.mgr → InFlight t.mgr
  unfolding packetmgr_put
  Step-InFlight s t (post env in_recv p) v = packetmgr_put_urge-InFlight env in_recv p s v
  Step-InFlight s t (receive env p bytes ok u e) v =
      handle_packet-InFlight (run env) (keeps env) env p bytes s u ok e v
  Step-InFlight s t (check env timeout) v = packetmgr_check_packet-InFlight env timeout s v

  -- After any posts, arrivals and time-out checks from a session whose manager was just started, at
  -- most one packet is in flight, and `ready_loop`, `temp_loop` and `sent_loop` are well formed, if
  -- the handlers keep that.
  pub Reach-InFlight : (s t : Session) → s.mgr ≡ packetmgr_start → Reach run s t → InFlight t.mgr
  Reach-InFlight s t e done = rw e packetmgr_start-InFlight
  Reach-InFlight s t e (next r u h k) = Step-InFlight r t k (Reach-InFlight s r e h)
