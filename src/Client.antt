-- ===== src/Client.antt =====
-- src/qqclient.c: the life of a client, from login to logout, and the queue of its events. The
-- threads that it starts and joins, the sockets that it closes and `srand` are not modelled.
pub mod Requests
pub mod Life
pub mod Events
pub mod Frame
pub mod Sends
pub mod Keepalive
mod Tests
use myqq.Base.{
  ℕ, zero, suc, ◌+◌, ◌-◌, ◌%◌, Bool, true, false, not, ◌&&◌, Option, none, some, List, [], ◌∷◌,
  ◌++◌, ltb, ◌==◌, if◌then◌else◌, length, take, overwrite,
}
use myqq.Loop.{Loop, loop_is_empty, loop_push_to_tail, loop_pop_from_head, loop_cleanup}
use myqq.Protocol.{Network, QqPacket}
use myqq.Session.{
  Process, Event, QqData, PacketMgr, Session, Env, null_event, null_packet, qqclient_set_process,
  is_login, is_init,
}
use myqq.PacketMgr.{packetmgr_new_seqno, packetmgr_check_packet, packetmgr_start, with_mgr}
use myqq.Roster.{Buddy, Qun, buddy_get}
use myqq.PtrList.{PtrList, with_lock}
use myqq.Prot.QunSend.{prot_qun_get_online}
use myqq.Prot.BuddySend.{
  prot_buddy_update_online, prot_buddy_verify_addbuddy, prot_buddy_request_addbuddy,
}
use myqq.Prot.UserSend.{
  prot_user_keep_alive, prot_user_change_status, prot_user_get_level, prot_user_request_token,
}
use myqq.Prot.LoginSend.{prot_login_touch, prot_login_request, prot_login_verify}

-- `mutex_event` is `locked` while another thread waits in `qqclient_get_event` or `qqclient_wait`.
pub record Client : Type 0 where
  pub session : Session
  pub login_finish : ℕ
  pub keep_alive_counter : ℕ
  pub msg_loop : Loop Event
  pub locked : Bool

-- What src/qqconn.c does to the session: `qqconn_get_server` with `qqconn_connect`, and
-- `qqconn_establish`.
pub record Conn : Type 0 where
  pub connect : Session → Bool × Session
  pub establish : Session → Session

abbrev pub with_session : Client → Session → Client
with_session c s = record c { session = s }

abbrev pub with_data : Session → QqData → Session
with_data s d = record s { qqdata = d }

abbrev pub set_process : Client → Process → Client
set_process c p = with_session c (qqclient_set_process c.session p)

-- `P_LOGGING`, `P_LOGIN` or `P_VERIFYING`
abbrev pub is_active : Process → Bool
is_active Process.logging = true
is_active Process.login = true
is_active Process.verifying = true
is_active _ = false

abbrev pub is_waiting : Process → Bool
is_waiting Process.waiting = true
is_waiting _ = false

abbrev pub is_proxy : Network → Bool
is_proxy Network.proxy_http = true
is_proxy _ = false

-- both loops that `qqclient_keepalive` and `qqclient_wait` look at
abbrev pub nothing_to_send : PacketMgr → Bool
nothing_to_send m = loop_is_empty null_packet m.ready_loop && loop_is_empty null_packet m.sent_loop

abbrev pub every : ℕ → ℕ → (Session → Session) → Session → Session
every n counter f s = if counter % n == 0 then f s else s

-- `prot_qun_get_online( qq, q->number )` for each of the quns
unfoldable pub get_online_each : Env → List Qun → Session → Session
get_online_each env [] s = s
get_online_each env (q ∷ qs) s = get_online_each env qs (prot_qun_get_online env false q.number s)

-- `qun_update_online_all` of src/qun.c, under the list's mutex: `none` is a call that blocks.
unfoldable pub qun_update_online_all : Env → Session → Option Session
unfolding get_online_each
qun_update_online_all env s =
    let l = s.qun_list in with_lock l (get_online_each env (take l.count l.items) s)

module _ (print : ℕ → List ℕ) (env : Env) where
  -- what is asked for in every 30th, 600th and 1800th round
  unfoldable pub minute_sends : Session → Session
  minute_sends s = prot_user_keep_alive print env false s

  unfoldable pub online_sends : Session → Option Session
  unfolding qun_update_online_all
  online_sends s = qun_update_online_all env (prot_buddy_update_online env false 0 s)

  unfoldable pub status_sends : Session → Session
  status_sends s = prot_user_get_level print env false (prot_user_change_status print env false s)

  -- the part of the round for a client that is logged in, behind `packetmgr_check_packet`
  unfoldable pub round_sends : ℕ → Session → Option Session
  unfolding minute_sends online_sends status_sends
  round_sends counter s1 =
      let s2 = every 30 counter minute_sends s1 in
      elim (if counter % 600 == 0 then online_sends s2 else some s2) [
        | none ↦ none
        | some s3 ↦ some (every 1800 counter status_sends s3)
      ]

  -- The counters are `int`s that would take years to overflow.
  unfoldable pub qqclient_keepalive : Client → Option Client
  unfolding round_sends
  qqclient_keepalive c =
      let c1 = record c { keep_alive_counter = c.keep_alive_counter + 1 } in
      let s1 = packetmgr_check_packet env 5 c.session in
      let round = round_sends c.keep_alive_counter s1 in
      if not (is_active c.session.process)
      then some c1
      else if not (is_login s1.process)
      then some (with_session c1 s1)
      else elim round [
        | none ↦ none
        | some s4 ↦ some (record c1 {
          session = record s4 { online_clock = s4.online_clock + 1 };
          login_finish =
              if c.login_finish == 0 && nothing_to_send s4.mgr then 1 else c.login_finish;
        })
      ]

unfoldable pub qqclient_detach : Client → Client
qqclient_detach c =
    if is_init c.session.process
    then c
    else set_process (record c { login_finish = 2 }) Process.init

-- `packetmgr_end` of src/packetmgr.c: the packets that it frees, in order
unfoldable pub packetmgr_end : PacketMgr → List QqPacket
packetmgr_end m =
    loop_cleanup null_packet m.sent_loop
    ++ (loop_cleanup null_packet m.ready_loop ++ loop_cleanup null_packet m.temp_loop)

unfoldable pub qqclient_logout : Client → List QqPacket × Client
unfolding qqclient_detach packetmgr_end
qqclient_logout c =
    let c1 = if c.login_finish == 2 then c else qqclient_detach c in
    if not (c.login_finish == 2) && is_init c.session.process
    then ([], c)
    else (packetmgr_end c1.session.mgr, record c1 { login_finish = 0 })

-- the part of `qqclient_login` that connects
unfoldable pub connect_client : Conn → Env → Client → Bool × Client
connect_client conn env c =
    let s1 = qqclient_set_process c.session Process.logging in
    let s2 = packetmgr_new_seqno env (with_mgr s1 packetmgr_start) in
    let (ok, s3) = conn.connect s2 in
    if not ok then (false, set_process (with_session c s3) Process.error) else (
      true,
      record c {
        session =
            if is_proxy s3.account.network
            then conn.establish s3
            else prot_login_touch env false s3;
        keep_alive_counter = 0;
      },
    )

abbrev pub with_sent : Client → Option Session → Option Client
with_sent c none = none
with_sent c (some s) = some (with_session c s)

-- `false` is a negative result. `none` is a token that is longer than its array.
unfoldable pub qqclient_login : Conn → Env → Client → Option (Bool × Client)
unfolding qqclient_logout connect_client
qqclient_login conn env c =
    let verified =
      with_sent c (prot_login_verify env false (qqclient_set_process c.session Process.logging)) in
    let connected =
      connect_client conn env (if c.login_finish == 2 then (qqclient_logout c).1 else c) in
    if is_init c.session.process
    then some connected
    else if not (is_waiting c.session.process)
    then some (false, c)
    else elim verified [ none ↦ none | some c' ↦ some (true, c') ]

unfoldable pub qqclient_put_message : Client → Event → Client
qqclient_put_message c e = record c { msg_loop = (loop_push_to_tail null_event c.msg_loop e).1 }

-- What the caller of `qqclient_get_event` gets: 1 with an event, 0 without, or -1.
pub data Result : Type 0 where
  event : Event → Result
  no_event refused : Result

-- the event that a round of the loop finds, with the client after it
unfoldable pub next_event : Client → Option (Event × Client)
next_event c =
    let (e, events) = loop_pop_from_head null_event c.session.event_loop in
    let (m, messages) = loop_pop_from_head null_event c.msg_loop in
    elim e [
      | some x ↦ some (x, record c { session = record (c.session) { event_loop = events } })
      | none ↦ elim (ltb 10 c.session.online_clock) [
        | false ↦ none
        | true ↦ elim m [ none ↦ none | some x ↦ some (x, record c { msg_loop = messages }) ]
      ]
    ]

-- One round, with what is done when there is no event.
abbrev pub round : Client → Result × Client → Result × Client
round c later = elim (is_init c.session.process) [
  | true ↦ (refused, c)
  | false ↦ elim (next_event c) [ some (x, c') ↦ (event x, c') | none ↦ later ]
]

-- The rounds for a `wait` of 0 or more; `between` is what other threads do while it sleeps.
unfoldable pub poll : (Client → Client) → ℕ → Client → Result × Client
unfolding next_event
poll between zero c = round c (no_event, c)
poll between (suc wait) c = round c (poll between wait (between c))

unfoldable pub qqclient_get_event : (Client → Client) → ℕ → Client → Result × Client
unfolding poll
qqclient_get_event between wait c = if c.locked then (refused, c) else poll between wait c

-- The copy of the event's text into `event`, an array of `size` bytes or more.
unfoldable pub copy_event : List ℕ → ℕ → List ℕ → List ℕ
copy_event buf size text =
    if ltb (length text) size
    then overwrite buf 0 (text ++ (0 ∷ []))
    else overwrite buf 0 (take (size - 1) text)

-- `qqclient_wait` for `sec` > 0: whether the loops get empty within `sec` rounds.
unfoldable pub wait_rounds : (Client → Client) → ℕ → Client → Bool × Client
wait_rounds between zero c = (false, c)
wait_rounds between (suc sec) c =
    let (ok, c') = wait_rounds between sec (between c) in
    if is_init c.session.process
    then (false, c)
    else (if nothing_to_send c.session.mgr then (true, c) else (ok, c'))

unfoldable pub qqclient_wait : (Client → Client) → ℕ → Client → Bool × Client
unfolding wait_rounds
qqclient_wait between sec c = if c.locked then (false, c) else wait_rounds between sec c
