-- ===== src/PacketMgr/InFlight.antt =====
-- At most one packet is in flight: src/packetmgr.c sends the next only when `sent_loop` is empty.
use myqq.Base.{
  ℕ, zero, suc, ◌+◌, ◌≤◌, ◌≡◌, ap, inl, inr, Bool, true, false, not, ◌||◌, List, [], ◌∷◌, ◌++◌,
  arith, ◌==◌, Bool-cases, Option-cases, length,
}
use myqq.Loop.{
  Loop, loop_is_empty, loop_push_to_tail, loop_push_to_head, loop_pop_from_head, loop_pop_from_tail,
  loop_remove,
}
use myqq.Loop.Window.{IsLoop}
use myqq.Loop.Refine.{
  loop_create-IsLoop, loop_is_empty_lem, loop_pop_from_head_lem, loop_pop_from_tail_lem,
  loop_push_to_tail_lem, loop_push_to_head_lem,
}
use myqq.Loop.Search.{loop_remove-remove_first, remove_first}
use myqq.Protocol.{QqPacket}
use myqq.Session.{PacketMgr, Session, Env, null_packet, qqclient_put_event, qqclient_set_process}
use myqq.PacketMgr.{
  wire, send_ready, check_ready_packets, packetmgr_put_urge, same_packet, flush_temp, flush,
  packetmgr_start, with_mgr,
}
use myqq.PacketMgr.Flush.{packets, length-packets}

pub record InFlight (m : PacketMgr) : Type 0 where
  pub ready : IsLoop m.ready_loop
  pub temp : IsLoop m.temp_loop
  pub sent : IsLoop m.sent_loop
  pub one : length (packets m.sent_loop) ≤ 1

-- The start of a session has nothing in flight.
pub packetmgr_start-InFlight : InFlight packetmgr_start
unfolding packetmgr_start
packetmgr_start-InFlight =
    let r = loop_create-IsLoop null_packet 128 (omega arith) in
    let t = loop_create-IsLoop null_packet 64 (omega arith) in
    let s = loop_create-IsLoop null_packet 32 (omega arith) in
    record { ready = r.0; temp = t.0; sent = s.0; one = omega (arith, ap length s.1) }

push-one :
    (l : Loop QqPacket) (p : QqPacket)
    → IsLoop l
    → packets l ≡ []
    → length (packets (loop_push_to_tail null_packet l p).1) ≤ 1
push-one l p v e =
    let push = loop_push_to_tail_lem null_packet l p v in
    let n = length-packets l in
    let c = (push.1 (omega (arith, v.room, ap length e, n))).1 in
    omega (arith, ap length c, ap (λ t. length (t ++ (p ∷ []))) e)

send_ready-InFlight :
    (env : Env) (p : QqPacket) (s : Session)
    → InFlight s.mgr
    → packets s.mgr.sent_loop ≡ []
    → InFlight (send_ready env p s).mgr
unfolding send_ready qqclient_set_process qqclient_put_event
send_ready-InFlight env p s v e = elim (Bool-cases (not (p.head == 0x02) || not (p.tail == 0x03))) [
  | inl x ↦ rw x v
  | inr x ↦ elim (Bool-cases (not (env.socket (wire p) == p.buf.len))) [
    | inl y ↦ rw (x, y) v
    | inr y ↦ elim (Bool-cases p.need_ack) [
      | inl z ↦
          let q = record p { time_alive = env.now; need_ack = true } in
          rw (x, y, z)
            (record {
              ready = v.ready;
              temp = v.temp;
              sent = (loop_push_to_tail_lem null_packet s.mgr.sent_loop q v.sent).0;
              one = push-one s.mgr.sent_loop q v.sent e;
            })
      | inr z ↦ rw (x, y, z) v
    ]
  ]
]

-- `check_ready_packets` keeps at most one packet in flight, whatever the socket returns.
pub check_ready_packets-InFlight :
    (env : Env) (s : Session) → InFlight s.mgr → InFlight (check_ready_packets env s).mgr
unfolding check_ready_packets
check_ready_packets-InFlight env s v =
    let pop = loop_pop_from_head null_packet s.mgr.ready_loop in
    let ready = (loop_pop_from_head_lem null_packet s.mgr.ready_loop v.ready).0 in
    let s' = with_mgr s (record (s.mgr) { ready_loop = pop.1 }) in
    let v' : InFlight s'.mgr = record {
      ready = ready;
      temp = v.temp;
      sent = v.sent;
      one = v.one;
    } in
    elim (Bool-cases (loop_is_empty null_packet s.mgr.sent_loop)) [
      | inr x ↦ rw x v
      | inl x ↦ elim (Bool-cases (loop_is_empty null_packet s.mgr.ready_loop)) [
        | inl y ↦ rw (x, y) v
        | inr y ↦ elim (Option-cases pop.0) [
          | inl n ↦ rw (x, y, n) v'
          | inr (q, n) ↦
              rw (x, y, n)
                (send_ready-InFlight env q s' v'
                  ((loop_is_empty_lem null_packet s.mgr.sent_loop v.sent).0 x))
        ]
      ]
    ]

-- So does posting a packet, from either thread.
pub packetmgr_put_urge-InFlight :
    (env : Env) (in_recv : Bool) (p : QqPacket) (s : Session)
    → InFlight s.mgr
    → InFlight (packetmgr_put_urge env in_recv p s).mgr
unfolding packetmgr_put_urge
packetmgr_put_urge-InFlight env true p s v =
    let q = record p { time_alive = env.now; send_times = p.send_times + 1 } in
    record {
      ready = v.ready;
      temp = (loop_push_to_tail_lem null_packet s.mgr.temp_loop q v.temp).0;
      sent = v.sent;
      one = v.one;
    }
packetmgr_put_urge-InFlight env false p s v =
    let q = record p { time_alive = env.now; send_times = p.send_times + 1 } in
    let ready = (loop_push_to_tail null_packet s.mgr.ready_loop q).1 in
    check_ready_packets-InFlight env (with_mgr s (record (s.mgr) { ready_loop = ready })) (record {
      ready = (loop_push_to_tail_lem null_packet s.mgr.ready_loop q v.ready).0;
      temp = v.temp;
      sent = v.sent;
      one = v.one;
    })

flush_temp-IsLoop :
    (fuel : ℕ) (temp ready : Loop QqPacket)
    → IsLoop temp
    → IsLoop ready
    → let (temp', ready') = flush_temp fuel temp ready in IsLoop temp' × IsLoop ready'
unfolding flush_temp
flush_temp-IsLoop zero temp ready vt vr = (vt, vr)
flush_temp-IsLoop (suc fuel) temp ready vt vr =
    let pop = loop_pop_from_tail null_packet temp in
    elim (Option-cases pop.0) [
      | inl e ↦ rw (e, flush_temp) (vt, vr)
      | inr (t, e) ↦
          rw (e, flush_temp)
            (flush_temp-IsLoop fuel pop.1 (loop_push_to_head null_packet ready t).1
              (loop_pop_from_tail_lem null_packet temp vt).0
              (loop_push_to_head_lem null_packet ready t vr).0)
    ]

pub flush-InFlight : (m : PacketMgr) → InFlight m → InFlight (flush m)
unfolding flush
flush-InFlight m v =
    let r = flush_temp-IsLoop m.temp_loop.size m.temp_loop m.ready_loop v.temp v.ready in
    record { ready = r.1; temp = r.0; sent = v.sent; one = v.one }

length-remove_first :
    (test : QqPacket → Bool) (xs : List QqPacket) → length (remove_first test xs) ≤ length xs
unfolding remove_first
length-remove_first test [] = omega arith
length-remove_first test (x ∷ xs) = ground (arith, length-remove_first test xs)

pub remove-InFlight :
    (m : PacketMgr) (p : QqPacket)
    → InFlight m
    → InFlight (record m { sent_loop = loop_remove null_packet m.sent_loop (same_packet p) })
remove-InFlight m p v =
    let r = loop_remove-remove_first null_packet m.sent_loop v.sent (same_packet p) in
    record {
      ready = v.ready;
      temp = v.temp;
      sent = r.0;
      one =
          omega (
            arith,
            v.one,
            ap length r.1,
            length-remove_first (same_packet p) (packets m.sent_loop),
          );
    }
