-- ===== src/PacketMgr.antt =====
-- src/packetmgr.c: the packets waiting to be sent, the one in flight and the replies. A packet
-- is posted into `ready_loop`, or by the receiving thread into `temp_loop`, which is emptied into
-- `ready_loop` when the packet at hand is done. One packet at a time is in flight, in `sent_loop`.
pub mod Examples
pub mod Flush
pub mod InFlight
pub mod Receive
pub mod Steps
pub mod Stream
mod Tests
use myqq.Base.{
  ℕ, zero, suc, ◌+◌, ◌-◌, ◌*◌, ◌%◌, bit_and, bit_or, Bool, true, false, not, ◌&&◌, ◌||◌, Option,
  none, some, List, [], ◌∷◌, ◌++◌, ltb, leb, ◌==◌, if◌then◌else◌, length, get_or, take, replicate,
  overwrite,
}
use myqq.Packet.{ByteBuffer, M, ◌>>=◌, ◌>>◌, pure, packet_size, get_byte, get_word, get_int}
use myqq.Loop.{
  Loop, loop_create, loop_is_empty, loop_push_to_tail, loop_push_to_head, loop_pop_from_head,
  loop_pop_from_tail, loop_search, loop_remove,
}
use myqq.Protocol.{Network, KeyType, QqPacket, Account, is_stream}
use myqq.Protocol.Commands
use myqq.Protocol.Commands.{Handler}
use myqq.Protocol.Seal.{seal_packet}
use myqq.Protocol.Open.{process_packet}
use myqq.Session.{
  Process, Event, Notice, PacketMgr, Session, Env, null_packet, qqclient_put_event,
  qqclient_set_process, is_login,
}

abbrev pub empty_buffer : ByteBuffer
empty_buffer = record { pos = 0; len = 0; size = packet_size; bytes = replicate packet_size 0 }

-- A new address for each allocation.
unfoldable pub packetmgr_new_packet : Env → Session → QqPacket × Session
packetmgr_new_packet env s = (
  record null_packet {
    id = s.next_id;
    buf = empty_buffer;
    time_create = env.now;
    time_alive = env.now;
    key = replicate 16 0;
    need_ack = true;
  },
  record s { next_id = s.next_id + 1 },
)

unfoldable pub packetmgr_inc_seqno : Env → Session → Session
packetmgr_inc_seqno env s = record s { seqno = env.rand s.next_id % 65536 }

unfoldable pub packetmgr_new_seqno : Env → Session → Session
packetmgr_new_seqno env s = record s { seqno = bit_and (env.rand s.next_id) 0xf * 8 }

unfoldable pub packetmgr_new_send : Env → ℕ → Session → QqPacket × Session
unfolding packetmgr_new_packet packetmgr_inc_seqno
packetmgr_new_send env cmd s =
    let (p, s') = packetmgr_new_packet env s in
    (
      record p {
        head = 0x02;
        tail = 0x03;
        command = cmd;
        version = s.account.version;
        seqno = s.seqno;
      },
      packetmgr_inc_seqno env s',
    )

abbrev pub with_mgr : Session → PacketMgr → Session
with_mgr s m = record s { mgr = m }

-- the bytes given to `qqsocket_send`
abbrev pub wire : QqPacket → List ℕ
wire p = take p.buf.len p.buf.bytes

-- a packet taken from `ready_loop`, the rest of it being in `s` already
unfoldable pub send_ready : Env → QqPacket → Session → Session
send_ready env p s =
    if not (p.head == 0x02) || not (p.tail == 0x03)
    then s
    else (if not (env.socket (wire p) == p.buf.len)
        then qqclient_set_process s Process.error
        else (if p.need_ack
            then with_mgr s (record (s.mgr) {
              sent_loop =
                  (loop_push_to_tail null_packet s.mgr.sent_loop
                    (record p { time_alive = env.now })).1;
            })
            else s))

unfoldable pub check_ready_packets : Env → Session → Session
unfolding send_ready
check_ready_packets env s =
    let (p, ready) = loop_pop_from_head null_packet s.mgr.ready_loop in
    let s' = with_mgr s (record (s.mgr) { ready_loop = ready }) in
    if not (loop_is_empty null_packet s.mgr.sent_loop) || loop_is_empty null_packet s.mgr.ready_loop
    then s
    else elim p [ none ↦ s' | some q ↦ send_ready env q s' ]

-- `in_recv`: the caller is the receiving thread.
unfoldable pub packetmgr_put_urge : Env → Bool → QqPacket → Session → Session
unfolding check_ready_packets
packetmgr_put_urge env in_recv p s =
    let q = record p { time_alive = env.now; send_times = p.send_times + 1 } in
    let temp = (loop_push_to_tail null_packet s.mgr.temp_loop q).1 in
    let ready = (loop_push_to_tail null_packet s.mgr.ready_loop q).1 in
    if in_recv
    then with_mgr s (record (s.mgr) { temp_loop = temp })
    else check_ready_packets env (with_mgr s (record (s.mgr) { ready_loop = ready }))

unfoldable pub packetmgr_put : Env → Bool → QqPacket → Session → Session
unfolding packetmgr_put_urge
packetmgr_put env in_recv p s = packetmgr_put_urge env in_recv p s

-- `post_packet` of src/protocol.c
unfoldable pub post_packet : Env → Bool → QqPacket → KeyType → Session → Session
unfolding packetmgr_put
post_packet env in_recv p k s = packetmgr_put env in_recv (seal_packet s.account p k) s

abbrev pub same_packet : QqPacket → QqPacket → Bool
same_packet p q = q.id == p.id

-- the packet in flight that `p` replies to
unfoldable pub match_packet : PacketMgr → QqPacket → Option QqPacket
match_packet m p =
    loop_search null_packet m.sent_loop (λ q. q.command == p.command && q.seqno == p.seqno)

-- `while( t = loop_pop_from_tail( temp ) ) loop_push_to_head( ready, t );`
unfoldable pub flush_temp : ℕ → Loop QqPacket → Loop QqPacket → Loop QqPacket × Loop QqPacket
flush_temp zero temp ready = (temp, ready)
flush_temp (suc fuel) temp ready = elim ((loop_pop_from_tail null_packet temp).0) [
  | none ↦ (temp, ready)
  | some t ↦
      flush_temp fuel (loop_pop_from_tail null_packet temp).1
        (loop_push_to_head null_packet ready t).1
]

-- The loop holds fewer items than it has slots.
unfoldable pub flush : PacketMgr → PacketMgr
unfolding flush_temp
flush m =
    let (temp, ready) = flush_temp m.temp_loop.size m.temp_loop m.ready_loop in
    record m { temp_loop = temp; ready_loop = ready }

-- the header of a packet that arrives, as `handle_packet` reads it
unfoldable pub read_header : Bool → QqPacket → M QqPacket
read_header stream p = do
  skipped ← (if stream then get_word else pure 0)
  head ← get_byte
  pure (record p { head = head })

unfoldable pub read_rest : QqPacket → M QqPacket
read_rest p = do
  version ← get_word
  command ← get_word
  seqno ← get_word
  number ← get_int
  pure (record p { version = version; command = command; seqno = seqno })

-- `(p->seqno<<16)|p->command`
abbrev pub chk_repeat : QqPacket → ℕ
chk_repeat p = bit_or (p.seqno * 65536) p.command

-- The entry is the value itself as a pointer, so that 0 is found as NULL.
unfoldable pub is_repeated : PacketMgr → ℕ → Bool
is_repeated m chk = elim (loop_search 0 m.recv_loop (λ v. v == chk)) [
  | none ↦ false
  | some v ↦ not (v == 0)
]

-- The handlers of `process_packet`, run on the packet that was opened. `none` is a handler that
-- writes past the end of an array, or that never returns.
abbrev pub Handlers : Type 0
Handlers = Handler → QqPacket → Session → Option Session

-- `process_packet`: a packet that is not deciphered changes nothing.
unfoldable pub run_handler : Handlers → Option (QqPacket × Handler) → Session → Option Session
run_handler run none s = some s
run_handler run (some (q, h)) s = run h q s

-- what follows `process_packet`, with the packet that was answered
unfoldable pub settle : Option QqPacket → Session → Session
unfolding flush
settle matched s =
    let m = flush s.mgr in
    let sent : Loop QqPacket = elim matched [
      | none ↦ m.sent_loop
      | some q ↦ loop_remove null_packet m.sent_loop (same_packet q)
    ] in
    with_mgr s (record m { sent_loop = sent; failed_packets = 0 })

-- a packet that is no repetition, up to the end of its branch
unfoldable pub accept : Env → Handlers → QqPacket → ByteBuffer → Session → Option Session
unfolding match_packet run_handler settle
accept env run p buf s =
    let m = record (s.mgr) { recv_loop = (loop_push_to_tail 0 s.mgr.recv_loop (chk_repeat p)).1 } in
    let matched = match_packet m p in
    let opened = process_packet s.account matched (record p { time_alive = env.now }) buf in
    elim (run_handler run opened (with_mgr s m)) [
      | none ↦ none
      | some s' ↦ some (settle matched s')
    ]

-- a packet whose header is read, to the end of `handle_packet`
unfoldable pub handle_body : Env → Handlers → QqPacket → ByteBuffer → Session → Option Session
unfolding accept is_repeated check_ready_packets
handle_body env run p buf s =
    let accepted = accept env run p (record buf { pos = buf.pos + 3 }) s in
    elim (if is_repeated s.mgr (chk_repeat p) then some s else accepted) [
      | none ↦ none
      | some s' ↦ some (check_ready_packets env s')
    ]

-- The header of a packet: `none` is one that is refused.
unfoldable pub check_header : Network → QqPacket → List ℕ → Option (QqPacket × ByteBuffer)
unfolding read_header read_rest
check_header network p bytes =
    let n = length bytes in
    let buf : ByteBuffer = record {
      pos = 0;
      len = n;
      size = n;
      bytes = overwrite (replicate packet_size 0) 0 bytes;
    } in
    let tail = get_or buf.bytes (n - 1) 0 in
    elim (read_header (is_stream network) p buf) [
      | none ↦ none
      | some (p1, buf1) ↦
          if not (p1.head == 0x02) || not (tail == 0x03) || ltb 2000 n
          then none
          else read_rest (record p1 { tail = tail }) buf1
    ]

-- `false` is a packet that is refused.
unfoldable pub handle_packet :
    Env → Handlers → QqPacket → List ℕ → Session → Option (Bool × Session)
unfolding handle_body check_header
handle_packet env run p bytes s =
    let s1 = with_mgr s (record (s.mgr) { recv_packets = s.mgr.recv_packets + 1 }) in
    elim (check_header s.account.network p bytes) [
      | none ↦ some (false, s1)
      | some (p1, buf) ↦ elim (handle_body env run p1 buf s1) [
        | none ↦ none
        | some s' ↦ some (true, s')
      ]
    ]

-- What `packetmgr_check_packet` does with a packet whose time is up, once it is out of
-- `sent_loop`.
unfoldable pub time_out : Env → QqPacket → Session → Session
unfolding packetmgr_put_urge
time_out env p s =
    let s1 =
      if p.command == Commands.send_im
      then record s { callbacks = s.callbacks ++ ((10000, Notice.send_failed) ∷ []) }
      else s in
    let s2 = qqclient_put_event s1 (Event.send_failed p.command p.seqno) in
    let s3 = with_mgr s2 (record (s2.mgr) { failed_packets = s2.mgr.failed_packets + 1 }) in
    if leb 5 p.send_times
    then (if ltb 5 s3.mgr.failed_packets || not (is_login s3.process)
        then qqclient_set_process s3 Process.error
        else s3)
    else packetmgr_put_urge env false p s

unfoldable pub packetmgr_check_packet : Env → ℕ → Session → Session
unfolding time_out check_ready_packets
packetmgr_check_packet env timeout s =
    elim (loop_search null_packet s.mgr.sent_loop (λ p. ltb (p.time_alive + timeout) env.now)) [
      | none ↦ check_ready_packets env s
      | some p ↦ check_ready_packets env (
          time_out env p (
            with_mgr s (record (s.mgr) {
              sent_loop = loop_remove null_packet s.mgr.sent_loop (same_packet p);
            })))
    ]

unfoldable pub packetmgr_start : PacketMgr
packetmgr_start = record {
  recv_packets = 0;
  failed_packets = 0;
  recv_loop = loop_create 0 32;
  ready_loop = loop_create null_packet 128;
  temp_loop = loop_create null_packet 64;
  sent_loop = loop_create null_packet 32;
}
