-- ===== src/PacketMgr/Tests.antt =====
-- Examples for the packet manager: a session that posts a packet, and handlers that post a reply.
use myqq.Base.{
  ℕ, ◌+◌, ◌≡◌, refl, Bool, true, false, none, some, List, [], ◌∷◌, ◌++◌, arith, take, replicate,
}
use myqq.Loop.{Loop}
use myqq.Protocol.{Network, QqPacket}
use myqq.Packet.{get_byte, get_word}
use myqq.Session.{PacketMgr, Session, null_packet}
use myqq.PacketMgr.{
  Handlers, packetmgr_put_urge, handle_packet, packetmgr_start, flush, check_header, read_header,
}
use myqq.PacketMgr.Examples.{account, first_session, env}
use myqq.PacketMgr.Flush.{IsFlushed, flush-IsFlushed}
use myqq.PacketMgr.Receive.{Receiver, packetmgr_recv}
use myqq.PacketMgr.Stream.{packetmgr_recv-handle_packet, packetmgr_recv-overwrites}

abbrev ping : QqPacket
ping = record null_packet { id = 1; head = 2; tail = 3; command = 88; need_ack = true }

-- Each handler answers with a packet of its own, from the receiving thread.
unfoldable answer : Handlers
unfolding packetmgr_put_urge
answer h q s = some (packetmgr_put_urge env true (record ping { id = 2 }) s)

-- a packet that is refused is only counted
abbrev counted : Session → Session
counted s = record s { mgr = record (s.mgr) { recv_packets = s.mgr.recv_packets + 1 } }

handle_packet-refused :
    (bytes : List ℕ) (s : Session)
    → check_header s.account.network null_packet bytes ≡ none
    → handle_packet env answer null_packet bytes s ≡ some (false, counted s)
unfolding handle_packet
handle_packet-refused bytes s e = rw (handle_packet, e) refl

-- a manager with two packets kept back and one ready
abbrev loop_of : List QqPacket → ℕ → Loop QqPacket
loop_of items n = record { size = 4; head = 0; tail = n; items = items }

abbrev busy : PacketMgr
busy = record packetmgr_start {
  temp_loop =
      loop_of (record ping { id = 1 } ∷ record ping { id = 2 } ∷ null_packet ∷ null_packet ∷ []) 2;
  ready_loop = loop_of (record ping { id = 3 } ∷ null_packet ∷ null_packet ∷ null_packet ∷ []) 1;
}

flush-IsFlushed_example :
    IsFlushed busy.temp_loop busy.ready_loop (flush busy).temp_loop (flush busy).ready_loop
    × ((flush busy).sent_loop ≡ busy.sent_loop)
    × ((flush busy).recv_loop ≡ busy.recv_loop)
flush-IsFlushed_example =
    flush-IsFlushed busy
      (record { room = omega arith; array = refl; head_in = omega arith; tail_in = omega arith })
      (record { room = omega arith; array = refl; head_in = omega arith; tail_in = omega arith })
      (omega arith)

abbrev tcp_session : Session
tcp_session = record first_session { account = record account { network = Network.tcp } }

abbrev no_ok : List ℕ → Bool
no_ok buf = false

abbrev no_touch : Session → Session
no_touch s = s

abbrev empty_receiver : Receiver
empty_receiver = record { buf = replicate 64 0; pos = 0 }

-- a packet of 16 bytes, and the start of one of 1024 bytes after ten bytes of it
abbrev whole : List ℕ
whole = 0 ∷ 16 ∷ 9 ∷ (replicate 12 0 ++ (3 ∷ []))

abbrev half_receiver : Receiver
half_receiver = record { buf = replicate 64 4; pos = 10 }

abbrev more : List ℕ
more = 4 ∷ 0 ∷ 9 ∷ []

whole-refused : check_header Network.tcp null_packet whole ≡ none
unfolding check_header read_header get_byte get_word
whole-refused = refl

packetmgr_recv-handle_packet_example :
    (r : Receiver) × (packetmgr_recv no_ok no_touch answer env null_packet whole empty_receiver
        tcp_session
      ≡ some (r, counted tcp_session))
    × (r.pos ≡ 0)
packetmgr_recv-handle_packet_example =
    packetmgr_recv-handle_packet no_ok no_touch answer env null_packet whole empty_receiver
      tcp_session refl refl (omega arith) (omega arith) false (counted tcp_session) refl refl
      (handle_packet-refused whole tcp_session whole-refused)

packetmgr_recv-overwrites_example :
    (r : Receiver) × (packetmgr_recv no_ok no_touch answer env null_packet more half_receiver
        tcp_session
      ≡ some (r, tcp_session))
    × (take 3 r.buf ≡ more)
    × (r.pos ≡ 13)
packetmgr_recv-overwrites_example =
    packetmgr_recv-overwrites no_ok no_touch answer env null_packet more half_receiver tcp_session
      refl refl (omega arith) (omega arith) (omega arith) (omega arith)
