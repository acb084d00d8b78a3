-- ===== src/PacketMgr/Receive.antt =====
-- `packetmgr_recv` of src/packetmgr.c: what one round of the receiving thread does with the bytes
-- that `qqsocket_recv` gave it. At most `PACKET_SIZE - pos` bytes are asked for.
use myqq.Base.{
  ℕ, ◌+◌, ◌-◌, Bool, true, false, not, ◌&&◌, Option, none, some, List, leb, ◌==◌, if◌then◌else◌,
  length, set, take, drop, overwrite,
}
use myqq.Packet.{packet_size, word_at}
use myqq.Protocol.{Network, QqPacket, is_stream}
use myqq.Session.{Process, Session, Env, qqclient_set_process}
use myqq.PacketMgr.{Handlers, with_mgr, flush, check_ready_packets, handle_packet}

-- `recv_buf` and `pos`
pub record Receiver : Type 0 where
  pub buf : List ℕ
  pub pos : ℕ

abbrev pub is_proxy : Network → Bool
is_proxy Network.proxy_http = true
is_proxy _ = false

-- `strstr( recv_buf, "200" )` is `has_ok`, and `touch` is `prot_login_touch`.
module _ (has_ok : List ℕ → Bool) (touch : Session → Session) (run : Handlers) where
  -- The reply of a proxy; `pos` stays. A reply that fails is ended by a 0 in `recv_buf`.
  unfoldable pub proxy_reply : Env → List ℕ → Session → Session
  proxy_reply env buf s =
      let s1 = touch (record s { proxy_established = true }) in
      if has_ok buf
      then check_ready_packets env (with_mgr s1 (flush s1.mgr))
      else qqclient_set_process s Process.error

  -- a packet that is there as a whole, with its length in front
  unfoldable pub take_packet : Env → QqPacket → ℕ → Receiver → Session → Option (Receiver × Session)
  take_packet env p len r s =
      let left = r.pos - len in
      let rest : Receiver = record {
        buf = overwrite r.buf 0 (take left (drop len r.buf));
        pos = left;
      } in
      elim (handle_packet env run p (take len r.buf) s) [
        | none ↦ none
        | some (ok, s') ↦ some ((if ok then rest else record r { pos = 0 }), s')
      ]

  unfoldable pub receive_stream :
      Env → QqPacket → List ℕ → Receiver → Session → Option (Receiver × Session)
  unfolding proxy_reply take_packet
  receive_stream env p bytes r s =
      let r1 : Receiver = record { buf = overwrite r.buf 0 bytes; pos = r.pos + length bytes } in
      let len = word_at r1.buf 0 in
      let taken = take_packet env p len r1 s in
      if leb r1.pos 2
      then some (r1, s)
      else if not s.proxy_established && is_proxy s.account.network
      then some (
        (if has_ok r1.buf then r1 else record r1 { buf = set r1.buf (length bytes) 0 }),
        proxy_reply env r1.buf s,
      )
      else if leb len r1.pos
      then taken
      else if r1.pos == packet_size
      then some (record r1 { pos = 0 }, s)
      else some (r1, s)

  unfoldable pub packetmgr_recv :
      Env → QqPacket → List ℕ → Receiver → Session → Option (Receiver × Session)
  unfolding receive_stream
  packetmgr_recv env p bytes r s =
      let buf = overwrite r.buf 0 bytes in
      if is_stream s.account.network
      then receive_stream env p bytes r s
      else elim (handle_packet env run p (take (length bytes) buf) s) [
        | none ↦ none
        | some (ok, s') ↦ some (record { buf = buf; pos = 0 }, s')
      ]
