-- ===== src/Prot/ImSend.antt =====
-- The senders of src/prot_im.c, with `get_splitable_pos` of src/util.c: a message is cut into slices
-- of at most 700 bytes, each of which is a packet of its own.
use myqq.Base.{
  ℕ, zero, suc, ◌+◌, ◌-◌, ◌*◌, ◌/◌, ◌%◌, bit_or, Bool, true, false, not, ◌&&◌, Option, none, some,
  List, [], ◌∷◌, ltb, leb, ◌==◌, if◌then◌else◌, length, get_or, take, drop,
}
use myqq.Packet.RoundTrip.{byte, word, int, block, put_fields}
use myqq.Protocol.{KeyType, QqPacket}
use myqq.Protocol.Commands
use myqq.Session.{Session, Env}
use myqq.PacketMgr.{packetmgr_new_send, post_packet}
use myqq.Prot.{send_packet, self}
use myqq.Prot.QunSend.{font_name}

-- `do pos--; while( pos && buf[pos]<0xC2 );`
unfoldable pub walk_back : List ℕ → ℕ → ℕ
walk_back buf zero = 0
walk_back buf (suc pos) =
    let rest = walk_back buf pos in
    if not (pos == 0) && ltb (get_or buf pos 0) 0xC2 then rest else pos

unfoldable pub get_splitable_pos : List ℕ → ℕ → ℕ
unfolding walk_back
get_splitable_pos buf pos =
    if leb 0x80 (get_or buf pos 0) && leb (get_or buf pos 0) 0xBF then walk_back buf pos else pos

abbrev pub max_length : ℕ
max_length = 700

-- `pos+MIN( len-pos, max_length )`
abbrev pub window_end : List ℕ → ℕ → ℕ
window_end msg pos =
    if ltb max_length (length msg - pos) then pos + max_length else pos + (length msg - pos)

-- The slices from `pos` on, with the rounds that are left. `none` is a slice that would end before
-- it starts, whose negative length is given to `memcpy`.
unfoldable pub cut : List ℕ → ℕ → ℕ → Option (List (List ℕ))
unfolding get_splitable_pos
cut msg zero pos = some []
cut msg (suc left) pos =
    let end_pos = get_splitable_pos msg (window_end msg pos) in
    elim (ltb end_pos pos) [
      | true ↦ none
      | false ↦ elim (cut msg left end_pos) [
        | none ↦ none
        | some slices ↦ some (take (end_pos - pos) (drop pos msg) ∷ slices)
      ]
    ]

module _ (env : Env) (in_recv : Bool) where
  -- a slice that is not empty
  abbrev pub send_slice : ℕ → List ℕ → ℕ → ℕ → ℕ → Session → Session
  send_slice to msg msg_id slice_count which_piece =
      send_packet env in_recv Commands.send_im true (λ s p b. put_fields b (
        int s.account.number
        ∷ int to
        ∷ int 0x00000008
        ∷ int 0x00010004
        ∷ int 0x00000000
        ∷ word s.account.version
        ∷ int s.account.number
        ∷ int to
        ∷ block s.qqdata.im_key
        ∷ word 0x000b
        ∷ word p.seqno
        ∷ int p.time_create
        ∷ word (self s).face
        ∷ int 1
        ∷ byte (slice_count % 256)
        ∷ byte (which_piece % 256)
        ∷ word msg_id
        ∷ byte 1
        ∷ int 0x4D534700
        ∷ int 0x00000000
        ∷ int p.time_create
        ∷ int (bit_or (msg_id * 65536) msg_id)
        ∷ int 0x00000000
        ∷ int 0x09008600
        ∷ word (length font_name)
        ∷ block font_name
        ∷ word 0x0000
        ∷ byte 0x01
        ∷ word (length msg + 3)
        ∷ byte 1
        ∷ word (length msg)
        ∷ block msg
        ∷ []))

  unfoldable pub prot_im_send_msg_ex : ℕ → List ℕ → ℕ → ℕ → ℕ → Session → Session
  prot_im_send_msg_ex to msg msg_id slice_count which_piece s =
      if length msg == 0 then s else send_slice to msg msg_id slice_count which_piece s

  unfoldable pub send_slices : ℕ → ℕ → ℕ → ℕ → List (List ℕ) → Session → Session
  unfolding prot_im_send_msg_ex
  send_slices to msg_id slice_count i [] s = s
  send_slices to msg_id slice_count i (m ∷ ms) s =
      send_slices to msg_id slice_count (i + 1) ms (prot_im_send_msg_ex to m msg_id slice_count i s)

  -- `random` is the result of `rand()`.
  unfoldable pub prot_im_send_msg : ℕ → ℕ → List ℕ → Session → Option Session
  unfolding cut send_slices
  prot_im_send_msg random to msg s =
      let slice_count = length msg / max_length + 1 in
      elim (cut msg slice_count 0) [
        | none ↦ none
        | some slices ↦ some (send_slices to (random % 65536) slice_count 0 slices s)
      ]

  -- The sequence number and the first 16 bytes are those of the packet that is acknowledged.
  unfoldable pub prot_im_ack_recv : QqPacket → Session → Session
  prot_im_ack_recv pre s =
      let (p, s') = packetmgr_new_send env pre.command s in
      post_packet env in_recv
        (record p {
          seqno = pre.seqno;
          need_ack = false;
          buf = put_fields p.buf (block (take 16 pre.buf.bytes) ∷ []);
        })
        KeyType.session_key s'
