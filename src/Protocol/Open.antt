-- ===== src/Protocol/Open.antt =====
-- `decrypt_with_key`, `decrypt_packet` and the guard of `process_packet` in src/protocol.c.
use myqq.Base.{
  ℕ, ◌-◌, ◌||◌, Option, none, some, List, [], ◌∷◌, ◌++◌, ltb, ◌==◌, if◌then◌else◌, length, take,
  drop, overwrite,
}
use myqq.Packet.{ByteBuffer, packet_size}
use myqq.Crypt.{qqdecrypt}
use myqq.Protocol.{Network, no_key, random_key, session_key, QqPacket, Account, is_stream}
use myqq.Protocol.Commands
use myqq.Protocol.Commands.{Handler, handler_of}

-- the length of the header of a packet that arrives
abbrev pub recv_head_len : Network → ℕ
recv_head_len n = if is_stream n then 16 else 14

-- The bytes between the header and the tail. A packet shorter than both has a negative length in
-- the source, which `qqdecrypt` refuses as it does this empty list.
abbrev pub recv_body : Account → ByteBuffer → List ℕ
recv_body a buf =
    take (buf.len - recv_head_len a.network - 1) (drop (recv_head_len a.network) buf.bytes)

abbrev pub fill_buffer : ByteBuffer → List ℕ → ByteBuffer
fill_buffer b xs = record b { bytes = overwrite b.bytes 0 xs; pos = 0; len = length xs }

-- `none` is the result 0. The plaintext goes into the packet's own buffer, unless it fills it.
unfoldable pub decrypt_with_key : Account → QqPacket → ByteBuffer → List ℕ → Option QqPacket
decrypt_with_key a p buf key = elim (qqdecrypt (recv_body a buf) key packet_size) [
  | none ↦ none
  | some text ↦ some (record p {
    buf =
        if ltb (length text) packet_size
        then fill_buffer p.buf text
        else record (p.buf) { pos = 0; len = length text };
  })
]

-- The first call that succeeds decides.
infixr 30 ◌orelse◌
abbrev pub ◌orelse◌ : Option QqPacket → Option QqPacket → Option QqPacket
none orelse b = b
some p orelse b = some p

-- the keys that are tried for a reply to a packet under a random key, before that packet's own
unfoldable pub login_keys : Account → ℕ → List (List ℕ)
login_keys a c =
    (if c == Commands.login_verify then a.verify_key2 ∷ [] else [])
    ++ ((if c == Commands.login_get_info then a.login_info_key3 ∷ [] else [])
        ++ (if c == Commands.login_send_info || c == Commands.login_get_list
            then a.login_info_key2 ∷ []
            else []))

unfoldable pub try_keys : Account → QqPacket → ByteBuffer → List (List ℕ) → Option QqPacket
unfolding decrypt_with_key
try_keys a p buf [] = none
try_keys a p buf (key ∷ keys) = decrypt_with_key a p buf key orelse try_keys a p buf keys

-- `matched` is the packet that `p->match` points to.
unfoldable pub decrypt_packet : Account → Option QqPacket → QqPacket → ByteBuffer → Option QqPacket
unfolding try_keys login_keys
decrypt_packet a none p buf = try_keys a p buf (a.session_key ∷ (a.md5_pass2 ∷ []))
decrypt_packet a (some m) p buf = elim m.key_type [
  | no_key ↦ some (record p { buf = fill_buffer p.buf (recv_body a buf) })
  | random_key ↦ try_keys a p buf (login_keys a p.command ++ (m.key ∷ (a.md5_pass2 ∷ [])))
  | session_key ↦ try_keys a p buf (a.session_key ∷ (a.md5_pass2 ∷ []))
]

-- The packet opened and the handler that gets it; `none` is the -1 of a packet that no key opens.
unfoldable pub process_packet :
    Account → Option QqPacket → QqPacket → ByteBuffer → Option (QqPacket × Handler)
unfolding decrypt_packet
process_packet a matched p buf = elim (decrypt_packet a matched p buf) [
  | none ↦ none
  | some q ↦ some (q, handler_of q.command)
]
