-- ===== src/Protocol/Seal.antt =====
-- `post_packet` of src/protocol.c up to `packetmgr_put`: the packet's payload is enciphered
-- behind the room for the header, then the tail byte and the header are written round it. The
-- array `encrypted` has 4096 bytes, which hold the cipher of a payload of up to 4086 bytes. The
-- source writes behind it for a longer one, which is not modelled: `seal_packet` stands for the code
-- for payloads of up to 4086 bytes, as every body that fits has. The bytes of `login_info_magic`
-- are in its array where the senders of src/prot_login.c have tested its length.
use myqq.Base.{
  ℕ, ◌+◌, Bool, ◌||◌, List, [], ◌∷◌, ◌++◌, leb, ◌==◌, if◌then◌else◌, length, take, overwrite,
}
use myqq.Packet.{ByteBuffer, put_byte, put_word, put_int, put_data, word_bytes}
use myqq.Crypt.{qqencrypt}
use myqq.Protocol.{Network, KeyType, no_key, random_key, session_key, QqPacket, Account, is_stream}
use myqq.Protocol.Commands

abbrev pub head_len : Network → ℕ
head_len n = if is_stream n then 24 else 22

abbrev pub unknown_packet_flags : List ℕ
unknown_packet_flags =
    0x02 ∷ 0x00 ∷ 0x00 ∷ 0x00 ∷ 0x01 ∷ 0x01 ∷ 0x01 ∷ 0x00 ∷ 0x00 ∷ 0x64 ∷ 0x70 ∷ []

-- the commands whose packets carry the login token in place of the key
abbrev pub has_login_magic : ℕ → Bool
has_login_magic c =
    c == Commands.login_send_info
    || c == Commands.login_get_info
    || c == Commands.login_get_list
    || c == Commands.login_a4

-- the bytes written by the caller
abbrev pub payload : QqPacket → List ℕ
payload p = take p.buf.pos p.buf.bytes

-- what goes behind the header, for each kind of key
unfoldable pub sealed_body : Account → QqPacket → KeyType → List ℕ
sealed_body a p no_key = payload p
sealed_body a p random_key =
    let encrypted = qqencrypt (payload p) p.key in
    let magic = a.login_info_magic in
    if has_login_magic p.command
    then word_bytes magic.len ++ (take magic.len magic.bytes ++ encrypted)
    else take 16 p.key ++ encrypted
sealed_body a p session_key = qqencrypt (payload p) a.session_key

-- A body that does not fit is not written; the packet goes on as it is.
unfoldable pub place : ByteBuffer → ℕ → List ℕ → ByteBuffer
place b n body =
    if leb (n + length body + 1) b.size
    then record b { bytes = overwrite b.bytes n body; pos = n + length body }
    else b

unfoldable pub put_header : Account → QqPacket → ByteBuffer → ByteBuffer
put_header a p b =
    let b1 = if is_stream a.network then put_word b b.len else b in
    let b2 = put_word (put_word (put_word (put_byte b1 p.head) p.version) p.command) p.seqno in
    put_data (put_int b2 a.number) unknown_packet_flags

unfoldable pub seal_packet : Account → QqPacket → KeyType → QqPacket
unfolding sealed_body place put_header
seal_packet a p k =
    let b = put_byte (place p.buf (head_len a.network) (sealed_body a p k)) p.tail in
    record p { buf = put_header a p (record b { len = b.pos; pos = 0 }); key_type = k }
