-- ===== src/Protocol/Tests.antt =====
-- Examples for packets that are sealed and opened, over UDP.
use myqq.Base.{
  ℕ, ◌+◌, ◌-◌, ◌≤◌, ◌<◌, ◌≡◌, refl, true, some, List, [], ◌∷◌, ◌++◌, arith, length, take, drop,
  replicate, length-replicate,
}
use myqq.Packet.{ByteBuffer}
use myqq.Packet.Store.{IsWritable}
use myqq.Crypt.{qqencrypt, qqdecrypt}
use myqq.Crypt.RoundTrip.{length-qqencrypt}
use myqq.Protocol.{Network, KeyType, QqPacket, Account}
use myqq.Protocol.Commands.{Handler}
use myqq.Protocol.Seal.{head_len, payload, sealed_body, seal_packet}
use myqq.Protocol.SealLaws.{wire, frame, seal_packet-frame, seal_packet-session, header_fields}
use myqq.Protocol.Unsealed.{seal_packet-too_large}
use myqq.Packet.RoundTrip.{encode}
use myqq.Protocol.Open.{process_packet}
use myqq.Protocol.Arrival.{arrived, reply_codes, Reads, process_packet-session}

abbrev key : List ℕ
key = replicate 16 77

abbrev account : Account
account = record {
  number = 123456;
  version = 4609;
  network = Network.udp;
  session_key = key;
  md5_pass2 = [];
  verify_key2 = [];
  login_info_key2 = [];
  login_info_key3 = [];
  login_info_magic = record { len = 0; bytes = [] };
}

-- a packet of `n` bytes of payload in a buffer of `size` bytes
abbrev packet_of : ℕ → ℕ → QqPacket
packet_of n size = record {
  id = 1;
  head = 2;
  tail = 3;
  version = 4609;
  command = 23;
  seqno = 5;
  buf = record { pos = n; len = 0; size = size; bytes = replicate size 9 };
  time_create = 0;
  time_alive = 0;
  send_times = 0;
  key_type = KeyType.no_key;
  key = [];
  need_ack = true;
}

small-IsWritable : IsWritable (packet_of 3 64).buf
small-IsWritable = record { cursor = omega arith; room = omega arith }

large-IsWritable : IsWritable (packet_of 30 40).buf
large-IsWritable = record { cursor = omega arith; room = omega arith }

small-fits :
    head_len account.network + length (sealed_body account (packet_of 3 64) KeyType.session_key) + 1
    ≤ 64
unfolding sealed_body
small-fits = omega (arith, length-qqencrypt (payload (packet_of 3 64)) key)

large-over :
    40
    < head_len account.network
      + length (sealed_body account (packet_of 30 40) KeyType.session_key)
      + 1
unfolding sealed_body
large-over = omega (arith, length-qqencrypt (payload (packet_of 30 40)) key)

seal_packet-frame_example :
    let sent = seal_packet account (packet_of 3 64) KeyType.session_key in
    let body = sealed_body account (packet_of 3 64) KeyType.session_key in
    (wire sent ≡ frame account (packet_of 3 64) body)
    × (sent.buf.len ≡ head_len account.network + length body + 1)
seal_packet-frame_example =
    seal_packet-frame account (packet_of 3 64) KeyType.session_key small-IsWritable (omega arith)
      small-fits

seal_packet-session_example :
    let sent = wire (seal_packet account (packet_of 3 64) KeyType.session_key) in
    let h = head_len account.network in
    qqdecrypt (take (length sent - h - 1) (drop h sent)) key 3 ≡ some (9 ∷ 9 ∷ 9 ∷ [])
seal_packet-session_example =
    seal_packet-session account (packet_of 3 64) KeyType.session_key small-IsWritable refl
      (omega arith) small-fits (omega arith)

seal_packet-too_large_example :
    let p = packet_of 30 40 in
    let sent = seal_packet account p KeyType.session_key in
    (wire sent ≡ encode (header_fields account p 31) ++ (drop 22 (payload p) ++ (3 ∷ [])))
    × (sent.buf.len ≡ 31)
seal_packet-too_large_example =
    seal_packet-too_large account (packet_of 30 40) KeyType.session_key large-IsWritable
      (omega arith) large-over (omega arith) (omega arith)

abbrev text : List ℕ
text = 1 ∷ 2 ∷ 3 ∷ []

abbrev sent_before : QqPacket
sent_before = record (packet_of 0 64) { key_type = KeyType.session_key }

process_packet-session_example :
    (b : ByteBuffer) × (h : Handler) × (process_packet account
        (some sent_before)
        (packet_of 0 4096)
        (arrived (replicate 14 0) (qqencrypt text key) 3 [])
      ≡ some (record (packet_of 0 4096) { buf = b }, h))
    × (b.pos ≡ 0)
    × (b.len ≡ 3)
    × (take 3 b.bytes ≡ text)
    × Reads reply_codes 23 h
process_packet-session_example =
    process_packet-session account (some sent_before) (packet_of 0 4096) (replicate 14 0) text 3 []
      refl refl (omega arith) (omega arith) (length-replicate {A = ℕ} 4096 9)
