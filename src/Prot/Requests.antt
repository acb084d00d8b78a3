-- ===== src/Prot/Requests.antt =====
-- What a request to the server looks like to whoever knows the session key.
use myqq.Base.{
  ℕ, ◌+◌, ◌-◌, ◌*◌, ◌≤◌, ◌≡◌, refl, ap, ◌∙◌, Bool, true, Option, some, List, [], ◌∷◌, ◌++◌, arith,
  length, take, drop, length-take, length-replicate, length-overwrite, take-overwrite_end,
}
use mathlib.Core.Path.{subst}
use myqq.Packet.{ByteBuffer, int_bytes, packet_size, store}
use myqq.Packet.Store.{IsWritable}
use myqq.Packet.RoundTrip.{Field, byte, int, encode, put_fields, put_fields-store}
use myqq.Crypt.{qqencrypt, qqdecrypt}
use myqq.Crypt.Tea.{AreBytes}
use myqq.Crypt.RoundTrip.{length-qqencrypt}
use myqq.Protocol.{KeyType, QqPacket, Account}
use myqq.Protocol.Seal.{head_len, payload, sealed_body, seal_packet}
use myqq.Protocol.SealLaws.{wire, seal_packet-session}
use myqq.Protocol.Commands
use myqq.Session.{Session, Env}
use myqq.PacketMgr.{
  empty_buffer, packetmgr_new_packet, packetmgr_inc_seqno, packetmgr_new_send, packetmgr_put,
  post_packet,
}
use myqq.Prot.{send_packet}
use myqq.Prot.QunSend.{ints, prot_qun_get_memberinfo}

empty-IsWritable : IsWritable empty_buffer
empty-IsWritable = record {
  cursor = omega arith;
  room = omega (arith, length-replicate {A = ℕ} packet_size 0);
}

-- what is deciphered of a packet that goes over the wire
abbrev pub deciphered : Account → QqPacket → ℕ → Option (List ℕ)
deciphered a q n =
    let h = head_len a.network in
    qqdecrypt (take (length (wire q) - h - 1) (drop h (wire q))) a.session_key n

-- a packet with this payload, and room for its cipher
pub record IsFilled (p : QqPacket) (xs : List ℕ) : Type 0 where
  pub writable : IsWritable p.buf
  pub big : p.buf.size ≡ packet_size
  pub content : payload p ≡ xs
  pub small : length xs ≤ 4000

filled-deciphered :
    (a : Account) (p : QqPacket) (xs : List ℕ)
    → IsFilled p xs
    → AreBytes xs
    → deciphered a (seal_packet a p KeyType.session_key) (length xs) ≡ some xs
filled-deciphered a p xs f bytes =
    let body : sealed_body a p KeyType.session_key ≡ qqencrypt (payload p) a.session_key =
      unfold sealed_body in refl in
    let l : length (sealed_body a p KeyType.session_key) ≤ length xs + 17 =
      omega
        (arith, ap length body, ap length f.content, length-qqencrypt (payload p) a.session_key) in
    let head : head_len a.network ≤ 24 = ground arith in
    let z =
      seal_packet-session a p KeyType.session_key f.writable refl (omega (arith, f.big))
        (omega (arith, f.big, l, head, f.small)) (rw (f.content) bytes) in
    rw (f.content) at z

-- the packet that a request is before it is sealed
abbrev pub request :
    Env → ℕ → Bool → (Session → QqPacket → ByteBuffer → ByteBuffer) → Session → QqPacket
request env cmd need_ack fill s =
    let (p, t) = packetmgr_new_send env cmd s in
    record p { need_ack = need_ack; buf = fill s p p.buf }

new_send-buf :
    (env : Env) (cmd : ℕ) (s : Session) → (packetmgr_new_send env cmd s).0.buf ≡ empty_buffer
unfolding packetmgr_new_send packetmgr_new_packet
new_send-buf env cmd s = refl

pub request-IsFilled :
    (env : Env) (cmd : ℕ) (need_ack : Bool) (fs : List Field) (s : Session)
    → length (encode fs) ≤ 4000
    → IsFilled (request env cmd need_ack (λ s p b. put_fields b fs) s) (encode fs)
request-IsFilled env cmd need_ack fs s h =
    let b = (packetmgr_new_send env cmd s).0.buf in
    let e : b ≡ empty_buffer = new_send-buf env cmd s in
    let w : IsWritable b = rw e empty-IsWritable in
    let start : b.pos ≡ 0 = ap (λ (c : ByteBuffer). c.pos) e in
    let size : b.size ≡ packet_size = ap (λ (c : ByteBuffer). c.size) e in
    let f : put_fields b fs ≡ store b (encode fs) = put_fields-store fs b w (omega arith) in
    record {
      writable = rw f (record { cursor = omega arith; room = rw length-overwrite w.room });
      big = rw f size;
      content =
          ap (λ (c : ByteBuffer). take c.pos c.bytes) f
          ∙ (take-overwrite_end b.bytes b.pos (encode fs) _ refl (omega (arith, w.room))
              ∙ ap (λ n. take n b.bytes ++ encode fs) start);
      small = h;
    }

-- A request whose fields encode to at most 4000 bytes is put, with the sealed packet `q`, into the
-- loop that the thread posts to; whoever cuts the header and the tail off the bytes of `q` and
-- deciphers the rest with the session key has exactly the bytes of the fields.
pub send_packet-deciphered :
    (env : Env) (in_recv : Bool) (cmd : ℕ) (need_ack : Bool) (fs : List Field) (s : Session)
    → length (encode fs) ≤ 4000
    → AreBytes (encode fs)
    → (q : QqPacket) × (send_packet env in_recv cmd need_ack (λ s p b. put_fields b fs) s
        ≡ packetmgr_put env in_recv q (packetmgr_new_send env cmd s).1)
      × (deciphered s.account q (length (encode fs)) ≡ some (encode fs))
unfolding send_packet post_packet packetmgr_new_send packetmgr_new_packet packetmgr_inc_seqno
send_packet-deciphered env in_recv cmd need_ack fs s h bytes =
    let p = request env cmd need_ack (λ s p b. put_fields b fs) s in
    (
      seal_packet s.account p KeyType.session_key,
      refl,
      filled-deciphered s.account p (encode fs) (request-IsFilled env cmd need_ack fs s h) bytes,
    )

-- the numbers of members as they go over the wire
abbrev pub numbers_bytes : List ℕ → List ℕ
numbers_bytes [] = []
numbers_bytes (n ∷ ns) = int_bytes n ++ numbers_bytes ns

encode-ints : (ns : List ℕ) → encode (ints ns) ≡ numbers_bytes ns
encode-ints [] = refl
encode-ints (n ∷ ns) = ap (λ t. int_bytes n ++ t) (encode-ints ns)

length-numbers_bytes : (ns : List ℕ) → length (numbers_bytes ns) ≡ 4 * length ns
length-numbers_bytes [] = refl
length-numbers_bytes (n ∷ ns) = omega (arith, length-numbers_bytes ns)

AreBytes-int_bytes : (w : ℕ) (xs : List ℕ) → AreBytes xs → AreBytes (int_bytes w ++ xs)
AreBytes-int_bytes w xs h = (omega arith, (omega arith, (omega arith, (omega arith, h))))

AreBytes-numbers_bytes : (ns : List ℕ) → AreBytes (numbers_bytes ns)
AreBytes-numbers_bytes [] = tt
AreBytes-numbers_bytes (n ∷ ns) =
    AreBytes-int_bytes n (numbers_bytes ns) (AreBytes-numbers_bytes ns)

-- The bytes deciphered of a request for members are the command, the qun's number, and the numbers
-- of the first 30 members that are asked for, each in four bytes.
pub prot_qun_get_memberinfo-deciphered :
    (env : Env) (in_recv : Bool) (number : ℕ) (numbers : List ℕ) (s : Session)
    → let bytes = 0x0C ∷ (int_bytes number ++ numbers_bytes (take 30 numbers)) in
      (q : QqPacket) × (prot_qun_get_memberinfo env in_recv number numbers s
        ≡ packetmgr_put env in_recv q (packetmgr_new_send env Commands.qun_cmd s).1)
      × (deciphered s.account q (length bytes) ≡ some bytes)
prot_qun_get_memberinfo-deciphered env in_recv number numbers s =
    let ns = take 30 numbers in
    let fs = byte 0x0C ∷ int number ∷ ints ns in
    let e : encode fs ≡ 0x0C ∷ (int_bytes number ++ numbers_bytes ns) =
      ap (λ t. 0x0C ∷ (int_bytes number ++ t)) (encode-ints ns) in
    let l : length (encode fs) ≤ 4000 =
      omega (arith, ap length e, length-numbers_bytes ns, length-take 30 numbers) in
    let inner : AreBytes (encode (ints ns)) = rw (encode-ints ns) (AreBytes-numbers_bytes ns) in
    let bytes : AreBytes (encode fs) = (omega arith, AreBytes-int_bytes number _ inner) in
    let (q, sent, read) = send_packet-deciphered env in_recv Commands.qun_cmd true fs s l bytes in
    (q, sent, subst (λ xs. deciphered s.account q (length xs) ≡ some xs) e read)
