-- ===== src/Protocol/SealLaws.antt =====
-- The bytes of a sealed packet.
use myqq.Base.{
  ℕ, ◌+◌, ◌-◌, ◌≤◌, ◌≡◌, refl, sym, ap, ◌∙◌, inl, inr, false, some, List, [], ◌∷◌, ◌++◌,
  append_assoc, arith, if◌then◌else◌, Bool-cases, length, take, drop, overwrite, length-append,
  take-all, take-append, drop-append, length-overwrite, drop-overwrite, overwrite-overwrite,
}
use myqq.Packet.{ByteBuffer, put_byte, store}
use myqq.Packet.Store.{IsWritable}
use myqq.Packet.RoundTrip.{Field, byte, word, int, block, encode, put_fields, put_fields-store}
use myqq.Crypt.{qqencrypt, qqdecrypt}
use myqq.Crypt.Tea.{AreBytes}
use myqq.Crypt.RoundTrip.{qqdecrypt-qqencrypt}
use myqq.Protocol.{KeyType, session_key, random_key, QqPacket, Account, is_stream}
use myqq.Protocol.Seal.{
  head_len, unknown_packet_flags, payload, sealed_body, place, put_header, seal_packet,
  has_login_magic,
}

-- the layout of the header of a packet of `len` bytes
abbrev pub header_fields : Account → QqPacket → ℕ → List Field
header_fields a p len =
    let rest =
      byte p.head
      ∷ word p.version
      ∷ word p.command
      ∷ word p.seqno
      ∷ int a.number
      ∷ block unknown_packet_flags
      ∷ [] in
    if is_stream a.network then word len ∷ rest else rest

pub length-header_fields :
    (a : Account) (p : QqPacket) (len : ℕ)
    → length (encode (header_fields a p len)) ≡ head_len a.network
length-header_fields a p len = elim (Bool-cases (is_stream a.network)) [
  | inl e ↦ rw e
  | inr e ↦ rw e
]

put_header-put_fields :
    (a : Account) (p : QqPacket) (b : ByteBuffer)
    → put_header a p b ≡ put_fields b (header_fields a p b.len)
unfolding put_header put_fields
put_header-put_fields a p b = elim (Bool-cases (is_stream a.network)) [
  | inl e ↦ rw e
  | inr e ↦ rw e
]

-- the bytes that go over the wire
abbrev pub wire : QqPacket → List ℕ
wire p = take p.buf.len p.buf.bytes

-- the frame of a packet with this body
abbrev pub frame : Account → QqPacket → List ℕ → List ℕ
frame a p body =
    encode (header_fields a p (head_len a.network + length body + 1)) ++ (body ++ (p.tail ∷ []))

wire_bytes :
    (bs body header : List ℕ) (t h : ℕ)
    → length header ≡ h
    → h + length body + 1 ≤ length bs
    → overwrite (overwrite (overwrite bs h body) (h + length body) (t ∷ [])) 0 header
      ≡ (header ++ (body ++ (t ∷ []))) ++ drop (h + length (body ++ (t ∷ []))) bs
wire_bytes bs body header t h e k =
    let l = length-append body (t ∷ []) in
    let one = overwrite-overwrite bs h body (t ∷ []) (omega arith) in
    let inner = overwrite bs h (body ++ (t ∷ [])) in
    let at_h : 0 + length header ≡ h = omega arith in
    ap (λ q. overwrite q 0 header) one
    ∙ (drop-overwrite inner 0 header (omega (arith, length-overwrite bs h (body ++ (t ∷ []))))
        ∙ (ap (λ n. header ++ drop n inner) at_h
            ∙ (ap (λ q. header ++ q) (drop-overwrite bs h (body ++ (t ∷ [])) (omega (arith, l)))
                ∙ sym (append_assoc header (body ++ (t ∷ [])) _))))

module _ (a : Account) (p : QqPacket) (k : KeyType) (w : IsWritable p.buf) where
  abbrev h : ℕ
  h = head_len a.network

  h-le : h ≤ 24
  h-le = ground arith

  pub sealed-store :
      (b : ByteBuffer)
      → 24 ≤ b.size
      → b.size ≤ length b.bytes
      → put_header a p (record b { len = b.pos; pos = 0 })
        ≡ store (record b { len = b.pos; pos = 0 }) (encode (header_fields a p b.pos))
  sealed-store b big room =
      put_header-put_fields a p (record b { len = b.pos; pos = 0 })
      ∙ put_fields-store (header_fields a p b.pos) (record b { len = b.pos; pos = 0 })
          (record { cursor = omega arith; room = room })
          (omega (arith, length-header_fields a p b.pos, h-le))

  -- If the buffer is writable and has 24 bytes or more, and the body of the packet fits behind the
  -- header, what is sent is the header, the body and the tail byte, and nothing else; the length in
  -- the header of a stream packet is its own.
  pub seal_packet-frame :
      24 ≤ p.buf.size
      → h + length (sealed_body a p k) + 1 ≤ p.buf.size
      → (wire (seal_packet a p k) ≡ frame a p (sealed_body a p k))
        × ((seal_packet a p k).buf.len ≡ h + length (sealed_body a p k) + 1)
  unfolding seal_packet
  seal_packet-frame big fits =
      let body = sealed_body a p k in
      let n = h + length body in
      let b1 = record (p.buf) { bytes = overwrite p.buf.bytes h body; pos = n } in
      let b2 = store b1 (p.tail ∷ []) in
      let placed : place p.buf h body ≡ b1 = unfold place in ground arith in
      let ended : put_byte b1 p.tail ≡ b2 = unfold put_byte in ground arith in
      let room : b2.size ≤ length b2.bytes = omega (
        arith,
        w.room,
        length-overwrite b1.bytes n (p.tail ∷ []),
        length-overwrite p.buf.bytes h body,
      ) in
      let whole : (seal_packet a p k).buf
          ≡ store (record b2 { len = b2.pos; pos = 0 }) (encode (header_fields a p b2.pos)) =
        ap (λ (b : ByteBuffer). put_header a p (record b { len = b.pos; pos = 0 }))
          (ap (λ b. put_byte b p.tail) placed ∙ ended)
        ∙ sealed-store b2 big room in
      let header = encode (header_fields a p (n + 1)) in
      let l = length-header_fields a p (n + 1) in
      (
        ap (λ (b : ByteBuffer). take b.len b.bytes) whole
            ∙ (ap (take (n + 1))
                  (wire_bytes p.buf.bytes body header p.tail h l (omega (arith, w.room)))
                ∙ take-append (header ++ (body ++ (p.tail ∷ []))) _ (n + 1) (
                    omega (
                      arith,
                      l,
                      length-append header (body ++ (p.tail ∷ [])),
                      length-append body (p.tail ∷ []),
                    ))),
        ap (λ (b : ByteBuffer). b.len) whole,
      )

  -- what stands between the header and the tail of the packet that is sent
  abbrev pub inner_bytes : List ℕ
  inner_bytes = let sent = wire (seal_packet a p k) in take (length sent - h - 1) (drop h sent)

  inner_bytes-body :
      24 ≤ p.buf.size
      → h + length (sealed_body a p k) + 1 ≤ p.buf.size
      → inner_bytes ≡ sealed_body a p k
  inner_bytes-body big fits =
      let body = sealed_body a p k in
      let header = encode (header_fields a p (h + length body + 1)) in
      let l = length-header_fields a p (h + length body + 1) in
      let f = (seal_packet-frame big fits).0 in
      let n : length (frame a p body) - h - 1 ≡ length body = omega (
        arith,
        l,
        length-append header (body ++ (p.tail ∷ [])),
        length-append body (p.tail ∷ []),
      ) in
      ap (λ s. take (length s - h - 1) (drop h s)) f
      ∙ (ap (take (length (frame a p body) - h - 1))
            (drop-append header (body ++ (p.tail ∷ [])) h (sym l))
          ∙ take-append body (p.tail ∷ []) (length (frame a p body) - h - 1) n)

  -- If the buffer is writable and has 24 bytes or more, the payload is bytes, and its cipher under
  -- the session key fits behind the header: whoever cuts the header and the tail off the packet
  -- that is sent and deciphers the rest has the payload.
  pub seal_packet-session :
      k ≡ session_key
      → 24 ≤ p.buf.size
      → h + length (sealed_body a p k) + 1 ≤ p.buf.size
      → AreBytes (payload p)
      → let sent = wire (seal_packet a p k) in
        qqdecrypt (take (length sent - h - 1) (drop h sent)) a.session_key (length (payload p))
        ≡ some (payload p)
  seal_packet-session e big fits bytes =
      let plain : sealed_body a p k ≡ qqencrypt (payload p) a.session_key =
        ap (sealed_body a p) e ∙ session_body in
      ap (λ s. qqdecrypt s a.session_key (length (payload p))) (inner_bytes-body big fits ∙ plain)
      ∙ qqdecrypt-qqencrypt (payload p) a.session_key bytes (length (payload p)) (omega arith)
    where
      session_body : sealed_body a p session_key ≡ qqencrypt (payload p) a.session_key
      session_body = unfold sealed_body in refl

  -- The same for a packet with a key of its own: it carries the key in front of the cipher.
  pub seal_packet-random :
      k ≡ random_key
      → has_login_magic p.command ≡ false
      → length p.key ≡ 16
      → 24 ≤ p.buf.size
      → h + length (sealed_body a p k) + 1 ≤ p.buf.size
      → AreBytes (payload p)
      → (take 16 inner_bytes ≡ p.key)
        × (qqdecrypt (drop 16 inner_bytes) p.key (length (payload p)) ≡ some (payload p))
  seal_packet-random e plain_command long big fits bytes =
      let cipher = qqencrypt (payload p) p.key in
      let body : sealed_body a p k ≡ take 16 p.key ++ cipher =
        ap (sealed_body a p) e ∙ random_body in
      let whole : take 16 p.key ≡ p.key = take-all 16 p.key (omega (arith, long)) in
      let inner : inner_bytes ≡ p.key ++ cipher =
        inner_bytes-body big fits ∙ (body ∙ ap (λ t. t ++ cipher) whole) in
      (
        ap (take 16) inner ∙ take-append p.key cipher 16 (sym long),
        ap (λ t. qqdecrypt t p.key (length (payload p)))
              (ap (drop 16) inner ∙ drop-append p.key cipher 16 (sym long))
            ∙ qqdecrypt-qqencrypt (payload p) p.key bytes (length (payload p)) (omega arith),
      )
    where
      random_body : sealed_body a p random_key ≡ take 16 p.key ++ qqencrypt (payload p) p.key
      random_body = unfold sealed_body in rw plain_command refl
