-- ===== src/Protocol/Unsealed.antt =====
-- What `post_packet` of src/protocol.c sends when "encrypted data is too large to store in the packet".
use myqq.Base.{
  ℕ, ◌+◌, ◌-◌, ◌≤◌, ◌<◌, ◌≡◌, refl, sym, ap, ◌∙◌, inl, inr, List, [], ◌∷◌, ◌++◌, append-nil, arith,
  ltb, if◌then◌else◌, Bool-cases, length, take, drop, overwrite, length-take, take-append_past,
  drop-append_within, drop-take, length-overwrite, drop-overwrite, take-overwrite_end,
}
use myqq.Packet.{ByteBuffer, put_byte, store}
use myqq.Packet.Store.{IsWritable}
use myqq.Packet.RoundTrip.{encode}
use myqq.Protocol.{KeyType, QqPacket, Account}
use myqq.Protocol.Seal.{head_len, payload, sealed_body, place, put_header, seal_packet}
use myqq.Protocol.SealLaws.{wire, header_fields, length-header_fields, sealed-store}

module _ (a : Account) (p : QqPacket) (k : KeyType) (w : IsWritable p.buf) where
  abbrev h : ℕ
  h = head_len a.network

  h-le : h ≤ 24
  h-le = ground arith

  -- the tail byte, where there is room for it behind the payload
  abbrev pub last_byte : List ℕ
  last_byte = if ltb p.buf.pos p.buf.size then p.tail ∷ [] else []

  -- the payload with the tail byte behind it
  ended :
      let b = put_byte p.buf p.tail in
      (take b.pos b.bytes ≡ payload p ++ last_byte)
      × (b.pos ≡ p.buf.pos + length last_byte)
      × (b.size ≡ p.buf.size)
      × (length b.bytes ≡ length p.buf.bytes)
  ended = elim (Bool-cases (ltb p.buf.pos p.buf.size)) [
    | inl e ↦
        let full : put_byte p.buf p.tail ≡ store p.buf (p.tail ∷ []) =
          unfold put_byte in rw e refl in
        rw (full, e)
          (
            take-overwrite_end p.buf.bytes p.buf.pos (p.tail ∷ []) (p.buf.pos + 1) refl
                (ground (arith, e, w.room)),
            refl,
            refl,
            length-overwrite p.buf.bytes p.buf.pos (p.tail ∷ []),
          )
    | inr e ↦
        let full : put_byte p.buf p.tail ≡ p.buf = unfold put_byte in rw e refl in
        rw (full, e) (sym (append-nil (payload p)), omega arith, refl, refl)
  ]

  -- If the buffer is writable and has 24 bytes or more, the payload is at least as long as the
  -- header and at most 4086 bytes, and the body does not fit: the
  -- body is left out, and the packet is sent all the same. Behind the header, which is written over
  -- the payload, stands the rest of the payload as it is, not enciphered, and the tail byte if there
  -- is room for it; the length of the packet counts these.
  pub seal_packet-too_large :
      24 ≤ p.buf.size
      → p.buf.size < h + length (sealed_body a p k) + 1
      → h ≤ p.buf.pos
      → p.buf.pos ≤ 4086
      → let n = p.buf.pos + length last_byte in
        (wire (seal_packet a p k)
          ≡ encode (header_fields a p n) ++ (drop h (payload p) ++ last_byte))
        × ((seal_packet a p k).buf.len ≡ n)
  unfolding seal_packet
  seal_packet-too_large big over long cipher =
      let (content, at, size, room) = ended in
      let b = put_byte p.buf p.tail in
      let n = p.buf.pos + length last_byte in
      let unplaced : place p.buf h (sealed_body a p k) ≡ p.buf = unfold place in ground arith in
      let header = encode (header_fields a p b.pos) in
      let l = length-header_fields a p b.pos in
      let whole : (seal_packet a p k).buf ≡ store (record b { len = b.pos; pos = 0 }) header =
        ap (λ (q : ByteBuffer). put_header a p (record q { len = q.pos; pos = 0 }))
          (ap (λ q. put_byte q p.tail) unplaced)
        ∙ sealed-store a p k w b (omega (arith, size, big)) (omega (arith, size, room, w.room)) in
      let over_front : overwrite b.bytes 0 header ≡ header ++ drop h b.bytes =
        drop-overwrite b.bytes 0 header (omega (arith, l, h-le, room, w.room, big))
        ∙ ap (λ m. header ++ drop m b.bytes) {x = 0 + length header} (omega (arith, l)) in
      let cut : take (b.pos - h) (drop h b.bytes) ≡ drop h (payload p) ++ last_byte =
        sym (drop-take h b.pos b.bytes)
        ∙ (ap (drop h) content
            ∙ drop-append_within (payload p) last_byte h
                (omega (arith, long, length-take p.buf.pos p.buf.bytes, w.room, w.cursor))) in
      let sent : wire (seal_packet a p k) ≡ header ++ (drop h (payload p) ++ last_byte) =
        ap (λ (q : ByteBuffer). take q.len q.bytes) whole
        ∙ (ap (take b.pos) over_front
            ∙ (take-append_past header (drop h b.bytes) b.pos (omega (arith, l, at, long))
                ∙ (ap (λ m. header ++ take (b.pos - m) (drop h b.bytes)) l
                    ∙ ap (λ t. header ++ t) cut))) in
      (
        sent ∙ ap (λ m. encode (header_fields a p m) ++ (drop h (payload p) ++ last_byte)) at,
        ap (λ (q : ByteBuffer). q.len) whole ∙ at,
      )
