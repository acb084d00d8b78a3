-- ===== src/Protocol/Arrival.antt =====
-- What `process_packet` of src/protocol.c makes of the bytes that arrive.
use myqq.Base.{
  ℕ, ◌+◌, ◌-◌, ◌<◌, ◌≡◌, refl, sym, ap, ◌∙◌, ◌≢◌, inl, inr, Option, none, some, List, [], ◌∷◌, ◌++◌,
  arith, ◌==◌, ==_iff, Bool-cases, length, take, take-append, drop-append, take-overwrite_end,
}
use myqq.Packet.{ByteBuffer, packet_size}
use myqq.Crypt.{qqdecrypt, qqencrypt}
use myqq.Crypt.Tea.{AreBytes}
use myqq.Crypt.RoundTrip.{qqdecrypt-qqencrypt}
use myqq.Protocol.{Network, KeyType, QqPacket, Account}
use myqq.Protocol.Commands.{Handler, pick, handler_of, cases}
use myqq.Protocol.Open.{recv_head_len, recv_body, fill_buffer, decrypt_packet, process_packet}

-- the numbers of the commands, and what reads a packet of each
abbrev pub reply_codes : List (ℕ × Handler)
reply_codes =
    (0x0091, Handler.touch_reply)
    ∷ (0x00ba, Handler.request_reply)
    ∷ (0x00dd, Handler.verify_reply)
    ∷ (0x00e5, Handler.get_info_reply)
    ∷ (0x00a4, Handler.a4_reply)
    ∷ (0x00eb, Handler.get_list_reply)
    ∷ (0x0030, Handler.send_info_reply)
    ∷ (0x00e9, Handler.e9_reply)
    ∷ (0x00ea, Handler.ea_reply)
    ∷ (0x00ec, Handler.ec_reply)
    ∷ (0x00ed, Handler.ed_reply)
    ∷ (0x0058, Handler.keep_alive_reply)
    ∷ (0x00ce, Handler.recv_msg)
    ∷ (0x0017, Handler.recv_msg)
    ∷ (0x000d, Handler.change_status_reply)
    ∷ (0x0126, Handler.update_list_reply)
    ∷ (0x0027, Handler.update_online_reply)
    ∷ (0x0081, Handler.buddy_status)
    ∷ (0x0002, Handler.qun_cmd_reply)
    ∷ (0x001d, Handler.get_key_reply)
    ∷ (0x00d4, Handler.get_notice_reply)
    ∷ (0x00da, Handler.check_ip_reply)
    ∷ (0x0067, Handler.update_signiture_reply)
    ∷ (0x00b5, Handler.update_account_reply)
    ∷ (0x003e, Handler.update_alias_reply)
    ∷ (0x0065, Handler.get_extra_info_reply)
    ∷ (0x003c, Handler.buddy_get_info_reply)
    ∷ (0x0001, Handler.download_labels_reply)
    ∷ (0x00cd, Handler.send_im_reply)
    ∷ (0x0080, Handler.broadcast)
    ∷ (0x005c, Handler.get_level_reply)
    ∷ (0x00a7, Handler.request_addbuddy_reply)
    ∷ (0x00a8, Handler.verify_addbuddy_reply)
    ∷ (0x00ae, Handler.request_token_reply)
    ∷ (0x000a, Handler.del_buddy_reply)
    ∷ []

-- `h` is what the first entry for the command `c` names, and `unknown` if there is none.
abbrev pub Reads : List (ℕ × Handler) → ℕ → Handler → Type 0
Reads [] c h = h ≡ Handler.unknown
Reads ((code, f) ∷ codes) c h = (c ≡ code → h ≡ f) × (c ≢ code → Reads codes c h)

-- the bytes in front of the body: the length over a stream, head, version, command, sequence
-- number, the account's number, and three bytes more
abbrev pub IsHeader : Network → List ℕ → Type 0
IsHeader Network.udp header = length header ≡ 14
IsHeader Network.tcp header = length header ≡ 16
IsHeader Network.proxy_http header = length header ≡ 16

-- The packet answers none of ours, or one that was sent under the session key.
abbrev pub AnswersSession : Option QqPacket → Type 0
AnswersSession none = Unit
AnswersSession (some m) = m.key_type ≡ KeyType.session_key

-- a packet as it lies in the buffer that `packetmgr_recv` filled, with what stands behind it
abbrev pub arrived : List ℕ → List ℕ → ℕ → List ℕ → ByteBuffer
arrived header body tail rest = record {
  pos = 0;
  len = length header + length body + 1;
  size = length header + length body + 1;
  bytes = header ++ (body ++ (tail ∷ rest));
}

pick-Reads : (codes : List (ℕ × Handler)) (c : ℕ) → Reads codes c (pick c codes)
pick-Reads [] c = refl
pick-Reads ((code, f) ∷ codes) c = elim (Bool-cases (c == code)) [
  | inl e ↦ rw e ((λ q. refl), λ q. absurd (q ((==_iff c code).0 e)))
  | inr e ↦ rw e ((λ q. absurd (ground (arith, q, e))), λ q. pick-Reads codes c)
]

handler_of-Reads : (c : ℕ) → Reads reply_codes c (handler_of c)
unfolding handler_of
handler_of-Reads c = pick-Reads cases c

IsHeader-length :
    (n : Network) (header : List ℕ) → IsHeader n header → length header ≡ recv_head_len n
IsHeader-length Network.udp header e = e
IsHeader-length Network.tcp header e = e
IsHeader-length Network.proxy_http header e = e

recv_body-arrived :
    (a : Account) (header body : List ℕ) (tail : ℕ) (rest : List ℕ)
    → IsHeader a.network header
    → recv_body a (arrived header body tail rest) ≡ body
recv_body-arrived a header body tail rest e =
    let l = IsHeader-length a.network header e in
    let n : length header + length body + 1 - recv_head_len a.network - 1 ≡ length body =
      omega (arith, l) in
    ap (take (length header + length body + 1 - recv_head_len a.network - 1))
      (drop-append header (body ++ (tail ∷ rest)) (recv_head_len a.network) (sym l))
    ∙ take-append body (tail ∷ rest) _ n

decrypt_packet-session :
    (a : Account) (matched : Option QqPacket) (p : QqPacket) (buf : ByteBuffer) (text : List ℕ)
    → AnswersSession matched
    → qqdecrypt (recv_body a buf) a.session_key packet_size ≡ some text
    → length text < packet_size
    → decrypt_packet a matched p buf ≡ some (record p { buf = fill_buffer p.buf text })
unfolding decrypt_packet
decrypt_packet-session a none p buf text s opened small = ground (arith, opened)
decrypt_packet-session a (some m) p buf text s opened small = rw s (ground (arith, opened))

-- A packet arrives that answers none of ours, or one that was sent under the session key: a header
-- of 14 bytes over UDP and of 16 over a stream, the cipher of a text of fewer than 4096 bytes under
-- the session key, and a tail byte. It is opened: in the packet's own array of 4096 bytes stands
-- the text, with the cursor in front of it and its length, and the rest of the packet is as it
-- was. It is read by the function that `reply_codes` names for the number of its command, and by
-- none if it names none.
pub process_packet-session :
    (a : Account) (matched : Option QqPacket) (p : QqPacket) (header text : List ℕ) (tail : ℕ)
    (rest : List ℕ)
    → AnswersSession matched
    → IsHeader a.network header
    → AreBytes text
    → length text < packet_size
    → length p.buf.bytes ≡ packet_size
    → (b : ByteBuffer) × (h : Handler) × (process_packet a matched p
          (arrived header (qqencrypt text a.session_key) tail rest)
        ≡ some (record p { buf = b }, h))
      × (b.pos ≡ 0)
      × (b.len ≡ length text)
      × (take (length text) b.bytes ≡ text)
      × Reads reply_codes p.command h
unfolding process_packet
process_packet-session a matched p header text tail rest s e bytes small room =
    let buf = arrived header (qqencrypt text a.session_key) tail rest in
    let opened : qqdecrypt (recv_body a buf) a.session_key packet_size ≡ some text =
      ap (λ t. qqdecrypt t a.session_key packet_size)
        (recv_body-arrived a header (qqencrypt text a.session_key) tail rest e)
      ∙ qqdecrypt-qqencrypt text a.session_key bytes packet_size (omega arith) in
    let z = decrypt_packet-session a matched p buf text s opened small in
    (
      fill_buffer p.buf text,
      handler_of p.command,
      rw (process_packet, z) refl,
      refl,
      refl,
      take-overwrite_end p.buf.bytes 0 text (length text) (omega arith) (omega (arith, room)),
      handler_of-Reads p.command,
    )
