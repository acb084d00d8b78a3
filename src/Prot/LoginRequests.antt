-- ===== src/Prot/LoginRequests.antt =====
-- What the packets of src/prot_login.c look like that are enciphered with a key of their own.
use myqq.Base.{
  ℕ, ◌+◌, ◌-◌, ◌≤◌, ◌≡◌, refl, ap, ◌∙◌, Bool, true, false, some, List, [], ◌∷◌, ◌++◌, arith, length,
  take, drop, replicate, length-append, length-take,
}
use myqq.Packet.RoundTrip.{Field, word, block, encode, put_fields}
use myqq.Crypt.{qqencrypt, qqdecrypt}
use myqq.Crypt.Tea.{AreBytes}
use myqq.Crypt.RoundTrip.{length-qqencrypt}
use myqq.Protocol.{KeyType, QqPacket, Account}
use myqq.Protocol.Seal.{head_len, payload, sealed_body, seal_packet, has_login_magic}
use myqq.Protocol.SealLaws.{wire, seal_packet-random}
use myqq.Protocol.Commands
use myqq.Session.{Session, Env}
use myqq.PacketMgr.{
  packetmgr_new_packet, packetmgr_inc_seqno, packetmgr_new_send, packetmgr_put, post_packet,
}
use myqq.Prot.{send_random}
use myqq.Prot.Requests.{IsFilled, request, request-IsFilled}
use myqq.Prot.LoginSend.{
  restore_version_data, with_login, prot_login_touch_with_info, prot_login_touch,
}

-- what stands between the header and the tail of a packet that goes over the wire
abbrev pub inside : Account → QqPacket → List ℕ
inside a q = let h = head_len a.network in take (length (wire q) - h - 1) (drop h (wire q))

-- The key that is in front of the cipher opens it.
abbrev pub OpensItself : Account → QqPacket → List ℕ → List ℕ → Type 0
OpensItself a q key xs =
    (take 16 (inside a q) ≡ key) × (qqdecrypt (drop 16 (inside a q)) key (length xs) ≡ some xs)

filled-opens :
    (a : Account) (p : QqPacket) (xs : List ℕ)
    → IsFilled p xs
    → has_login_magic p.command ≡ false
    → length p.key ≡ 16
    → AreBytes xs
    → OpensItself a (seal_packet a p KeyType.random_key) p.key xs
filled-opens a p xs f plain long bytes =
    let body : sealed_body a p KeyType.random_key ≡ take 16 p.key ++ qqencrypt (payload p) p.key =
      unfold sealed_body in rw plain refl in
    let l : length (sealed_body a p KeyType.random_key) ≤ length xs + 33 = omega (
      arith,
      ap length body,
      ap length f.content,
      length-append (take 16 p.key) (qqencrypt (payload p) p.key),
      length-take 16 p.key,
      length-qqencrypt (payload p) p.key,
    ) in
    let head : head_len a.network ≤ 24 = ground arith in
    let z =
      seal_packet-random a p KeyType.random_key f.writable refl plain long (omega (arith, f.big))
        (omega (arith, f.big, l, head, f.small)) (rw (f.content) bytes) in
    rw (f.content) at z

send_random-opens :
    (env : Env) (in_recv : Bool) (cmd : ℕ) (key : List ℕ) (fs : List Field) (s : Session)
    → has_login_magic cmd ≡ false
    → length key ≡ 16
    → length (encode fs) ≤ 4000
    → AreBytes (encode fs)
    → (q : QqPacket) × (send_random env in_recv cmd key (λ s p b. put_fields b fs) s
        ≡ packetmgr_put env in_recv q (packetmgr_new_send env cmd s).1)
      × OpensItself s.account q key (encode fs)
unfolding send_random post_packet packetmgr_new_send packetmgr_new_packet packetmgr_inc_seqno
send_random-opens env in_recv cmd key fs s plain long h bytes =
    let p = record (request env cmd true (λ s p b. put_fields b fs) s) { key = key } in
    let f = request-IsFilled env cmd true fs s h in
    let g : IsFilled p (encode fs) = record {
      writable = f.writable;
      big = f.big;
      content = f.content;
      small = f.small;
    } in
    (
      seal_packet s.account p KeyType.random_key,
      refl,
      filled-opens s.account p (encode fs) g plain long bytes,
    )

-- `QQ09_LOCALE`, `QQ09_VERSION_SPEC` and the fifteen zeros, behind the word 1
abbrev pub touch_bytes : List ℕ
touch_bytes =
    (0x00 ∷ 0x01 ∷ [])
    ++ ((0x00 ∷ 0x00 ∷ 0x08 ∷ 0x04 ∷ 0x01 ∷ 0xE0 ∷ [])
        ++ ((0x00 ∷ 0x00 ∷ 0x03 ∷ 0x50 ∷ 0x00 ∷ 0x00 ∷ 0x00 ∷ 0x01 ∷ 0x00 ∷ 0x00 ∷ 0x0D ∷ 0x6F ∷ [])
            ++ replicate 15 0))

abbrev touch_fields : List Field
touch_fields =
    word 0x0001
    ∷ block (0x00 ∷ 0x00 ∷ 0x08 ∷ 0x04 ∷ 0x01 ∷ 0xE0 ∷ [])
    ∷ block (0x00 ∷ 0x00 ∷ 0x03 ∷ 0x50 ∷ 0x00 ∷ 0x00 ∷ 0x00 ∷ 0x01 ∷ 0x00 ∷ 0x00 ∷ 0x0D ∷ 0x6F ∷ [])
    ∷ block (replicate 15 0)
    ∷ []

-- the session with what `prot_login_touch` writes before it fills the packet
abbrev pub before_touch : Session → Session
before_touch s =
    with_login s (record (restore_version_data s.login) { server_data = replicate 15 0 })

touch-send_random :
    (env : Env) (in_recv : Bool) (s : Session)
    → prot_login_touch env in_recv s
      ≡ send_random env in_recv Commands.touch
          (env.randkey 0)
          (λ s p b. put_fields b touch_fields)
          (before_touch s)
unfolding prot_login_touch prot_login_touch_with_info restore_version_data send_random
    packetmgr_new_send packetmgr_new_packet packetmgr_inc_seqno
touch-send_random env in_recv s = refl

-- If `randkey` gives 16 bytes, `prot_login_touch` puts one packet into the loop that the thread posts
-- to. Behind the header and without the tail, it is the key and a cipher, which whoever has only the
-- packet deciphers: the word 1, QQ09_LOCALE, QQ09_VERSION_SPEC and 15 zeros.
pub prot_login_touch-opens :
    (env : Env) (in_recv : Bool) (s : Session)
    → length (env.randkey 0) ≡ 16
    → (q : QqPacket) × (prot_login_touch env in_recv s
        ≡ packetmgr_put env in_recv q (packetmgr_new_send env Commands.touch (before_touch s)).1)
      × OpensItself s.account q (env.randkey 0) touch_bytes
prot_login_touch-opens env in_recv s long =
    let bytes : AreBytes (encode touch_fields) = search arith in
    let (q, sent, opens) =
      send_random-opens env in_recv Commands.touch (env.randkey 0) touch_fields (before_touch s)
        refl long (omega arith) bytes in
    (q, touch-send_random env in_recv s ∙ sent, opens)
