-- ===== src/PacketMgr/Stream.antt =====
-- Packets in a stream, in `packetmgr_recv` of src/packetmgr.c.
use myqq.Base.{
  ℕ, zero, suc, ◌+◌, ◌-◌, ◌*◌, ◌≤◌, ◌<◌, ◌≡◌, refl, ap, ap₂, ◌∙◌, inl, inr, Bool, true, false, not,
  ◌&&◌, some, List, [], ◌∷◌, arith, leb, ◌==◌, Bool-cases, length, get_or, take, drop, overwrite,
  take-overwrite_end,
}
use myqq.Packet.{packet_size, word_at}
use myqq.Protocol.{QqPacket, is_stream}
use myqq.Session.{Session, Env}
use myqq.PacketMgr.{Handlers, handle_packet}
use myqq.PacketMgr.Receive.{Receiver, is_proxy, receive_stream, take_packet, packetmgr_recv}

get_or-overwrite :
    (bs xs : List ℕ) (i : ℕ)
    → i < length xs
    → length xs ≤ length bs
    → get_or (overwrite bs 0 xs) i 0 ≡ get_or xs i 0
get_or-overwrite bs [] i h k = absurd (omega arith)
get_or-overwrite [] (x ∷ xs) i h k = absurd (omega arith)
get_or-overwrite (b ∷ bs) (x ∷ xs) zero h k = refl
get_or-overwrite (b ∷ bs) (x ∷ xs) (suc i) h k =
    get_or-overwrite bs xs i (omega arith) (omega arith)

module _ (has_ok : List ℕ → Bool) (touch : Session → Session) (run : Handlers) (env : Env)
    (p : QqPacket) (bytes : List ℕ) (r : Receiver) (s : Session)
    (stream : is_stream s.account.network ≡ true)
    (through : (not s.proxy_established && is_proxy s.account.network) ≡ false)
    (some_bytes : 2 < length bytes) (fits : length bytes ≤ length r.buf) where
  abbrev buf : List ℕ
  buf = overwrite r.buf 0 bytes

  front : take (length bytes) buf ≡ bytes
  front = take-overwrite_end r.buf 0 bytes (length bytes) (omega arith) (omega arith)

  word_front : word_at buf 0 ≡ word_at bytes 0
  word_front =
      ap₂ (λ x y. x * 256 + y) (get_or-overwrite r.buf bytes 0 (omega arith) fits)
        (get_or-overwrite r.buf bytes 1 (omega arith) fits)

  -- Over a stream whose proxy, if any, has answered: if more than two bytes arrive that fit in
  -- `recv_buf`, with nothing left over before, their first two give their own number, and
  -- `handle_packet` returns on exactly these bytes, then the round leaves the session that
  -- `handle_packet` leaves, and nothing is left over again.
  pub packetmgr_recv-handle_packet :
      (ok : Bool) (t : Session)
      → r.pos ≡ 0
      → word_at bytes 0 ≡ length bytes
      → handle_packet env run p bytes s ≡ some (ok, t)
      → (r' : Receiver) × (packetmgr_recv has_ok touch run env p bytes r s ≡ some (r', t))
        × (r'.pos ≡ 0)
  unfolding packetmgr_recv receive_stream take_packet
  packetmgr_recv-handle_packet ok t start whole handled =
      let enough : leb (r.pos + length bytes) 2 ≡ false = ground arith in
      let len : word_at buf 0 ≡ length bytes = word_front ∙ whole in
      let ready : leb (word_at buf 0) (r.pos + length bytes) ≡ true = ground (arith, len) in
      let given : take (word_at buf 0) buf ≡ bytes = ap (λ n. take n buf) len ∙ front in
      let r1 : Receiver = record { buf = buf; pos = r.pos + length bytes } in
      let run_it : packetmgr_recv has_ok touch run env p bytes r s
          ≡ take_packet has_ok touch run env p (word_at buf 0) r1 s =
        rw (packetmgr_recv, stream, enough, through, ready) refl in
      let same : handle_packet env run p (take (word_at buf 0) buf) s ≡ some (ok, t) =
        ap (λ t. handle_packet env run p t s) given ∙ handled in
      elim (Bool-cases ok) [
        | inl x ↦ (
          record {
            buf =
                overwrite buf 0
                  (take (r.pos + length bytes - word_at buf 0) (drop (word_at buf 0) buf));
            pos = r.pos + length bytes - word_at buf 0;
          },
          run_it ∙ rw (take_packet, same, x) refl,
          omega (arith, len, start),
        )
        | inr x ↦ (record r1 { pos = 0 }, run_it ∙ rw (take_packet, same, x) refl, refl)
      ]

  -- On the same conditions, but for what is left over: while the length that the first two bytes
  -- that arrive give is more than all that is there, which is below 4096, the bytes that arrive
  -- stand at the start of `recv_buf`, where the first part of the packet was, although they are
  -- counted behind it, and no packet is handled.
  pub packetmgr_recv-overwrites :
      r.pos + length bytes < word_at bytes 0
      → r.pos + length bytes < packet_size
      → (r' : Receiver) × (packetmgr_recv has_ok touch run env p bytes r s ≡ some (r', s))
        × (take (length bytes) r'.buf ≡ bytes)
        × (r'.pos ≡ r.pos + length bytes)
  unfolding packetmgr_recv receive_stream
  packetmgr_recv-overwrites part small =
      let enough : leb (r.pos + length bytes) 2 ≡ false = ground arith in
      let not_yet : leb (word_at buf 0) (r.pos + length bytes) ≡ false =
        ground (arith, word_front) in
      let room : (r.pos + length bytes == packet_size) ≡ false = ground arith in
      let r1 : Receiver = record { buf = buf; pos = r.pos + length bytes } in
      let run_it : packetmgr_recv has_ok touch run env p bytes r s ≡ some (r1, s) =
        rw (packetmgr_recv, stream, enough, through, not_yet, room) refl in
      (r1, run_it, front, refl)
