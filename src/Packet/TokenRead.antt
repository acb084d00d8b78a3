-- ===== src/Packet/TokenRead.antt =====
-- `get_token` and `get_token2` of src/qqpacket.c against the 256 bytes of a token.
use myqq.Base.{
  ℕ, ◌+◌, ◌≤◌, ◌<◌, ◌≡◌, refl, ap, none, some, List, [], ◌∷◌, ◌++◌, arith, leb, if◌then◌else◌,
  length, overwrite, length-append,
}
use myqq.Packet.{ByteBuffer, Token, advance, get_data, get_token, get_token2, word_bytes, token_len}
use myqq.Packet.Unread.{
  unread, length-unread-le, fits_of_unread, load-unread, unread-advance, get_byte-unread,
  get_word-unread,
}

-- A copy of bytes at hand goes through exactly if the destination holds them.
get_data-into :
    (dst : List ℕ) (b : ByteBuffer) (xs rest : List ℕ) (n : ℕ)
    → length xs ≡ n
    → b.pos ≤ b.len
    → unread b ≡ xs ++ rest
    → get_data dst n b
      ≡ (if leb n (length dst) then some ((n, overwrite dst 0 xs), advance b n) else none)
unfolding get_data
get_data-into dst b xs rest n h p e =
    let fits : b.pos + n ≤ b.len =
      omega (arith, length-unread-le b, ap length e, length-append xs rest) in
    let l = load-unread b xs rest n e h fits in ground (arith, fits, l, ap length l)

module _ (tok : Token) (b : ByteBuffer) (xs rest : List ℕ) (n : ℕ)
    (size : length tok.bytes ≡ token_len) (count : length xs ≡ n) where
  -- With a token of 256 bytes, and a length `n` below 65536 and as many bytes to read in the
  -- packet: if `n` is at most 256, `get_token` returns those bytes and moves behind them; if it is
  -- larger, the copy goes past the end of the token.
  pub get_token_lem :
      n < 65536
      → unread b ≡ word_bytes n ++ (xs ++ rest)
      → get_token tok b ≡ (
          if leb n token_len
          then some
              ((n, record { len = n; bytes = overwrite tok.bytes 0 xs }), advance (advance b 2) n)
          else none)
  unfolding get_token
  get_token_lem small e =
      let r = unread-advance b (word_bytes n) (xs ++ rest) 2 e refl in
      let f = fits_of_unread b (word_bytes n) (xs ++ rest) {n = 1} e refl in
      ground (
        arith,
        get_word-unread b n (xs ++ rest) small e,
        get_data-into tok.bytes (advance b 2) xs rest n count f r,
        size,
      )

  -- With a token of 256 bytes, and a length `n` below 256 and as many bytes to read in the packet:
  -- `get_token2` returns those bytes and moves behind them.
  get_token2_lem :
      n < 256
      → unread b ≡ n ∷ (xs ++ rest)
      → get_token2 tok b
        ≡ some ((n, record { len = n; bytes = overwrite tok.bytes 0 xs }), advance (advance b 1) n)
  unfolding get_token2
  get_token2_lem small e =
      let r = unread-advance b (n ∷ []) (xs ++ rest) 1 e refl in
      let f = fits_of_unread b (n ∷ []) (xs ++ rest) {n = 0} e refl in
      ground (
        arith,
        get_byte-unread b n (xs ++ rest) e,
        get_data-into tok.bytes (advance b 1) xs rest n count f r,
        size,
      )
