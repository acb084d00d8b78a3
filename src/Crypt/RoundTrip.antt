-- ===== src/Crypt/RoundTrip.antt =====
-- `qqdecrypt` of src/qqcrypt.c undoes `qqencrypt`.
use myqq.Base.{
  ℕ, zero, suc, ◌+◌, ◌-◌, ◌%◌, ◌≤◌, ◌<◌, bit_and, ◌≡◌, refl, sym, ap, ap₂, ◌∙◌, false, not, ◌||◌,
  some, List, [], ◌∷◌, ◌++◌, arith, ltb, ◌==◌, length, get_or, take, drop, replicate, length-append,
  length-take, length-drop, take-append-drop, take-append, drop-append, zero-bit_xor, bit_xor-zero,
}
use myqq.Crypt.{
  Decryptor, start, header_fill, zeros, xor_bytes, decipher, encipher, qqencrypt, qqdecrypt,
  get_plains,
}
use myqq.Crypt.Tea.{AreBytes, IsBlock, decipher-encipher, encipher-IsBlock}
use myqq.Crypt.Blocks.{
  enc_stream, chain_in, chain_out, length-enc_stream, AreBytes-append, AreBytes-take, AreBytes-drop,
  enc_stream-suc,
}
use myqq.Crypt.Encrypt.{
  stream, blocks, header_bytes, header_bytes_lem, header_fill-lt, header_fill-mod,
  qqencrypt-enc_stream,
}
use myqq.Crypt.Decrypt.{Near, get_plains-Ahead, get_plains-Near, tail_is_zero-Ahead}

-- The length of the ciphertext: the length of the text with the padding of the header and ten bytes
-- more, a multiple of 8, at least 16, and at most 17 above the length of the text.
pub length-qqencrypt :
    (instr key : List ℕ)
    → (length (qqencrypt instr key) ≡ length instr + header_fill (length instr) + 10)
      × (length (qqencrypt instr key) % 8 ≡ 0)
      × (16 ≤ length (qqencrypt instr key))
      × (length (qqencrypt instr key) ≤ length instr + 17)
length-qqencrypt instr key =
    let n = header_fill-lt (length instr) in
    let z = header_fill-mod (length instr) in
    let l : length (qqencrypt instr key) ≡ length instr + header_fill (length instr) + 10 =
      ap length (qqencrypt-enc_stream instr key)
      ∙ (length-enc_stream key (blocks instr) zeros zeros (stream instr) ∙ omega (arith, z)) in
    (l, omega (arith, l, z), omega (arith, l, z), omega (arith, l, n))

xor_bytes-zeros : (n : ℕ) (p : List ℕ) → xor_bytes p (replicate n 0) ≡ p
unfolding xor_bytes
xor_bytes-zeros n [] = refl
xor_bytes-zeros zero (x ∷ p) = refl
xor_bytes-zeros (suc n) (x ∷ p) = ap₂ ◌∷◌ (bit_xor-zero x) (xor_bytes-zeros n p)

zeros-xor_bytes : (n : ℕ) (p : List ℕ) → length p ≡ n → xor_bytes (replicate n 0) p ≡ p
unfolding xor_bytes
zeros-xor_bytes zero [] e = refl
zeros-xor_bytes zero (x ∷ p) e = absurd (omega arith)
zeros-xor_bytes (suc n) [] e = absurd (omega arith)
zeros-xor_bytes (suc n) (x ∷ p) e = ap₂ ◌∷◌ (zero-bit_xor x) (zeros-xor_bytes n p (omega arith))

drop-append_le : (n : ℕ) (xs ys : List ℕ) → n ≤ length xs → drop n (xs ++ ys) ≡ drop n xs ++ ys
drop-append_le zero xs ys h = refl
drop-append_le (suc n) [] ys h = absurd (omega arith)
drop-append_le (suc n) (x ∷ xs) ys h = drop-append_le n xs ys (omega arith)

get_or-take : (n : ℕ) (xs : List ℕ) (d : ℕ) → 0 < n → get_or (take n xs) 0 d ≡ get_or xs 0 d
get_or-take zero xs d h = absurd (omega arith)
get_or-take (suc n) [] d h = refl
get_or-take (suc n) (x ∷ xs) d h = refl

get_or-append : (xs ys : List ℕ) (d : ℕ) → 0 < length xs → get_or (xs ++ ys) 0 d ≡ get_or xs 0 d
get_or-append [] ys d h = absurd (omega arith)
get_or-append (x ∷ xs) ys d h = refl

IsBlock-zeros : IsBlock zeros
IsBlock-zeros = record { eight = refl; bytes = omega arith }

AreBytes-stream : (instr : List ℕ) → AreBytes instr → AreBytes (stream instr)
AreBytes-stream instr h =
    let fill = header_fill (length instr) in
    AreBytes-append (header_bytes fill) _
      (AreBytes-take (fill + 1) (start fill).plain
        (header_bytes_lem fill (header_fill-lt (length instr))).2)
      (omega arith, (omega arith, AreBytes-append instr _ h (omega arith)))

length-stream :
    (instr : List ℕ) → length (stream instr) ≡ length instr + header_fill (length instr) + 10
length-stream instr =
    let fill = header_fill (length instr) in
    omega (
      arith,
      length-append (header_bytes fill) (173 ∷ (173 ∷ (instr ++ replicate 7 0))),
      (header_bytes_lem fill (header_fill-lt (length instr))).1,
      length-append instr (replicate 7 0),
    )

module _ (instr key : List ℕ) (bytes : AreBytes instr) where
  abbrev fill : ℕ
  fill = header_fill (length instr)

  abbrev first : List ℕ
  first = take 8 (stream instr)

  -- the blocks behind the first
  abbrev others : ℕ
  others = blocks instr - 1

  first_length : length first ≡ 8
  first_length =
      omega
        (arith, length-take 8 (stream instr), length-stream instr, header_fill-mod (length instr))

  first_block : IsBlock first
  first_block = record {
    eight = first_length;
    bytes = AreBytes-take 8 (stream instr) (AreBytes-stream instr bytes);
  }

  abbrev first_cipher : List ℕ
  first_cipher = encipher key first

  ciphertext :
      qqencrypt instr key
      ≡ first_cipher ++ enc_stream key others first first_cipher (drop 8 (stream instr))
  ciphertext =
      qqencrypt-enc_stream instr key
      ∙ (ap (λ n. enc_stream key n zeros zeros (stream instr)) {y = suc others}
            (omega (arith, header_fill-mod (length instr)))
          ∙ enc_stream-suc key others zeros zeros (stream instr)
          ∙ chained (chain_in first zeros) (xor_bytes-zeros 8 first))
    where
      chained :
          (p : List ℕ)
          → p ≡ first
          → chain_out key zeros p
              ++ enc_stream key others p (chain_out key zeros p) (drop 8 (stream instr))
            ≡ first_cipher ++ enc_stream key others first first_cipher (drop 8 (stream instr))
      chained p e =
          ap₂ (λ q o. o ++ enc_stream key others q o (drop 8 (stream instr))) e
            (xor_bytes-zeros 8 (encipher key p) ∙ ap (encipher key) e)

  deciphered : decipher key (take 8 (qqencrypt instr key)) ≡ first
  deciphered =
      ap (λ t. decipher key (take 8 t)) ciphertext
      ∙ (ap (decipher key) (take-append first_cipher _ 8 (sym (encipher-IsBlock key first).eight))
          ∙ decipher-encipher key first first_block)

  first_byte : bit_and (get_or first 0 0) 0x7 ≡ fill
  first_byte =
      ap (λ t. bit_and t 0x7)
        (get_or-take 8 (stream instr) 0 (omega arith)
          ∙ (get_or-append (header_bytes fill) _ 0 (omega (arith, h.1))
              ∙ get_or-take (fill + 1) (start fill).plain 0 (omega arith)))
      ∙ h.3
    where
      h :
          (length (start fill).plain ≡ 8)
          × (length (header_bytes fill) ≡ fill + 1)
          × AreBytes (start fill).plain
          × (bit_and (get_or (start fill).plain 0 0) 0x7 ≡ fill)
      h = header_bytes_lem fill (header_fill-lt (length instr))

  at_start :
      Near
        (qqencrypt instr key)
        key
        (173 ∷ (173 ∷ (instr ++ replicate 7 0)))
        (record { decrypted = first; pre = zeros; context_start = 8; pos = fill + 1 })
  unfolding Near
  at_start = (
    others,
    first_cipher,
    drop 8 (stream instr),
    record {
      block = first_block;
      pre_block = IsBlock-zeros;
      c_block = encipher-IsBlock key first;
      behind = omega arith;
      total = omega (arith, length-qqencrypt instr key, header_fill-mod (length instr));
      cipher = ciphertext;
      rest_length = omega (
        arith,
        length-drop 8 (stream instr),
        length-stream instr,
        header_fill-mod (length instr),
      );
      rest_bytes = AreBytes-drop 8 (stream instr) (AreBytes-stream instr bytes);
      within = omega (arith, header_fill-lt (length instr));
      left = sym (
          ap (λ t. drop (fill + 1) t ++ drop 8 (stream instr))
            (zeros-xor_bytes 8 first first_length)
          ∙ (sym (
                drop-append_le (fill + 1) first (drop 8 (stream instr))
                  (omega (arith, first_length, header_fill-lt (length instr))))
              ∙ (ap (drop (fill + 1)) (take-append-drop 8 (stream instr))
                  ∙ drop-append (header_bytes fill) _ (fill + 1)
                      (sym (header_bytes_lem fill (header_fill-lt (length instr))).1))));
    },
  )

  -- For every key and every text of bytes, what `qqencrypt` writes is accepted by `qqdecrypt` with
  -- the same key, if the output has room for the text, and gives the text back.
  pub qqdecrypt-qqencrypt :
      (room : ℕ) → length instr ≤ room → qqdecrypt (qqencrypt instr key) key room ≡ some instr
  unfolding qqdecrypt
  qqdecrypt-qqencrypt room fits =
      let c = qqencrypt instr key in
      let d = decipher key (take 8 c) in
      let s : Decryptor = record {
        decrypted = d;
        pre = zeros;
        context_start = 8;
        pos = bit_and (get_or d 0 0) 0x7 + 1;
      } in
      let pos : bit_and (get_or d 0 0) 0x7 ≡ fill =
        ap (λ t. bit_and (get_or t 0 0) 0x7) deciphered ∙ first_byte in
      let same : s ≡ record { decrypted = first; pre = zeros; context_start = 8; pos = fill + 1 } =
        λ i. record { decrypted = deciphered i; pre = zeros; context_start = 8; pos = pos i + 1 } in
      let near : Near c key (173 ∷ (173 ∷ (instr ++ replicate 7 0))) s = rw same at_start in
      let skip =
        get_plains-Near c key 173 173 (instr ++ replicate 7 0) s near
          (λ q. absurd (omega (arith, ap length q, length-append instr (replicate 7 0)))) in
      let l = length-qqencrypt instr key in
      let s' = (get_plains c key 2 s).1 in
      let n = length c - bit_and (get_or d 0 0) 0x7 - 10 in
      let text =
        get_plains-Ahead c key instr (replicate 7 0) n s' skip (λ q. cc q)
          (omega (arith, l.0, pos)) in
      let tail = tail_is_zero-Ahead c key (get_plains c key n s').1 text.1 in
      let g1 : (not (length c % 8 == 0) || ltb (length c) 16) ≡ false = ground (arith, l) in
      let g2 : (ltb (length c) (bit_and (get_or d 0 0) 0x7 + 10) || ltb room n) ≡ false =
        ground (arith, l.0, pos) in
      rw g1 (rw g2 (rw tail (ap some text.0)))
