-- ===== src/Crypt/Encrypt.antt =====
-- `qqencrypt` of src/qqcrypt.c enciphers, block by block, one stream: the first byte, the random
-- filling, two more random bytes, the text and seven zeros.
use myqq.Base.{
  ℕ, zero, suc, ◌+◌, ◌*◌, ◌/◌, ◌%◌, ◌<◌, bit_and, ◌≡◌, refl, sym, ap, ap₂, ◌∙◌, ◌≢◌, inl, inr, true,
  false, List, [], ◌∷◌, ◌++◌, append_assoc, append-nil, arith, ltb, ◌==◌, if◌then◌else◌, Bool-cases,
  length, get_or, set, take, drop, replicate, length-append, length-set, take-all, take-append,
  drop-append, take-set_end,
}
use myqq.Crypt.{
  Encryptor, encrypt_every_8_byte, encrypt_full, put_plain, put_plains, start, header_fill, random,
  zeros, qqencrypt, xor_bytes,
}
use myqq.Crypt.Tea.{AreBytes}
use myqq.Crypt.Blocks.{enc_stream, chain_in, chain_out, length-xor_bytes}

-- A block is being filled; before the first block the two chain blocks are equal.
record IsFilling (s : Encryptor) : Type 0 where
  array : length s.plain ≡ 8
  room : s.pos < 8
  header : s.is_header ≡ true → s.plain_pre ≡ s.pre

-- what `encrypt_every_8_byte` does to a full block
encrypt_every-parts :
    (key : List ℕ) (s : Encryptor)
    → (s.is_header ≡ true → s.plain_pre ≡ s.pre)
    → let p = chain_in s.plain s.pre in
      let c = chain_out key s.plain_pre p in
      encrypt_every_8_byte key s
      ≡ record { plain = p; plain_pre = p; pre = c; out = s.out ++ c; pos = 0; is_header = false }
unfolding encrypt_every_8_byte
encrypt_every-parts key s h = elim (Bool-cases s.is_header) [
  | inl e ↦
      ap
        (λ q.
          let p = xor_bytes s.plain q in
          let c = chain_out key s.plain_pre p in
          record {
            plain = p;
            plain_pre = p;
            pre = c;
            out = s.out ++ c;
            pos = 0;
            is_header = false;
          })
        (ap (λ b. if b then s.plain_pre else s.pre) e ∙ h e)
  | inr e ↦
      ap
        (λ q.
          let p = xor_bytes s.plain q in
          let c = chain_out key s.plain_pre p in
          record {
            plain = p;
            plain_pre = p;
            pre = c;
            out = s.out ++ c;
            pos = 0;
            is_header = false;
          })
        (ap (λ b. if b then s.plain_pre else s.pre) e)
]

put_plains-append :
    (key : List ℕ) (s : Encryptor) (xs ys : List ℕ)
    → put_plains key (put_plains key s xs) ys ≡ put_plains key s (xs ++ ys)
unfolding put_plains
put_plains-append key s [] ys = refl
put_plains-append key s (x ∷ xs) ys = put_plains-append key (put_plain key s x) xs ys

-- a byte that does not fill the block, and one that does
put_plain-room :
    (key : List ℕ) (s : Encryptor) (x : ℕ)
    → s.pos < 7
    → put_plain key s x ≡ record s { plain = set s.plain s.pos x; pos = s.pos + 1 }
unfolding put_plain
put_plain-room key s x h =
    let a : (s.pos == 8) ≡ false = ground arith in
    let b : (s.pos + 1 == 8) ≡ false = ground arith in ground (arith, a, b)

put_plain-last :
    (key : List ℕ) (s : Encryptor) (x : ℕ)
    → s.pos ≡ 7
    → put_plain key s x
      ≡ encrypt_every_8_byte key (record s { plain = set s.plain s.pos x; pos = s.pos + 1 })
unfolding put_plain
put_plain-last key s x h =
    let a : (s.pos == 8) ≡ false = ground arith in
    let b : (s.pos + 1 == 8) ≡ true = ground arith in ground (arith, a, b)

enc_stream-suc :
    (key : List ℕ) (m : ℕ) (x c s block rest : List ℕ)
    → s ≡ block ++ rest
    → length block ≡ 8
    → let p = chain_in block c in
      let o = chain_out key x p in enc_stream key (suc m) x c s ≡ o ++ enc_stream key m p o rest
unfolding enc_stream
enc_stream-suc key m x c s block rest e n =
    ap₂ (λ b r. let p = chain_in b c in let o = chain_out key x p in o ++ enc_stream key m p o r)
      (ap (take 8) e ∙ take-append block rest 8 (sym n))
      (ap (drop 8) e ∙ drop-append block rest 8 (sym n))

-- Filling the blocks with `r` writes the ciphertext of what was in the block and of `r`.
put_plains-out :
    (key r : List ℕ) (s : Encryptor) (m : ℕ)
    → IsFilling s
    → s.pos + length r ≡ 8 * m
    → (put_plains key s r).out
      ≡ s.out ++ enc_stream key m s.plain_pre s.pre (take s.pos s.plain ++ r)
unfolding put_plains
put_plains-out key [] s zero f e =
    sym (append-nil s.out) ∙ ap (λ t. s.out ++ t) (unfold enc_stream in refl)
put_plains-out key [] s (suc m) f e = absurd (omega (arith, f.room))
put_plains-out key (x ∷ r) s zero f e = absurd (omega arith)
put_plains-out key (x ∷ r) s (suc m) f e = elim (Bool-cases (ltb s.pos 7)) [
  | inl lt ↦
      let h : s.pos < 7 = ground arith in
      let s1 = record s { plain = set s.plain s.pos x; pos = s.pos + 1 } in
      let f1 : IsFilling s1 = record {
        array = length-set s.plain s.pos x ∙ f.array;
        room = omega arith;
        header = f.header;
      } in
      let whole : take s1.pos s1.plain ++ r ≡ take s.pos s.plain ++ (x ∷ r) =
        ap (λ n. take n s1.plain ++ r) {x = s.pos + 1} {y = suc s.pos} (omega arith)
        ∙ (ap (λ t. t ++ r) (take-set_end s.plain s.pos x (omega (arith, f.array, f.room)))
            ∙ append_assoc (take s.pos s.plain) (x ∷ []) r) in
      ap (λ t. (put_plains key t r).out) (put_plain-room key s x h)
      ∙ (put_plains-out key r s1 (suc m) f1 (omega arith)
          ∙ ap (λ t. s.out ++ enc_stream key (suc m) s.plain_pre s.pre t) whole)
  | inr ge ↦
      let h : s.pos ≡ 7 = ground (arith, f.room) in
      let block = set s.plain s.pos x in
      let full = record s { plain = block; pos = s.pos + 1 } in
      let p = chain_in block s.pre in
      let c = chain_out key s.plain_pre p in
      let t : Encryptor = record {
        plain = p;
        plain_pre = p;
        pre = c;
        out = s.out ++ c;
        pos = 0;
        is_header = false;
      } in
      let n : length block ≡ 8 = length-set s.plain s.pos x ∙ f.array in
      let ft : IsFilling t = record {
        array = length-xor_bytes block s.pre ∙ n;
        room = omega arith;
        header = λ q. absurd (cc q);
      } in
      let whole : take s.pos s.plain ++ (x ∷ r) ≡ block ++ r =
        sym (append_assoc (take s.pos s.plain) (x ∷ []) r)
        ∙ ap (λ q. q ++ r)
            (sym (take-set_end s.plain s.pos x (omega (arith, f.array, f.room)))
              ∙ take-all (suc s.pos) block (omega (arith, n, h))) in
      ap (λ q. (put_plains key q r).out)
        (put_plain-last key s x h ∙ encrypt_every-parts key full f.header)
      ∙ (put_plains-out key r t m ft (omega arith)
          ∙ (append_assoc s.out c (enc_stream key m p c r)
              ∙ ap (λ q. s.out ++ q)
                  (sym (enc_stream-suc key m s.plain_pre s.pre _ block r whole n))))
]

-- A full block is enciphered before the next byte is taken.
put_plains-full :
    (key : List ℕ) (s : Encryptor) (x : ℕ) (r : List ℕ)
    → s.pos ≡ 8
    → put_plains key s (x ∷ r) ≡ put_plains key (encrypt_every_8_byte key s) (x ∷ r)
unfolding put_plains put_plain encrypt_every_8_byte
put_plains-full key s x r h =
    let a : (s.pos == 8) ≡ true = ground arith in
    ap (λ q. put_plains key q r)
      (ap
        (λ b.
          let s' = if b then encrypt_every_8_byte key s else s in
          encrypt_full key (record s' { plain = set s'.plain s'.pos x; pos = s'.pos + 1 }))
        a)

-- the first byte and the random filling
abbrev pub header_bytes : ℕ → List ℕ
header_bytes fill = take (fill + 1) (start fill).plain

pub header_bytes_lem :
    (fill : ℕ)
    → fill < 8
    → (length (start fill).plain ≡ 8)
      × (length (header_bytes fill) ≡ fill + 1)
      × AreBytes (start fill).plain
      × (bit_and (get_or (start fill).plain 0 0) 0x7 ≡ fill)
unfolding start
header_bytes_lem zero h = (refl, refl, omega arith, refl)
header_bytes_lem (suc zero) h = (refl, refl, omega arith, refl)
header_bytes_lem (suc (suc zero)) h = (refl, refl, omega arith, refl)
header_bytes_lem (suc (suc (suc zero))) h = (refl, refl, omega arith, refl)
header_bytes_lem (suc (suc (suc (suc zero)))) h = (refl, refl, omega arith, refl)
header_bytes_lem (suc (suc (suc (suc (suc zero))))) h = (refl, refl, omega arith, refl)
header_bytes_lem (suc (suc (suc (suc (suc (suc zero)))))) h = (refl, refl, omega arith, refl)
header_bytes_lem (suc (suc (suc (suc (suc (suc (suc zero))))))) h = (refl, refl, omega arith, refl)
header_bytes_lem (suc (suc (suc (suc (suc (suc (suc (suc fill)))))))) h = absurd (omega arith)

start-pre :
    (fill : ℕ)
    → ((start fill).plain_pre ≡ zeros)
      × ((start fill).pre ≡ zeros)
      × ((start fill).out ≡ [])
      × ((start fill).pos ≡ fill + 1)
unfolding start
start-pre fill = (refl, refl, refl, refl)

-- Filling from the start, also when the filling takes up the whole first block.
put_plains-start :
    (key r : List ℕ) (fill m : ℕ)
    → fill < 8
    → r ≢ []
    → fill + 1 + length r ≡ 8 * m
    → (put_plains key (start fill) r).out ≡ enc_stream key m zeros zeros (header_bytes fill ++ r)
unfolding start
put_plains-start key [] fill m h ne e = absurd (ne refl)
put_plains-start key (x ∷ r) fill zero h ne e = absurd (omega arith)
put_plains-start key (x ∷ r) fill (suc m) h ne e = elim (Bool-cases (ltb fill 7)) [
  | inl lt ↦
      put_plains-out key (x ∷ r) (start fill) (suc m)
        (record {
          array = (header_bytes_lem fill h).0;
          room = ground (arith, lt);
          header = λ q. refl;
        })
        e
  | inr ge ↦
      let seven : fill ≡ 7 = ground (arith, ge) in
      let block = (start fill).plain in
      let n = (header_bytes_lem fill h).0 in
      let p = chain_in block zeros in
      let c = chain_out key zeros p in
      let t : Encryptor = record {
        plain = p;
        plain_pre = p;
        pre = c;
        out = [] ++ c;
        pos = 0;
        is_header = false;
      } in
      let whole : header_bytes fill ++ (x ∷ r) ≡ block ++ (x ∷ r) =
        ap (λ q. q ++ (x ∷ r)) (take-all (fill + 1) block (omega (arith, n, seven))) in
      ap (λ (q : Encryptor). q.out) (put_plains-full key (start fill) x r (omega arith))
      ∙ (ap (λ q. (put_plains key q (x ∷ r)).out) (encrypt_every-parts key (start fill) (λ q. refl))
          ∙ (put_plains-out key (x ∷ r) t m
                (record {
                  array = length-xor_bytes block zeros ∙ n;
                  room = omega arith;
                  header = λ q. absurd (cc q);
                })
                (omega arith)
              ∙ sym (enc_stream-suc key m zeros zeros _ block (x ∷ r) whole n)))
]

-- the whole plaintext stream of `qqencrypt`
abbrev pub stream : List ℕ → List ℕ
stream instr =
    header_bytes (header_fill (length instr))
    ++ (replicate 2 (bit_and random 0xff) ++ (instr ++ replicate 7 0))

abbrev pub blocks : List ℕ → ℕ
blocks instr = (length instr + header_fill (length instr) + 10) / 8

pub header_fill-lt : (n : ℕ) → header_fill n < 8
header_fill-lt n = ground arith

pub header_fill-mod : (n : ℕ) → (n + header_fill n + 10) % 8 ≡ 0
header_fill-mod n = ground arith

pub qqencrypt-enc_stream :
    (instr key : List ℕ)
    → qqencrypt instr key ≡ enc_stream key (blocks instr) zeros zeros (stream instr)
unfolding qqencrypt
qqencrypt-enc_stream instr key =
    let fill = header_fill (length instr) in
    let pads = replicate 2 (bit_and random 0xff) in
    let s = start fill in
    ap (λ (q : Encryptor). q.out)
      (put_plains-append key (put_plains key s pads) instr (replicate 7 0)
        ∙ put_plains-append key s pads (instr ++ replicate 7 0))
    ∙ put_plains-start key (pads ++ (instr ++ replicate 7 0)) fill (blocks instr)
        (header_fill-lt (length instr)) (λ q. cc q)
        (omega (arith, length-append instr (replicate 7 0), header_fill-mod (length instr)))
