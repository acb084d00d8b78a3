-- ===== src/Crypt/Decrypt.antt =====
-- `qqdecrypt` of src/qqcrypt.c reads back, byte by byte, a stream that was enciphered by blocks.
use myqq.Base.{
  ℕ, zero, suc, ◌+◌, ◌-◌, ◌*◌, ◌≤◌, ◌<◌, bit_xor, ◌≡◌, refl, sym, ap, ap₂, ◌∙◌, ◌≢◌, inl, inr, Bool,
  true, false, List, [], ◌∷◌, ◌++◌, arith, ltb, leb, ◌==◌, if◌then◌else◌, Bool-cases, length,
  get_or, set, take, drop, replicate, overwrite, length-append, length-set, length-take,
  length-drop, length-replicate, take-append-drop, take-all, take-append, drop-append, drop-drop,
  drop-get_or,
}
use myqq.Crypt.{
  Decryptor, xor_loop, decrypt_every_8_byte, decrypt_full, get_plain, get_plains, tail_is_zero,
  decipher, encipher, xor_bytes,
}
use myqq.Crypt.Tea.{AreBytes, IsBlock, decipher-encipher, encipher-IsBlock}
use myqq.Crypt.Blocks.{
  enc_stream, chain_in, chain_out, length-xor_bytes, xor_bytes_cancel, get_or-xor_bytes,
  IsBlock-xor_bytes, IsBlock-chain_out, AreBytes-take, AreBytes-drop,
}

overwrite-set :
    (d : List ℕ) (i : ℕ) (v : ℕ) (ys : List ℕ)
    → i < length d
    → overwrite (set d i v) (suc i) ys ≡ overwrite d i (v ∷ ys)
overwrite-set [] i v ys h = absurd (omega arith)
overwrite-set (x ∷ d) zero v ys h = refl
overwrite-set (x ∷ d) (suc i) v ys h = ap (λ t. x ∷ t) (overwrite-set d i v ys (omega arith))

drop-set : (d : List ℕ) (i : ℕ) (v : ℕ) → drop (suc i) (set d i v) ≡ drop (suc i) d
drop-set [] i v = refl
drop-set (x ∷ d) zero v = refl
drop-set (x ∷ d) (suc i) v = drop-set d i v

overwrite-same : (d ys : List ℕ) → length ys ≡ length d → overwrite d 0 ys ≡ ys
overwrite-same [] [] e = refl
overwrite-same [] (y ∷ ys) e = absurd (omega arith)
overwrite-same (x ∷ d) [] e = absurd (omega arith)
overwrite-same (x ∷ d) (y ∷ ys) e = ap (λ t. y ∷ t) (overwrite-same d ys (omega arith))

overwrite-nothing : (d : List ℕ) (i : ℕ) → overwrite d i [] ≡ d
overwrite-nothing [] i = refl
overwrite-nothing (x ∷ d) zero = refl
overwrite-nothing (x ∷ d) (suc i) = ap (λ t. x ∷ t) (overwrite-nothing d i)

drop-all : (n : ℕ) (xs : List ℕ) → length xs ≤ n → drop n xs ≡ []
drop-all zero [] h = refl
drop-all zero (x ∷ xs) h = absurd (omega arith)
drop-all (suc n) [] h = refl
drop-all (suc n) (x ∷ xs) h = drop-all n xs (omega arith)

empty : (xs : List ℕ) → length xs ≡ 0 → xs ≡ []
empty [] h = refl
empty (x ∷ xs) h = absurd (omega arith)

-- The loop on a block that is inside the input.
xor_loop-inside :
    (instr : List ℕ) (context left pos : ℕ) (d : List ℕ)
    → context + pos + left ≤ length instr
    → pos + left ≤ length d
    → xor_loop instr context left pos d ≡ (
      false,
      pos + left,
      overwrite d pos (xor_bytes (take left (drop pos d)) (take left (drop (context + pos) instr))),
    )
unfolding xor_loop xor_bytes
xor_loop-inside instr context zero pos d h k = λ i. (false, z i, sym (overwrite-nothing d pos) i)
  where
    z : pos ≡ pos + 0
    z = omega arith
xor_loop-inside instr context (suc left) pos d h k =
    let v = bit_xor (get_or d pos 0) (get_or instr (context + pos) 0) in
    let inside : leb (length instr) (context + pos) ≡ false = ground arith in
    let ih =
      xor_loop-inside instr context left (pos + 1) (set d pos v) (omega arith)
        (rw length-set (omega arith)) in
    let dd = drop-get_or d pos 0 (omega arith) in
    let di = drop-get_or instr (context + pos) 0 (omega arith) in
    let next : drop (pos + 1) (set d pos v) ≡ drop (suc pos) d =
      ap (λ n. drop n (set d pos v)) {x = pos + 1} {y = suc pos} (omega arith) ∙ drop-set d pos v in
    let index : context + (pos + 1) ≡ suc (context + pos) = omega arith in
    let rest =
      xor_bytes (take left (drop (suc pos) d)) (take left (drop (suc (context + pos)) instr)) in
    let bytes : overwrite (set d pos v) (pos + 1) (
          xor_bytes (take left (drop (pos + 1) (set d pos v)))
            (take left (drop (context + (pos + 1)) instr)))
        ≡ overwrite d pos (
            xor_bytes (take (suc left) (drop pos d))
              (take (suc left) (drop (context + pos) instr))) =
      ap₂
        (λ q n.
          overwrite (set d pos v) (pos + 1) (xor_bytes (take left q) (take left (drop n instr))))
        next index
      ∙ (ap (λ n. overwrite (set d pos v) n rest) {x = pos + 1} {y = suc pos} (omega arith)
          ∙ (overwrite-set d pos v rest (omega arith)
              ∙ ap₂ (λ a b. overwrite d pos (xor_bytes (take (suc left) a) (take (suc left) b)))
                  (sym dd) (sym di))) in
    let count : pos + 1 + left ≡ pos + suc left = omega arith in
    ap (λ b. if b then (true, pos, d) else xor_loop instr context left (pos + 1) (set d pos v))
      inside
    ∙ (ih ∙ λ i. (false, count i, bytes i))

-- A block of ciphertext at `context_start` is deciphered.
decrypt_every-inside :
    (instr key : List ℕ) (s : Decryptor)
    → length s.decrypted ≡ 8
    → s.context_start + 8 ≤ length instr
    → decrypt_every_8_byte instr key s ≡ record s {
      decrypted = decipher key (xor_bytes s.decrypted (take 8 (drop s.context_start instr)));
      context_start = s.context_start + 8;
      pos = 0;
    }
unfolding decrypt_every_8_byte
decrypt_every-inside instr key s n h =
    let c = take 8 (drop s.context_start instr) in
    let loop = xor_loop-inside instr s.context_start 8 0 s.decrypted (omega arith) (omega arith) in
    let start : s.context_start + 0 ≡ s.context_start = omega arith in
    let bytes : overwrite s.decrypted 0
          (xor_bytes (take 8 (drop 0 s.decrypted)) (take 8 (drop (s.context_start + 0) instr)))
        ≡ xor_bytes s.decrypted c =
      ap₂ (λ a k. overwrite s.decrypted 0 (xor_bytes a (take 8 (drop k instr))))
        (take-all 8 s.decrypted (omega arith)) start
      ∙ overwrite-same s.decrypted (xor_bytes s.decrypted c) (length-xor_bytes s.decrypted c) in
    ap
      (λ (r : Bool × ℕ × List ℕ).
        if r.0 then record s { decrypted = r.2; pos = r.1 } else record s {
          decrypted = decipher key r.2;
          context_start = s.context_start + 8;
          pos = 0;
        })
      loop
    ∙ ap
        (λ d. record s { decrypted = decipher key d; context_start = s.context_start + 8; pos = 0 })
        bytes

-- The decryptor stands in front of the plaintext `r`, of which the rest of one block and `m`
-- blocks of ciphertext are left.
pub record IsAt (instr key : List ℕ) (m : ℕ) (c rest r : List ℕ) (s : Decryptor) : Type 0 where
  pub block : IsBlock s.decrypted
  pub pre_block : IsBlock s.pre
  pub c_block : IsBlock c
  pub behind : 8 ≤ s.context_start
  pub total : length instr ≡ s.context_start + 8 * m
  pub cipher : drop (s.context_start - 8) instr ≡ c ++ enc_stream key m s.decrypted c rest
  pub rest_length : length rest ≡ 8 * m
  pub rest_bytes : AreBytes rest
  pub within : s.pos ≤ 8
  pub left : r ≡ drop s.pos (xor_bytes s.pre s.decrypted) ++ rest

unfoldable pub Ahead : List ℕ → List ℕ → List ℕ → Decryptor → Type 0
Ahead instr key r s =
    (m : ℕ) × (c : List ℕ) × (rest : List ℕ) × IsAt instr key m c rest r s × (s.pos < 8)

-- The next block is read when the one before is used up.
refill-full :
    (instr key : List ℕ) (m : ℕ) (c rest r : List ℕ) (s : Decryptor)
    → IsAt instr key m c rest r s
    → s.pos ≡ 8
    → r ≢ []
    → (p : List ℕ) × (o : List ℕ) × (k : ℕ) × IsAt instr key k o
        (drop 8 rest)
        r
        (record { decrypted = p; pre = c; context_start = s.context_start + 8; pos = 0 })
      × (decrypt_every_8_byte instr key
            (record s { pre = take 8 (drop (s.context_start - 8) instr) })
          ≡ record { decrypted = p; pre = c; context_start = s.context_start + 8; pos = 0 })
refill-full instr key zero c rest r s a e ne = absurd (ne (a.left ∙ (ap₂ ◌++◌ used no_rest)))
  where
    used : drop s.pos (xor_bytes s.pre s.decrypted) ≡ []
    used =
        ap (λ n. drop n (xor_bytes s.pre s.decrypted)) e
        ∙ drop-all 8 (xor_bytes s.pre s.decrypted)
            (omega (arith, length-xor_bytes s.pre s.decrypted, a.pre_block.eight))

    no_rest : rest ≡ []
    no_rest = empty rest (omega (arith, a.rest_length))
refill-full instr key (suc m) c rest r s a e ne = (
  p,
  o,
  m,
  record {
    block = p_block;
    pre_block = a.c_block;
    c_block = IsBlock-chain_out key s.decrypted p a.block;
    behind = omega arith;
    total = omega (arith, a.total);
    cipher =
        ap (λ n. drop n instr) {x = s.context_start + 8 - 8} {y = s.context_start} (omega arith)
        ∙ next;
    rest_length = omega (arith, length-drop 8 rest, a.rest_length);
    rest_bytes = AreBytes-drop 8 rest a.rest_bytes;
    within = omega arith;
    left =
        a.left
        ∙ (ap₂ ◌++◌ used (sym (take-append-drop 8 rest)) ∙ ap (λ q. q ++ drop 8 rest) (sym back));
  },
  ap (λ q. decrypt_every_8_byte instr key (record s { pre = q })) at_pre
      ∙ (decrypt_every-inside instr key (record s { pre = c }) a.block.eight
            (omega (arith, a.total))
          ∙ ap
              (λ q. record { decrypted = q; pre = c; context_start = s.context_start + 8; pos = 0 })
              plain),
)
  where
    p : List ℕ
    p = chain_in (take 8 rest) c

    o : List ℕ
    o = chain_out key s.decrypted p

    front : length (take 8 rest) ≡ 8
    front = omega (arith, length-take 8 rest, a.rest_length)

    p_block : IsBlock p
    p_block =
        IsBlock-xor_bytes (take 8 rest) c
          (record { eight = front; bytes = AreBytes-take 8 rest a.rest_bytes }) a.c_block

    o_block : IsBlock o
    o_block = IsBlock-chain_out key s.decrypted p a.block

    next : drop s.context_start instr ≡ o ++ enc_stream key m p o (drop 8 rest)
    next =
        ap (λ n. drop n instr) {y = s.context_start - 8 + 8} (omega (arith, a.behind))
        ∙ (sym (drop-drop 8 (s.context_start - 8) instr)
            ∙ (ap (drop 8) a.cipher
                ∙ (drop-append c (enc_stream key (suc m) s.decrypted c rest) 8 (sym a.c_block.eight)
                    ∙ unfold enc_stream in refl)))

    at_pre : take 8 (drop (s.context_start - 8) instr) ≡ c
    at_pre =
        ap (take 8) a.cipher
        ∙ take-append c (enc_stream key (suc m) s.decrypted c rest) 8 (sym a.c_block.eight)

    enciphered : xor_bytes s.decrypted (take 8 (drop s.context_start instr)) ≡ encipher key p
    enciphered =
        ap (xor_bytes s.decrypted) (
          ap (take 8) next
          ∙ take-append o (enc_stream key m p o (drop 8 rest)) 8 (sym o_block.eight))
        ∙ xor_bytes_cancel (encipher key p) s.decrypted
            ((encipher-IsBlock key p).eight ∙ sym a.block.eight)

    plain : decipher key (xor_bytes s.decrypted (take 8 (drop s.context_start instr))) ≡ p
    plain = ap (decipher key) enciphered ∙ decipher-encipher key p p_block

    used : drop s.pos (xor_bytes s.pre s.decrypted) ≡ []
    used =
        ap (λ n. drop n (xor_bytes s.pre s.decrypted)) e
        ∙ drop-all 8 (xor_bytes s.pre s.decrypted)
            (omega (arith, length-xor_bytes s.pre s.decrypted, a.pre_block.eight))

    back : xor_bytes c p ≡ take 8 rest
    back = xor_bytes_cancel (take 8 rest) c (front ∙ sym a.c_block.eight)

refill-Ahead :
    (instr key : List ℕ) (m : ℕ) (c rest r : List ℕ) (s : Decryptor)
    → IsAt instr key m c rest r s
    → r ≢ []
    → Ahead instr key r (decrypt_full instr key 8 s)
unfolding Ahead
refill-Ahead instr key m c rest r s a ne = elim (Bool-cases (s.pos == 8)) [
  | inl full ↦
      let f = refill-full instr key m c rest r s a (ground (arith, full)) ne in
      rw full (rw f.4 (f.2, f.1, drop 8 rest, f.3, omega arith))
  | inr open_block ↦ rw open_block (m, c, rest, a, ground (arith, open_block, a.within))
]

cons-head : {A : Type 0} {x y : A} {xs ys : List A} → x ∷ xs ≡ y ∷ ys → x ≡ y
cons-head e = cc

cons-tail : {A : Type 0} {x y : A} {xs ys : List A} → x ∷ xs ≡ y ∷ ys → xs ≡ ys
cons-tail e = cc

-- the byte in front of the cursor of a block that is not used up
step-IsAt :
    (instr key : List ℕ) (m : ℕ) (c rest : List ℕ) (x : ℕ) (r : List ℕ) (s : Decryptor)
    → IsAt instr key m c rest (x ∷ r) s
    → s.pos < 8
    → (bit_xor (get_or s.pre s.pos 0) (get_or s.decrypted s.pos 0) ≡ x)
      × IsAt instr key m c rest r (record s { pos = s.pos + 1 })
step-IsAt instr key m c rest x r s a h = (
  sym (get_or-xor_bytes s.pre s.decrypted s.pos same (omega (arith, a.pre_block.eight)))
      ∙ sym (cons-head shown),
  record {
    block = a.block;
    pre_block = a.pre_block;
    c_block = a.c_block;
    behind = a.behind;
    total = a.total;
    cipher = a.cipher;
    rest_length = a.rest_length;
    rest_bytes = a.rest_bytes;
    within = omega arith;
    left =
        cons-tail shown
        ∙ ap (λ n. drop n bytes ++ rest) {x = suc s.pos} {y = s.pos + 1} (omega arith);
  },
)
  where
    bytes : List ℕ
    bytes = xor_bytes s.pre s.decrypted

    same : length s.pre ≡ length s.decrypted
    same = a.pre_block.eight ∙ sym a.block.eight

    shown : x ∷ r ≡ get_or bytes s.pos 0 ∷ (drop (suc s.pos) bytes ++ rest)
    shown =
        a.left
        ∙ ap (λ q. q ++ rest)
            (drop-get_or bytes s.pos 0
              (omega (arith, length-xor_bytes s.pre s.decrypted, a.pre_block.eight)))

-- The decryptor stands in front of `r`, perhaps with its block used up.
unfoldable pub Near : List ℕ → List ℕ → List ℕ → Decryptor → Type 0
Near instr key r s = (m : ℕ) × (c : List ℕ) × (rest : List ℕ) × IsAt instr key m c rest r s

Near-Ahead : (instr key r : List ℕ) (s : Decryptor) → Ahead instr key r s → Near instr key r s
unfolding Near Ahead
Near-Ahead instr key r s (m, c, rest, a, h) = (m, c, rest, a)

get_plain-Near :
    (instr key : List ℕ) (x : ℕ) (r : List ℕ) (s : Decryptor)
    → Near instr key (x ∷ r) s
    → ((get_plain instr key s).0 ≡ x) × (r ≢ [] → Ahead instr key r (get_plain instr key s).1)
unfolding get_plain Near Ahead
get_plain-Near instr key x r s (m, c, rest, a) =
    go (refill-Ahead instr key m c rest (x ∷ r) s a (λ q. cc q))
  where
    s' : Decryptor
    s' = decrypt_full instr key 8 s

    go :
        Ahead instr key (x ∷ r) s'
        → (bit_xor (get_or s'.pre s'.pos 0) (get_or s'.decrypted s'.pos 0) ≡ x)
          × (r ≢ [] → Ahead instr key r (decrypt_full instr key 8 (record s' { pos = s'.pos + 1 })))
    go ahead =
        let (m', c', rest', a', h) = ahead in
        let st = step-IsAt instr key m' c' rest' x r s' a' h in
        (st.0, λ ne. refill-Ahead instr key m' c' rest' r (record s' { pos = s'.pos + 1 }) st.1 ne)

-- Reading as many bytes as `xs` has reads `xs`.
pub get_plains-Ahead :
    (instr key xs r : List ℕ) (n : ℕ) (s : Decryptor)
    → Ahead instr key (xs ++ r) s
    → r ≢ []
    → n ≡ length xs
    → ((get_plains instr key n s).0 ≡ xs) × Ahead instr key r (get_plains instr key n s).1
unfolding get_plains
get_plains-Ahead instr key [] r zero s a ne e = (refl, a)
get_plains-Ahead instr key [] r (suc n) s a ne e = absurd (omega arith)
get_plains-Ahead instr key (x ∷ xs) r zero s a ne e = absurd (omega arith)
get_plains-Ahead instr key (x ∷ xs) r (suc n) s a ne e =
    let one = get_plain-Near instr key x (xs ++ r) s (Near-Ahead instr key (x ∷ (xs ++ r)) s a) in
    let more =
      get_plains-Ahead instr key xs r n (get_plain instr key s).1
        (one.1 (λ q. ne (append-nil_right xs r q))) ne (omega arith) in
    (ap₂ ◌∷◌ one.0 more.0, more.1)
  where
    append-nil_right : (xs ys : List ℕ) → xs ++ ys ≡ [] → ys ≡ []
    append-nil_right [] ys q = q
    append-nil_right (x ∷ xs) ys q = absurd (cc q)

pub get_plains-Near :
    (instr key : List ℕ) (x y : ℕ) (r : List ℕ) (s : Decryptor)
    → Near instr key (x ∷ y ∷ r) s
    → r ≢ []
    → Ahead instr key r (get_plains instr key 2 s).1
unfolding get_plains
get_plains-Near instr key x y r s a ne =
    let one = get_plain-Near instr key x (y ∷ r) s a in
    (get_plains-Ahead instr key (y ∷ []) r 1 (get_plain instr key s).1 (one.1 (λ q. cc q)) ne
      refl).1

tail_is_zero-suc :
    (instr key : List ℕ) (n : ℕ) (s : Decryptor)
    → bit_xor (get_or s.pre s.pos 0) (get_or s.decrypted s.pos 0) ≡ 0
    → s.pos < 8
    → tail_is_zero instr key (suc n) s
      ≡ tail_is_zero instr key n (decrypt_full instr key 0 (record s { pos = s.pos + 1 }))
unfolding tail_is_zero
tail_is_zero-suc instr key n s e h =
    let lt : ltb s.pos 8 ≡ true = ground arith in
    let z : (bit_xor (get_or s.pre s.pos 0) (get_or s.decrypted s.pos 0) == 0) ≡ true =
      ground arith in
    rw lt (rw z)

-- The zeros at the end of the last block are found to be zero.
tail_is_zero-IsAt :
    (instr key : List ℕ) (m : ℕ) (c rest : List ℕ) (n : ℕ) (s : Decryptor)
    → IsAt instr key m c rest (replicate n 0) s
    → s.pos < 8
    → n < 8
    → tail_is_zero instr key n s ≡ true
tail_is_zero-IsAt instr key m c rest zero s a h k = unfold tail_is_zero in refl
tail_is_zero-IsAt instr key m c rest (suc zero) s a h k =
    let st = step-IsAt instr key m c rest 0 [] s a h in
    tail_is_zero-suc instr key zero s st.0 h ∙ unfold tail_is_zero in refl
tail_is_zero-IsAt instr key m c rest (suc (suc n)) s a h k =
    let st = step-IsAt instr key m c rest 0 (replicate (suc n) 0) s a h in
    let s1 = record s { pos = s.pos + 1 } in
    let bytes = xor_bytes s.pre s.decrypted in
    let size : suc (suc n) ≡ 8 - s.pos + 8 * m = omega (
      arith,
      length-replicate {A = ℕ} n 0,
      ap length a.left,
      length-append (drop s.pos bytes) rest,
      length-drop s.pos bytes,
      length-xor_bytes s.pre s.decrypted,
      a.pre_block.eight,
      a.rest_length,
    ) in
    let inside : (s.pos + 1 == 8) ≡ false = ground arith in
    tail_is_zero-suc instr key (suc n) s st.0 h
    ∙ (ap
          (λ b. tail_is_zero instr key (suc n) (
            if b
            then decrypt_every_8_byte instr key
                (record s1 { pre = take 8 (drop (s.context_start - 0) instr) })
            else s1))
          inside
        ∙ tail_is_zero-IsAt instr key m c rest (suc n) s1 st.1 (omega arith) (omega arith))

pub tail_is_zero-Ahead :
    (instr key : List ℕ) (s : Decryptor)
    → Ahead instr key (replicate 7 0) s
    → tail_is_zero instr key 7 s ≡ true
unfolding Ahead
tail_is_zero-Ahead instr key s (m, c, rest, a, h) =
    tail_is_zero-IsAt instr key m c rest 7 s a h (omega arith)
