-- ===== src/Crypt.antt =====
-- src/qqcrypt.c: the QQ cipher, sixteen rounds of TEA on blocks of eight bytes, chained so that
-- a block is mixed with the ciphertext and the plaintext before it.
-- A buffer is the list of its bytes; the pointers `crypted`, `crypted_pre_8`, `crypt_buff` and
-- `crypt_buff_pre_8` are the bytes that they point to.
pub mod Tea
pub mod Blocks
pub mod Encrypt
pub mod Decrypt
pub mod RoundTrip
mod Tests
use myqq.Base.{
  ℕ, zero, suc, ◌+◌, ◌-◌, ◌*◌, ◌/◌, ◌%◌, ◌^◌, bit_and, bit_or, bit_xor, Bool, true, false, not,
  ◌&&◌, ◌||◌, Option, none, some, List, [], ◌∷◌, ◌++◌, ltb, leb, ◌==◌, if◌then◌else◌, length,
  get_or, set, take, drop, replicate, overwrite,
}
use myqq.Packet.{int_at, int_bytes}

-- arithmetic of `unsigned int`
abbrev pub add32 : ℕ → ℕ → ℕ
add32 a b = (a + b) % 2 ^ 32

abbrev pub sub32 : ℕ → ℕ → ℕ
sub32 a b = (a + 2 ^ 32 - b % 2 ^ 32) % 2 ^ 32

abbrev pub delta : ℕ
delta = 0x9E3779B9

-- `( (v << 4) + a ) ^ ( v + sum ) ^ ( (v >> 5) + b )`
unfoldable pub mix : ℕ → ℕ → ℕ → ℕ → ℕ
mix v a b sum = bit_xor (bit_xor (add32 (v * 16 % 2 ^ 32) a) (add32 v sum)) (add32 (v / 32) b)

-- the key's four words in host order
pub record Key : Type 0 where
  pub a : ℕ
  pub b : ℕ
  pub c : ℕ
  pub d : ℕ

unfoldable pub key_words : List ℕ → Key
key_words k = record { a = int_at k 0; b = int_at k 4; c = int_at k 8; d = int_at k 12 }

-- the loop of `encipher` with `n` rounds left
unfoldable pub encipher_rounds : Key → ℕ → ℕ → ℕ → ℕ → ℕ × ℕ
encipher_rounds k zero sum y z = (y, z)
encipher_rounds k (suc n) sum y z =
    let sum' = add32 sum delta in
    let y' = add32 y (mix z k.a k.b sum') in
    let z' = add32 z (mix y' k.c k.d sum') in encipher_rounds k n sum' y' z'

-- the loop of `decipher` with `n` rounds left
unfoldable pub decipher_rounds : Key → ℕ → ℕ → ℕ → ℕ → ℕ × ℕ
decipher_rounds k zero sum y z = (y, z)
decipher_rounds k (suc n) sum y z =
    let z' = sub32 z (mix y k.c k.d sum) in
    let y' = sub32 y (mix z' k.a k.b sum) in decipher_rounds k n (sub32 sum delta) y' z'

-- `w` from `v`: the words are read and written in network order.
unfoldable pub encipher : List ℕ → List ℕ → List ℕ
encipher k v =
    let (y, z) = encipher_rounds (key_words k) 16 0 (int_at v 0) (int_at v 4) in
    int_bytes y ++ int_bytes z

unfoldable pub decipher : List ℕ → List ℕ → List ℕ
decipher k v =
    let (y, z) = decipher_rounds (key_words k) 16 0xE3779B90 (int_at v 0) (int_at v 4) in
    int_bytes y ++ int_bytes z

-- `for( i ) p[i] ^= q[i]`
unfoldable pub xor_bytes : List ℕ → List ℕ → List ℕ
xor_bytes [] q = []
xor_bytes (x ∷ p) [] = x ∷ p
xor_bytes (x ∷ p) (y ∷ q) = bit_xor x y ∷ xor_bytes p q

-- `random()`, which returns a constant
abbrev pub random : ℕ
random = 0xdead

abbrev pub zeros : List ℕ
zeros = replicate 8 0

-- the variables of `qqencrypt`; `out` is what was written to `outstr`, `pre` what `crypted_pre_8`
-- points to.
pub record Encryptor : Type 0 where
  pub plain : List ℕ
  pub plain_pre : List ℕ
  pub pre : List ℕ
  pub out : List ℕ
  pub pos : ℕ
  pub is_header : Bool

-- the macro `encrypt_every_8_byte`
unfoldable pub encrypt_every_8_byte : List ℕ → Encryptor → Encryptor
encrypt_every_8_byte key s =
    let p = xor_bytes s.plain (if s.is_header then s.plain_pre else s.pre) in
    let c = xor_bytes (encipher key p) s.plain_pre in
    record { plain = p; plain_pre = p; pre = c; out = s.out ++ c; pos = 0; is_header = false }

abbrev pub encrypt_full : List ℕ → Encryptor → Encryptor
encrypt_full key s = if s.pos == 8 then encrypt_every_8_byte key s else s

-- One byte through the body that the three `while` loops share. A round that finds the block full
-- only encrypts it, and the byte is taken by the next one.
unfoldable pub put_plain : List ℕ → Encryptor → ℕ → Encryptor
put_plain key s x =
    let s' = encrypt_full key s in
    encrypt_full key (record s' { plain = set s'.plain s'.pos x; pos = s'.pos + 1 })

unfoldable pub put_plains : List ℕ → Encryptor → List ℕ → Encryptor
put_plains key s [] = s
put_plains key s (x ∷ xs) = put_plains key (put_plain key s x) xs

-- the number of random bytes behind the first one
abbrev pub header_fill : ℕ → ℕ
header_fill n = if (n + 0x0a) % 8 == 0 then 0 else 8 - (n + 0x0a) % 8

-- `plain` and the two chain blocks hold nothing that is read before it is set.
unfoldable pub start : ℕ → Encryptor
start fill = record {
  plain =
      overwrite (set zeros 0 (bit_or (bit_and random 0xf8) fill)) 1
        (replicate fill (bit_and random 0xff));
  plain_pre = zeros;
  pre = zeros;
  out = [];
  pos = fill + 1;
  is_header = true;
}

-- What `qqencrypt` writes to `outstr`; `*outstrlen_ptr` becomes its length.
unfoldable pub qqencrypt : List ℕ → List ℕ → List ℕ
unfolding put_plains put_plain encrypt_every_8_byte start
qqencrypt instr key =
    let s =
      put_plains key (start (header_fill (length instr))) (replicate 2 (bit_and random 0xff)) in
    let s' = put_plains key s instr in (put_plains key s' (replicate 7 0)).out

-- The variables of `qqdecrypt`: `pre` is what `crypt_buff_pre_8` points to, and `crypt_buff` is
-- `instr + context_start`.
pub record Decryptor : Type 0 where
  pub decrypted : List ℕ
  pub pre : List ℕ
  pub context_start : ℕ
  pub pos : ℕ

-- the loop of the macro `decrypt_every_8_byte`: whether `bNeedRet` is set, `pos_in_byte` and
-- `decrypted`, with `left` rounds left
unfoldable pub xor_loop : List ℕ → ℕ → ℕ → ℕ → List ℕ → Bool × ℕ × List ℕ
xor_loop instr context zero pos d = (false, pos, d)
xor_loop instr context (suc left) pos d =
    let next =
      xor_loop instr context left (pos + 1)
        (set d pos (bit_xor (get_or d pos 0) (get_or instr (context + pos) 0))) in
    if leb (length instr) (context + pos) then (true, pos, d) else next

unfoldable pub decrypt_every_8_byte : List ℕ → List ℕ → Decryptor → Decryptor
unfolding xor_loop
decrypt_every_8_byte instr key s =
    let (need_ret, pos, d) = xor_loop instr s.context_start 8 0 s.decrypted in
    if need_ret
    then record s { decrypted = d; pos = pos }
    else record s { decrypted = decipher key d; context_start = s.context_start + 8; pos = 0 }

-- `if( pos_in_byte == 8 )` with `crypt_buff_pre_8` set to `back` bytes before `crypt_buff`
abbrev pub decrypt_full : List ℕ → List ℕ → ℕ → Decryptor → Decryptor
decrypt_full instr key back s =
    if s.pos == 8
    then decrypt_every_8_byte instr key
        (record s { pre = take 8 (drop (s.context_start - back) instr) })
    else s

-- One byte through the body of the first two loops of `qqdecrypt`.
unfoldable pub get_plain : List ℕ → List ℕ → Decryptor → ℕ × Decryptor
get_plain instr key s =
    let s' = decrypt_full instr key 8 s in
    (
      bit_xor (get_or s'.pre s'.pos 0) (get_or s'.decrypted s'.pos 0),
      decrypt_full instr key 8 (record s' { pos = s'.pos + 1 }),
    )

unfoldable pub get_plains : List ℕ → List ℕ → ℕ → Decryptor → List ℕ × Decryptor
get_plains instr key zero s = ([], s)
get_plains instr key (suc n) s =
    let (x, s') = get_plain instr key s in
    let (xs, s'') = get_plains instr key n s' in (x ∷ xs, s'')

-- the last loop, with `left` rounds left: whether the padding is all zero
unfoldable pub tail_is_zero : List ℕ → List ℕ → ℕ → Decryptor → Bool
tail_is_zero instr key zero s = true
tail_is_zero instr key (suc left) s =
    let x = bit_xor (get_or s.pre s.pos 0) (get_or s.decrypted s.pos 0) in
    let s' = if ltb s.pos 8 then record s { pos = s.pos + 1 } else s in
    let rest = tail_is_zero instr key left (decrypt_full instr key 0 s') in
    if ltb s.pos 8 && not (x == 0) then false else rest

-- `qqdecrypt` with room for `room` bytes in `outstr`: `none` is the result 0, else the bytes
-- written to `outstr`. The second loop of the source runs `count` times.
unfoldable pub qqdecrypt : List ℕ → List ℕ → ℕ → Option (List ℕ)
qqdecrypt instr key room =
    let n = length instr in
    let decrypted = decipher key (take 8 instr) in
    let pos = bit_and (get_or decrypted 0 0) 0x7 in
    let count = n - pos - 10 in
    let s : Decryptor = record {
      decrypted = decrypted;
      pre = zeros;
      context_start = 8;
      pos = pos + 1;
    } in
    let (skipped, s') = get_plains instr key 2 s in
    let (text, s'') = get_plains instr key count s' in
    if not (n % 8 == 0) || ltb n 16
    then none
    else (if ltb n (pos + 10) || ltb room count
        then none
        else (if tail_is_zero instr key 7 s'' then some text else none))
