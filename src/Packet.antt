-- ===== src/Packet.antt =====
-- src/qqpacket.c and src/qqpacket.h: the byte buffer of a packet, and its cursor operations.
-- `put_*` write at `pos` while `size` leaves room, `get_*` read at `pos` up to `len`.
-- A byte is a number below 256; words go over the wire in network order, so the memory bytes of
-- `htons( b )` are the big-endian digits of `b` on every host.
pub mod Store
pub mod Unread
pub mod RoundTrip
pub mod TokenRead
pub mod Text
mod Tests
use myqq.Base.{
  ℕ, zero, suc, ◌+◌, ◌-◌, ◌*◌, ◌/◌, ◌%◌, Option, none, some, List, [], ◌∷◌, ltb, leb, ◌==◌,
  if◌then◌else◌, length, get_or, set, take, drop, overwrite,
}

pub record ByteBuffer : Type 0 where
  pub pos : ℕ
  pub len : ℕ
  pub size : ℕ
  pub bytes : List ℕ

abbrev pub packet_size : ℕ
packet_size = 4096

-- the big-endian bytes of a `ushort` and of a `uint`, and the numbers that they stand for
abbrev pub word_bytes : ℕ → List ℕ
word_bytes w = w / 256 % 256 ∷ w % 256 ∷ []

abbrev pub int_bytes : ℕ → List ℕ
int_bytes w = w / 16777216 % 256 ∷ w / 65536 % 256 ∷ w / 256 % 256 ∷ w % 256 ∷ []

abbrev pub word_at : List ℕ → ℕ → ℕ
word_at bs i = get_or bs i 0 * 256 + get_or bs (i + 1) 0

abbrev pub int_at : List ℕ → ℕ → ℕ
int_at bs i =
    get_or bs i 0 * 16777216
    + get_or bs (i + 1) 0 * 65536
    + get_or bs (i + 2) 0 * 256
    + get_or bs (i + 3) 0

-- bytes stored at the cursor, which moves behind them
abbrev pub store : ByteBuffer → List ℕ → ByteBuffer
store b xs = record b { bytes = overwrite b.bytes b.pos xs; pos = b.pos + length xs }

abbrev pub advance : ByteBuffer → ℕ → ByteBuffer
advance b n = record b { pos = b.pos + n }

unfoldable pub put_byte : ByteBuffer → ℕ → ByteBuffer
put_byte b x = if ltb b.pos b.size then store b (x ∷ []) else b

unfoldable pub put_word : ByteBuffer → ℕ → ByteBuffer
put_word b w = if ltb (b.pos + 1) b.size then store b (word_bytes w) else b

unfoldable pub put_int : ByteBuffer → ℕ → ByteBuffer
put_int b w = if ltb (b.pos + 3) b.size then store b (int_bytes w) else b

unfoldable pub put_data : ByteBuffer → List ℕ → ByteBuffer
put_data b xs = if leb (b.pos + length xs) b.size then store b xs else b

-- `strlen( str )` bytes of `str`: what stands before the first 0
abbrev pub c_string : List ℕ → List ℕ
c_string [] = []
c_string (c ∷ s) = if c == 0 then [] else c ∷ c_string s

unfoldable pub put_string : ByteBuffer → List ℕ → ByteBuffer
unfolding put_data
put_string b s = put_data b (c_string s)

-- A reader returns its value and the buffer; `none` is a copy past the end of its destination,
-- which C leaves undefined.
abbrev pub M : Type 0 → Type 0
M A = ByteBuffer → Option (A × ByteBuffer)

infixl 5 ◌>>=◌ ◌>>◌
abbrev pub ◌>>=◌ : {A B : Type 0} → M A → (A → M B) → M B
◌>>=◌ m f b = elim (m b) [ none ↦ none | some (a, b') ↦ f a b' ]

abbrev pub ◌>>◌ : {A B : Type 0} → M A → M B → M B
m >> k = m >>= λ _. k

abbrev pub pure : {A : Type 0} → A → M A
pure a b = some (a, b)

unfoldable pub get_byte : M ℕ
get_byte b = if ltb b.pos b.len then some (get_or b.bytes b.pos 0, advance b 1) else some (0, b)

unfoldable pub get_word : M ℕ
get_word b =
    if ltb (b.pos + 1) b.len then some (word_at b.bytes b.pos, advance b 2) else some (0, b)

unfoldable pub get_int : M ℕ
get_int b = if ltb (b.pos + 3) b.len then some (int_at b.bytes b.pos, advance b 4) else some (0, b)

-- The loop with `n - 1 - j` rounds left; the result is the count, `str` and the buffer.
unfoldable pub get_string_loop : ℕ → ℕ → List ℕ → ByteBuffer → ℕ × List ℕ × ByteBuffer
get_string_loop zero j str b = (j, set str j 0, b)
get_string_loop (suc left) j str b =
    let c = get_or b.bytes b.pos 0 in
    let rest = get_string_loop left (j + 1) (set str j c) (advance b 1) in
    if ltb b.pos b.len
    then (if c == 0 then (j + 1, set str j c, advance b 1) else rest)
    else (j, set str j 0, b)

unfoldable pub get_string : List ℕ → ℕ → M (ℕ × List ℕ)
unfolding get_string_loop
get_string str n b = let (j, str', b') = get_string_loop (n - 1) 0 str b in some ((j, str'), b')

-- `memcpy` of `xs` into the array `dst`
abbrev pub copy_into : List ℕ → List ℕ → Option (List ℕ)
copy_into dst xs = if leb (length xs) (length dst) then some (overwrite dst 0 xs) else none

-- the `n` bytes at the cursor
abbrev pub load : ByteBuffer → ℕ → List ℕ
load b n = take n (drop b.pos b.bytes)

unfoldable pub get_data : List ℕ → ℕ → M (ℕ × List ℕ)
get_data dst n b =
    if leb (b.pos + n) b.len
    then elim (copy_into dst (load b n)) [ none ↦ none | some d ↦ some ((n, d), advance b n) ]
    else some ((0, dst), b)

-- `token` of src/qqdef.h; `len` is the bit pattern of the `short`, `bytes` has TOKEN_LEN bytes.
pub record Token : Type 0 where
  pub len : ℕ
  pub bytes : List ℕ

abbrev pub token_len : ℕ
token_len = 256

unfoldable pub get_token : Token → M (ℕ × Token)
get_token tok = do n ← get_word; r ← get_data tok.bytes n; pure (n, record { len = n; bytes = r.1 })

unfoldable pub get_token2 : Token → M (ℕ × Token)
get_token2 tok = do
  n ← get_byte
  r ← get_data tok.bytes n
  pure (n, record { len = n; bytes = r.1 })
