-- ===== src/Config.antt =====
-- src/config.c and src/config.h: the configuration file, lines `name = value`.
-- A text is the list of its bytes. `strcasecmp` and `atol` of the C library are parameters.
pub mod Words
pub mod Lines
pub mod Read
mod Tests
use myqq.Base.{
  ℕ, zero, suc, ◌+◌, Bool, true, false, not, ◌&&◌, ◌||◌, Option, none, some, List, [], ◌∷◌, ◌++◌,
  ltb, leb, ◌==◌, if◌then◌else◌, length, get_or, set, take, drop, replicate,
}
use myqq.Packet.{c_string}

abbrev pub name_len : ℕ
name_len = 64

abbrev pub value_len : ℕ
value_len = 256

-- `struct config_item`: the bytes of `name`, then those of `value`
abbrev pub ConfigItem : Type 0
ConfigItem = List ℕ

-- Items that `add` has allocated, in order.
abbrev pub Config : Type 0
Config = List ConfigItem

-- `strncpy( dest, s, n )` into `n` bytes: no 0 behind a string of `n` bytes
abbrev pub strncpy : List ℕ → ℕ → List ℕ
strncpy s n = take n (c_string s ++ replicate n 0)

unfoldable pub add : Config → List ℕ → List ℕ → Config
add c name value =
    if leb 1024 (length c)
    then c
    else c ++ ((strncpy name name_len ++ strncpy value value_len) ∷ [])

-- `items[i]->name` and `items[i]->value` as C reads them: up to the first 0
abbrev pub name_of : ConfigItem → List ℕ
name_of item = c_string item

abbrev pub value_of : ConfigItem → List ℕ
value_of item = c_string (drop name_len item)

-- `enum PARSING`
pub data Parsing : Type 0 where
  in_name in_value : Parsing

-- The variables of `parse`; `skip` is the second `i ++` of a `\\`, which passes over a byte.
pub record Parser : Type 0 where
  pub state : Parsing
  pub skip : Bool
  pub j : ℕ
  pub name : List ℕ
  pub value : List ℕ
  pub conf : Config

-- `while( j>0 && buf[j-1] == ' ' ) j--;`
unfoldable pub trim : List ℕ → ℕ → ℕ
trim buf zero = zero
trim buf (suc j) = let rest = trim buf j in if get_or buf j 0 == 32 then rest else suc j

-- case NAME: 13 is `\r`, 10 `\n`, 61 `=` and 92 `\\`
unfoldable pub parse_name : Parser → ℕ → Parser
unfolding trim
parse_name p c =
    let j = trim p.name p.j in
    if c == 13
    then p
    else if c == 10
    then record p { j = 0 }
    else if c == 61
    then record p { state = Parsing.in_value; name = set p.name j 0; j = 0 }
    else if c == 92
    then record p { skip = true }
    else if p.j == 0 && c == 32
    then p
    else if ltb p.j name_len
    then record p { name = set p.name p.j c; j = p.j + 1 }
    else p

-- case VALUE: 35 is `#`
unfoldable pub parse_value : Parser → ℕ → Parser
unfolding trim add
parse_value p c =
    let value = set p.value (trim p.value p.j) 0 in
    if c == 13
    then p
    else if c == 10 || c == 0
    then record p {
      state = Parsing.in_name;
      value = value;
      conf = if get_or p.name 0 0 == 35 then p.conf else add p.conf p.name value;
      j = 0;
    }
    else if c == 92
    then record p { skip = true }
    else if p.j == 0 && c == 32
    then p
    else if ltb p.j value_len
    then record p { value = set p.value p.j c; j = p.j + 1 }
    else p

unfoldable pub parse_byte : Parser → ℕ → Parser
unfolding parse_name parse_value
parse_byte p c =
    if p.skip
    then record p { skip = false }
    else elim p.state [ in_name ↦ parse_name p c | in_value ↦ parse_value p c ]

unfoldable pub parse_from : Parser → List ℕ → Parser
unfolding parse_byte
parse_from p [] = p
parse_from p (c ∷ buf) = parse_from (parse_byte p c) buf

-- The bytes that the arrays on the stack start with do not matter; they are 0 here.
abbrev pub start_parser : Parser
start_parser = record {
  state = Parsing.in_name;
  skip = false;
  j = 0;
  name = replicate 65 0;
  value = replicate 257 0;
  conf = [];
}

-- `buf[len] = '\0'` puts one byte behind the text.
unfoldable pub parse : List ℕ → Config
unfolding parse_from
parse buf = (parse_from start_parser (buf ++ (0 ∷ []))).conf

-- The ends of `config_open`: -1, the configuration, or a write behind the array `buf`.
pub data Opened : Type 0 where
  refused overrun : Opened
  opened : Config → Opened

-- `config_open` on the text of the file: at most 32 KB are read, into an array of 32 KB, an empty
-- file is refused, and 32 KB leave no room for the 0 behind the text.
unfoldable pub config_open : List ℕ → Opened
unfolding parse
config_open text =
    let buf = take 32768 text in
    if not (ltb 0 (length buf))
    then refused
    else if ltb (length buf) 32768
    then opened (parse buf)
    else overrun

abbrev pub same_text : List ℕ → List ℕ → Bool
same_text [] [] = true
same_text [] (y ∷ ys) = false
same_text (x ∷ xs) [] = false
same_text (x ∷ xs) (y ∷ ys) = x == y && same_text xs ys

unfoldable pub config_readstr : Config → List ℕ → Option (List ℕ)
config_readstr [] name = none
config_readstr (item ∷ c) name =
    if same_text (name_of item) name then some (value_of item) else config_readstr c name

-- "true" and "false"
abbrev pub true_text : List ℕ
true_text = 116 ∷ 114 ∷ 117 ∷ 101 ∷ []

abbrev pub false_text : List ℕ
false_text = 102 ∷ 97 ∷ 108 ∷ 115 ∷ 101 ∷ []

unfoldable pub config_readint : (List ℕ → List ℕ → Bool) → (List ℕ → ℕ) → Config → List ℕ → ℕ
config_readint stricmp atol [] name = 0
config_readint stricmp atol (item ∷ c) name =
    if same_text (name_of item) name
    then if stricmp (value_of item) true_text
      then 1
      else (if stricmp (value_of item) false_text then 0 else atol (value_of item))
    else config_readint stricmp atol c name
