-- ===== src/Config/Lines.antt =====
-- `parse` of src/config.c byte by byte, inside a name and inside a value.
use myqq.Base.{
  ℕ, suc, ◌+◌, ◌<◌, ◌≡◌, refl, sym, ap, ap₂, ◌∙◌, ◌≢◌, Bool, false, List, [], ◌∷◌, ◌++◌, arith, leb,
  ◌==◌, if◌then◌else◌, length, get_or, set, take, replicate, length-append, length-set,
  get_or-set_ne, take-set_end,
}
use myqq.Packet.{c_string}
use myqq.Config.{
  Parser, Parsing, in_name, in_value, Config, ConfigItem, name_len, value_len, add, trim,
  parse_name, parse_value, parse_byte,
}
use myqq.Config.Words.{
  IsPlain, IsWord, Pair, get_or-take, trim-word, trim-word_space, c_string-set, take-take_less,
}

-- What holds inside a name, with the bytes `xs` of it read, and inside a value.
pub record InName (p : Parser) (xs : List ℕ) (conf : Config) : Type 0 where
  pub state : p.state ≡ Parsing.in_name
  pub skip : p.skip ≡ false
  pub j : p.j ≡ length xs
  pub name : take p.j p.name ≡ xs
  pub name_array : length p.name ≡ 65
  pub value_array : length p.value ≡ 257
  pub items : p.conf ≡ conf

pub record InValue (p : Parser) (n xs : List ℕ) (conf : Config) : Type 0 where
  pub state : p.state ≡ Parsing.in_value
  pub skip : p.skip ≡ false
  pub j : p.j ≡ length xs
  pub value : take p.j p.value ≡ xs
  pub name : c_string p.name ≡ n
  pub not_comment : get_or p.name 0 0 ≢ 35
  pub name_array : length p.name ≡ 65
  pub value_array : length p.value ≡ 257
  pub items : p.conf ≡ conf

pub parse_byte-name :
    (p : Parser) (c : ℕ)
    → p.state ≡ Parsing.in_name
    → p.skip ≡ false
    → parse_byte p c ≡ parse_name p c
unfolding parse_byte
parse_byte-name p c s k =
    ap₂
      (λ (b : Bool) (t : Parsing).
        if b
        then record p { skip = false }
        else elim t [ in_name ↦ parse_name p c | in_value ↦ parse_value p c ])
      k s

pub parse_byte-value :
    (p : Parser) (c : ℕ)
    → p.state ≡ Parsing.in_value
    → p.skip ≡ false
    → parse_byte p c ≡ parse_value p c
unfolding parse_byte
parse_byte-value p c s k =
    ap₂
      (λ (b : Bool) (t : Parsing).
        if b
        then record p { skip = false }
        else elim t [ in_name ↦ parse_name p c | in_value ↦ parse_value p c ])
      k s

-- A byte of a name is appended.
pub name-step :
    (p : Parser) (xs : List ℕ) (conf : Config) (c : ℕ)
    → InName p xs conf
    → IsPlain c
    → c ≢ 61
    → (length xs ≡ 0 → c ≢ 32)
    → length xs < name_len
    → InName (parse_byte p c) (xs ++ (c ∷ [])) conf
unfolding parse_name
name-step p xs conf c v (c0, c10, c13, c92) c61 c32 h =
    let e : parse_byte p c ≡ record p { name = set p.name p.j c; j = p.j + 1 } =
      parse_byte-name p c v.state v.skip ∙ ground (arith, v.j) in
    rw e (record {
      state = v.state;
      skip = v.skip;
      j = omega (arith, v.j, length-append xs (c ∷ []));
      name =
          ap (λ k. take k (set p.name p.j c)) {y = suc p.j} (omega arith)
          ∙ (take-set_end p.name p.j c (omega (arith, v.j, v.name_array))
              ∙ ap (λ t. t ++ (c ∷ [])) v.name);
      name_array = length-set p.name p.j c ∙ v.name_array;
      value_array = v.value_array;
      items = v.items;
    })

pub value-step :
    (p : Parser) (n xs : List ℕ) (conf : Config) (c : ℕ)
    → InValue p n xs conf
    → IsPlain c
    → (length xs ≡ 0 → c ≢ 32)
    → length xs < value_len
    → InValue (parse_byte p c) n (xs ++ (c ∷ [])) conf
unfolding parse_value
value-step p n xs conf c v (c0, c10, c13, c92) c32 h =
    let e : parse_byte p c ≡ record p { value = set p.value p.j c; j = p.j + 1 } =
      parse_byte-value p c v.state v.skip ∙ ground (arith, v.j) in
    rw e (record {
      state = v.state;
      skip = v.skip;
      j = omega (arith, v.j, length-append xs (c ∷ []));
      value =
          ap (λ k. take k (set p.value p.j c)) {y = suc p.j} (omega arith)
          ∙ (take-set_end p.value p.j c (omega (arith, v.j, v.value_array))
              ∙ ap (λ t. t ++ (c ∷ [])) v.value);
      name = v.name;
      not_comment = v.not_comment;
      name_array = v.name_array;
      value_array = length-set p.value p.j c ∙ v.value_array;
      items = v.items;
    })

-- the item that `add` makes for a pair
abbrev pub item_of : Pair → ConfigItem
item_of p =
    take name_len (p.0 ++ replicate name_len 0) ++ take value_len (p.1 ++ replicate value_len 0)

-- `=` behind the name and a space ends the name.
pub equals-step :
    (p : Parser) (n : List ℕ) (conf : Config)
    → InName p (n ++ (32 ∷ [])) conf
    → IsWord n name_len
    → 0 < length n
    → get_or n 0 0 ≢ 35
    → InValue (parse_byte p 61) n [] conf
unfolding parse_name
equals-step p n conf v w h first =
    let j : p.j ≡ suc (length n) = omega (arith, v.j, length-append n (32 ∷ [])) in
    let all : take (suc (length n)) p.name ≡ n ++ (32 ∷ []) =
      ap (λ k. take k p.name) (sym j) ∙ v.name in
    let word : take (length n) p.name ≡ n = take-take_less (length n) p.name n 32 all refl in
    let t : trim p.name p.j ≡ length n =
      ap (trim p.name) j ∙ trim-word_space p.name n all word w.last in
    let buf = set p.name (length n) 0 in
    let e : parse_byte p 61 ≡ record p { state = Parsing.in_value; name = buf; j = 0 } =
      parse_byte-name p 61 v.state v.skip
      ∙ ap (λ k. record p { state = Parsing.in_value; name = set p.name k 0; j = 0 }) t in
    let start : get_or buf 0 0 ≡ get_or n 0 0 =
      get_or-set_ne p.name (length n) 0 0 0 (omega arith)
      ∙ (sym (get_or-take (length n) 0 p.name h) ∙ ap (λ x. get_or x 0 0) word) in
    rw e (record {
      state = refl;
      skip = v.skip;
      j = refl;
      value = refl;
      name = c_string-set n p.name w.plain (omega (arith, w.fits, v.name_array)) word;
      not_comment = λ q. first (sym start ∙ q);
      name_array = length-set p.name (length n) 0 ∙ v.name_array;
      value_array = v.value_array;
      items = v.items;
    })

-- The end of the line ends the value and adds the pair.
pub newline-step :
    (p : Parser) (n w : List ℕ) (conf : Config)
    → InValue p n w conf
    → IsWord w value_len
    → length conf < 1024
    → InName (parse_byte p 10) [] (conf ++ (item_of (n, w) ∷ []))
unfolding parse_value add
newline-step p n w conf v word room =
    let held : take (length w) p.value ≡ w = ap (λ k. take k p.value) (sym v.j) ∙ v.value in
    let t : trim p.value p.j ≡ length w =
      ap (trim p.value) v.j ∙ trim-word p.value w held word.last in
    let buf = set p.value (length w) 0 in
    let c : c_string buf ≡ w =
      c_string-set w p.value word.plain (omega (arith, word.fits, v.value_array)) held in
    let kept : (get_or p.name 0 0 == 35) ≡ false = ground (arith, v.not_comment) in
    let more : leb 1024 (length p.conf) ≡ false = ground (arith, ap length v.items) in
    let added : add p.conf p.name buf ≡ conf ++ (item_of (n, w) ∷ []) =
      rw (add, more)
        (ap₂ (λ a b. a ++ (b ∷ [])) v.items
          (ap₂
            (λ a b.
              take name_len (a ++ replicate name_len 0)
              ++ take value_len (b ++ replicate value_len 0))
            v.name c)) in
    let e : parse_byte p 10 ≡ record p {
      state = Parsing.in_name;
      value = buf;
      conf = conf ++ (item_of (n, w) ∷ []);
      j = 0;
    } =
      parse_byte-value p 10 v.state v.skip
      ∙ (ap
            (λ k. record p {
              state = Parsing.in_name;
              value = set p.value k 0;
              conf =
                  if get_or p.name 0 0 == 35 then p.conf else add p.conf p.name (set p.value k 0);
              j = 0;
            })
            t
          ∙ ap₂
              (λ (b : Bool) (x : Config). record p {
                state = Parsing.in_name;
                value = buf;
                conf = if b then p.conf else x;
                j = 0;
              })
              kept added) in
    rw e (record {
      state = refl;
      skip = v.skip;
      j = refl;
      name = refl;
      name_array = v.name_array;
      value_array = length-set p.value (length w) 0 ∙ v.value_array;
      items = refl;
    })
