-- ===== src/Config/Read.antt =====
-- Reading a configuration file back: what is written as `name = value` is found under its name.
use myqq.Base.{
  ℕ, zero, suc, ◌+◌, ◌≤◌, ◌<◌, ◌≡◌, refl, sym, ap, ◌∙◌, ◌≢◌, true, false, Option, none, some, List,
  [], ◌∷◌, ◌++◌, map, append_assoc, append-nil, arith, ltb, ◌==◌, if◌then◌else◌, length, get_or,
  take, replicate, length-append, length-take, length-replicate, take-all, drop-append,
}
use myqq.Packet.{c_string}
use myqq.Config.{
  parse_name, parse_value, Parser, Config, name_len, value_len, parse_byte, parse_from, parse,
  opened, config_open, config_readstr, name_of, value_of, same_text, start_parser,
}
use myqq.Config.Words.{Pair, IsPair, ArePlain, HasNoEquals, line, text_of}
use myqq.Config.Lines.{
  InName, InValue, item_of, parse_byte-name, parse_byte-value, name-step, value-step, equals-step,
  newline-step,
}

unfoldable pub ArePairs : List Pair → Type 0
ArePairs [] = 0 ≤ 0
ArePairs (p ∷ ps) = IsPair p × ArePairs ps

-- The rest of a name is read up to what follows it.
read_name :
    (p : Parser) (xs w rest : List ℕ) (conf : Config)
    → InName p xs conf
    → ArePlain w
    → HasNoEquals w
    → (length xs ≡ 0 → get_or w 0 0 ≢ 32)
    → length xs + length w < suc name_len
    → (q : Parser) × (parse_from p (w ++ rest) ≡ parse_from q rest) × InName q (xs ++ w) conf
unfolding parse_from ArePlain HasNoEquals
read_name p xs [] rest conf v a n h k = (p, refl, rw (append-nil xs) v)
read_name p xs (c ∷ w) rest conf v (a, more) (m, others) h k =
    let step = name-step p xs conf c v a m h (omega arith) in
    let l = length-append xs (c ∷ []) in
    let (q, e, r) =
      read_name (parse_byte p c) (xs ++ (c ∷ [])) w rest conf step more others
        (λ z. absurd (omega (arith, z, l))) (omega (arith, l)) in
    (q, e, rw⁻¹ (append_assoc xs (c ∷ []) w) r)

read_value :
    (p : Parser) (n xs w rest : List ℕ) (conf : Config)
    → InValue p n xs conf
    → ArePlain w
    → (length xs ≡ 0 → get_or w 0 0 ≢ 32)
    → length xs + length w < suc value_len
    → (q : Parser) × (parse_from p (w ++ rest) ≡ parse_from q rest) × InValue q n (xs ++ w) conf
unfolding parse_from ArePlain
read_value p n xs [] rest conf v a h k = (p, refl, rw (append-nil xs) v)
read_value p n xs (c ∷ w) rest conf v (a, more) h k =
    let step = value-step p n xs conf c v a h (omega arith) in
    let l = length-append xs (c ∷ []) in
    let (q, e, r) =
      read_value (parse_byte p c) n (xs ++ (c ∷ [])) w rest conf step more
        (λ z. absurd (omega (arith, z, l))) (omega (arith, l)) in
    (q, e, rw⁻¹ (append_assoc xs (c ∷ []) w) r)

skip_space : (p : Parser) (n : List ℕ) (conf : Config) → InValue p n [] conf → parse_byte p 32 ≡ p
unfolding parse_value
skip_space p n conf v = parse_byte-value p 32 v.state v.skip ∙ ground (arith, v.j)

-- A line is read to its end and adds its pair.
read_line :
    (p : Parser) (pr : Pair) (rest : List ℕ) (conf : Config)
    → InName p [] conf
    → IsPair pr
    → length conf < 1024
    → (q : Parser) × (parse_from p (line pr ++ rest) ≡ parse_from q rest)
      × InName q [] (conf ++ (item_of pr ∷ []))
unfolding parse_from
read_line p pr rest conf v w room =
    let (n, x) = pr in
    let tail : List ℕ = 32 ∷ 61 ∷ 32 ∷ (x ++ (10 ∷ [])) in
    let (q1, e1, v1) =
      read_name p [] n (tail ++ rest) conf v w.is_name.plain w.no_equals (λ _. w.is_name.first)
        (omega (arith, w.is_name.fits)) in
    let v2 =
      name-step q1 n conf 32 v1 (omega arith, omega arith, omega arith, omega arith) (omega arith)
        (λ z. absurd (omega (arith, w.named))) w.is_name.fits in
    let q3 = parse_byte (parse_byte q1 32) 61 in
    let v3 = equals-step (parse_byte q1 32) n conf v2 w.is_name w.named w.no_comment in
    let (q4, e4, v4) =
      read_value q3 n [] x (10 ∷ rest) conf v3 w.is_value.plain (λ _. w.is_value.first)
        (omega (arith, w.is_value.fits)) in
    (
      parse_byte q4 10,
      ap (parse_from p) (append_assoc n tail rest)
          ∙ (e1
              ∙ (ap (λ q. parse_from q ((x ++ (10 ∷ [])) ++ rest)) (skip_space q3 n conf v3)
                  ∙ (ap (parse_from q3) (append_assoc x (10 ∷ []) rest) ∙ e4))),
      newline-step q4 n x conf v4 w.is_value room,
    )

read_lines :
    (p : Parser) (ps : List Pair) (rest : List ℕ) (conf : Config)
    → InName p [] conf
    → ArePairs ps
    → length conf + length ps < 1025
    → (q : Parser) × (parse_from p (text_of ps ++ rest) ≡ parse_from q rest)
      × InName q [] (conf ++ map item_of ps)
unfolding ArePairs text_of
read_lines p [] rest conf v a h = (p, refl, rw (append-nil conf) v)
read_lines p (pr ∷ ps) rest conf v (a, more) h =
    let (q1, e1, v1) = read_line p pr (text_of ps ++ rest) conf v a (omega arith) in
    let l = length-append conf (item_of pr ∷ []) in
    let (q2, e2, v2) =
      read_lines q1 ps rest (conf ++ (item_of pr ∷ [])) v1 more (omega (arith, l)) in
    (
      q2,
      ap (parse_from p) (append_assoc (line pr) (text_of ps) rest) ∙ (e1 ∙ e2),
      rw⁻¹ (append_assoc conf (item_of pr ∷ []) (map item_of ps)) v2,
    )

end_of_text : (q : Parser) (conf : Config) → InName q [] conf → (parse_byte q 0).conf ≡ conf
unfolding parse_name
end_of_text q conf v =
    ap (λ t. t.conf) (parse_byte-name q 0 v.state v.skip) ∙ ground (arith, v.j, v.items)

-- Up to 1024 lines are parsed into the items of their pairs, in order.
pub parse-text_of :
    (ps : List Pair) → ArePairs ps → length ps ≤ 1024 → parse (text_of ps) ≡ map item_of ps
unfolding parse parse_from
parse-text_of ps a h =
    let v : InName start_parser [] [] = record {
      state = refl;
      skip = refl;
      j = refl;
      name = refl;
      name_array = length-replicate {A = ℕ} 65 0;
      value_array = length-replicate {A = ℕ} 257 0;
      items = refl;
    } in
    let (q, e, w) = read_lines start_parser ps (0 ∷ []) [] v a (omega arith) in
    ap (λ t. t.conf) e ∙ end_of_text q (map item_of ps) w

-- the value of the first pair with a name
unfoldable pub lookup : List ℕ → List Pair → Option (List ℕ)
lookup key [] = none
lookup key (p ∷ ps) = if same_text p.0 key then some p.1 else lookup key ps

c_string-padded :
    (w rest : List ℕ) (n k : ℕ)
    → ArePlain w
    → length w < n
    → n ≤ length w + k
    → c_string (take n (w ++ replicate k 0) ++ rest) ≡ w
unfolding ArePlain
c_string-padded w rest zero k a h g = absurd (omega arith)
c_string-padded [] rest (suc n) zero a h g = absurd (omega arith)
c_string-padded [] rest (suc n) (suc k) a h g = refl
c_string-padded (c ∷ w) rest (suc n) k (a, more) h g =
    let some_c : (c == 0) ≡ false = ground (arith, a.0) in
    rw some_c (ap (λ t. c ∷ t) (c_string-padded w rest n k more (omega arith) (omega arith)))

name_of-item_of : (p : Pair) → IsPair p → name_of (item_of p) ≡ p.0
name_of-item_of p w =
    c_string-padded p.0 (take value_len (p.1 ++ replicate value_len 0)) name_len name_len
      w.is_name.plain w.is_name.fits (omega arith)

value_of-item_of : (p : Pair) → IsPair p → value_of (item_of p) ≡ p.1
value_of-item_of p w =
    let front = take name_len (p.0 ++ replicate name_len 0) in
    let n : name_len ≡ length front = omega (
      arith,
      length-take name_len (p.0 ++ replicate name_len 0),
      length-append p.0 (replicate name_len 0),
      length-replicate {A = ℕ} name_len 0,
    ) in
    ap c_string (drop-append front (take value_len (p.1 ++ replicate value_len 0)) name_len n)
    ∙ (ap c_string (sym (append-nil (take value_len (p.1 ++ replicate value_len 0))))
        ∙ c_string-padded p.1 [] value_len value_len w.is_value.plain w.is_value.fits (omega arith))

readstr-items :
    (ps : List Pair) (key : List ℕ)
    → ArePairs ps
    → config_readstr (map item_of ps) key ≡ lookup key ps
unfolding config_readstr lookup ArePairs
readstr-items [] key a = refl
readstr-items (p ∷ ps) key (a, more) =
    rw (name_of-item_of p a, value_of-item_of p a, readstr-items ps key more) refl

-- A file of up to 1024 lines `name = value`, of at least one byte and less than 32 KB, is opened, and
-- reading a name gives the value of the first line with it, or NULL if there is none. Names have 1
-- to 63 bytes and values up to 255, without escapes, line ends, spaces around them, and, in names,
-- `=` and a `#` in front.
pub config_open-lookup :
    (ps : List Pair) (key : List ℕ)
    → ArePairs ps
    → length ps ≤ 1024
    → 0 < length (text_of ps)
    → length (text_of ps) < 32768
    → (c : Config) × (config_open (text_of ps) ≡ opened c) × (config_readstr c key ≡ lookup key ps)
unfolding config_open
config_open-lookup ps key a h some_bytes fits =
    let t : take 32768 (text_of ps) ≡ text_of ps =
      take-all 32768 (text_of ps) (omega (arith, fits)) in
    let nonempty : ltb 0 (length (text_of ps)) ≡ true = ground (arith, some_bytes) in
    let short : ltb (length (text_of ps)) 32768 ≡ true = ground (arith, fits) in
    (
      map item_of ps,
      rw (config_open, t, nonempty, short) (ap opened (parse-text_of ps a h)),
      readstr-items ps key a,
    )
