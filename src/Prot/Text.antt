-- ===== src/Prot/Text.antt =====
-- The C strings that src/prot_im.c and src/prot_misc.c use, and `trans_faces` of src/util.c. A string
-- is the list of its bytes, without the 0.
use myqq.Base.{
  ℕ, ◌+◌, Bool, true, false, ◌&&◌, Option, none, some, List, [], ◌∷◌, ◌++◌, ltb, ◌==◌,
  if◌then◌else◌, length,
}

-- `sprintf` with "%u" or "%d" on a number that is not negative, `gb_to_utf8` of src/utf8.c on a
-- string, whether `strstr` finds a string, and `atoi` as the bit pattern of its result
pub record Strings : Type 0 where
  pub print : ℕ → List ℕ
  pub gb_to_utf8 : List ℕ → List ℕ
  pub contains : List ℕ → List ℕ → Bool
  pub atoi : List ℕ → ℕ

-- `strcmp( a, b ) == 0`
unfoldable pub same_text : List ℕ → List ℕ → Bool
same_text [] [] = true
same_text (x ∷ xs) (y ∷ ys) = let rest = same_text xs ys in (x == y) && rest
same_text _ _ = false

-- "[face:" and "]", "[image]"
abbrev pub face_text : List ℕ → List ℕ
face_text number = 91 ∷ 102 ∷ 97 ∷ 99 ∷ 101 ∷ 58 ∷ (number ++ (93 ∷ []))

abbrev pub image_text : List ℕ
image_text = 91 ∷ 105 ∷ 109 ∷ 97 ∷ 103 ∷ 101 ∷ 93 ∷ []

abbrev pub in_front : List ℕ → Option (List ℕ) → Option (List ℕ)
in_front xs none = none
in_front xs (some ys) = some (xs ++ ys)

-- The loop of `trans_faces` with `i` bytes at `dst`. The byte behind a 0x14 is the number of a face,
-- or text when there is no room for it. A `char` is signed, so that 128 to 255 are printed as the
-- `unsigned` that they are extended to. `none` is a 0x14 at the end: the 0 is taken for a number,
-- and the loop goes on behind it.
unfoldable pub trans_loop : (ℕ → List ℕ) → ℕ → List ℕ → ℕ → Option (List ℕ)
trans_loop print outlen [] i = some []
trans_loop print outlen (c ∷ []) i =
    if c == 0x14
    then (if ltb (i + 10) outlen then none else some [])
    else (if ltb i outlen then some (c ∷ []) else some [])
trans_loop print outlen (c ∷ d ∷ src) i =
    let face = face_text (print (if ltb d 128 then d else d + 4294967040)) in
    elim (c == 0x14) [
      | true ↦ elim (ltb (i + 10) outlen) [
        | true ↦ in_front face (trans_loop print outlen src (i + length face))
        | false ↦ trans_loop print outlen (d ∷ src) i
      ]
      | false ↦ elim (ltb i outlen) [
        | true ↦ in_front (c ∷ []) (trans_loop print outlen (d ∷ src) (i + 1))
        | false ↦ trans_loop print outlen (d ∷ src) i
      ]
    ]

-- The string at `dst`, an array of `outlen` bytes; `none` is a write behind it.
unfoldable pub trans_faces : (ℕ → List ℕ) → List ℕ → ℕ → Option (List ℕ)
unfolding trans_loop
trans_faces print src outlen = elim (trans_loop print outlen src 0) [
  | none ↦ none
  | some dst ↦ if ltb (length dst) outlen then some dst else none
]
