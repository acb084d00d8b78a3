-- ===== src/Prot/Slices.antt =====
-- The slices that `prot_im_send_msg` of src/prot_im.c cuts a message into.
use myqq.Base.{
  ℕ, zero, suc, ◌+◌, ◌-◌, ◌*◌, ◌/◌, ◌≤◌, ◌<◌, ◌≡◌, refl, sym, ap, ◌∙◌, ◌≢◌, ◌⊎◌, inl, inr, Bool,
  true, false, not, ◌&&◌, some, List, [], ◌∷◌, ◌++◌, arith, ltb, leb, ◌==◌, Bool-cases, length,
  get_or, take, drop, length-take, take-append-drop, drop-nil, drop-drop,
}
use myqq.Roster.Batches.{flat}
use myqq.Prot.ImSend.{walk_back, get_splitable_pos, max_length, window_end, cut}

-- a byte of a character in UTF-8 behind its first one
abbrev pub continues : ℕ → Bool
continues c = leb 0x80 c && leb c 0xBF

walk_back-lt : (buf : List ℕ) (pos : ℕ) → walk_back buf pos ≤ pos
unfolding walk_back
walk_back-lt buf zero = omega arith
walk_back-lt buf (suc pos) = ground (arith, walk_back-lt buf pos)

-- It does not go past the first byte of a character.
walk_back-ge : (buf : List ℕ) (pos j : ℕ) → j < pos → 0xC2 ≤ get_or buf j 0 → j ≤ walk_back buf pos
unfolding walk_back
walk_back-ge buf zero j h g = absurd (omega arith)
walk_back-ge buf (suc pos) j h g =
    elim (Bool-cases (not (pos == 0) && ltb (get_or buf pos 0) 0xC2)) [
      | inr e ↦ rw (walk_back, e) (omega arith)
      | inl e ↦
          let low : get_or buf pos 0 < 0xC2 = ground arith in
          let other : j ≢ pos = λ q. absurd (omega (arith, ap (λ k. get_or buf k 0) q)) in
          rw (walk_back, e) (walk_back-ge buf pos j (omega (arith, other)) g)
    ]

-- a text in which each character has at most three bytes behind its first one
abbrev pub IsText : List ℕ → Type 0
IsText msg =
    (i : ℕ)
    → continues (get_or msg i 0) ≡ true
    → (j : ℕ) × (j < i) × (i ≤ j + 3) × (0xC2 ≤ get_or msg j 0)

abbrev pub AreShort : List (List ℕ) → Type 0
AreShort [] = Unit {0}
AreShort (m ∷ ms) = (length m ≤ max_length) × AreShort ms

get_or-end : (xs : List ℕ) (i : ℕ) → length xs ≤ i → get_or xs i 0 ≡ 0
get_or-end [] i h = refl
get_or-end (x ∷ xs) zero h = absurd (omega arith)
get_or-end (x ∷ xs) (suc i) h = get_or-end xs i (omega arith)

module _ (msg : List ℕ) (text : IsText msg) where
  -- where a slice from `pos` on may end
  record Ends (pos e : ℕ) : Type 0 where
    forward : pos ≤ e
    inside : e ≤ length msg
    short : e ≤ pos + max_length
    long : (e ≡ length msg) ⊎ (pos + 697 ≤ e)

  get_splitable_pos-Ends :
      (pos : ℕ) → pos ≤ length msg → Ends pos (get_splitable_pos msg (window_end msg pos))
  unfolding get_splitable_pos
  get_splitable_pos-Ends pos h = elim (Bool-cases (ltb max_length (length msg - pos))) [
    | inr e ↦
        let w : window_end msg pos ≡ length msg = ground arith in
        let z : continues (get_or msg (length msg) 0) ≡ false =
          ap continues (get_or-end msg (length msg) (omega arith)) in
        rw (w, get_splitable_pos, z)
          (record { forward = h; inside = omega arith; short = ground arith; long = inl refl })
    | inl e ↦
        let w : window_end msg pos ≡ pos + max_length = ground arith in
        let more : pos + max_length < length msg = ground arith in
        elim (Bool-cases (continues (get_or msg (pos + max_length) 0))) [
          | inr c ↦
              rw (w, get_splitable_pos, c)
                (record {
                  forward = omega arith;
                  inside = omega arith;
                  short = omega arith;
                  long = inr (omega arith);
                })
          | inl c ↦
              let (j, before, near, first) = text (pos + max_length) c in
              let low = walk_back-lt msg (pos + max_length) in
              let high = walk_back-ge msg (pos + max_length) j before first in
              rw (w, get_splitable_pos, c)
                (record {
                  forward = omega (arith, high, near);
                  inside = omega (arith, low);
                  short = low;
                  long = inr (omega (arith, high, near));
                })
        ]
  ]

  cut-flat :
      (left pos : ℕ)
      → pos ≤ length msg
      → length msg ≤ pos + left * 697
      → (slices : List (List ℕ)) × (cut msg left pos ≡ some slices)
        × (flat slices ≡ drop pos msg)
        × AreShort slices
  unfolding cut flat
  cut-flat zero pos h g = ([], refl, sym (drop-end msg pos (omega arith)), tt)
    where
      drop-end : (xs : List ℕ) (n : ℕ) → length xs ≤ n → drop n xs ≡ []
      drop-end [] n k = drop-nil n
      drop-end (x ∷ xs) zero k = absurd (omega arith)
      drop-end (x ∷ xs) (suc n) k = drop-end xs n (omega arith)
  cut-flat (suc left) pos h g =
      let e = get_splitable_pos msg (window_end msg pos) in
      let ends = get_splitable_pos-Ends pos h in
      let covered : length msg ≤ e + left * 697 = elim ends.long [
        | inl q ↦ omega (arith, q)
        | inr q ↦ omega (arith, q)
      ] in
      let (ss, q, f, short) = cut-flat left e ends.inside covered in
      let forward : ltb e pos ≡ false = ground (arith, ends.forward) in
      let whole : pos + (e - pos) ≡ e = omega (arith, ends.forward) in
      (
        take (e - pos) (drop pos msg) ∷ ss,
        rw (cut, forward, q) refl,
        ap (λ t. take (e - pos) (drop pos msg) ++ t)
              (f ∙ (ap (λ n. drop n msg) (sym whole) ∙ sym (drop-drop (e - pos) pos msg)))
            ∙ take-append-drop (e - pos) (drop pos msg),
        (omega (arith, length-take (e - pos) (drop pos msg), ends.short), short),
      )

  -- A text, in which each character has at most three bytes behind its first one, that is at most
  -- 697 bytes long for each slice that it gets, is cut into slices of at most 700 bytes that are,
  -- one after the other, the whole text.
  pub cut-whole :
      length msg ≤ (length msg / max_length + 1) * 697
      → (slices : List (List ℕ)) × (cut msg (length msg / max_length + 1) 0 ≡ some slices)
        × (flat slices ≡ msg)
        × AreShort slices
  cut-whole h = cut-flat (length msg / max_length + 1) 0 (omega arith) (omega (arith, h))
