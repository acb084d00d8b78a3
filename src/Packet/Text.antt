-- ===== src/Packet/Text.antt =====
-- `get_string` of src/qqpacket.c: what it writes and where, and that it ends the string.
use myqq.Base.{
  ℕ, zero, suc, ◌+◌, ◌-◌, ◌≤◌, ◌<◌, ◌≡◌, refl, sym, ap, ◌∙◌, ◌≢◌, ◌⊎◌, inl, inr, some, List, arith,
  ltb, ◌==◌, ==_iff, Bool-cases, length, get_or, set, length-set, get_or-set_self, get_or-set_ne,
}
use myqq.Packet.{ByteBuffer, advance, get_string_loop, get_string}

-- What the loop leaves behind that has `j` bytes in the array `str` already, and may write below `n`:
-- the bytes from the cursor on, none of which is 0, then a 0 at `end`. It stopped at a 0 that it
-- read, or for want of room or of bytes. No byte before `j` or behind `end` is written.
pub record IsRead (j n : ℕ) (str : List ℕ) (b : ByteBuffer) (k : ℕ) (out : List ℕ) (b' : ByteBuffer)
    : Type 0 where
  pub end : ℕ
  pub inside : end < n
  pub from : j ≤ end
  pub same_array : length out ≡ length str
  pub outside : (i d : ℕ) → (i < j) ⊎ (end < i) → get_or out i d ≡ get_or str i d
  pub text :
      (i : ℕ)
      → j + i < end
      → (get_or out (j + i) 0 ≡ get_or b.bytes (b.pos + i) 0)
        × (get_or b.bytes (b.pos + i) 0 ≢ 0)
        × (b.pos + i < b.len)
  pub zero_byte : get_or out end 1 ≡ 0
  pub stop :
      ((k ≡ end + 1) × (b.pos + (end - j) < b.len) × (get_or b.bytes (b.pos + (end - j)) 0 ≡ 0))
      ⊎ ((k ≡ end) × ((end + 1 ≡ n) ⊎ (b.len ≤ b.pos + (end - j))))
  pub moved : b' ≡ advance b (k - j)

-- The loop stops at `j` and writes the 0 there.
stops :
    (j n : ℕ) (str : List ℕ) (b : ByteBuffer)
    → j < n
    → n ≤ length str
    → (j + 1 ≡ n) ⊎ (b.len ≤ b.pos)
    → IsRead j n str b j (set str j 0) b
stops j n str b h g w = record {
  end = j;
  inside = h;
  from = omega arith;
  same_array = length-set str j 0;
  outside = λ i d e.
      get_or-set_ne str j i 0 d
        (λ q. absurd (elim e [ inl x ↦ omega (arith, x, q) | inr x ↦ omega (arith, x, q) ]));
  text = λ i e. absurd (omega (arith, e));
  zero_byte = get_or-set_self str j 0 1 (omega arith);
  stop = inr (refl, elim w [ inl x ↦ inl x | inr x ↦ inr (omega (arith, x)) ]);
  moved = ap (λ (m : ℕ). record b { pos = m }) (omega arith);
}

-- A 0 is read at `j`.
ends :
    (j n : ℕ) (str : List ℕ) (b : ByteBuffer)
    → j < n
    → n ≤ length str
    → b.pos < b.len
    → get_or b.bytes b.pos 0 ≡ 0
    → IsRead j n str b (j + 1) (set str j (get_or b.bytes b.pos 0)) (advance b 1)
ends j n str b h g more z =
    let c = get_or b.bytes b.pos 0 in
    let here : b.pos + (j - j) ≡ b.pos = omega arith in
    record {
      end = j;
      inside = h;
      from = omega arith;
      same_array = length-set str j c;
      outside = λ i d e.
          get_or-set_ne str j i c d
            (λ q. absurd (elim e [ inl x ↦ omega (arith, x, q) | inr x ↦ omega (arith, x, q) ]));
      text = λ i e. absurd (omega (arith, e));
      zero_byte = get_or-set_self str j c 1 (omega arith) ∙ z;
      stop = inl (refl, omega (arith, more), ap (λ k. get_or b.bytes k 0) here ∙ z);
      moved = ap (λ (m : ℕ). advance b m) (omega arith);
    }

-- Another byte is read at `j`, and the loop goes on behind it.
goes_on :
    (j n : ℕ) (str : List ℕ) (b : ByteBuffer) (k : ℕ) (out : List ℕ) (b' : ByteBuffer)
    → j < n
    → n ≤ length str
    → b.pos < b.len
    → get_or b.bytes b.pos 0 ≢ 0
    → IsRead (j + 1) n (set str j (get_or b.bytes b.pos 0)) (advance b 1) k out b'
    → IsRead j n str b k out b'
goes_on j n str b k out b' h g more z r =
    let c = get_or b.bytes b.pos 0 in
    let first : get_or out (j + 0) 0 ≡ get_or b.bytes (b.pos + 0) 0 =
      ap (λ m. get_or out m 0) {x = j + 0} (omega arith)
      ∙ (r.outside j 0 (inl (omega arith))
          ∙ (get_or-set_self str j c 0 (omega arith)
              ∙ ap (λ m. get_or b.bytes m 0) {y = b.pos + 0} (omega arith))) in
    let start : b.pos + 0 ≡ b.pos = omega arith in
    let rest : b.pos + 1 + (r.end - (j + 1)) ≡ b.pos + (r.end - j) = omega (arith, r.from) in
    let k_from : j + 1 ≤ k = elim r.stop [
      | inl (x, y, w) ↦ omega (arith, x, r.from)
      | inr (x, y) ↦ omega (arith, x, r.from)
    ] in
    record {
      end = r.end;
      inside = r.inside;
      from = omega (arith, r.from);
      same_array = r.same_array ∙ length-set str j c;
      outside = λ i d e.
          let ne : j ≢ i = λ q.
            absurd (elim e [ inl x ↦ omega (arith, x, q) | inr x ↦ omega (arith, x, q, r.from) ]) in
          let far : (i < j + 1) ⊎ (r.end < i) = elim e [
            | inl x ↦ inl (omega (arith, x))
            | inr x ↦ inr x
          ] in
          r.outside i d far ∙ get_or-set_ne str j i c d ne;
      text = text_at first start;
      zero_byte = r.zero_byte;
      stop = elim r.stop [
        | inl (x, y, w) ↦
            inl (x, omega (arith, y, rest), ap (λ m. get_or b.bytes m 0) (sym rest) ∙ w)
        | inr (x, inl y) ↦ inr (x, inl y)
        | inr (x, inr y) ↦ inr (x, inr (omega (arith, y, rest)))
      ];
      moved = r.moved ∙ ap (λ (m : ℕ). record b { pos = m }) (omega (arith, k_from));
    }
  where
    text_at :
        get_or out (j + 0) 0 ≡ get_or b.bytes (b.pos + 0) 0
        → b.pos + 0 ≡ b.pos
        → (i : ℕ) → j + i < r.end
        → (get_or out (j + i) 0 ≡ get_or b.bytes (b.pos + i) 0)
          × (get_or b.bytes (b.pos + i) 0 ≢ 0)
          × (b.pos + i < b.len)
    text_at first start zero e = (first, rw start z, omega (arith, more))
    text_at first start (suc i) e =
        let (t, u, v) = r.text i (omega (arith, e)) in
        let left : j + suc i ≡ j + 1 + i = omega arith in
        let right : b.pos + suc i ≡ b.pos + 1 + i = omega arith in
        (rw (left, right) t, rw right u, omega (arith, v))

get_string_loop-IsRead :
    (left j n : ℕ) (str : List ℕ) (b : ByteBuffer)
    → j + left + 1 ≡ n
    → n ≤ length str
    → let (k, out, b') = get_string_loop left j str b in IsRead j n str b k out b'
unfolding get_string_loop
get_string_loop-IsRead zero j n str b e h = stops j n str b (omega arith) h (inl (omega arith))
get_string_loop-IsRead (suc left) j n str b e h =
    let c = get_or b.bytes b.pos 0 in
    let (k, out, b') = get_string_loop left (j + 1) (set str j c) (advance b 1) in
    let r =
      get_string_loop-IsRead left (j + 1) n (set str j c) (advance b 1) (omega arith)
        (rw length-set h) in
    elim (Bool-cases (ltb b.pos b.len)) [
      | inr done ↦ rw done (stops j n str b (omega arith) h (inr (ground (arith, done))))
      | inl more ↦ elim (Bool-cases (c == 0)) [
        | inl last ↦
            rw (more, last)
              (ends j n str b (omega arith) h (ground (arith, more)) ((==_iff c 0).0 last))
        | inr other ↦
            rw (more, other)
              (goes_on j n str b k out b' (omega arith) h (ground (arith, more))
                (λ z. absurd (ground (arith, z, other))) r)
      ]
    ]

-- With room for at least one byte and `n` no larger than the array, `get_string` returns: below `n`
-- the array holds the bytes from the cursor on, up to a first 0, the room for `n` bytes, or the
-- packet's end, and a 0 behind them; no other byte of the array is written, and the cursor is
-- moved by the count, which counts a 0 that was read.
pub get_string-IsRead :
    (str : List ℕ) (n : ℕ) (b : ByteBuffer)
    → 0 < n
    → n ≤ length str
    → (k : ℕ) × (out : List ℕ) × (b' : ByteBuffer) × (get_string str n b ≡ some ((k, out), b'))
      × IsRead 0 n str b k out b'
unfolding get_string
get_string-IsRead str n b h k =
    let r = get_string_loop (n - 1) 0 str b in
    (r.0, r.1, r.2, refl, get_string_loop-IsRead (n - 1) 0 n str b (omega arith) k)
