-- ===== src/Base/Lists.antt =====
-- Lists measured and indexed by native numbers, under the library's names, and C arrays as lists.
use Prim.Native.Nat.{ℕ, zero, suc, ◌+◌, ◌-◌, ◌≤◌, ◌<◌, min}
use mathlib.Core.Path.{◌≡◌, refl, ap, sym, ◌∙◌}
use mathlib.Core.Logic.{◌≢◌}
use mathlib.Core.List.{List, [], ◌∷◌, ◌++◌, map}
use native.Mathlib.Omega.{arith}

module _ {ℓ} {A : Type ℓ} where
  abbrev pub length : List A → ℕ
  length [] = 0
  length (x ∷ xs) = suc (length xs)

  abbrev pub get_or : List A → ℕ → A → A
  get_or [] i d = d
  get_or (x ∷ xs) zero d = x
  get_or (x ∷ xs) (suc i) d = get_or xs i d

  -- A write out of bounds changes nothing.
  abbrev pub set : List A → ℕ → A → List A
  set [] i v = []
  set (x ∷ xs) zero v = v ∷ xs
  set (x ∷ xs) (suc i) v = x ∷ set xs i v

  abbrev pub take : ℕ → List A → List A
  take zero xs = []
  take (suc n) [] = []
  take (suc n) (x ∷ xs) = x ∷ take n xs

  abbrev pub drop : ℕ → List A → List A
  drop zero xs = xs
  drop (suc n) [] = []
  drop (suc n) (x ∷ xs) = drop n xs

  abbrev pub replicate : ℕ → A → List A
  replicate zero a = []
  replicate (suc n) a = a ∷ replicate n a

  -- `memcpy( &bs[i], xs, length of xs )`; what would go past the end is not written.
  abbrev pub overwrite : List A → ℕ → List A → List A
  overwrite [] i xs = []
  overwrite (b ∷ bs) zero [] = b ∷ bs
  overwrite (b ∷ bs) zero (x ∷ xs) = x ∷ overwrite bs zero xs
  overwrite (b ∷ bs) (suc i) xs = b ∷ overwrite bs i xs

module _ {ℓ} {A : Type ℓ} where
  pub length-append : (xs ys : List A) → length (xs ++ ys) ≡ length xs + length ys
  length-append [] ys = omega arith
  length-append (x ∷ xs) ys = omega (arith, length-append xs ys)

  pub length-set : (xs : List A) (i : ℕ) (v : A) → length (set xs i v) ≡ length xs
  length-set [] i v = refl
  length-set (x ∷ xs) zero v = refl
  length-set (x ∷ xs) (suc i) v = ap suc (length-set xs i v)

  pub get_or-set_self :
      (xs : List A) (i : ℕ) (v d : A) → i < length xs → get_or (set xs i v) i d ≡ v
  get_or-set_self [] i v d h = absurd (omega arith)
  get_or-set_self (x ∷ xs) zero v d h = refl
  get_or-set_self (x ∷ xs) (suc i) v d h = get_or-set_self xs i v d (omega arith)

  pub get_or-set_ne :
      (xs : List A) (i j : ℕ) (v d : A) → i ≢ j → get_or (set xs i v) j d ≡ get_or xs j d
  get_or-set_ne [] i j v d h = refl
  get_or-set_ne (x ∷ xs) zero zero v d h = absurd (h refl)
  get_or-set_ne (x ∷ xs) zero (suc j) v d h = refl
  get_or-set_ne (x ∷ xs) (suc i) zero v d h = refl
  get_or-set_ne (x ∷ xs) (suc i) (suc j) v d h = get_or-set_ne xs i j v d (λ e. h (ap suc e))

  pub length-take : (n : ℕ) (xs : List A) → length (take n xs) ≡ min n (length xs)
  length-take zero xs = omega arith
  length-take (suc n) [] = omega arith
  length-take (suc n) (x ∷ xs) = omega (arith, length-take n xs)

  pub length-drop : (n : ℕ) (xs : List A) → length (drop n xs) ≡ length xs - n
  length-drop zero xs = omega arith
  length-drop (suc n) [] = omega arith
  length-drop (suc n) (x ∷ xs) = omega (arith, length-drop n xs)

  pub length-replicate : (n : ℕ) (a : A) → length (replicate n a) ≡ n
  length-replicate zero a = refl
  length-replicate (suc n) a = ap suc (length-replicate n a)

  pub length-map {κ} : {B : Type κ} (f : A → B) (xs : List A) → length (map f xs) ≡ length xs
  length-map f [] = refl
  length-map f (x ∷ xs) = ap suc (length-map f xs)

  pub take-append-drop : (n : ℕ) (xs : List A) → take n xs ++ drop n xs ≡ xs
  take-append-drop zero xs = refl
  take-append-drop (suc n) [] = refl
  take-append-drop (suc n) (x ∷ xs) = ap (λ t. x ∷ t) (take-append-drop n xs)

  pub take-all : (n : ℕ) (xs : List A) → length xs ≤ n → take n xs ≡ xs
  take-all zero [] h = refl
  take-all zero (x ∷ xs) h = absurd (omega arith)
  take-all (suc n) [] h = refl
  take-all (suc n) (x ∷ xs) h = ap (λ t. x ∷ t) (take-all n xs (omega arith))

  -- A prefix of known length.
  pub take-append : (xs ys : List A) (n : ℕ) → n ≡ length xs → take n (xs ++ ys) ≡ xs
  take-append [] ys zero e = refl
  take-append [] ys (suc n) e = absurd (omega arith)
  take-append (x ∷ xs) ys zero e = absurd (omega arith)
  take-append (x ∷ xs) ys (suc n) e = ap (λ t. x ∷ t) (take-append xs ys n (omega arith))

  pub drop-append : (xs ys : List A) (n : ℕ) → n ≡ length xs → drop n (xs ++ ys) ≡ ys
  drop-append [] ys zero e = refl
  drop-append [] ys (suc n) e = absurd (omega arith)
  drop-append (x ∷ xs) ys zero e = absurd (omega arith)
  drop-append (x ∷ xs) ys (suc n) e = drop-append xs ys n (omega arith)

  pub drop-nil : (n : ℕ) → drop {A = A} n [] ≡ []
  drop-nil zero = refl
  drop-nil (suc n) = refl

  pub take-append_past :
      (xs ys : List A) (n : ℕ) → length xs ≤ n → take n (xs ++ ys) ≡ xs ++ take (n - length xs) ys
  take-append_past [] ys n h = ap (λ k. take k ys) {x = n} (omega arith)
  take-append_past (x ∷ xs) ys zero h = absurd (omega arith)
  take-append_past (x ∷ xs) ys (suc n) h =
      ap (λ t. x ∷ t) (take-append_past xs ys n (omega arith))
      ∙ ap (λ k. x ∷ (xs ++ take k ys)) {x = n - length xs} (omega arith)

  pub drop-append_within :
      (xs ys : List A) (n : ℕ) → n ≤ length xs → drop n (xs ++ ys) ≡ drop n xs ++ ys
  drop-append_within xs ys zero h = refl
  drop-append_within [] ys (suc n) h = absurd (omega arith)
  drop-append_within (x ∷ xs) ys (suc n) h = drop-append_within xs ys n (omega arith)

  pub take-nil : (n : ℕ) → take {A = A} n [] ≡ []
  take-nil zero = refl
  take-nil (suc n) = refl

  pub drop-drop : (n m : ℕ) (xs : List A) → drop n (drop m xs) ≡ drop (m + n) xs
  drop-drop n zero xs = ap (λ k. drop k xs) (omega arith)
  drop-drop n (suc m) [] = drop-nil n ∙ sym (drop-nil (suc m + n))
  drop-drop n (suc m) (x ∷ xs) =
      drop-drop n m xs ∙ ap (λ k. drop k (x ∷ xs)) {x = suc (m + n)} (omega arith)

  pub take-take : (n m : ℕ) (xs : List A) → n ≤ m → take n (take m xs) ≡ take n xs
  take-take zero m xs h = refl
  take-take (suc n) zero xs h = absurd (omega arith)
  take-take (suc n) (suc m) [] h = refl
  take-take (suc n) (suc m) (x ∷ xs) h = ap (λ t. x ∷ t) (take-take n m xs (omega arith))

  pub drop-take : (n m : ℕ) (xs : List A) → drop n (take m xs) ≡ take (m - n) (drop n xs)
  drop-take zero m xs = ap (λ k. take k xs) (omega arith)
  drop-take (suc n) zero xs = ap (λ k. take k (drop (suc n) xs)) {x = zero} (omega arith)
  drop-take (suc n) (suc m) [] = sym (take-nil (suc m - suc n))
  drop-take (suc n) (suc m) (x ∷ xs) =
      drop-take n m xs ∙ ap (λ k. take k (drop n xs)) {x = m - n} (omega arith)

  pub length-overwrite :
      (bs : List A) (i : ℕ) (xs : List A) → length (overwrite bs i xs) ≡ length bs
  length-overwrite [] i xs = refl
  length-overwrite (b ∷ bs) zero [] = refl
  length-overwrite (b ∷ bs) zero (x ∷ xs) = ap suc (length-overwrite bs zero xs)
  length-overwrite (b ∷ bs) (suc i) xs = ap suc (length-overwrite bs i xs)

  -- What was written is read back.
  pub drop-overwrite :
      (bs : List A) (i : ℕ) (xs : List A)
      → i + length xs ≤ length bs
      → drop i (overwrite bs i xs) ≡ xs ++ drop (i + length xs) bs
  drop-overwrite [] zero [] h = refl
  drop-overwrite [] (suc i) xs h = absurd (omega arith)
  drop-overwrite [] zero (x ∷ xs) h = absurd (omega arith)
  drop-overwrite (b ∷ bs) zero [] h = refl
  drop-overwrite (b ∷ bs) zero (x ∷ xs) h =
      ap (λ t. x ∷ t) (drop-overwrite bs zero xs (omega arith))
      ∙ ap (λ k. x ∷ (xs ++ drop k (b ∷ bs))) {x = suc (0 + length xs)} (omega arith)
  drop-overwrite (b ∷ bs) (suc i) xs h =
      drop-overwrite bs i xs (omega arith)
      ∙ ap (λ k. xs ++ drop k (b ∷ bs)) {x = suc (i + length xs)} (omega arith)

  -- What stands before the write is kept.
  pub take-overwrite :
      (bs : List A) (i : ℕ) (xs : List A) → i ≤ length bs → take i (overwrite bs i xs) ≡ take i bs
  take-overwrite [] zero xs h = refl
  take-overwrite [] (suc i) xs h = absurd (omega arith)
  take-overwrite (b ∷ bs) zero xs h = refl
  take-overwrite (b ∷ bs) (suc i) xs h = ap (λ t. b ∷ t) (take-overwrite bs i xs (omega arith))

  -- Two adjoining writes are one.
  pub overwrite-overwrite :
      (bs : List A) (i : ℕ) (xs ys : List A)
      → i + length xs ≤ length bs
      → overwrite (overwrite bs i xs) (i + length xs) ys ≡ overwrite bs i (xs ++ ys)
  overwrite-overwrite [] i xs ys h = refl
  overwrite-overwrite (b ∷ bs) zero [] ys h = refl
  overwrite-overwrite (b ∷ bs) zero (x ∷ xs) ys h =
      ap (λ k. overwrite (x ∷ overwrite bs zero xs) k ys) {y = suc (0 + length xs)} (omega arith)
      ∙ ap (λ t. x ∷ t) (overwrite-overwrite bs zero xs ys (omega arith))
  overwrite-overwrite (b ∷ bs) (suc i) xs ys h =
      ap (λ k. overwrite (b ∷ overwrite bs i xs) k ys) {y = suc (i + length xs)} (omega arith)
      ∙ ap (λ t. b ∷ t) (overwrite-overwrite bs i xs ys (omega arith))

  -- A write and what stands before it.
  pub take-overwrite_end :
      (bs : List A) (i : ℕ) (xs : List A) (n : ℕ)
      → n ≡ i + length xs
      → n ≤ length bs
      → take n (overwrite bs i xs) ≡ take i bs ++ xs
  take-overwrite_end bs zero [] zero e h = refl
  take-overwrite_end bs zero (x ∷ xs) zero e h = absurd (omega arith)
  take-overwrite_end bs (suc i) xs zero e h = absurd (omega arith)
  take-overwrite_end [] i xs (suc n) e h = absurd (omega arith)
  take-overwrite_end (b ∷ bs) zero [] (suc n) e h = absurd (omega arith)
  take-overwrite_end (b ∷ bs) zero (x ∷ xs) (suc n) e h =
      ap (λ t. x ∷ t) (take-overwrite_end bs zero xs n (omega arith) (omega arith))
  take-overwrite_end (b ∷ bs) (suc i) xs (suc n) e h =
      ap (λ t. b ∷ t) (take-overwrite_end bs i xs n (omega arith) (omega arith))

  -- The suffix at an index inside the list.
  pub drop-get_or :
      (xs : List A) (i : ℕ) (d : A) → i < length xs → drop i xs ≡ get_or xs i d ∷ drop (suc i) xs
  drop-get_or [] i d h = absurd (omega arith)
  drop-get_or (x ∷ xs) zero d h = refl
  drop-get_or (x ∷ xs) (suc i) d h = drop-get_or xs i d (omega arith)

  -- A prefix that ends with the slot just set.
  pub take-set_end :
      (xs : List A) (n : ℕ) (x : A)
      → n < length xs
      → take (suc n) (set xs n x) ≡ take n xs ++ (x ∷ [])
  take-set_end [] n x h = absurd (omega arith)
  take-set_end (y ∷ ys) zero x h = refl
  take-set_end (y ∷ ys) (suc n) x h = ap (λ t. y ∷ t) (take-set_end ys n x (omega arith))
