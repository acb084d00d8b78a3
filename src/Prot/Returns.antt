-- ===== src/Prot/Returns.antt =====
-- Handlers that return: one step of a handler whose first part is known, and the calls that cannot
-- fail on a list in order.
use myqq.Base.{
  ℕ, ◌+◌, ◌≡◌, refl, ◌∙◌, inl, inr, Bool, true, Option, none, some, List, [], ◌∷◌, arith, ltb, ◌==◌,
  if◌then◌else◌, Bool-cases, length,
}
use myqq.Packet.{ByteBuffer, M, get_int, advance, int_at}
use myqq.PtrList.{PtrList}
use myqq.PtrList.Contents.{IsPtrList}
use myqq.Roster.{
  Member, null_member, change, change_first, nickname_len, printed, find_or_add, qun_member_get,
}
use myqq.Roster.Find.{find_or_add-Added}
use myqq.Prot.{Reply, Handle, ◌>>=◌, read, attempt}

length-change_first :
    {A : Type 0} (test : A → Bool) (f : A → A) (xs : List A)
    → length (change_first test f xs) ≡ length xs
length-change_first test f [] = refl
length-change_first test f (x ∷ xs) = elim (Bool-cases (test x)) [
  | inl e ↦ rw e refl
  | inr e ↦ rw e (omega (arith, length-change_first test f xs))
]

pub change-IsPtrList :
    {A : Type 0} (test : A → Bool) (f : A → A) (l : PtrList A)
    → IsPtrList l
    → IsPtrList (change test f l)
change-IsPtrList test f l v = record {
  array = length-change_first test f l.items ∙ v.array;
  fits = v.fits;
  open_lock = v.open_lock;
}

-- a member that is asked for, made if need be
pub qun_member_get-returns :
    (print : ℕ → List ℕ) (l : PtrList Member) (n : ℕ)
    → IsPtrList l
    → (r : Option Member) × (l' : PtrList Member) × (qun_member_get print l n true ≡ some (r, l'))
      × IsPtrList l'
unfolding qun_member_get find_or_add
qun_member_get-returns print l n v = elim (Bool-cases (n == 0)) [
  | inl e ↦ (none, l, rw (qun_member_get, find_or_add, e) refl, v)
  | inr e ↦
      let new = record null_member { number = n; nickname = printed print nickname_len n } in
      let (r, l', q, a) =
        find_or_add-Added null_member (λ m. m.number) new l v n refl (ground arith) in
      (r, l', q, a.is_list)
]

-- the buffer after `get_int`
abbrev pub after_int : ByteBuffer → ByteBuffer
after_int b = if ltb (b.pos + 3) b.len then advance b 4 else b

pub get_int-after : (b : ByteBuffer) → (n : ℕ) × (get_int b ≡ some (n, after_int b))
unfolding get_int
get_int-after b = elim (Bool-cases (ltb (b.pos + 3) b.len)) [
  | inl e ↦ (int_at b.bytes b.pos, rw (get_int, e) refl)
  | inr e ↦ (0, rw (get_int, e) refl)
]

-- A monadic step whose first part is known.
pub bind-eq :
    {A B : Type 0} (m : Handle A) (f : A → Handle B) (x y : Reply) (a : A)
    → m x ≡ some (a, y)
    → (m >>= f) x ≡ f a y
unfolding ◌>>=◌
bind-eq m f x y a e = rw (◌>>=◌, e) refl

pub bind-none :
    {A B : Type 0} (m : Handle A) (f : A → Handle B) (x : Reply) → m x ≡ none → (m >>= f) x ≡ none
unfolding ◌>>=◌
bind-none m f x e = rw (◌>>=◌, e) refl

pub read-eq :
    {A : Type 0} (m : M A) (x : Reply) (a : A) (b : ByteBuffer)
    → m x.buf ≡ some (a, b)
    → read m x ≡ some (a, record x { buf = b })
unfolding read
read-eq m x a b e = rw (read, e) refl

pub attempt-eq :
    {A : Type 0} (o : Option A) (x : Reply) (a : A) → o ≡ some a → attempt o x ≡ some (a, x)
unfolding attempt
attempt-eq o x a e = rw (attempt, e) refl
