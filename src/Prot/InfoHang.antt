-- ===== src/Prot/InfoHang.antt =====
-- The loop of `prot_buddy_get_info_reply` of src/prot_buddy.c when one byte is left.
use myqq.Base.{ℕ, zero, suc, ◌+◌, ◌≡◌, refl, ◌∙◌, true, false, none, some, List, arith, ltb}
use myqq.Packet.{ByteBuffer, get_word, advance}
use myqq.Roster.{Buddy}
use myqq.Session.{Env}
use myqq.Prot.{Reply, ◌>>=◌, pure, read, skip, while_left}
use myqq.Prot.BuddyEdit.{parse_entry}
use myqq.Prot.Returns.{bind-eq, read-eq}

module _ (print : ℕ → List ℕ) (env : Env) where
  no_word : (b : ByteBuffer) → b.len ≡ b.pos + 1 → get_word b ≡ some (0, b)
  unfolding get_word
  no_word b h = let e : ltb (b.pos + 1) b.len ≡ false = ground arith in rw (get_word, e) refl

  entry_stays :
      (b : Buddy) (x : Reply)
      → x.buf.len ≡ x.buf.pos + 1
      → (y : Reply) × (parse_entry print env b x ≡ some ((true, b), y))
        × (y.buf.len ≡ y.buf.pos + 1)
  unfolding parse_entry pure skip ◌>>=◌
  entry_stays b x h =
      let e = no_word x.buf h in
      let r = read-eq get_word x 0 x.buf e in
      (
        record x { buf = advance x.buf 0 },
        bind-eq (read get_word) _ x x 0 r ∙ (bind-eq (read get_word) _ x x 0 r ∙ refl),
        omega arith,
      )

  -- When one byte of a buddy's information is left over, the loop that reads the entries never
  -- ends, whatever was read before and however many rounds it has.
  pub parse_entry-hangs :
      (fuel : ℕ) (b : Buddy) (x : Reply)
      → x.buf.len ≡ x.buf.pos + 1
      → while_left fuel 0 (parse_entry print env) b x ≡ none
  unfolding while_left
  parse_entry-hangs zero b x h = refl
  parse_entry-hangs (suc fuel) b x h =
      let e : ltb (x.buf.pos + 0) x.buf.len ≡ true = ground arith in
      let (y, g, k) = entry_stays b x h in rw (while_left, e, g) (parse_entry-hangs fuel b y k)
