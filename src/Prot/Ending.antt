-- ===== src/Prot/Ending.antt =====
-- Where the loop of `parse_online` of src/prot_qun.c ends: each round reads a number of four bytes,
-- and `get_int` gives 0 and does not move if fewer are left.
use myqq.Base.{
  ℕ, zero, suc, ◌+◌, ◌-◌, ◌%◌, ◌<◌, ◌≡◌, refl, ap, ◌∙◌, ◌≢◌, inl, inr, Bool, true, Option, none,
  some, List, map, arith, ltb, ◌==◌, Bool-cases, get_or, take, overwrite, length-overwrite,
}
use myqq.Packet.{ByteBuffer, get_byte, get_int, advance}
use myqq.PtrList.{PtrList}
use myqq.PtrList.Contents.{IsPtrList}
use myqq.Roster.{Qun, Member, offline, qun_set_members_off, change, qun_member_get}
use myqq.Session.{Env, Event, qqclient_put_event}
use myqq.Prot.{
  Reply, Handle, ◌>>=◌, pure, read, attempt, on_found, quns, put_event, put_qun,
  qun_put_single_event, while_left, while_more,
}
use myqq.Prot.QunReply.{online, parse_number, parse_online}
use myqq.Prot.Returns.{
  bind-eq, bind-none, read-eq, attempt-eq, change-IsPtrList, after_int, get_int-after,
  qun_member_get-returns,
}

module _ (print : ℕ → List ℕ) (env : Env) where
  -- what a round does with the member that it found
  abbrev mark : ℕ → Option Member → PtrList Member → Handle (Bool × PtrList Member)
  mark n r l =
      on_found r (pure (true, l))
        λ m. pure (true, change (λ m. m.number == n) (λ m. record m { status = online }) l)

  mark-returns :
      (n : ℕ) (r : Option Member) (l : PtrList Member) (x : Reply)
      → IsPtrList l
      → (l' : PtrList Member) × (mark n r l x ≡ some ((true, l'), x)) × IsPtrList l'
  unfolding on_found pure
  mark-returns n none l x v = (l, refl, v)
  mark-returns n (some m) l x v =
      (_, refl, change-IsPtrList (λ m. m.number == n) (λ m. record m { status = online }) l v)

  parse_number_lem :
      (l : PtrList Member) (x : Reply)
      → IsPtrList l
      → (l' : PtrList Member) × (parse_number print env l x
          ≡ some ((true, l'), record x { buf = after_int x.buf }))
        × IsPtrList l'
  unfolding parse_number
  parse_number_lem l x v =
      let (n, e) = get_int-after x.buf in
      let y : Reply = record x { buf = after_int x.buf } in
      let (r, l1, q, v1) = qun_member_get-returns print l n v in
      let (l2, g, v2) = mark-returns n r l1 y v1 in
      (
        l2,
        bind-eq (read get_int) _ x y n (read-eq get_int x n _ e)
            ∙ (bind-eq (attempt (qun_member_get print l n true)) _ y y (r, l1) (attempt-eq _ y _ q)
                ∙ g),
        v2,
      )

  abbrev left : Reply → ℕ
  left x = x.buf.len - x.buf.pos

  -- The loop over the numbers ends, with a list in order, if the bytes that are left make whole
  -- numbers.
  numbers-end :
      (fuel : ℕ) (l : PtrList Member) (x : Reply)
      → IsPtrList l
      → left x < fuel
      → left x % 4 ≡ 0
      → (l' : PtrList Member) × (y : Reply) × (while_left fuel 0 (parse_number print env) l x
          ≡ some ((true, l'), y))
        × IsPtrList l'
  unfolding while_left
  numbers-end zero l x v h m = absurd (omega arith)
  numbers-end (suc fuel) l x v h m = elim (Bool-cases (ltb (x.buf.pos + 0) x.buf.len)) [
    | inr e ↦ (l, x, rw (while_left, e) refl, v)
    | inl e ↦
        let (l1, g, v1) = parse_number_lem l x v in
        let more : ltb (x.buf.pos + 3) x.buf.len ≡ true = ground arith in
        let y : Reply = record x { buf = after_int x.buf } in
        let moved : y.buf ≡ advance x.buf 4 = rw more refl in
        let less : left y ≡ left x - 4 =
          ap (λ (b : ByteBuffer). b.len - b.pos) moved ∙ omega arith in
        let (l2, z, k, v2) =
          numbers-end fuel l1 y v1 (ground (arith, less)) (ground (arith, less)) in
        (l2, z, rw (while_left, e, g) k, v2)
  ]

  -- It never ends if they do not.
  numbers-hang :
      (fuel : ℕ) (l : PtrList Member) (x : Reply)
      → IsPtrList l
      → left x % 4 ≢ 0
      → while_left fuel 0 (parse_number print env) l x ≡ none
  unfolding while_left
  numbers-hang zero l x v m = refl
  numbers-hang (suc fuel) l x v m =
      let (l1, g, v1) = parse_number_lem l x v in
      let e : ltb (x.buf.pos + 0) x.buf.len ≡ true = ground arith in
      let y : Reply = record x { buf = after_int x.buf } in
      let same : left y % 4 ≡ left x % 4 = elim (Bool-cases (ltb (x.buf.pos + 3) x.buf.len)) [
        | inl f ↦
            let moved : y.buf ≡ advance x.buf 4 = rw f refl in
            ap (λ (b : ByteBuffer). (b.len - b.pos) % 4) moved ∙ ground arith
        | inr f ↦
            let stays : y.buf ≡ x.buf = rw f refl in
            ap (λ (b : ByteBuffer). (b.len - b.pos) % 4) stays
      ] in
      rw (while_left, e, g) (numbers-hang fuel l1 y v1 (omega (arith, same)))

  visited-IsPtrList :
      (l : PtrList Member)
      → IsPtrList l
      → (l' : PtrList Member) × (qun_set_members_off l ≡ some l') × IsPtrList l'
  unfolding qun_set_members_off
  visited-IsPtrList l v =
      let off : Member → Member = λ m. record m { status = offline } in
      let items = overwrite l.items 0 (map off (take l.count l.items)) in
      (
        record l { items = items },
        rw (v.open_lock) refl,
        record {
          array = length-overwrite l.items 0 (map off (take l.count l.items)) ∙ v.array;
          fits = v.fits;
          open_lock = v.open_lock;
        },
      )

  -- what follows the loop
  abbrev finish : Qun → Handle (Unit {0})
  finish q = put_qun q >>= λ _. qun_put_single_event q

  finish-returns :
      (q : Qun) (x : Reply) → IsPtrList q.member_list → (y : Reply) × (finish q x ≡ some (tt, y))
  unfolding ◌>>=◌ quns attempt put_event
  finish-returns q x v =
      let l = change (λ c. c.number == q.number) (λ _. q) x.session.qun_list in
      let y : Reply = record x {
        session = qqclient_put_event (record (x.session) { qun_list = l }) (Event.cluster q);
      } in
      (y, rw (v.open_lock) refl)

  module _ (q : Qun) (x : Reply) (v : IsPtrList q.member_list) where
    -- the reply behind its first byte
    abbrev behind : Reply
    behind = record x { buf = advance x.buf 1 }

    abbrev loop : PtrList Member → Handle (Bool × PtrList Member)
    loop l = while_more 0 (parse_number print env) l

    -- `parse_online` up to its loop
    to_loop :
        x.buf.pos < x.buf.len
        → (l : PtrList Member) × (parse_online print env q x
            ≡ (loop l >>= λ members. finish (record q { member_list = members.1 })) behind)
          × IsPtrList l
    unfolding parse_online get_byte
    to_loop h =
        let e : ltb x.buf.pos x.buf.len ≡ true = ground arith in
        let g : get_byte x.buf ≡ some (get_or x.buf.bytes x.buf.pos 0, advance x.buf 1) =
          rw (get_byte, e) refl in
        let (l, o, w) = visited-IsPtrList q.member_list v in
        (
          l,
          bind-eq (read get_byte) _ x behind _ (read-eq get_byte x _ _ g)
              ∙ bind-eq (attempt (qun_set_members_off q.member_list)) _ behind behind l
                  (attempt-eq _ behind l o),
          w,
        )

    -- A packet with the members online, of a qun whose list is in order: if the bytes behind the
    -- first one make whole numbers of four bytes, `parse_online` returns. If one to three bytes are
    -- left over, it never does: no number of rounds ends its loop.
    pub parse_online-ends :
        x.buf.pos < x.buf.len
        → ((x.buf.len - (x.buf.pos + 1)) % 4 ≡ 0
            → (y : Reply) × (parse_online print env q x ≡ some (tt, y)))
          × ((x.buf.len - (x.buf.pos + 1)) % 4 ≢ 0
              → (parse_online print env q x ≡ none)
                × ((fuel : ℕ) (l : PtrList Member)
                    → IsPtrList l
                    → while_left fuel 0 (parse_number print env) l behind ≡ none))
    unfolding while_more
    parse_online-ends h =
        let (l, e, w) = to_loop h in
        (
          (λ m.
              let (l1, z, k, w1) = numbers-end (behind.buf.len + 1) l behind w (omega arith) m in
              let (y, r) = finish-returns (record q { member_list = l1 }) z w1 in
              (y, e ∙ (bind-eq (loop l) _ behind z (true, l1) k ∙ r))),
          (λ m. (
            e ∙ bind-none (loop l) _ behind (numbers-hang (behind.buf.len + 1) l behind w m),
            (λ fuel l' w'. numbers-hang fuel l' behind w' m),
          )),
        )
