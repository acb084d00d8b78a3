-- ===== src/Prot/Keeps/Monad.antt =====
-- A handler that is built from others leaves at most one packet in flight, if they do.
use myqq.Base.{
  ℕ, ◌≡◌, refl, sym, ◌∙◌, inl, inr, Bool, true, false, Option, none, some, [], ◌∷◌, ◌++◌,
  if◌then◌else◌, Option-cases,
}
use myqq.Packet.{M, advance}
use myqq.PtrList.{PtrList}
use myqq.Protocol.{Account}
use myqq.Roster.{Buddy, Group, Qun}
use myqq.Session.{Event, Notice, QqData, LoginData, Session, qqclient_put_event}
use myqq.PacketMgr.InFlight.{InFlight}
use myqq.Prot.{
  edit_login, edit_account, reset_clock, Reply, Handle, ◌>>=◌, pure, read, skip, gets, on_found,
  attempt, send, try_send, buddies, quns, groups, edit_data, set_levels, put_event, callback,
}

-- a handler that leaves at most one packet in flight, if no more was before
pub record Keeps {A : Type 0} (m : Handle A) : Type 0 where
  pub at :
      (x y : Reply) (a : A) → m x ≡ some (a, y) → InFlight x.session.mgr → InFlight y.session.mgr

pub record Sends (f : Session → Session) : Type 0 where
  pub at : (s : Session) → InFlight s.mgr → InFlight (f s).mgr

pub record TrySends (f : Session → Option Session) : Type 0 where
  pub at : (s t : Session) → f s ≡ some t → InFlight s.mgr → InFlight t.mgr

module _ {A : Type 0} where
  pub Keeps-pure : (a : A) → Keeps (pure a)
  unfolding pure
  Keeps-pure a = record { at = λ x y b e v. let same : y ≡ x = cc e in rw same v }

  pub Keeps-read : (m : M A) → Keeps (read m)
  unfolding read
  Keeps-read m = record {
    at = λ x y b e v. elim (Option-cases (m x.buf)) [
      | inl z ↦ let none_of : read m x ≡ none = rw (read, z) refl in absurd (cc (e, none_of))
      | inr ((c, buf), z) ↦
          let got : read m x ≡ some (c, record x { buf = buf }) = rw (read, z) refl in
          let same : y ≡ record x { buf = buf } = cc (e, got) in rw same v
    ];
  }

  pub Keeps-gets : (f : Session → A) → Keeps (gets f)
  unfolding gets
  Keeps-gets f = record { at = λ x y b e v. let same : y ≡ x = cc e in rw same v }

  pub Keeps-attempt : (o : Option A) → Keeps (attempt o)
  unfolding attempt
  Keeps-attempt none = record { at = λ x y b e v. absurd (cc e) }
  Keeps-attempt (some a) = record { at = λ x y b e v. let same : y ≡ x = cc e in rw same v }

  pub Keeps-buddies : (f : PtrList Buddy → Option (A × PtrList Buddy)) → Keeps (buddies f)
  unfolding buddies
  Keeps-buddies f = record {
    at = λ x y b e v. elim (Option-cases (f x.session.buddy_list)) [
      | inl z ↦ let none_of : buddies f x ≡ none = rw (buddies, z) refl in absurd (cc (e, none_of))
      | inr ((c, l), z) ↦
          let x1 : Reply = record x { session = record (x.session) { buddy_list = l } } in
          let got : buddies f x ≡ some (c, x1) = rw (buddies, z) refl in
          let same : y ≡ x1 = cc (e, got) in rw same v
    ];
  }

  pub Keeps-quns : (f : PtrList Qun → Option (A × PtrList Qun)) → Keeps (quns f)
  unfolding quns
  Keeps-quns f = record {
    at = λ x y b e v. elim (Option-cases (f x.session.qun_list)) [
      | inl z ↦ let none_of : quns f x ≡ none = rw (quns, z) refl in absurd (cc (e, none_of))
      | inr ((c, l), z) ↦
          let x1 : Reply = record x { session = record (x.session) { qun_list = l } } in
          let got : quns f x ≡ some (c, x1) = rw (quns, z) refl in
          let same : y ≡ x1 = cc (e, got) in rw same v
    ];
  }

  pub Keeps-groups : (f : PtrList Group → Option (A × PtrList Group)) → Keeps (groups f)
  unfolding groups
  Keeps-groups f = record {
    at = λ x y b e v. elim (Option-cases (f x.session.group_list)) [
      | inl z ↦ let none_of : groups f x ≡ none = rw (groups, z) refl in absurd (cc (e, none_of))
      | inr ((c, l), z) ↦
          let x1 : Reply = record x { session = record (x.session) { group_list = l } } in
          let got : groups f x ≡ some (c, x1) = rw (groups, z) refl in
          let same : y ≡ x1 = cc (e, got) in rw same v
    ];
  }

  pub Keeps-if : (b : Bool) (m n : Handle A) → Keeps m → Keeps n → Keeps (if b then m else n)
  Keeps-if true m n km kn = km
  Keeps-if false m n km kn = kn

module _ {A B : Type 0} where
  pub Keeps-bind :
      (m : Handle A) (f : A → Handle B) → Keeps m → ((a : A) → Keeps (f a)) → Keeps (m >>= f)
  unfolding ◌>>=◌
  Keeps-bind m f km kf = record {
    at = λ x y b e v. elim (Option-cases (m x)) [
      | inl z ↦ let none_of : (m >>= f) x ≡ none = rw (◌>>=◌, z) refl in absurd (cc (e, none_of))
      | inr ((a, x1), z) ↦
          let got : (m >>= f) x ≡ f a x1 = rw (◌>>=◌, z) refl in
          (kf a).at x1 y b (sym got ∙ e) (km.at x x1 a z v)
    ];
  }

  pub Keeps-on_found :
      (o : Option A) (m : Handle B) (f : A → Handle B)
      → Keeps m
      → ((a : A) → Keeps (f a))
      → Keeps (on_found o m f)
  unfolding on_found
  Keeps-on_found none m f km kf = km
  Keeps-on_found (some a) m f km kf = kf a

pub Keeps-skip : (n : ℕ) → Keeps (skip n)
unfolding skip
Keeps-skip n = record {
  at = λ x y b e v. let same : y ≡ record x { buf = advance x.buf n } = cc e in rw same v;
}

pub Keeps-send : (f : Session → Session) → Sends f → Keeps (send f)
unfolding send
Keeps-send f k = record {
  at = λ x y b e v.
      let same : y ≡ record x { session = f x.session } = cc e in rw same (k.at x.session v);
}

pub Keeps-try_send : (f : Session → Option Session) → TrySends f → Keeps (try_send f)
unfolding try_send
Keeps-try_send f k = record {
  at = λ x y b e v. elim (Option-cases (f x.session)) [
    | inl z ↦ let none_of : try_send f x ≡ none = rw (try_send, z) refl in absurd (cc (e, none_of))
    | inr (t, z) ↦
        let got : try_send f x ≡ some (tt, record x { session = t }) = rw (try_send, z) refl in
        let same : y ≡ record x { session = t } = cc (e, got) in rw same (k.at x.session t z v)
  ];
}

pub Keeps-edit_data : (f : QqData → QqData) → Keeps (edit_data f)
unfolding edit_data
Keeps-edit_data f = record {
  at = λ x y b e v.
      let same : y ≡ record x { session = record (x.session) { qqdata = f x.session.qqdata } } =
        cc e in
      rw same v;
}

pub Keeps-edit_login : (f : LoginData → LoginData) → Keeps (edit_login f)
unfolding edit_login
Keeps-edit_login f = record {
  at = λ x y b e v.
      let same : y ≡ record x { session = record (x.session) { login = f x.session.login } } =
        cc e in
      rw same v;
}

pub Keeps-edit_account : (f : Account → Account) → Keeps (edit_account f)
unfolding edit_account
Keeps-edit_account f = record {
  at = λ x y b e v.
      let same : y ≡ record x { session = record (x.session) { account = f x.session.account } } =
        cc e in
      rw same v;
}

pub Keeps-reset_clock : Keeps reset_clock
unfolding reset_clock
Keeps-reset_clock = record {
  at = λ x y b e v.
      let same : y ≡ record x { session = record (x.session) { online_clock = 0 } } = cc e in
      rw same v;
}

pub Keeps-set_levels : (i j k : ℕ) → Keeps (set_levels i j k)
unfolding set_levels
Keeps-set_levels i j k = record {
  at = λ x y b e v.
      let same : y ≡ record x {
        session = record (x.session) { level = i; active_days = j; upgrade_days = k };
      } =
        cc e in
      rw same v;
}

pub Keeps-put_event : (ev : Event) → Keeps (put_event ev)
unfolding put_event qqclient_put_event
Keeps-put_event ev = record {
  at = λ x y b e v.
      let same : y ≡ record x { session = qqclient_put_event x.session ev } = cc e in rw same v;
}

pub Keeps-callback : (from : ℕ) (n : Notice) → Keeps (callback from n)
unfolding callback
Keeps-callback from n = record {
  at = λ x y b e v.
      let same : y ≡ record x {
        session = record (x.session) { callbacks = x.session.callbacks ++ ((from, n) ∷ []) };
      } =
        cc e in
      rw same v;
}
