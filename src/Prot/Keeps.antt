-- ===== src/Prot/Keeps.antt =====
-- Invariants of the manager under the handlers of replies, one rule for each way to build one.
pub mod Monad
use myqq.Base.{
  ℕ, zero, suc, ◌+◌, ◌≡◌, refl, sym, ◌∙◌, inl, inr, Bool, true, false, none, some, List, ltb,
  Bool-cases, Option-cases,
}
use myqq.Packet.{ByteBuffer, M, advance}
use myqq.PtrList.{PtrList}
use myqq.Protocol.{KeyType, QqPacket, Account}
use myqq.Protocol.Seal.{seal_packet}
use myqq.Roster.{Buddy, Group, Qun}
use myqq.Session.{Event, Notice, QqData, LoginData, Session, Env, qqclient_put_event}
use myqq.PacketMgr.{
  packetmgr_new_send, packetmgr_new_packet, packetmgr_inc_seqno, packetmgr_put, post_packet,
}
use myqq.PacketMgr.InFlight.{InFlight, packetmgr_put_urge-InFlight}
use myqq.Prot.{
  edit_login, edit_account, reset_clock, send_random, Reply, Handle, ◌>>=◌, pure, read, skip, gets,
  on_found, attempt, send, try_send, buddies, quns, groups, edit_data, set_levels, put_event,
  callback, while_left, while_more, send_packet,
}
pub use myqq.Prot.Keeps.Monad.{
  Keeps, Sends, TrySends, Keeps-pure, Keeps-read, Keeps-gets, Keeps-attempt, Keeps-buddies,
  Keeps-quns, Keeps-groups, Keeps-if, Keeps-bind, Keeps-on_found, Keeps-skip, Keeps-send,
  Keeps-try_send, Keeps-edit_data, Keeps-edit_login, Keeps-edit_account, Keeps-reset_clock,
  Keeps-set_levels, Keeps-put_event, Keeps-callback,
}

module _ {S : Type 0} (margin : ℕ) (body : S → Handle (Bool × S))
    (keeps : (s : S) → Keeps (body s)) where
  while_left-keeps :
      (fuel : ℕ) (s : S) (x y : Reply) (r : Bool × S)
      → while_left fuel margin body s x ≡ some (r, y)
      → InFlight x.session.mgr
      → InFlight y.session.mgr
  unfolding while_left
  while_left-keeps zero s x y r e v = absurd (cc e)
  while_left-keeps (suc fuel) s x y r e v = elim (Bool-cases (ltb (x.buf.pos + margin) x.buf.len)) [
    | inr p ↦
        let got : while_left (suc fuel) margin body s x ≡ some ((true, s), x) =
          rw (while_left, p) refl in
        let same : y ≡ x = cc (e, got) in rw same v
    | inl p ↦ elim (Option-cases (body s x)) [
      | inl z ↦
          let none_of : while_left (suc fuel) margin body s x ≡ none = rw (while_left, p, z) refl in
          absurd (cc (e, none_of))
      | inr (((true, t), x1), z) ↦
          let got : while_left (suc fuel) margin body s x ≡ while_left fuel margin body t x1 =
            rw (while_left, p, z) refl in
          while_left-keeps fuel t x1 y r (sym got ∙ e) ((keeps s).at x x1 (true, t) z v)
      | inr (((false, t), x1), z) ↦
          let got : while_left (suc fuel) margin body s x ≡ some ((false, t), x1) =
            rw (while_left, p, z) refl in
          let same : y ≡ x1 = cc (e, got) in rw same ((keeps s).at x x1 (false, t) z v)
    ]
  ]

  pub Keeps-while_more : (s : S) → Keeps (while_more margin body s)
  unfolding while_more
  Keeps-while_more s = record { at = λ x y r e v. while_left-keeps (x.buf.len + 1) s x y r e v }

pub post_packet-InFlight :
    (env : Env) (in_recv : Bool) (p : QqPacket) (k : KeyType) (s : Session)
    → InFlight s.mgr
    → InFlight (post_packet env in_recv p k s).mgr
unfolding post_packet packetmgr_put
post_packet-InFlight env in_recv p k s v =
    packetmgr_put_urge-InFlight env in_recv (seal_packet s.account p k) s v

pub Sends-send_packet :
    (env : Env) (in_recv : Bool) (cmd : ℕ) (need_ack : Bool)
    (fill : Session → QqPacket → ByteBuffer → ByteBuffer)
    → Sends (send_packet env in_recv cmd need_ack fill)
unfolding send_packet packetmgr_new_send packetmgr_new_packet packetmgr_inc_seqno
Sends-send_packet env in_recv cmd need_ack fill = record {
  at = λ s v.
      let (p, t) = packetmgr_new_send env cmd s in
      post_packet-InFlight env in_recv (record p { need_ack = need_ack; buf = fill s p p.buf })
        KeyType.session_key t v;
}

pub Sends-send_random :
    (env : Env) (in_recv : Bool) (cmd : ℕ) (key : List ℕ)
    (fill : Session → QqPacket → ByteBuffer → ByteBuffer)
    → Sends (send_random env in_recv cmd key fill)
unfolding send_random packetmgr_new_send packetmgr_new_packet packetmgr_inc_seqno
Sends-send_random env in_recv cmd key fill = record {
  at = λ s v.
      let (p, t) = packetmgr_new_send env cmd s in
      post_packet-InFlight env in_recv (record p { key = key; buf = fill s p p.buf })
        KeyType.random_key t v;
}

pub ruleset keeps_rules = (
  Keeps-edit_login, Keeps-edit_account, Keeps-reset_clock, Sends-send_random, Keeps-pure,
  Keeps-read, Keeps-gets, Keeps-attempt, Keeps-buddies, Keeps-quns, Keeps-groups, Keeps-if,
  Keeps-bind, Keeps-on_found, Keeps-skip, Keeps-send, Keeps-try_send, Keeps-edit_data,
  Keeps-set_levels, Keeps-put_event, Keeps-callback, Keeps-while_more, Sends-send_packet,
)
