-- ===== src/Prot/LoginKeeps.antt =====
-- What the replies of src/prot_login.c leave in flight.
use myqq.Base.{
  ℕ, zero, suc, ◌≡◌, inl, inr, Bool, true, ◌&&◌, Option, none, some, List, [], ◌∷◌, if◌then◌else◌,
  Bool-cases,
}
use myqq.Packet.{Token}
use myqq.Protocol.{Network}
use myqq.Roster.{Qun}
use myqq.Session.{Session, Env}
use myqq.Prot.{send}
use myqq.Prot.Keeps.{
  Keeps, Sends, TrySends, Sends-send_packet, Sends-send_random, Keeps-pure, Keeps-bind, Keeps-if,
  Keeps-gets, Keeps-send, keeps_rules,
}
use myqq.Prot.UserKeeps.{Sends-qqclient_set_process}
use myqq.Prot.LoginSend.{
  fits, fits_some, login_request, login_verify, login_get_info, login_send_info,
  prot_login_touch_with_info, prot_login_request, prot_login_verify, prot_login_get_info,
  prot_login_send_info,
}
use myqq.Prot.LoginReply.{
  is_http, reconnect, redirect, prot_login_touch_reply, use_picture, prot_login_request_reply,
  login_granted, prot_login_verify_reply, prot_login_get_info_reply, prot_login_a4_reply,
  prot_login_send_info_reply, read_entry, read_entries, prot_login_get_list_reply,
  prot_login_e9_reply, prot_login_ea_reply, prot_login_ed_reply, get_info_each, prot_login_ec_reply,
}

TrySends-unless :
    (b : Session → Bool) (f : Session → Session)
    → Sends f
    → TrySends (λ s. if b s then some (f s) else none)
TrySends-unless b f k = record {
  at = λ s t e v. elim (Bool-cases (b s)) [
    | inr x ↦ let same : none ≡ some t = rw x at e in absurd (cc same)
    | inl x ↦
        let same : some (f s) ≡ some t = rw x at e in let q : t ≡ f s = cc same in rw q (k.at s v)
  ];
}

-- a sender whose key is a part of the session
Sends-keyed :
    (key : Session → List ℕ) (f : List ℕ → Session → Session)
    → ((k : List ℕ) → Sends (f k))
    → Sends (λ s. f (key s) s)
Sends-keyed key f k = record { at = λ s v. (k (key s)).at s v }

module _ (env : Env) where
  Sends-prot_login_touch_with_info :
      (server_data : List ℕ) → Sends (prot_login_touch_with_info env true server_data)
  unfolding prot_login_touch_with_info
  Sends-prot_login_touch_with_info server_data = record {
    at = λ s v. (Sends-send_random env true _ (env.randkey 0) _).at _ v;
  }

  TrySends-prot_login_request :
      (tok : Option Token) (code : Option (List ℕ)) (png_data : ℕ)
      → TrySends (prot_login_request env true tok code png_data)
  unfolding prot_login_request
  TrySends-prot_login_request tok code png_data =
      TrySends-unless (λ s. fits s.login.login_token && fits_some env true tok)
        (login_request env true tok code png_data) (Sends-send_random env true _ _ _)

  TrySends-prot_login_verify : TrySends (prot_login_verify env true)
  unfolding prot_login_verify
  TrySends-prot_login_verify =
      TrySends-unless (λ s. fits s.login.token_c) (login_verify env true)
        (Sends-send_random env true _ _ _)

  TrySends-prot_login_get_info : TrySends (prot_login_get_info env true)
  unfolding prot_login_get_info
  TrySends-prot_login_get_info =
      TrySends-unless
        (λ s.
          fits s.login.token_c
          && fits s.login.login_info_token
          && fits s.login.login_info_data
          && fits s.account.login_info_magic)
        (λ s. login_get_info env true s.login.login_info_key1 s)
        (Sends-keyed (λ s. s.login.login_info_key1) (login_get_info env true)
          (λ k. Sends-send_random env true _ k _))

  TrySends-prot_login_send_info : TrySends (prot_login_send_info env true)
  unfolding prot_login_send_info
  TrySends-prot_login_send_info =
      TrySends-unless
        (λ s.
          fits s.login.login_info_large && fits s.login.token_c && fits s.account.login_info_magic)
        (λ s. login_send_info env true s.login.login_info_key1 s)
        (Sends-keyed (λ s. s.login.login_info_key1) (login_send_info env true)
          (λ k. Sends-send_random env true _ k _))

  module _ (connect establish : Session → Session) (sc : Sends connect) (se : Sends establish) where
    reconnect-Keeps : (d : List ℕ) → Keeps (reconnect connect establish env d)
    unfolding reconnect
    reconnect-Keeps d =
        let tail_of : (n : Network)
            → Keeps (
                if is_http n
                then send establish
                else send (prot_login_touch_with_info env true d)) =
          λ n.
            Keeps-if (is_http n) _ _ (Keeps-send establish se)
              (Keeps-send _ (Sends-prot_login_touch_with_info d)) in
        Keeps-bind (send connect) _ (Keeps-send connect sc)
          (λ u. Keeps-bind _ _ (Keeps-gets _) tail_of)

    redirect-Keeps : Keeps (redirect connect establish env)
    unfolding redirect
    redirect-Keeps = search (keeps_rules, reconnect-Keeps) depth 60

    pub prot_login_touch_reply-Keeps : Keeps (prot_login_touch_reply connect establish env)
    unfolding prot_login_touch_reply
    prot_login_touch_reply-Keeps =
        search (keeps_rules, TrySends-prot_login_request, redirect-Keeps) depth 60

  use_picture-Keeps :
      (png_data : ℕ) (answer : Token) (next : ℕ) (png : Token)
      → Keeps (use_picture env png_data answer next png)
  unfolding use_picture
  use_picture-Keeps png_data answer next png =
      search
        (
          keeps_rules, TrySends-prot_login_request, TrySends-prot_login_verify,
          Sends-qqclient_set_process,
        )
        depth 60

  pub prot_login_request_reply-Keeps :
      (stack_token : Token) → Keeps (prot_login_request_reply stack_token env)
  unfolding prot_login_request_reply
  prot_login_request_reply-Keeps stack_token = search (keeps_rules, use_picture-Keeps) depth 60

  login_granted-Keeps : Keeps (login_granted env)
  unfolding login_granted
  login_granted-Keeps = search (keeps_rules, TrySends-prot_login_get_info) depth 60

  pub prot_login_verify_reply-Keeps : (msg : List ℕ) → Keeps (prot_login_verify_reply msg env)
  unfolding prot_login_verify_reply
  prot_login_verify_reply-Keeps msg =
      search (keeps_rules, login_granted-Keeps, Sends-qqclient_set_process) depth 60

  pub prot_login_get_info_reply-Keeps : Keeps (prot_login_get_info_reply env)
  unfolding prot_login_get_info_reply
  prot_login_get_info_reply-Keeps = search (keeps_rules, TrySends-prot_login_send_info) depth 60

  pub prot_login_a4_reply-Keeps : Keeps (prot_login_a4_reply env)
  unfolding prot_login_a4_reply
  prot_login_a4_reply-Keeps = search keeps_rules depth 60

  pub prot_login_send_info_reply-Keeps :
      (md5 : List ℕ → List ℕ) → Keeps (prot_login_send_info_reply md5 env)
  unfolding prot_login_send_info_reply
  prot_login_send_info_reply-Keeps md5 = search (keeps_rules, Sends-qqclient_set_process) depth 60

  module _ (print : ℕ → List ℕ) where
    read_entry-Keeps : Keeps (read_entry print)
    unfolding read_entry
    read_entry-Keeps = search keeps_rules depth 60

    read_entries-Keeps : (n : ℕ) → Keeps (read_entries print n)
    unfolding read_entries
    read_entries-Keeps zero = Keeps-pure tt
    read_entries-Keeps (suc n) =
        Keeps-bind (read_entry print) (λ _. read_entries print n) read_entry-Keeps
          (λ _. read_entries-Keeps n)

    pub prot_login_get_list_reply-Keeps : Keeps (prot_login_get_list_reply print env)
    unfolding prot_login_get_list_reply
    prot_login_get_list_reply-Keeps = search (keeps_rules, read_entries-Keeps) depth 60

    Sends-get_info_each : (qs : List Qun) → Sends (get_info_each env qs)
    unfolding get_info_each
    Sends-get_info_each [] = record { at = λ s v. v }
    Sends-get_info_each (q ∷ qs) = record {
      at = λ s v. (Sends-get_info_each qs).at _ ((Sends-send_packet env true _ true _).at s v);
    }

    pub prot_login_ec_reply-Keeps : Keeps (prot_login_ec_reply print env)
    unfolding prot_login_ec_reply
    prot_login_ec_reply-Keeps = search (keeps_rules, Sends-get_info_each) depth 60

  pub prot_login_e9_reply-Keeps : Keeps (prot_login_e9_reply env)
  prot_login_e9_reply-Keeps = search keeps_rules depth 60

  pub prot_login_ea_reply-Keeps : Keeps (prot_login_ea_reply env)
  prot_login_ea_reply-Keeps = search keeps_rules depth 60

  pub prot_login_ed_reply-Keeps : Keeps (prot_login_ed_reply env)
  prot_login_ed_reply-Keeps = search keeps_rules depth 60
