-- ===== src/Client/Requests.antt =====
-- What the user of a client asks for, in src/qqclient.c.
use myqq.Base.{ℕ, Bool, false, Option, none, some, List, ◌==◌, if◌then◌else◌, take}
use myqq.Session.{Process, Env, qqclient_set_process, is_login}
use myqq.Roster.{buddy_get}
use myqq.Prot.BuddySend.{prot_buddy_verify_addbuddy, prot_buddy_request_addbuddy}
use myqq.Prot.UserSend.{prot_user_change_status, prot_user_request_token}
use myqq.Prot.LoginSend.{prot_login_request}
use myqq.Client.{Client, with_session, with_data, with_sent}

-- `print` is `sprintf( ..., "%u", number )`.
module _ (print : ℕ → List ℕ) (env : Env) where
  unfoldable pub qqclient_verify : List ℕ → Client → Option Client
  qqclient_verify code c =
      let d = c.session.qqdata in
      let s1 = qqclient_set_process c.session Process.login in
      let s2 = qqclient_set_process c.session Process.logging in
      if c.login_finish == 1
      then with_sent c (
          some (
            prot_user_request_token print env false d.operating_number d.operation 1 (some code)
              s1))
      else with_sent c (prot_login_request env false (some s2.login.verify_token) (some code) 0 s2)

  -- At most 50 bytes of the request are kept.
  unfoldable pub qqclient_add : ℕ → List ℕ → Client → Option Client
  qqclient_add number request c = elim (buddy_get print c.session.buddy_list number false) [
    | none ↦ none
    | some (b, l) ↦
        let known : Bool = elim b [ none ↦ false | some x ↦ x.verify_flag == 0 ] in
        let asking =
          with_data c.session (record (c.session.qqdata) { addbuddy_str = take 50 request }) in
        if known
        then with_sent c (prot_buddy_verify_addbuddy env false 3 number c.session)
        else with_sent c (some (prot_buddy_request_addbuddy env false number asking))
  ]

  -- 2 is OP_DELBUDDY
  unfoldable pub qqclient_del : ℕ → Client → Client
  qqclient_del number c = with_session c (
      prot_user_request_token print env false number 2 6 none
        (with_data c.session (record (c.session.qqdata) { operating_number = number })))

  unfoldable pub qqclient_change_status : ℕ → Client → Client
  qqclient_change_status mode c =
      let s1 = record (c.session) { mode = mode } in
      with_session c
        (if is_login c.session.process then prot_user_change_status print env false s1 else s1)
