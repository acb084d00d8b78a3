-- ===== src/Prot/BuddyKeeps.antt =====
-- What the replies of src/prot_buddy.c leave in flight.
use myqq.Base.{
  ℕ, ◌≡◌, refl, inl, inr, Bool, true, ◌&&◌, Option, none, some, List, map, ltb, ◌==◌, if◌then◌else◌,
  Bool-cases, Option-cases, length, take,
}
use myqq.Roster.{Buddy, buddy_sort_list}
use myqq.Packet.{token_len}
use myqq.Packet.RoundTrip.{Field, put_fields}
use myqq.Session.{Session, Env}
use myqq.PacketMgr.{packetmgr_new_send, packetmgr_new_packet, packetmgr_inc_seqno}
use myqq.Prot.{send_packet}
use myqq.Prot.Keeps.{Keeps, Sends, TrySends, Sends-send_packet, keeps_rules}
use myqq.Prot.UserSend.{prot_user_request_token}
use myqq.Prot.BuddySend.{from_number, send_sorted, prot_buddy_verify_addbuddy, prot_buddy_del_buddy}
use myqq.Prot.BuddyReply.{
  parse_buddy, list_complete, prot_buddy_update_list_reply, parse_status, parse_online_buddy,
  prot_buddy_update_online_reply, prot_buddy_status, parse_sign, prot_buddy_update_signiture_reply,
  parse_account, account_list, prot_buddy_update_account_reply, parse_alias,
  prot_buddy_update_alias_reply,
}
use myqq.Prot.BuddyEdit.{
  flag_case, prot_buddy_request_addbuddy_reply, buddy_update_list, prot_buddy_verify_addbuddy_reply,
  prot_buddy_del_buddy_reply, prot_buddy_get_extra_info_reply, parse_entry,
  prot_buddy_get_info_reply,
}

-- a sender that is refused, or sends one packet
TrySends-if :
    (b : Session → Bool) (f : Session → Session)
    → Sends f
    → TrySends (λ s. if b s then none else some (f s))
TrySends-if b f k = record {
  at = λ s t e v. elim (Bool-cases (b s)) [
    | inl x ↦ let same : none ≡ some t = rw x at e in absurd (cc same)
    | inr x ↦
        let same : some (f s) ≡ some t = rw x at e in let q : t ≡ f s = cc same in rw q (k.at s v)
  ];
}

pub TrySends-prot_buddy_verify_addbuddy :
    (env : Env) (in_recv : Bool) (cmd number : ℕ)
    → TrySends (prot_buddy_verify_addbuddy env in_recv cmd number)
unfolding prot_buddy_verify_addbuddy
TrySends-prot_buddy_verify_addbuddy env in_recv cmd number =
    TrySends-if (λ s. ltb cmd 3 && ltb token_len s.qqdata.user_token.len) _
      (Sends-send_packet env in_recv 0x00a8 true _)

pub TrySends-prot_buddy_del_buddy :
    (env : Env) (in_recv : Bool) (print : ℕ → List ℕ) (number : ℕ)
    → TrySends (prot_buddy_del_buddy env in_recv print number)
unfolding prot_buddy_del_buddy
TrySends-prot_buddy_del_buddy env in_recv print number =
    TrySends-if (λ s. ltb token_len s.qqdata.user_token.len) _
      (Sends-send_packet env in_recv 0x000a true _)

TrySends-send_sorted :
    (env : Env) (in_recv : Bool) (qsort : List Buddy → List Buddy) (cmd : ℕ)
    (fields : Session → List ℕ → List Field) (pos : ℕ)
    → TrySends (send_sorted env in_recv qsort cmd fields pos)
unfolding send_sorted packetmgr_new_send packetmgr_new_packet packetmgr_inc_seqno
TrySends-send_sorted env in_recv qsort cmd fields pos = record {
  at = λ s t e v. elim (Option-cases (buddy_sort_list qsort s.buddy_list)) [
    | inl x ↦
        let none_of : send_sorted env in_recv qsort cmd fields pos s ≡ none =
          rw (send_sorted, x) refl in
        absurd (cc (e, none_of))
    | inr (l, x) ↦
        let s1 = record s { buddy_list = l } in
        let numbers = take 50 (from_number pos (map (λ b. b.number) (take l.count l.items))) in
        elim (Bool-cases l.locked) [
          | inl y ↦
              let none_of : send_sorted env in_recv qsort cmd fields pos s ≡ none =
                rw (send_sorted, x, y) refl in
              absurd (cc (e, none_of))
          | inr y ↦ elim (Bool-cases (length numbers == 0)) [
            | inl z ↦
                let got : send_sorted env in_recv qsort cmd fields pos s
                    ≡ some (packetmgr_new_send env cmd s1).1 =
                  rw (send_sorted, x, y, z) refl in
                let q : t ≡ (packetmgr_new_send env cmd s1).1 = cc (e, got) in rw q v
            | inr z ↦
                let u =
                  send_packet env in_recv cmd true (λ s p b. put_fields b (fields s numbers)) s1 in
                let got : send_sorted env in_recv qsort cmd fields pos s ≡ some u =
                  rw (send_sorted, x, y, z) refl in
                let q : t ≡ u = cc (e, got) in
                rw q (
                  (Sends-send_packet env in_recv cmd true
                      (λ s p b. put_fields b (fields s numbers))).at
                    s1 v)
          ]
        ]
  ];
}

module _ (qsort : List Buddy → List Buddy) (print : ℕ → List ℕ) (env : Env) where
  parse_buddy-Keeps : (u : Unit {0}) → Keeps (parse_buddy qsort print env u)
  unfolding parse_buddy
  parse_buddy-Keeps u = search keeps_rules depth 60

  list_complete-Keeps : Keeps (list_complete qsort print env)
  unfolding list_complete
  list_complete-Keeps = search (keeps_rules, TrySends-send_sorted) depth 60

  pub prot_buddy_update_list_reply-Keeps : Keeps (prot_buddy_update_list_reply qsort print env)
  unfolding prot_buddy_update_list_reply
  prot_buddy_update_list_reply-Keeps =
      search (keeps_rules, parse_buddy-Keeps, list_complete-Keeps) depth 60

  parse_status-Keeps : (b : Buddy) → Keeps (parse_status qsort print env b)
  unfolding parse_status
  parse_status-Keeps b = search keeps_rules depth 60

  parse_online_buddy-Keeps : (n : ℕ) → Keeps (parse_online_buddy qsort print env n)
  unfolding parse_online_buddy
  parse_online_buddy-Keeps n = search (keeps_rules, parse_status-Keeps) depth 60

  pub prot_buddy_update_online_reply-Keeps : Keeps (prot_buddy_update_online_reply qsort print env)
  unfolding prot_buddy_update_online_reply
  prot_buddy_update_online_reply-Keeps = search (keeps_rules, parse_online_buddy-Keeps) depth 60

  pub prot_buddy_status-Keeps : Keeps (prot_buddy_status qsort print env)
  unfolding prot_buddy_status
  prot_buddy_status-Keeps = search (keeps_rules, parse_status-Keeps) depth 60

  parse_sign-Keeps : (u : Unit {0}) → Keeps (parse_sign qsort print env u)
  unfolding parse_sign
  parse_sign-Keeps u = search keeps_rules depth 60

  pub prot_buddy_update_signiture_reply-Keeps :
      Keeps (prot_buddy_update_signiture_reply qsort print env)
  unfolding prot_buddy_update_signiture_reply
  prot_buddy_update_signiture_reply-Keeps =
      search (keeps_rules, parse_sign-Keeps, TrySends-send_sorted) depth 60

  parse_account-Keeps : (u : Unit {0}) → Keeps (parse_account qsort print env u)
  unfolding parse_account
  parse_account-Keeps u = search keeps_rules depth 60

  account_list-Keeps : Keeps (account_list qsort print env)
  unfolding account_list
  account_list-Keeps = search (keeps_rules, parse_account-Keeps, TrySends-send_sorted) depth 60

  pub prot_buddy_update_account_reply-Keeps :
      Keeps (prot_buddy_update_account_reply qsort print env)
  unfolding prot_buddy_update_account_reply
  prot_buddy_update_account_reply-Keeps = search (keeps_rules, account_list-Keeps) depth 60

  parse_alias-Keeps : (n : ℕ) → Keeps (parse_alias qsort print env n)
  unfolding parse_alias
  parse_alias-Keeps n = search keeps_rules depth 60

  pub prot_buddy_update_alias_reply-Keeps : Keeps (prot_buddy_update_alias_reply qsort print env)
  unfolding prot_buddy_update_alias_reply
  prot_buddy_update_alias_reply-Keeps = search (keeps_rules, parse_alias-Keeps) depth 60

Sends-prot_user_request_token :
    (print : ℕ → List ℕ) (env : Env) (in_recv : Bool) (number operation type : ℕ)
    (code : Option (List ℕ))
    → Sends (prot_user_request_token print env in_recv number operation type code)
unfolding prot_user_request_token
Sends-prot_user_request_token print env in_recv number operation type none = record {
  at = λ s v. (Sends-send_packet env in_recv 0x00ae true _).at _ v;
}
Sends-prot_user_request_token print env in_recv number operation type (some code) = record {
  at = λ s v. (Sends-send_packet env in_recv 0x00ae true _).at _ v;
}

module _ (print : ℕ → List ℕ) (env : Env) where
  flag_case-Keeps : (number flag : ℕ) → Keeps (flag_case print env number flag)
  unfolding flag_case
  flag_case-Keeps number flag = search (keeps_rules, Sends-prot_user_request_token) depth 60

  pub prot_buddy_request_addbuddy_reply-Keeps : Keeps (prot_buddy_request_addbuddy_reply print env)
  unfolding prot_buddy_request_addbuddy_reply
  prot_buddy_request_addbuddy_reply-Keeps = search (keeps_rules, flag_case-Keeps) depth 60

  pub buddy_update_list-Keeps : Keeps (buddy_update_list print env)
  unfolding buddy_update_list
  buddy_update_list-Keeps = search keeps_rules depth 60

  pub prot_buddy_verify_addbuddy_reply-Keeps : Keeps (prot_buddy_verify_addbuddy_reply print env)
  unfolding prot_buddy_verify_addbuddy_reply
  prot_buddy_verify_addbuddy_reply-Keeps = search (keeps_rules, buddy_update_list-Keeps) depth 60

  pub prot_buddy_del_buddy_reply-Keeps : Keeps (prot_buddy_del_buddy_reply print env)
  unfolding prot_buddy_del_buddy_reply
  prot_buddy_del_buddy_reply-Keeps = search keeps_rules depth 60

  pub prot_buddy_get_extra_info_reply-Keeps : Keeps (prot_buddy_get_extra_info_reply print env)
  unfolding prot_buddy_get_extra_info_reply
  prot_buddy_get_extra_info_reply-Keeps = search keeps_rules depth 60

  parse_entry-Keeps : (b : Buddy) → Keeps (parse_entry print env b)
  unfolding parse_entry
  parse_entry-Keeps b = search keeps_rules depth 60

  pub prot_buddy_get_info_reply-Keeps : Keeps (prot_buddy_get_info_reply print env)
  unfolding prot_buddy_get_info_reply
  prot_buddy_get_info_reply-Keeps = search (keeps_rules, parse_entry-Keeps) depth 60
