-- ===== src/Prot/QunKeeps.antt =====
-- What the replies of src/prot_qun.c leave in flight.
use myqq.Base.{ℕ, Bool, List, [], ◌∷◌}
use myqq.Roster.{Member, Qun}
use myqq.PtrList.{PtrList}
use myqq.Session.{Env}
use myqq.Prot.Keeps.{Keeps, Sends, Sends-send_packet, keeps_rules}
use myqq.Prot.QunSend.{get_memberinfo_all}
use myqq.Prot.QunReply.{
  parse_details, parse_member, update_members, parse_quninfo, parse_info, parse_memberinfo,
  parse_number, parse_online, parse_name, parse_membername, prot_qun_cmd_reply,
}

Sends-get_memberinfo_all :
    (env : Env) (in_recv : Bool) (number : ℕ) (batches : List (List ℕ))
    → Sends (get_memberinfo_all env in_recv number batches)
unfolding get_memberinfo_all
Sends-get_memberinfo_all env in_recv number [] = record { at = λ s v. v }
Sends-get_memberinfo_all env in_recv number (ns ∷ rest) = record {
  at = λ s v.
      (Sends-get_memberinfo_all env in_recv number rest).at _
        ((Sends-send_packet env in_recv _ _ _).at s v);
}

module _ (print : ℕ → List ℕ) (env : Env) where
  parse_details-Keeps : (q : Qun) → Keeps (parse_details print env q)
  unfolding parse_details
  parse_details-Keeps q = search keeps_rules depth 60

  parse_member-Keeps : (l : PtrList Member) → Keeps (parse_member print env l)
  unfolding parse_member
  parse_member-Keeps l = search keeps_rules depth 60

  update_members-Keeps : (q : Qun) → Keeps (update_members print env q)
  unfolding update_members
  update_members-Keeps q = search (keeps_rules, Sends-get_memberinfo_all) depth 60

  parse_quninfo-Keeps : (q : Qun) → Keeps (parse_quninfo print env q)
  unfolding parse_quninfo
  parse_quninfo-Keeps q =
      search (keeps_rules, parse_details-Keeps, parse_member-Keeps, update_members-Keeps) depth 60

  parse_info-Keeps : (l : PtrList Member) → Keeps (parse_info print env l)
  unfolding parse_info
  parse_info-Keeps l = search keeps_rules depth 60

  parse_memberinfo-Keeps : (q : Qun) → Keeps (parse_memberinfo print env q)
  unfolding parse_memberinfo
  parse_memberinfo-Keeps q = search (keeps_rules, parse_info-Keeps) depth 60

  parse_number-Keeps : (l : PtrList Member) → Keeps (parse_number print env l)
  unfolding parse_number
  parse_number-Keeps l = search keeps_rules depth 60

  parse_online-Keeps : (q : Qun) → Keeps (parse_online print env q)
  unfolding parse_online
  parse_online-Keeps q = search (keeps_rules, parse_number-Keeps) depth 60

  parse_name-Keeps : (l : PtrList Member) → Keeps (parse_name print env l)
  unfolding parse_name
  parse_name-Keeps l = search keeps_rules depth 60

  parse_membername-Keeps : (q : Qun) → Keeps (parse_membername print env q)
  unfolding parse_membername
  parse_membername-Keeps q = search (keeps_rules, parse_name-Keeps) depth 60

  pub prot_qun_cmd_reply-Keeps : Keeps (prot_qun_cmd_reply print env)
  unfolding prot_qun_cmd_reply
  prot_qun_cmd_reply-Keeps =
      search
        (
          keeps_rules, parse_quninfo-Keeps, parse_memberinfo-Keeps, parse_online-Keeps,
          parse_membername-Keeps,
        )
        depth 60
