-- ===== src/Prot/UserKeeps.antt =====
-- What the replies of src/prot_user.c and src/prot_group.c leave in flight.
use myqq.Base.{ℕ, Option, List}
use myqq.Roster.{Buddy}
use myqq.Session.{Process, Env, qqclient_set_process, qqclient_put_event}
use myqq.Prot.Keeps.{Keeps, Sends, keeps_rules}
use myqq.Prot.BuddyKeeps.{TrySends-prot_buddy_verify_addbuddy, TrySends-prot_buddy_del_buddy}
use myqq.Prot.GroupReply.{parse_label, prot_group_download_labels_reply}
use myqq.Prot.UserReply.{
  prot_user_keep_alive_reply, prot_user_change_status_reply, prot_user_get_key_reply,
  prot_user_get_notice_reply, next_piece, end_pieces, prot_user_check_ip_reply,
  prot_user_get_level_reply, need_verifying, use_token, prot_user_request_token_reply,
}

pub Sends-qqclient_set_process : (p : Process) → Sends (λ s. qqclient_set_process s p)
unfolding qqclient_set_process qqclient_put_event
Sends-qqclient_set_process p = record { at = λ s v. v }

pub prot_user_keep_alive_reply-Keeps : Keeps prot_user_keep_alive_reply
unfolding prot_user_keep_alive_reply
prot_user_keep_alive_reply-Keeps = search keeps_rules depth 60

pub prot_user_change_status_reply-Keeps : Keeps prot_user_change_status_reply
unfolding prot_user_change_status_reply
prot_user_change_status_reply-Keeps = search keeps_rules depth 60

pub prot_user_get_key_reply-Keeps : (key : List ℕ) → Keeps (prot_user_get_key_reply key)
unfolding prot_user_get_key_reply
prot_user_get_key_reply-Keeps key = search keeps_rules depth 60

pub prot_user_get_notice_reply-Keeps : Keeps prot_user_get_notice_reply
unfolding prot_user_get_notice_reply
prot_user_get_notice_reply-Keeps = search keeps_rules depth 60

next_piece-Keeps : (r : List ℕ × ℕ) → Keeps (next_piece r)
unfolding next_piece
next_piece-Keeps r = search keeps_rules depth 60

end_pieces-Keeps : (r : List ℕ × ℕ) → Keeps (end_pieces r)
unfolding end_pieces
end_pieces-Keeps r = search keeps_rules depth 60

pub prot_user_check_ip_reply-Keeps : Keeps prot_user_check_ip_reply
unfolding prot_user_check_ip_reply
prot_user_check_ip_reply-Keeps = search (keeps_rules, next_piece-Keeps, end_pieces-Keeps) depth 60

pub prot_user_get_level_reply-Keeps : Keeps prot_user_get_level_reply
unfolding prot_user_get_level_reply
prot_user_get_level_reply-Keeps = search keeps_rules depth 60

module _ (http_request : List ℕ → Option (List ℕ)) (print : ℕ → List ℕ) (env : Env) where
  need_verifying-Keeps : Keeps (need_verifying http_request print env)
  unfolding need_verifying
  need_verifying-Keeps = search (keeps_rules, Sends-qqclient_set_process) depth 60

  use_token-Keeps :
      (operation number : ℕ) (b : Buddy)
      → Keeps (use_token http_request print env operation number b)
  unfolding use_token
  use_token-Keeps operation number b =
      search (keeps_rules, TrySends-prot_buddy_verify_addbuddy, TrySends-prot_buddy_del_buddy) depth
        60

  pub prot_user_request_token_reply-Keeps :
      Keeps (prot_user_request_token_reply http_request print env)
  unfolding prot_user_request_token_reply
  prot_user_request_token_reply-Keeps =
      search (keeps_rules, need_verifying-Keeps, use_token-Keeps) depth 60

module _ (print : ℕ → List ℕ) where
  parse_label-Keeps : (u : Unit {0}) → Keeps (parse_label print u)
  unfolding parse_label
  parse_label-Keeps u = search keeps_rules depth 60

  pub prot_group_download_labels_reply-Keeps : Keeps (prot_group_download_labels_reply print)
  unfolding prot_group_download_labels_reply
  prot_group_download_labels_reply-Keeps = search (keeps_rules, parse_label-Keeps) depth 60
