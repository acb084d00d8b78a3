-- ===== src/Prot/Handlers.antt =====
-- The handlers that `process_packet` of src/protocol.c calls for a reply, each on the packet's buffer.
use myqq.Base.{ℕ, ◌≡◌, refl, inl, inr, Option, none, some, List, Option-cases}
use myqq.Packet.{Token}
use myqq.Protocol.{QqPacket}
use myqq.Protocol.Commands.{Handler}
use myqq.Roster.{Buddy}
use myqq.Session.{Session, Env}
use myqq.PacketMgr.{Handlers, packetmgr_start}
use myqq.PacketMgr.InFlight.{InFlight}
use myqq.PacketMgr.Steps.{KeepsInFlight, Reach, Reach-InFlight}
use myqq.Prot.{Reply, Handle, pure}
use myqq.Prot.Text.{Strings}
use myqq.Prot.ImReply.{prot_im_recv_msg}
use myqq.Prot.MiscReply.{prot_misc_broadcast}
use myqq.Prot.ImKeeps.{prot_im_recv_msg-Keeps, prot_misc_broadcast-Keeps}
use myqq.Prot.Keeps.{Keeps, Sends, Keeps-pure}
use myqq.Prot.LoginReply.{
  prot_login_touch_reply, prot_login_request_reply, prot_login_verify_reply,
  prot_login_get_info_reply, prot_login_a4_reply, prot_login_send_info_reply,
  prot_login_get_list_reply, prot_login_e9_reply, prot_login_ea_reply, prot_login_ed_reply,
  prot_login_ec_reply,
}
use myqq.Prot.LoginKeeps.{
  prot_login_touch_reply-Keeps, prot_login_request_reply-Keeps, prot_login_verify_reply-Keeps,
  prot_login_get_info_reply-Keeps, prot_login_a4_reply-Keeps, prot_login_send_info_reply-Keeps,
  prot_login_get_list_reply-Keeps, prot_login_e9_reply-Keeps, prot_login_ea_reply-Keeps,
  prot_login_ed_reply-Keeps, prot_login_ec_reply-Keeps,
}
use myqq.Prot.QunReply.{prot_qun_cmd_reply}
use myqq.Prot.QunKeeps.{prot_qun_cmd_reply-Keeps}
use myqq.Prot.GroupReply.{prot_group_download_labels_reply}
use myqq.Prot.UserReply.{
  prot_user_keep_alive_reply, prot_user_change_status_reply, prot_user_get_key_reply,
  prot_user_get_notice_reply, prot_user_check_ip_reply, prot_user_get_level_reply,
  prot_user_request_token_reply,
}
use myqq.Prot.UserKeeps.{
  prot_group_download_labels_reply-Keeps, prot_user_keep_alive_reply-Keeps,
  prot_user_change_status_reply-Keeps, prot_user_get_key_reply-Keeps,
  prot_user_get_notice_reply-Keeps, prot_user_check_ip_reply-Keeps, prot_user_get_level_reply-Keeps,
  prot_user_request_token_reply-Keeps,
}
use myqq.Prot.BuddyReply.{
  prot_buddy_update_list_reply, prot_buddy_update_online_reply, prot_buddy_status,
  prot_buddy_update_signiture_reply, prot_buddy_update_account_reply, prot_buddy_update_alias_reply,
}
use myqq.Prot.BuddyEdit.{
  prot_buddy_request_addbuddy_reply, prot_buddy_verify_addbuddy_reply, prot_buddy_del_buddy_reply,
  prot_buddy_get_extra_info_reply, prot_buddy_get_info_reply,
}
use myqq.Prot.BuddyKeeps.{
  prot_buddy_update_list_reply-Keeps, prot_buddy_update_online_reply-Keeps, prot_buddy_status-Keeps,
  prot_buddy_update_signiture_reply-Keeps, prot_buddy_update_account_reply-Keeps,
  prot_buddy_update_alias_reply-Keeps, prot_buddy_request_addbuddy_reply-Keeps,
  prot_buddy_verify_addbuddy_reply-Keeps, prot_buddy_del_buddy_reply-Keeps,
  prot_buddy_get_extra_info_reply-Keeps, prot_buddy_get_info_reply-Keeps,
}

unfoldable pub run_reply : Handle (Unit {0}) → QqPacket → Session → Option Session
run_reply m p s = elim (m (record { session = s; buf = p.buf })) [
  | none ↦ none
  | some (u, y) ↦ some y.session
]

-- What the C library and the rest of the program give the handlers: `qsort` on buddies, what
-- is on strings, `http_request` of src/util.c, `qqconn_connect` and `qqconn_establish` of
-- src/qqconn.c, the md5 of a string of bytes, and what the arrays `key`, `tmp` and `msg` and a token
-- on the stack hold before they are written.
pub record Library : Type 0 where
  pub qsort : List Buddy → List Buddy
  pub strings : Strings
  pub http_request : List ℕ → Option (List ℕ)
  pub stack_key : List ℕ
  pub stack_tmp : List ℕ
  pub stack_msg : List ℕ
  pub stack_token : Token
  pub connect : Session → Session
  pub establish : Session → Session
  pub md5 : List ℕ → List ℕ

run_reply-InFlight :
    (m : Handle (Unit {0}))
    → Keeps m
    → (p : QqPacket) (s t : Session) → run_reply m p s ≡ some t
    → InFlight s.mgr
    → InFlight t.mgr
unfolding run_reply
run_reply-InFlight m k p s t e v =
    let x : Reply = record { session = s; buf = p.buf } in
    elim (Option-cases (m x)) [
      | inl z ↦
          let none_of : run_reply m p s ≡ none = rw (run_reply, z) refl in absurd (cc (e, none_of))
      | inr ((u, y), z) ↦
          let got : run_reply m p s ≡ some y.session = rw (run_reply, z) refl in
          let same : t ≡ y.session = cc (e, got) in rw same (k.at x y u z v)
    ]

module _ (lib : Library) (env : Env) where
  unfoldable pub reply_of : Handler → QqPacket → Handle (Unit {0})
  reply_of Handler.keep_alive_reply p = prot_user_keep_alive_reply
  reply_of Handler.change_status_reply p = prot_user_change_status_reply
  reply_of Handler.update_list_reply p =
      prot_buddy_update_list_reply lib.qsort lib.strings.print env
  reply_of Handler.update_online_reply p =
      prot_buddy_update_online_reply lib.qsort lib.strings.print env
  reply_of Handler.buddy_status p = prot_buddy_status lib.qsort lib.strings.print env
  reply_of Handler.qun_cmd_reply p = prot_qun_cmd_reply lib.strings.print env
  reply_of Handler.get_key_reply p = prot_user_get_key_reply lib.stack_key
  reply_of Handler.get_notice_reply p = prot_user_get_notice_reply
  reply_of Handler.check_ip_reply p = prot_user_check_ip_reply
  reply_of Handler.update_signiture_reply p =
      prot_buddy_update_signiture_reply lib.qsort lib.strings.print env
  reply_of Handler.update_account_reply p =
      prot_buddy_update_account_reply lib.qsort lib.strings.print env
  reply_of Handler.update_alias_reply p =
      prot_buddy_update_alias_reply lib.qsort lib.strings.print env
  reply_of Handler.get_extra_info_reply p = prot_buddy_get_extra_info_reply lib.strings.print env
  reply_of Handler.buddy_get_info_reply p = prot_buddy_get_info_reply lib.strings.print env
  reply_of Handler.download_labels_reply p = prot_group_download_labels_reply lib.strings.print
  reply_of Handler.get_level_reply p = prot_user_get_level_reply
  reply_of Handler.request_addbuddy_reply p =
      prot_buddy_request_addbuddy_reply lib.strings.print env
  reply_of Handler.verify_addbuddy_reply p = prot_buddy_verify_addbuddy_reply lib.strings.print env
  reply_of Handler.request_token_reply p =
      prot_user_request_token_reply lib.http_request lib.strings.print env
  reply_of Handler.del_buddy_reply p = prot_buddy_del_buddy_reply lib.strings.print env
  reply_of Handler.recv_msg p = prot_im_recv_msg lib.strings lib.stack_tmp env p
  reply_of Handler.broadcast p = prot_misc_broadcast lib.strings env
  reply_of Handler.send_im_reply p = pure tt
  reply_of Handler.unknown p = pure tt
  reply_of Handler.touch_reply p = prot_login_touch_reply lib.connect lib.establish env
  reply_of Handler.request_reply p = prot_login_request_reply lib.stack_token env
  reply_of Handler.verify_reply p = prot_login_verify_reply lib.stack_msg env
  reply_of Handler.get_info_reply p = prot_login_get_info_reply env
  reply_of Handler.a4_reply p = prot_login_a4_reply env
  reply_of Handler.send_info_reply p = prot_login_send_info_reply lib.md5 env
  reply_of Handler.get_list_reply p = prot_login_get_list_reply lib.strings.print env
  reply_of Handler.e9_reply p = prot_login_e9_reply env
  reply_of Handler.ea_reply p = prot_login_ea_reply env
  reply_of Handler.ed_reply p = prot_login_ed_reply env
  reply_of Handler.ec_reply p = prot_login_ec_reply lib.strings.print env

  -- `process_packet`'s call of a handler
  unfoldable pub handlers : Handlers
  unfolding reply_of run_reply
  handlers h p s = run_reply (reply_of h p) p s

module _ (lib : Library) (env : Env) (sc : Sends lib.connect) (se : Sends lib.establish) where
  reply_of-Keeps : (h : Handler) (p : QqPacket) → Keeps (reply_of lib env h p)
  unfolding reply_of
  reply_of-Keeps Handler.keep_alive_reply p = prot_user_keep_alive_reply-Keeps
  reply_of-Keeps Handler.change_status_reply p = prot_user_change_status_reply-Keeps
  reply_of-Keeps Handler.update_list_reply p =
      prot_buddy_update_list_reply-Keeps lib.qsort lib.strings.print env
  reply_of-Keeps Handler.update_online_reply p =
      prot_buddy_update_online_reply-Keeps lib.qsort lib.strings.print env
  reply_of-Keeps Handler.buddy_status p = prot_buddy_status-Keeps lib.qsort lib.strings.print env
  reply_of-Keeps Handler.qun_cmd_reply p = prot_qun_cmd_reply-Keeps lib.strings.print env
  reply_of-Keeps Handler.get_key_reply p = prot_user_get_key_reply-Keeps lib.stack_key
  reply_of-Keeps Handler.get_notice_reply p = prot_user_get_notice_reply-Keeps
  reply_of-Keeps Handler.check_ip_reply p = prot_user_check_ip_reply-Keeps
  reply_of-Keeps Handler.update_signiture_reply p =
      prot_buddy_update_signiture_reply-Keeps lib.qsort lib.strings.print env
  reply_of-Keeps Handler.update_account_reply p =
      prot_buddy_update_account_reply-Keeps lib.qsort lib.strings.print env
  reply_of-Keeps Handler.update_alias_reply p =
      prot_buddy_update_alias_reply-Keeps lib.qsort lib.strings.print env
  reply_of-Keeps Handler.get_extra_info_reply p =
      prot_buddy_get_extra_info_reply-Keeps lib.strings.print env
  reply_of-Keeps Handler.buddy_get_info_reply p =
      prot_buddy_get_info_reply-Keeps lib.strings.print env
  reply_of-Keeps Handler.download_labels_reply p =
      prot_group_download_labels_reply-Keeps lib.strings.print
  reply_of-Keeps Handler.get_level_reply p = prot_user_get_level_reply-Keeps
  reply_of-Keeps Handler.request_addbuddy_reply p =
      prot_buddy_request_addbuddy_reply-Keeps lib.strings.print env
  reply_of-Keeps Handler.verify_addbuddy_reply p =
      prot_buddy_verify_addbuddy_reply-Keeps lib.strings.print env
  reply_of-Keeps Handler.request_token_reply p =
      prot_user_request_token_reply-Keeps lib.http_request lib.strings.print env
  reply_of-Keeps Handler.del_buddy_reply p = prot_buddy_del_buddy_reply-Keeps lib.strings.print env
  reply_of-Keeps Handler.recv_msg p = prot_im_recv_msg-Keeps lib.strings lib.stack_tmp env p
  reply_of-Keeps Handler.broadcast p = prot_misc_broadcast-Keeps lib.strings env
  reply_of-Keeps Handler.send_im_reply p = Keeps-pure tt
  reply_of-Keeps Handler.unknown p = Keeps-pure tt
  reply_of-Keeps Handler.touch_reply p =
      prot_login_touch_reply-Keeps env lib.connect lib.establish sc se
  reply_of-Keeps Handler.request_reply p = prot_login_request_reply-Keeps env lib.stack_token
  reply_of-Keeps Handler.verify_reply p = prot_login_verify_reply-Keeps env lib.stack_msg
  reply_of-Keeps Handler.get_info_reply p = prot_login_get_info_reply-Keeps env
  reply_of-Keeps Handler.a4_reply p = prot_login_a4_reply-Keeps env
  reply_of-Keeps Handler.send_info_reply p = prot_login_send_info_reply-Keeps env lib.md5
  reply_of-Keeps Handler.get_list_reply p = prot_login_get_list_reply-Keeps env lib.strings.print
  reply_of-Keeps Handler.e9_reply p = prot_login_e9_reply-Keeps env
  reply_of-Keeps Handler.ea_reply p = prot_login_ea_reply-Keeps env
  reply_of-Keeps Handler.ed_reply p = prot_login_ed_reply-Keeps env
  reply_of-Keeps Handler.ec_reply p = prot_login_ec_reply-Keeps env lib.strings.print

  -- Each handler leaves at most one packet in flight.
  pub handlers-KeepsInFlight : KeepsInFlight (handlers lib env)
  unfolding handlers
  handlers-KeepsInFlight h p s t e v =
      run_reply-InFlight (reply_of lib env h p) (reply_of-Keeps h p) p s t e v

-- After any posts, arrivals and time-out checks from a session whose manager was just started, at
-- most one packet is in flight, and `ready_loop`, `temp_loop` and `sent_loop` are well formed, with
-- the handlers of all the commands, if `qqconn_connect` and `qqconn_establish` keep that.
pub Reach-handlers :
    (lib : Library)
    → Sends lib.connect
    → Sends lib.establish
    → (s t : Session) → s.mgr ≡ packetmgr_start
    → Reach (handlers lib) s t
    → InFlight t.mgr
Reach-handlers lib sc se s t e r =
    Reach-InFlight (handlers lib) (λ env. handlers-KeepsInFlight lib env sc se) s t e r
