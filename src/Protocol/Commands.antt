-- ===== src/Protocol/Commands.antt =====
-- The commands of `enum QQ_CMD` in src/protocol.h, and the `switch` of `process_packet` in
-- src/protocol.c that gives each its handler.
use myqq.Base.{ℕ, List, [], ◌∷◌, ◌==◌, if◌then◌else◌}

abbrev pub touch : ℕ
touch = 0x0091

abbrev pub login_request : ℕ
login_request = 0x00ba

abbrev pub login_verify : ℕ
login_verify = 0x00dd

abbrev pub login_get_info : ℕ
login_get_info = 0x00e5

abbrev pub login_a4 : ℕ
login_a4 = 0x00a4

abbrev pub login_get_list : ℕ
login_get_list = 0x00eb

abbrev pub login_send_info : ℕ
login_send_info = 0x0030

abbrev pub keep_alive : ℕ
keep_alive = 0x0058

abbrev pub send_im : ℕ
send_im = 0x00cd

abbrev pub recv_im : ℕ
recv_im = 0x0017

abbrev pub recv_im_09 : ℕ
recv_im_09 = 0x00ce

abbrev pub qun_cmd : ℕ
qun_cmd = 0x0002

abbrev pub group_label : ℕ
group_label = 0x0001

-- the functions that `process_packet` calls
pub data Handler : Type 0 where
  touch_reply request_reply verify_reply get_info_reply a4_reply get_list_reply send_info_reply :
      Handler
  e9_reply ea_reply ec_reply ed_reply : Handler
  keep_alive_reply recv_msg change_status_reply : Handler
  update_list_reply update_online_reply buddy_status qun_cmd_reply : Handler
  get_key_reply get_notice_reply check_ip_reply : Handler
  update_signiture_reply update_account_reply update_alias_reply get_extra_info_reply : Handler
  buddy_get_info_reply download_labels_reply : Handler
  send_im_reply broadcast get_level_reply request_addbuddy_reply verify_addbuddy_reply : Handler
  request_token_reply del_buddy_reply : Handler
  unknown : Handler

-- the cases of the `switch`, in order
abbrev pub cases : List (ℕ × Handler)
cases =
    (touch, Handler.touch_reply)
    ∷ (login_request, Handler.request_reply)
    ∷ (login_verify, Handler.verify_reply)
    ∷ (login_get_info, Handler.get_info_reply)
    ∷ (login_a4, Handler.a4_reply)
    ∷ (login_get_list, Handler.get_list_reply)
    ∷ (login_send_info, Handler.send_info_reply)
    ∷ (0x00e9, Handler.e9_reply)
    ∷ (0x00ea, Handler.ea_reply)
    ∷ (0x00ec, Handler.ec_reply)
    ∷ (0x00ed, Handler.ed_reply)
    ∷ (keep_alive, Handler.keep_alive_reply)
    ∷ (recv_im_09, Handler.recv_msg)
    ∷ (recv_im, Handler.recv_msg)
    ∷ (0x000d, Handler.change_status_reply)
    ∷ (0x0126, Handler.update_list_reply)
    ∷ (0x0027, Handler.update_online_reply)
    ∷ (0x0081, Handler.buddy_status)
    ∷ (qun_cmd, Handler.qun_cmd_reply)
    ∷ (0x001d, Handler.get_key_reply)
    ∷ (0x00d4, Handler.get_notice_reply)
    ∷ (0x00da, Handler.check_ip_reply)
    ∷ (0x0067, Handler.update_signiture_reply)
    ∷ (0x00b5, Handler.update_account_reply)
    ∷ (0x003e, Handler.update_alias_reply)
    ∷ (0x0065, Handler.get_extra_info_reply)
    ∷ (0x003c, Handler.buddy_get_info_reply)
    ∷ (group_label, Handler.download_labels_reply)
    ∷ (send_im, Handler.send_im_reply)
    ∷ (0x0080, Handler.broadcast)
    ∷ (0x005c, Handler.get_level_reply)
    ∷ (0x00a7, Handler.request_addbuddy_reply)
    ∷ (0x00a8, Handler.verify_addbuddy_reply)
    ∷ (0x00ae, Handler.request_token_reply)
    ∷ (0x000a, Handler.del_buddy_reply)
    ∷ []

abbrev pub pick : ℕ → List (ℕ × Handler) → Handler
pick command [] = Handler.unknown
pick command ((c, h) ∷ cs) = if command == c then h else pick command cs

unfoldable pub handler_of : ℕ → Handler
handler_of command = pick command cases
