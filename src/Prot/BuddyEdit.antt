-- ===== src/Prot/BuddyEdit.antt =====
-- The replies of src/prot_buddy.c on one buddy: adding and deleting it, and its information.
use myqq.Base.{ℕ, Bool, true, false, not, ◌||◌, none, some, List, leb, ◌==◌, if◌then◌else◌}
use myqq.Packet.{get_byte, get_word, get_int, get_data}
use myqq.Roster.{Buddy, nickname_len, detail_size, buddy_get, buddy_remove}
use myqq.Session.{Notice, Env}
use myqq.Prot.{
  Handle, ◌>>=◌, ◌>>◌, pure, read, skip, gets, on_found, send, buddies, edit_data, edit_buddy,
  callback, while_more,
}
use myqq.Prot.UserSend.{prot_user_request_token}
use myqq.Prot.BuddySend.{prot_buddy_update_list, prot_buddy_update_online}

module _ (print : ℕ → List ℕ) (env : Env) where
  -- the cases of the flag; 1 is OP_ADDBUDDY
  unfoldable pub flag_case : ℕ → ℕ → Handle (Unit {0})
  flag_case number flag =
      if flag == 0 || flag == 1
      then send (prot_user_request_token print env true number 1 1 none)
      else if flag == 2
      then callback 100 (Notice.rejects_all number)
      else if flag == 3
      then callback 100 (Notice.needs_answer number)
      else pure tt

  unfoldable pub prot_buddy_request_addbuddy_reply : Handle (Unit {0})
  unfolding flag_case
  prot_buddy_request_addbuddy_reply = do
    number ← read get_int
    result ← read get_byte
    flag ← read get_byte
    if not (result == 0) then pure tt else do
      edit_data (λ d. record d { operating_number = number })
      found ← buddies (λ l. buddy_get print l number true)
      on_found found (pure tt) λ b. edit_buddy number (λ b. record b { verify_flag = flag })
      flag_case number flag

  -- `buddy_update_list` of src/buddy.c
  unfoldable pub buddy_update_list : Handle (Unit {0})
  buddy_update_list = do
    send (prot_buddy_update_list env true 0)
    send (prot_buddy_update_online env true 0)

  unfoldable pub prot_buddy_verify_addbuddy_reply : Handle (Unit {0})
  unfolding buddy_update_list
  prot_buddy_verify_addbuddy_reply = do
    cmd ← read get_byte
    number ← read get_int
    if not (cmd == 3 || cmd == 1) then pure tt else do
      result ← read get_byte
      if not (result == 0)
          then pure tt
          else do callback 100 (Notice.added number); buddy_update_list

  unfoldable pub prot_buddy_del_buddy_reply : Handle (Unit {0})
  prot_buddy_del_buddy_reply = do
    result ← read get_byte
    if not (result == 0) then pure tt else do
      number ← gets (λ s. s.qqdata.operating_number)
      removed ←
          buddies (λ l. elim (buddy_remove l number) [ none ↦ none | some l' ↦ some (tt, l') ])
      callback 100 (Notice.deleted number)

  unfoldable pub prot_buddy_get_extra_info_reply : Handle (Unit {0})
  prot_buddy_get_extra_info_reply = pure tt

  -- One entry of the information. The arrays are written without a 0 behind the bytes, and an entry
  -- that is too long is not skipped.
  unfoldable pub parse_entry : Buddy → Handle (Bool × Buddy)
  parse_entry b = do
    type ← read get_word
    len ← read get_word
    if type == 0x4E22
        then (if leb nickname_len len then pure (true, b) else do
          name ← read (get_data b.nickname len)
          pure (true, record b { nickname = name.1 }))
        else if detail_size type == 0
        then (skip len >> pure (true, b))
        else if leb (detail_size type) len
        then pure (true, b)
        else do
          text ← read (get_data (b.details type) len)
          pure (true, record b { details = λ t. if t == type then text.1 else b.details t })

  unfoldable pub prot_buddy_get_info_reply : Handle (Unit {0})
  unfolding parse_entry
  prot_buddy_get_info_reply = do
    unknown ← read get_word
    ret ← read get_byte
    if not (ret == 0) then pure tt else do
      num ← read get_int
      found ← buddies (λ l. buddy_get print l num false)
      on_found found (pure tt) λ b. do
        zeros ← read get_int
        count ← read get_word
        all ← while_more 0 parse_entry b
        edit_buddy num (λ _. all.1)
