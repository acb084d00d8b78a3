-- ===== src/Prot/UserReply.antt =====
-- The replies of src/prot_user.c.
use myqq.Base.{
  ℕ, ◌+◌, true, false, not, ◌||◌, Option, none, some, List, ◌++◌, ltb, leb, ◌==◌, if◌then◌else◌,
  length, take, drop, replicate,
}
use myqq.Packet.{get_byte, get_word, get_int, get_data, get_token}
use myqq.Roster.{Buddy, buddy_get}
use myqq.Session.{Process, Event, Env, qqclient_set_process}
use myqq.Prot.{
  Handle, ◌>>=◌, ◌>>◌, pure, read, skip, gets, on_found, attempt, send, try_send, buddies,
  edit_data, edit_buddy, put_event, set_levels,
}
use myqq.Prot.BuddySend.{prot_buddy_verify_addbuddy, prot_buddy_del_buddy}

unfoldable pub prot_user_keep_alive_reply : Handle (Unit {0})
prot_user_keep_alive_reply = do
  zero_byte ← read get_byte
  onlines ← read get_int
  ip ← read get_int
  port ← read get_word
  unknown ← read get_word
  server_time ← read get_int
  number ← gets (λ s. s.account.number)
  put_event (Event.keepalive number)

-- 48 is '0'.
unfoldable pub prot_user_change_status_reply : Handle (Unit {0})
prot_user_change_status_reply = do
  c ← read get_byte
  if not (c == 48) then pure tt else do
    number ← gets (λ s. s.account.number)
    mode ← gets (λ s. s.mode)
    edit_buddy number (λ b. record b { status = mode })
    put_event (Event.status mode)

-- `key` is what the array of that name holds before it is written.
unfoldable pub prot_user_get_key_reply : List ℕ → Handle (Unit {0})
prot_user_get_key_reply key = do
  cmd ← read get_byte
  result ← read get_byte
  if not (cmd == 4) then pure tt else do
    k ← read (get_data key 16)
    skip 12
    len ← read get_byte
    data0 ← gets (λ s. s.qqdata.file_token)
    r ← read (get_data data0.bytes len)
    edit_data
        (λ d. record d { file_token = record { len = len; bytes = r.1 }; file_key = take 16 k.1 })

unfoldable pub prot_user_get_notice_reply : Handle (Unit {0})
prot_user_get_notice_reply = do
  result ← read get_byte
  cmd ← read get_byte
  if not (cmd == 0x07)
      then pure tt
      else do len ← read get_word; str ← read (get_data (replicate (len + 1) 0) len); pure tt

-- `len = get_word( buf ); get_data( buf, t, len ); t += len;` on the array `str` and the offset `t`
unfoldable pub next_piece : List ℕ × ℕ → Handle (List ℕ × ℕ)
next_piece (str, t) = do
  len ← read get_word
  r ← read (get_data (drop t str) len)
  pure (take t str ++ r.1, t + len)

-- The pointer may have gone past the end of `str`, where `*t = 0` writes.
unfoldable pub end_pieces : List ℕ × ℕ → Handle (Unit {0})
end_pieces (str, t) = attempt (if ltb t (length str) then some tt else none)

unfoldable pub prot_user_check_ip_reply : Handle (Unit {0})
unfolding next_piece end_pieces
prot_user_check_ip_reply = do
  len ← read (λ b. some (b.len, b))
  c ← read get_byte
  pos ← read (λ b. some (b.pos, b))
  if not (c == 2) || pos == len then pure tt else do
    b1 ← read get_byte
    p1 ← next_piece (replicate len 0, 0)
    b2 ← read get_byte
    p2 ← next_piece p1
    b3 ← read get_byte
    skip 9
    p3 ← next_piece p2
    b4 ← read get_byte
    w4 ← read get_word
    p4 ← next_piece p3
    w5 ← read get_word
    b5 ← read get_byte
    p5 ← next_piece p4
    w6 ← read get_word
    b6 ← read get_byte
    p6 ← next_piece p5
    w7 ← read get_word
    b7 ← read get_byte
    p7 ← next_piece p6
    w8 ← read get_word
    b8 ← read get_byte
    p8 ← next_piece p7
    b9 ← read get_byte
    p9 ← next_piece p8
    end_pieces p9

unfoldable pub prot_user_get_level_reply : Handle (Unit {0})
prot_user_get_level_reply = do
  cmd ← read get_byte
  number ← read get_int
  if not (cmd == 0x88) then pure tt else do
    unknown ← read get_int
    level ← read get_word
    active_days ← read get_word
    unknown2 ← read get_word
    upgrade_days ← read get_word
    set_levels level active_days upgrade_days
    put_event (Event.level level active_days upgrade_days)

-- `http_request` gives the session string of the answer, or `none` for a result other than 0;
-- `print` is `sprintf( ..., "%u", number )`.
module _ (http_request : List ℕ → Option (List ℕ)) (print : ℕ → List ℕ) (env : Env) where
  -- the picture of the verifying code; the file that it is written to is not modelled
  unfoldable pub need_verifying : Handle (Unit {0})
  need_verifying = do
    at_end ← read (λ b. some (b.pos == b.len, b))
    if at_end then pure tt else do
      len ← read get_word
      if leb 128 len then pure tt else do
        url ← read (get_data (replicate 128 0) len)
        on_found (http_request url.1) (pure tt) λ session. do
          edit_data (λ d. record d { qqsession = take 127 session })
          send (λ s. qqclient_set_process s Process.verifying)

  -- what a token was asked for: 1 is OP_ADDBUDDY and 2 OP_DELBUDDY, and of the flags 1 is VF_VERIFY
  -- and 0 VF_OK
  unfoldable pub use_token : ℕ → ℕ → Buddy → Handle (Unit {0})
  use_token operation number b =
      if operation == 1
      then (if b.verify_flag == 1
          then try_send (prot_buddy_verify_addbuddy env true 2 number)
          else if b.verify_flag == 0
          then try_send (prot_buddy_verify_addbuddy env true 0 number)
          else pure tt)
      else if operation == 2
      then try_send (prot_buddy_del_buddy env true print number)
      else pure tt

  unfoldable pub prot_user_request_token_reply : Handle (Unit {0})
  unfolding need_verifying use_token
  prot_user_request_token_reply = do
    cmd ← read get_byte
    unknown ← read get_word
    verify ← read get_byte
    if not (verify == 0) then need_verifying else do
      old ← gets (λ s. s.qqdata.user_token)
      token ← read (get_token old)
      edit_data (λ d. record d { user_token = token.1; user_token_time = env.now })
      d ← gets (λ s. s.qqdata)
      found ← buddies (λ l. buddy_get print l d.operating_number false)
      on_found found (pure tt) (use_token d.operation d.operating_number)
