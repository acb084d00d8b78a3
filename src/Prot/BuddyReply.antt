-- ===== src/Prot/BuddyReply.antt =====
-- The replies of src/prot_buddy.c on the list of buddies: the list itself, who is online, and their
-- signatures, accounts and names.
use myqq.Base.{
  ℕ, ◌+◌, ◌%◌, Bool, true, false, not, ◌&&◌, none, some, List, ltb, ◌==◌, if◌then◌else◌, set,
}
use myqq.Packet.{get_byte, get_word, get_int, get_data}
use myqq.Roster.{Buddy, buddy_get, buddy_set_all_off}
use myqq.Session.{Event, Env}
use myqq.Prot.{
  Handle, ◌>>=◌, ◌>>◌, pure, read, skip, on_found, send, try_send, buddies, edit_buddy,
  buddy_put_event, put_event, while_more,
}
use myqq.Prot.BuddySend.{
  prot_buddy_update_list, prot_buddy_update_online, prot_buddy_update_signiture,
  prot_buddy_update_account, prot_buddy_update_alias,
}

-- `MIN( limit, n )`
abbrev pub at_most : ℕ → ℕ → ℕ
at_most limit n = if ltb limit n then limit else n

-- a string array with a 0 behind its `n` bytes
abbrev pub ended : List ℕ → ℕ → List ℕ
ended str n = set str n 0

module _ (qsort : List Buddy → List Buddy) (print : ℕ → List ℕ) (env : Env) where
  -- one round of the loop of `prot_buddy_update_list_reply`; `false` is a `break`
  unfoldable pub parse_buddy : Unit {0} → Handle (Bool × Unit {0})
  parse_buddy u = do
    number ← read get_int
    found ← buddies (λ l. buddy_get print l number true)
    on_found found (pure (false, tt)) λ b. do
      face ← read get_word
      age ← read get_byte
      sex ← read get_byte
      len ← read get_byte
      name ← read (get_data b.nickname (at_most 63 len))
      edit_buddy number (λ b. record b {
        face = face;
        age = age;
        sex = sex;
        nickname = ended name.1 (at_most 63 len);
      })
      skip 32
      pure (true, tt)

  -- what is asked for when the list is there
  unfoldable pub list_complete : Handle (Unit {0})
  list_complete = do
    off ← buddies (λ l. elim (buddy_set_all_off l) [ none ↦ none | some l' ↦ some (tt, l') ])
    try_send (prot_buddy_update_signiture env true qsort 0)
    try_send (prot_buddy_update_account env true qsort 0)
    send (prot_buddy_update_alias env true 0)
    buddy_put_event

  unfoldable pub prot_buddy_update_list_reply : Handle (Unit {0})
  unfolding parse_buddy list_complete
  prot_buddy_update_list_reply = do
    skip 10
    next_pos ← read get_word
    skip 5
    all ← while_more 5 parse_buddy tt
    if all.0 && not (next_pos == 0xffff)
        then send (prot_buddy_update_list env true next_pos)
        else list_complete

  -- what `prot_buddy_update_online_reply` and `prot_buddy_status` read of a buddy
  unfoldable pub parse_status : Buddy → Handle Buddy
  parse_status b = do
    unknown ← read get_byte
    ip ← read get_int
    port ← read get_word
    unknown2 ← read get_byte
    status ← read get_byte
    version ← read get_word
    key ← read (get_data b.session_key 16)
    pure
        (record b { ip = ip; port = port; status = status; version = version; session_key = key.1 })

  -- one round, with `max_number`
  unfoldable pub parse_online_buddy : ℕ → Handle (Bool × ℕ)
  unfolding parse_status
  parse_online_buddy max_number = do
    number ← read get_int
    let max = if ltb max_number number then number else max_number
    found ← buddies (λ l. buddy_get print l number false)
    on_found found (pure (false, max))
        λ b. do b' ← parse_status b; edit_buddy number (λ _. b'); skip 11; pure (true, max)

  unfoldable pub prot_buddy_update_online_reply : Handle (Unit {0})
  unfolding parse_online_buddy
  prot_buddy_update_online_reply = do
    next_order ← read get_byte
    all ← while_more 0 parse_online_buddy 0
    if all.0 && not (next_order == 0xff)
        then send (prot_buddy_update_online env true all.1)
        else buddy_put_event

  unfoldable pub prot_buddy_status : Handle (Unit {0})
  unfolding parse_status
  prot_buddy_status = do
    number ← read get_int
    found ← buddies (λ l. buddy_get print l number false)
    on_found found (pure tt) λ b. do
      b' ← parse_status b
      edit_buddy number (λ _. b')
      put_event (Event.buddy_status number b'.status)

  unfoldable pub parse_sign : Unit {0} → Handle (Bool × Unit {0})
  parse_sign u = do
    number ← read get_int
    found ← buddies (λ l. buddy_get print l number false)
    on_found found (pure (false, tt)) λ b. do
      sign_time ← read get_int
      len ← read get_byte
      text ← read (get_data b.signature len)
      edit_buddy number (λ b. record b { sign_time = sign_time; signature = ended text.1 len })
      pure (true, tt)

  -- whether there is more to ask for
  abbrev pub is_more : ℕ → Bool
  is_more next_pos = not (next_pos == 0) && not (next_pos == 0xffffffff)

  unfoldable pub prot_buddy_update_signiture_reply : Handle (Unit {0})
  unfolding parse_sign
  prot_buddy_update_signiture_reply = do
    cmd ← read get_byte
    if not (cmd == 0x83) then pure tt else do
      result ← read get_byte
      if not (result == 0) then pure tt else do
        next_pos ← read get_int
        all ← while_more 0 parse_sign tt
        if all.0 && is_more next_pos
            then try_send (prot_buddy_update_signiture env true qsort next_pos)
            else pure tt

  -- `account_flag` is a `uchar`.
  unfoldable pub parse_account : Unit {0} → Handle (Bool × Unit {0})
  parse_account u = do
    number ← read get_int
    found ← buddies (λ l. buddy_get print l number false)
    on_found found (pure (false, tt)) λ b. do
      flag ← read get_int
      edit_buddy number (λ b. record b { account_flag = flag % 256 })
      if flag % 256 == 0 then pure (true, tt) else do
        len ← read get_byte
        text ← read (get_data b.account (at_most 63 len))
        edit_buddy number (λ b. record b { account = ended text.1 (at_most 63 len) })
        pure (true, tt)

  unfoldable pub account_list : Handle (Unit {0})
  unfolding parse_account
  account_list = do
    number ← read get_int
    result ← read get_word
    if not (result == 1) then pure tt else do
      next_pos ← read get_int
      count ← read get_word
      all ← while_more 0 parse_account tt
      if all.0 && is_more next_pos
          then try_send (prot_buddy_update_account env true qsort next_pos)
          else pure tt

  unfoldable pub prot_buddy_update_account_reply : Handle (Unit {0})
  unfolding account_list
  prot_buddy_update_account_reply = do
    cmd ← read get_byte
    if cmd == 0x01
        then account_list
        else if cmd == 0x03
        then (read get_byte >> (read get_int >> (read get_byte >> pure tt)))
        else pure tt

  -- one round, with `count`
  unfoldable pub parse_alias : ℕ → Handle (Bool × ℕ)
  parse_alias count = do
    number ← read get_int
    found ← buddies (λ l. buddy_get print l number true)
    on_found found (pure (false, count)) λ b. do
      len ← read get_byte
      text ← read (get_data b.alias (at_most 31 len))
      edit_buddy number (λ b. record b { alias = ended text.1 (at_most 31 len) })
      pure (true, count + 1)

  unfoldable pub prot_buddy_update_alias_reply : Handle (Unit {0})
  unfolding parse_alias
  prot_buddy_update_alias_reply = do
    cmd ← read get_byte
    if not (cmd == 0x68) then pure tt else do
      result ← read get_byte
      all ← while_more 0 parse_alias 0
      if not all.0
          then pure tt
          else if result == 1
          then buddy_put_event
          else send (prot_buddy_update_alias env true all.1)
