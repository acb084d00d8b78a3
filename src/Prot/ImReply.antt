-- ===== src/Prot/ImReply.antt =====
-- The messages that arrive, in src/prot_im.c. Of a `qqmessage` the sender, the time and the content
-- are kept, which the front end is told; the content is the string that `msg_content` holds.
use myqq.Base.{
  ℕ, ◌+◌, ◌-◌, Bool, true, not, ◌||◌, none, some, List, [], ◌∷◌, ◌++◌, ltb, leb, ◌==◌,
  if◌then◌else◌, length, set, take, drop, replicate, overwrite,
}
use myqq.Packet.{c_string, get_byte, get_word, get_int, get_string, get_data, get_token}
use myqq.Protocol.{QqPacket}
use myqq.Roster.{zero_token, buddy_get}
use myqq.Session.{Process, Notice, Env, qqclient_set_process}
use myqq.Prot.{
  Handle, ◌>>=◌, ◌>>◌, pure, read, skip, gets, attempt, send, try_send, buddies, callback,
  while_more,
}
use myqq.Prot.Text.{Strings, face_text, image_text, trans_faces}
use myqq.Prot.ImSend.{prot_im_send_msg, prot_im_ack_recv}

abbrev pub msg_content_len : ℕ
msg_content_len = 4096

-- "另一地点登录"
abbrev pub other_login : List ℕ
other_login =
    229 ∷ 143 ∷ 166 ∷ 228 ∷ 184 ∷ 128 ∷ 229 ∷ 156 ∷ 176 ∷ 231 ∷ 130 ∷ 185 ∷ 231 ∷ 153 ∷ 187 ∷ 229
    ∷ 189 ∷ 149 ∷ []

-- `do{ ch = get_byte( buf ); }while( ch!=0xff && buf->pos<buf->len );`
unfoldable pub skip_to_ff : Handle (Unit {0})
skip_to_ff = do
  ch ← read get_byte
  if ch == 0xff then pure tt else do
    found ← while_more 0 (λ (u : Unit {0}). read get_byte >>= λ ch. pure (not (ch == 0xff), u)) tt
    pure tt

-- `tmp` is what the array of that name holds before it is written.
module _ (lib : Strings) (tmp : List ℕ) (env : Env) where
  -- `MIN(len_str, outlen-i)`
  abbrev pub room_for : ℕ → ℕ → ℕ
  room_for len_str i = if ltb (msg_content_len - i) len_str then msg_content_len - i else len_str

  -- a `sprintf` at `tmp[i]`, if more than `margin` bytes are left
  abbrev pub print_at : ℕ → List ℕ → List ℕ × ℕ → List ℕ × ℕ
  print_at margin text (t, i) =
      if ltb margin (msg_content_len - i)
      then (overwrite t i (text ++ (0 ∷ [])), i + length text)
      else (t, i)

  unfoldable pub parse_text : List ℕ × ℕ → Handle (Bool × (List ℕ × ℕ))
  parse_text (t, i) = do
    len_str ← read get_word
    r ← read (get_data (drop i t) (room_for len_str i))
    pure (true, (take i t ++ r.1, i + room_for len_str i))

  unfoldable pub parse_face : List ℕ × ℕ → Handle (Bool × (List ℕ × ℕ))
  parse_face (t, i) = do
    len_str ← read get_word
    skip len_str
    ff ← read get_byte
    len_str2 ← read get_word
    if not (len_str2 == 2) then (skip len_str2 >> pure (true, (t, i))) else do
      unknown ← read get_byte
      if leb (msg_content_len - i) 15
          then pure (true, (t, i))
          else do face ← read get_byte; pure (true, print_at 15 (face_text (lib.print face)) (t, i))

  unfoldable pub parse_image : List ℕ × ℕ → Handle (Bool × (List ℕ × ℕ))
  unfolding skip_to_ff
  parse_image (t, i) = do
    len_str ← read get_word
    skip len_str
    skip_to_ff
    token ← read (get_token zero_token)
    pure (true, print_at 10 image_text (t, i))

  -- one round of the loop, on `tmp` and `i`
  unfoldable pub parse_piece : List ℕ × ℕ → Handle (Bool × (List ℕ × ℕ))
  unfolding parse_text parse_face parse_image
  parse_piece r = do
    type ← read get_byte
    len ← read get_word
    kind ← read get_byte
    if type == 1
        then parse_text r
        else if type == 2
        then parse_face r
        else if type == 3
        then parse_image r
        else pure (true, r)

  -- The time that the message was sent, and its content.
  unfoldable pub parse_message_09 : Handle (ℕ × List ℕ)
  unfolding parse_piece
  parse_message_09 = do
    skip 8
    time ← read get_int
    skip 12
    len ← read get_word
    skip len
    zeros ← read get_word
    all ← while_more 0 parse_piece (tmp, 0)
    attempt (if ltb all.1.1 msg_content_len then some tt else none)
    pure (time, c_string (set all.1.0 all.1.1 0))

  -- a message of an older client, in another character set
  unfoldable pub parse_message_gb : Handle (List ℕ)
  parse_message_gb = do
    r ← read (get_string tmp msg_content_len)
    attempt (trans_faces lib.print (lib.gb_to_utf8 (c_string r.1)) msg_content_len)

  -- the cases of the type of the message, with its time and content
  unfoldable pub content_of : ℕ → ℕ → Handle (ℕ × List ℕ)
  unfolding parse_message_09 parse_message_gb
  content_of im_type time =
      if im_type == 0x78 || im_type == 0xA6
      then parse_message_09
      else if im_type == 0x09
      then (parse_message_gb >>= λ c. pure (time, c))
      else if im_type == 0x84
      then (skip 8 >> (parse_message_gb >>= λ c. pure (time, c)))
      else pure (time, [])

  unfoldable pub process_buddy_im_text : ℕ → ℕ → Handle (Unit {0})
  unfolding content_of
  process_buddy_im_text im_type from = do
    session_id ← read get_word
    time ← read get_int
    face ← read get_word
    skip 4
    slice_count ← read get_byte
    slice_no ← read get_byte
    msg_id ← read get_word
    auto ← read get_byte
    m ← content_of im_type time
    reply ← gets (λ s. s.auto_reply)
    if length reply == 0
        then pure tt
        else try_send (prot_im_send_msg env true env.rand_id from reply)
    callback from (Notice.message m.0 m.1)

  unfoldable pub process_buddy_im : ℕ → Handle (Unit {0})
  unfolding process_buddy_im_text
  process_buddy_im im_type = do
    version ← read get_word
    from ← read get_int
    to ← read get_int
    number ← gets (λ s. s.account.number)
    if not (to == number) then pure tt else do
      buddy ← buddies (λ l. buddy_get lib.print l from true)
      key ← read (get_data (replicate 16 0) 16)
      content_type ← read get_word
      if content_type == 0x000b then process_buddy_im_text im_type from else pure tt

  -- The sender is never set, and so 0.
  unfoldable pub process_sys_im : Handle (Unit {0})
  process_sys_im = do
    content_type ← read get_byte
    len ← read get_byte
    r ← read (get_data (replicate msg_content_len 0) len)
    let content = c_string (set r.1 len 0)
    callback 0 (Notice.message env.now content)
    send (λ s.
        qqclient_set_process s
          (if lib.contains content other_login then Process.busy else Process.error))

  unfoldable pub qun_content : ℕ → ℕ → Handle (ℕ × List ℕ)
  unfolding parse_message_09 parse_message_gb
  qun_content im_type time =
      if im_type == 0x52
      then (skip 16 >> parse_message_09)
      else (skip 16 >> (parse_message_gb >>= λ c. pure (time, c)))

  unfoldable pub process_qun_im : ℕ → ℕ → Handle (Unit {0})
  unfolding qun_content
  process_qun_im im_type qun_number = do
    zeros ← read get_int
    ext_number ← read get_int
    kind ← read get_byte
    from ← read get_int
    number ← gets (λ s. s.account.number)
    if from == number then pure tt else do
      zero_word ← read get_word
      msg_id ← read get_word
      time ← read get_int
      m ← qun_content im_type time
      callback from (Notice.qun_message qun_number m.0 m.1)

  unfoldable pub process_qun_member_im : ℕ → Handle (Unit {0})
  unfolding process_buddy_im
  process_qun_member_im im_type = do
    skip 14
    token ← read (get_token zero_token)
    skip 8
    time0 ← read get_int
    unknown ← read get_int
    from ← read get_int
    number ← read get_int
    unknown2 ← read get_int
    time ← read get_int
    qun_number ← read get_int
    ext_number ← read get_int
    skip 15
    process_buddy_im im_type

  -- the cases of the `switch`
  unfoldable pub im_case : ℕ → ℕ → Handle (Unit {0})
  unfolding process_buddy_im process_qun_im process_sys_im process_qun_member_im
  im_case im_type from =
      if im_type == 0x09 || im_type == 0xA6
      then (skip 2 >> (read get_word >>= λ len. skip len >> process_buddy_im im_type))
      else if im_type == 0x84
      then process_buddy_im im_type
      else if im_type == 0x78
      then (skip 11 >> process_buddy_im im_type)
      else if im_type == 0x2B || im_type == 0x52
      then process_qun_im im_type from
      else if im_type == 0x2A || im_type == 0x30
      then (read get_int >> process_sys_im)
      else if im_type == 0x8C
      then process_qun_member_im im_type
      else pure tt

  unfoldable pub prot_im_recv_msg : QqPacket → Handle (Unit {0})
  unfolding im_case
  prot_im_recv_msg p = do
    from ← read get_int
    to ← read get_int
    sequence ← read get_int
    from_ip ← read get_int
    from_port ← read get_word
    im_type ← read get_word
    im_case im_type from
    send (prot_im_ack_recv env true p)
