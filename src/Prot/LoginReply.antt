-- ===== src/Prot/LoginReply.antt =====
-- The replies of src/prot_login.c. `connect` and `establish` are `qqconn_connect` and
-- `qqconn_establish` of src/qqconn.c, `md5` is that of src/md5.c on a string of bytes, and
-- `stack_token` is what a token on the stack holds before it is written.
use myqq.Base.{
  ℕ, zero, suc, ◌+◌, ◌/◌, ◌%◌, Bool, true, false, not, ◌||◌, Option, none, some, List, [], ◌∷◌,
  ◌++◌, ltb, ◌==◌, if◌then◌else◌, take, replicate,
}
use myqq.Packet.{Token, int_bytes, get_byte, get_word, get_int, get_data, get_token}
use myqq.PtrList.{with_lock}
use myqq.Protocol.{Network}
use myqq.Roster.{Qun, qun_get, buddy_get}
use myqq.Session.{LoginData, Process, Session, Env, qqclient_set_process}
use myqq.Prot.{
  Handle, ◌>>=◌, ◌>>◌, pure, read, skip, gets, on_found, send, try_send, buddies, quns, edit_data,
  edit_login, edit_account, edit_buddy, reset_clock, self,
}
use myqq.Prot.QunSend.{prot_qun_get_info}
use myqq.Prot.UserSend.{prot_user_get_level, prot_user_change_status}
use myqq.Prot.BuddySend.{prot_buddy_update_list, prot_buddy_update_online}
use myqq.Prot.GroupReply.{prot_group_download_labels}
use myqq.Prot.LoginSend.{
  prot_login_touch_with_info, prot_login_request, prot_login_verify, prot_login_get_info,
  prot_login_send_info, prot_login_get_list, prot_login_e9, prot_login_ea, prot_login_ed,
  prot_login_ec,
}

-- an `int` as it lies in memory
abbrev pub little_endian : ℕ → List ℕ
little_endian n = n % 256 ∷ n / 256 % 256 ∷ n / 65536 % 256 ∷ n / 16777216 % 256 ∷ []

-- `server_info`, which is `server_data` in the union
abbrev pub server_info : ℕ → ℕ → ℕ → List ℕ
server_info c isp server_reverse =
    (1 ∷ 0 ∷ c ∷ [])
    ++ (little_endian isp ++ (little_endian server_reverse ++ (0 ∷ 0 ∷ 0 ∷ 0 ∷ [])))

-- a 16-byte key in the place of another
abbrev pub get_key : List ℕ → Handle (List ℕ)
get_key old = do r ← read (get_data old 16); pure r.1

abbrev pub get_token_at : (LoginData → Token) → Handle Token
get_token_at f = do old ← gets (λ s. f s.login); r ← read (get_token old); pure r.1

abbrev pub set_process : Process → Handle (Unit {0})
set_process p = send (λ s. qqclient_set_process s p)

unfoldable pub is_http : Network → Bool
is_http Network.proxy_http = true
is_http _ = false

module _ (connect establish : Session → Session) (env : Env) where
  unfoldable pub reconnect : List ℕ → Handle (Unit {0})
  unfolding is_http
  reconnect server_data = do
    send connect
    network ← gets (λ s. s.account.network)
    if is_http network
        then send establish
        else send (prot_login_touch_with_info env true server_data)

  unfoldable pub redirect : Handle (Unit {0})
  unfolding reconnect
  redirect = do
    c ← read get_byte
    isp ← read get_int
    server_reverse ← read get_int
    edit_login (λ d. record d { server_data = server_info c isp server_reverse })
    ip ← read get_int
    edit_login (λ d. record d { server_ip = ip })
    reconnect (server_info c isp server_reverse)

  unfoldable pub prot_login_touch_reply : Handle (Unit {0})
  prot_login_touch_reply = do
    result ← read get_byte
    if not (result == 0) then pure tt else do
      time ← read get_int
      edit_login (λ d. record d { server_time = time })
      ip ← read get_int
      edit_login (λ d. record d { server_ip = ip })
      skip 8
      tok ← get_token_at (λ d. d.login_token)
      edit_login (λ d. record d { login_token = tok })
      test ← read get_byte
      if test == 0 then try_send (prot_login_request env true none none 0) else redirect

-- What is known when the reply to `prot_login_request` has been read: the picture's flag, the answer's
-- token, whether more of the picture follows, and the picture's token.
unfoldable pub use_picture : Env → ℕ → Token → ℕ → Token → Handle (Unit {0})
use_picture env png_data answer next png =
    if png_data == 0
    then edit_login (λ d. record d { token_c = answer }) >> try_send (prot_login_verify env true)
    else if next == 0
    then edit_login (λ d. record d { verify_token = answer }) >> set_process Process.verifying
    else try_send (prot_login_request env true (some png) none 1)

-- The picture is written to a file.
unfoldable pub prot_login_request_reply : Token → Env → Handle (Unit {0})
unfolding use_picture
prot_login_request_reply stack_token env = do
  result ← read get_byte
  b1 ← read get_byte
  b2 ← read get_byte
  png_data ← read get_byte
  code ← read get_int
  (m, answer) ← read (get_token stack_token)
  if not (png_data == 1) then use_picture env png_data answer 0 stack_token else do
    len ← read get_word
    picture ← read (get_data (replicate len 0) len)
    b3 ← read get_byte
    next ← read get_byte
    (n, png) ← read (get_token stack_token)
    use_picture env png_data answer next png

unfoldable pub login_granted : Env → Handle (Unit {0})
login_granted env = do
  tok ← get_token_at (λ d. d.login_info_token)
  edit_login (λ d. record d { login_info_token = tok })
  unknown ← read get_int
  edit_login (λ d. record d { login_info_unknown1 = unknown })
  time ← read get_int
  edit_login (λ d. record d { server_time = time })
  data0 ← get_token_at (λ d. d.login_info_data)
  edit_login (λ d. record d { login_info_data = data0 })
  old_magic ← gets (λ s. s.account.login_info_magic)
  (n, magic) ← read (get_token old_magic)
  edit_account (λ a. record a { login_info_magic = magic })
  key1 ← gets (λ s. s.login.login_info_key1)
  k1 ← get_key key1
  edit_login (λ d. record d { login_info_key1 = k1 })
  w1 ← read get_word
  key3 ← gets (λ s. s.account.login_info_key3)
  k3 ← get_key key3
  edit_account (λ a. record a { login_info_key3 = k3 })
  w2 ← read get_word
  try_send (prot_login_get_info env true)

-- the process that a refusal leads to
abbrev pub refused : ℕ → Option Process
refused code =
    if code == 0x33 || code == 0x51
    then some Process.denied
    else if code == 0xBF || code == 0x34
    then some Process.wrongpass
    else none

unfoldable pub prot_login_verify_reply : List ℕ → Env → Handle (Unit {0})
unfolding login_granted
prot_login_verify_reply msg env = do
  w ← read get_word
  code ← read get_byte
  if code == 0 then login_granted env else do
    on_found (refused code) (pure tt) set_process
    read (λ b. some (tt, record b { pos = 11 }))
    len ← read get_word
    text ← read (get_data msg (len % 256))
    pure tt

unfoldable pub prot_login_get_info_reply : Env → Handle (Unit {0})
prot_login_get_info_reply env = do
  w1 ← read get_word
  w2 ← read get_word
  key2 ← gets (λ s. s.account.login_info_key2)
  k2 ← get_key key2
  edit_account (λ a. record a { login_info_key2 = k2 })
  skip 8
  unknown ← read get_int
  edit_login (λ d. record d { login_info_unknown2 = unknown })
  time ← read get_int
  edit_login (λ d. record d { server_time = time })
  ip ← read get_int
  edit_login (λ d. record d { client_ip = ip })
  i1 ← read get_int
  i2 ← read get_int
  large ← get_token_at (λ d. d.login_info_large)
  edit_login (λ d. record d { login_info_large = large })
  try_send (prot_login_send_info env true)

unfoldable pub prot_login_a4_reply : Env → Handle (Unit {0})
prot_login_a4_reply env = do
  w ← read get_word
  edit_login (λ d. record d { login_list_count = 0 })
  send (prot_login_get_list env true 0)

-- The key for messages is the md5 of the number and the session key.
unfoldable pub prot_login_send_info_reply : (List ℕ → List ℕ) → Env → Handle (Unit {0})
prot_login_send_info_reply md5 env = do
  result ← read get_byte
  if not (result == 0) then set_process Process.error else do
    old ← gets (λ s. s.account.session_key)
    key ← get_key old
    edit_account (λ a. record a { session_key = key })
    number ← read get_int
    ip ← read get_int
    edit_login (λ d. record d { client_ip = ip })
    port ← read get_word
    edit_login (λ d. record d { client_port = port })
    time ← read get_int
    edit_login (λ d. record d { login_time = time })
    i1 ← read get_int
    b1 ← read get_byte
    b2 ← read get_byte
    own ← gets (λ s. s.account.number)
    edit_data (λ d. record d { im_key = md5 (int_bytes own ++ key) })
    set_process Process.login
    send (prot_login_get_list env true 1)

unfoldable pub read_entry : (ℕ → List ℕ) → Handle (Unit {0})
read_entry print = do
  number ← read get_int
  type ← read get_byte
  gid ← read get_byte
  s ← gets self
  if type == 4 then quns (λ l. qun_get print s l number true) >> pure tt else do
    if not (type == 1) then pure tt else do
      found ← buddies (λ l. buddy_get print l number true)
      on_found found (pure tt) (λ b. edit_buddy number (λ b. record b { gid = gid / 4 }))

-- the loop over the entries of a page
unfoldable pub read_entries : (ℕ → List ℕ) → ℕ → Handle (Unit {0})
unfolding read_entry
read_entries print zero = pure tt
read_entries print (suc n) = read_entry print >> read_entries print n

unfoldable pub prot_login_get_list_reply : (ℕ → List ℕ) → Env → Handle (Unit {0})
unfolding read_entries
prot_login_get_list_reply print env = do
  subcmd ← read get_byte
  result ← read get_byte
  if not (result == 0) then send (prot_login_e9 env true) else do
    i1 ← read get_int
    i2 ← read get_int
    i3 ← read get_int
    total ← read get_word
    current ← read get_word
    count ← read get_word
    read_entries print count
    if ltb current total
        then send (prot_login_get_list env true ((1 + current) % 65536))
        else send (prot_login_e9 env true)

abbrev pub prot_login_e9_reply : Env → Handle (Unit {0})
prot_login_e9_reply env = send (prot_login_ea env true)

abbrev pub prot_login_ea_reply : Env → Handle (Unit {0})
prot_login_ea_reply env = send (prot_login_ed env true)

abbrev pub prot_login_ed_reply : Env → Handle (Unit {0})
prot_login_ed_reply env = send (prot_login_ec env true)

-- `prot_qun_get_info( qq, q->number, 0 )` for each of the quns
unfoldable pub get_info_each : Env → List Qun → Session → Session
get_info_each env [] s = s
get_info_each env (q ∷ qs) s = get_info_each env qs (prot_qun_get_info env true q.number 0 s)

-- `qun_update_all` of src/qun.c, under the list's mutex
abbrev pub qun_update_all : Env → Handle (Unit {0})
qun_update_all env =
    quns (λ l. with_lock l (take l.count l.items, l)) >>= λ qs. send (get_info_each env qs)

unfoldable pub prot_login_ec_reply : (ℕ → List ℕ) → Env → Handle (Unit {0})
unfolding get_info_each
prot_login_ec_reply print env = do
  send (prot_group_download_labels env true 0)
  send (prot_user_get_level print env true)
  send (prot_user_change_status print env true)
  send (prot_buddy_update_list env true 0)
  send (prot_buddy_update_online env true 0)
  qun_update_all env
  reset_clock
