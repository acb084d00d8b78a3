-- ===== src/Prot/QunReply.antt =====
-- `prot_qun_cmd_reply` of src/prot_qun.c: the replies about quns. A qun is read by its pointer and
-- written back when its members are changed.
use myqq.Base.{ℕ, ◌-◌, Bool, true, false, not, List, ltb, ◌==◌, if◌then◌else◌, set}
use myqq.Packet.{get_byte, get_word, get_int, get_data, get_token}
use myqq.PtrList.{PtrList}
use myqq.Roster.{
  Member, Qun, nickname_len, change, qun_get, qun_member_get, qun_set_members_off,
  qun_update_memberinfo,
}
use myqq.Session.{Env}
use myqq.Prot.{
  Handle, ◌>>=◌, ◌>>◌, pure, read, skip, gets, on_found, attempt, send, quns, put_qun,
  qun_put_single_event, self, while_more,
}
use myqq.Prot.QunSend.{prot_qun_get_info, prot_qun_get_online, get_memberinfo_all}

abbrev pub online : ℕ
online = 0x0a

-- `NICKNAME_LEN-1` or the length that the packet gives
abbrev pub name_limit : ℕ → ℕ
name_limit n = if ltb (nickname_len - 1) n then nickname_len - 1 else n

module _ (print : ℕ → List ℕ) (env : Env) where
  -- The entries of the qun's information that stand there for a `status` of 3.
  unfoldable pub parse_details : Qun → Handle Qun
  parse_details q = do
    type ← read get_byte
    unknown ← read get_int
    owner ← read get_int
    auth_type ← read get_byte
    skip 6
    category ← read get_int
    max_member ← read get_word
    skip 9
    name_len ← read get_byte
    name ← read (get_data q.name (name_limit name_len))
    unknown2 ← read get_byte
    separator ← read get_byte
    ann_len ← read get_byte
    ann ← read (get_data q.ann ann_len)
    intro_len ← read get_byte
    intro ← read (get_data q.intro intro_len)
    token ← read (get_token q.token_cmd)
    unknown3 ← read get_word
    pure (record q {
      type = type;
      owner = owner;
      auth_type = auth_type;
      category = category;
      max_member = max_member;
      name = set name.1 (name_limit name_len) 0;
      ann = set ann.1 ann_len 0;
      intro = set intro.1 intro_len 0;
      token_cmd = token.1;
    })

  -- one round of the loop over the members; `false` is a `break`
  unfoldable pub parse_member : PtrList Member → Handle (Bool × PtrList Member)
  parse_member l = do
    n ← read get_int
    org ← read get_byte
    role ← read get_byte
    found ← attempt (qun_member_get print l n true)
    on_found found.0 (pure (false, found.1)) λ m.
        pure (true, change (λ m. m.number == n) (λ m. record m { org = org; role = role }) found.1)

  -- what follows the loop, for the last packet of a qun's information
  unfoldable pub update_members : Qun → Handle (Unit {0})
  update_members q = do
    batches ← attempt (qun_update_memberinfo q)
    send (get_memberinfo_all env true q.number batches)
    members ← attempt (qun_set_members_off q.member_list)
    put_qun (record q { member_list = members })
    send (prot_qun_get_online env true q.number)

  -- `if( more ) ... else ...` at its end
  abbrev pub finish_info : ℕ → ℕ → Qun → Handle (Unit {0})
  finish_info more last_number q =
      if more == 0 then update_members q else send (prot_qun_get_info env true q.number last_number)

  unfoldable pub parse_quninfo : Qun → Handle (Unit {0})
  unfolding parse_details parse_member update_members
  parse_quninfo q = do
    ext_number ← read get_int
    zeros ← read get_word
    zero_byte ← read get_byte
    status ← read get_byte
    let q1 = record q { ext_number = ext_number }
    q2 ← (if status == 3 then parse_details q1 else pure q1)
    last_number ← read get_int
    more ← read get_byte
    members ← while_more 0 parse_member q2.member_list
    let q3 = record q2 { member_list = members.1 }
    put_qun q3
    finish_info more last_number q3

  -- one round of the loop of `parse_memberinfo`
  unfoldable pub parse_info : PtrList Member → Handle (Bool × PtrList Member)
  parse_info l = do
    number ← read get_int
    found ← attempt (qun_member_get print l number false)
    on_found found.0 (pure (false, found.1)) λ m. do
      face ← read get_word
      age ← read get_byte
      sex ← read get_byte
      name_len ← read get_byte
      name ← read (get_data m.nickname (name_limit name_len))
      zeros ← read get_word
      qqshow ← read get_byte
      flag ← read get_byte
      pure (
        true,
        change (λ m. m.number == number)
            (λ m. record m {
              face = face;
              age = age;
              sex = sex;
              nickname = set name.1 (name_limit name_len) 0;
              qqshow = qqshow;
              flag = flag;
            })
            found.1,
      )

  unfoldable pub parse_memberinfo : Qun → Handle (Unit {0})
  unfolding parse_info
  parse_memberinfo q = do
    members ← while_more 0 parse_info q.member_list
    put_qun (record q { member_list = members.1 })

  -- one round of the loop of `parse_online`
  unfoldable pub parse_number : PtrList Member → Handle (Bool × PtrList Member)
  parse_number l = do
    number ← read get_int
    found ← attempt (qun_member_get print l number true)
    on_found found.0 (pure (true, found.1)) λ m.
        pure (true, change (λ m. m.number == number) (λ m. record m { status = online }) found.1)

  unfoldable pub parse_online : Qun → Handle (Unit {0})
  unfolding parse_number
  parse_online q = do
    zero_byte ← read get_byte
    off ← attempt (qun_set_members_off q.member_list)
    members ← while_more 0 parse_number off
    let q1 = record q { member_list = members.1 }
    put_qun q1
    qun_put_single_event q1

  unfoldable pub parse_name : PtrList Member → Handle (Bool × PtrList Member)
  parse_name l = do
    number ← read get_int
    found ← attempt (qun_member_get print l number false)
    on_found found.0 (pure (false, found.1)) λ m. do
      name_len ← read get_byte
      name ← read (get_data m.nickname (name_limit name_len))
      pure (
        true,
        change (λ m. m.number == number)
            (λ m. record m { nickname = set name.1 (name_limit name_len) 0 }) found.1,
      )

  unfoldable pub parse_membername : Qun → Handle (Unit {0})
  unfolding parse_name
  parse_membername q = do
    pos ← read get_int
    zeros ← read get_int
    members ← while_more 0 parse_name q.member_list
    put_qun (record q { member_list = members.1 })

  -- the cases of the `switch`
  abbrev pub qun_case : ℕ → Qun → Handle (Unit {0})
  qun_case cmd q =
      if cmd == 0x72
      then parse_quninfo q
      else if cmd == 0x0C
      then parse_memberinfo q
      else if cmd == 0x0B
      then parse_online q
      else if cmd == 0x0F
      then parse_membername q
      else pure tt

  unfoldable pub prot_qun_cmd_reply : Handle (Unit {0})
  unfolding parse_quninfo parse_memberinfo parse_online parse_membername
  prot_qun_cmd_reply = do
    cmd ← read get_byte
    result ← read get_byte
    if not (result == 0) then pure tt else do
      number ← read get_int
      me ← gets self
      found ← quns (λ l. qun_get print me l number false)
      on_found found (pure tt) (qun_case cmd)
