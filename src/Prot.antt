-- ===== src/Prot.antt =====
-- The functions that the files src/prot_login.c, src/prot_im.c, src/prot_misc.c, src/prot_qun.c,
-- src/prot_group.c, src/prot_user.c and src/prot_buddy.c are made of: what sends a packet, and what a handler of a reply does to the session and to the packet's
-- buffer. `none` is a handler that blocks or loops for ever, or writes past the end of an array.
pub mod Keeps
pub mod QunSend
pub mod QunReply
pub mod QunKeeps
pub mod GroupReply
pub mod UserSend
pub mod UserReply
pub mod BuddySend
pub mod BuddyReply
pub mod BuddyEdit
pub mod BuddyKeeps
pub mod UserKeeps
pub mod Text
pub mod ImSend
pub mod ImReply
pub mod MiscReply
pub mod Slices
pub mod ImKeeps
pub mod LoginSend
pub mod LoginReply
pub mod LoginKeeps
pub mod Handlers
pub mod Requests
pub mod LoginRequests
pub mod Returns
pub mod Ending
pub mod InfoHang
mod Tests
use myqq.Base.{
  ℕ, zero, suc, ◌+◌, ◌<◌, Bool, true, false, Option, none, some, List, [], ◌∷◌, ◌++◌, ltb, ◌==◌,
  if◌then◌else◌, take,
}
use myqq.Packet.{ByteBuffer, M, packet_size, advance}
use myqq.PtrList.{PtrList, with_lock}
use myqq.Protocol.{KeyType, QqPacket, Account}
use myqq.Roster.{Buddy, Group, Qun, null_buddy, change, change_first}
use myqq.Session.{Event, Notice, QqData, LoginData, Session, Env, qqclient_put_event}
use myqq.PacketMgr.{packetmgr_new_send, post_packet}

-- `packetmgr_new_send`, the calls that fill the packet, and `post_packet`. They may
-- use the session and the packet's `time_create` and `seqno`.
unfoldable pub send_packet :
    Env → Bool → ℕ → Bool → (Session → QqPacket → ByteBuffer → ByteBuffer) → Session → Session
send_packet env in_recv cmd need_ack fill s =
    let (p, s') = packetmgr_new_send env cmd s in
    post_packet env in_recv (record p { need_ack = need_ack; buf = fill s p p.buf })
      KeyType.session_key s'

-- a packet that is enciphered with a key of its own
unfoldable pub send_random :
    Env → Bool → ℕ → List ℕ → (Session → QqPacket → ByteBuffer → ByteBuffer) → Session → Session
send_random env in_recv cmd key fill s =
    let (p, s') = packetmgr_new_send env cmd s in
    post_packet env in_recv (record p { key = key; buf = fill s p p.buf }) KeyType.random_key s'

-- The session and the buffer that a handler reads.
pub record Reply : Type 0 where
  pub session : Session
  pub buf : ByteBuffer

abbrev pub Handle : Type 0 → Type 0
Handle A = Reply → Option (A × Reply)

infixl 5 ◌>>=◌ ◌>>◌
unfoldable pub ◌>>=◌ : {A B : Type 0} → Handle A → (A → Handle B) → Handle B
◌>>=◌ m f x = elim (m x) [ none ↦ none | some (a, y) ↦ f a y ]

abbrev pub ◌>>◌ : {A B : Type 0} → Handle A → Handle B → Handle B
m >> n = m >>= λ _. n

unfoldable pub pure : {A : Type 0} → A → Handle A
pure a x = some (a, x)

-- a read from the buffer
unfoldable pub read : {A : Type 0} → M A → Handle A
read m x = elim (m x.buf) [ none ↦ none | some (a, b) ↦ some (a, record x { buf = b }) ]

-- `buf->pos += n`
unfoldable pub skip : ℕ → Handle (Unit {0})
skip n x = some (tt, record x { buf = advance x.buf n })

unfoldable pub gets : {A : Type 0} → (Session → A) → Handle A
gets f x = some (f x.session, x)

-- the two cases of a pointer that a search returned
unfoldable pub on_found : {A B : Type 0} → Option A → Handle B → (A → Handle B) → Handle B
on_found none m f = m
on_found (some a) m f = f a

unfoldable pub attempt : {A : Type 0} → Option A → Handle A
attempt o x = elim o [ none ↦ none | some a ↦ some (a, x) ]

-- what a sender does
unfoldable pub send : (Session → Session) → Handle (Unit {0})
send f x = some (tt, record x { session = f x.session })

unfoldable pub try_send : (Session → Option Session) → Handle (Unit {0})
try_send f x = elim (f x.session) [ none ↦ none | some s ↦ some (tt, record x { session = s }) ]

-- calls on the three lists, and writes to the fields of the client
unfoldable pub buddies : {A : Type 0} → (PtrList Buddy → Option (A × PtrList Buddy)) → Handle A
buddies f x = elim (f x.session.buddy_list) [
  | none ↦ none
  | some (a, l) ↦ some (a, record x { session = record (x.session) { buddy_list = l } })
]

unfoldable pub quns : {A : Type 0} → (PtrList Qun → Option (A × PtrList Qun)) → Handle A
quns f x = elim (f x.session.qun_list) [
  | none ↦ none
  | some (a, l) ↦ some (a, record x { session = record (x.session) { qun_list = l } })
]

unfoldable pub groups : {A : Type 0} → (PtrList Group → Option (A × PtrList Group)) → Handle A
groups f x = elim (f x.session.group_list) [
  | none ↦ none
  | some (a, l) ↦ some (a, record x { session = record (x.session) { group_list = l } })
]

unfoldable pub edit_data : (QqData → QqData) → Handle (Unit {0})
edit_data f x = some (tt, record x { session = record (x.session) { qqdata = f x.session.qqdata } })

unfoldable pub edit_login : (LoginData → LoginData) → Handle (Unit {0})
edit_login f x = some (tt, record x { session = record (x.session) { login = f x.session.login } })

unfoldable pub edit_account : (Account → Account) → Handle (Unit {0})
edit_account f x =
    some (tt, record x { session = record (x.session) { account = f x.session.account } })

-- `qq->online_clock = 0`
unfoldable pub reset_clock : Handle (Unit {0})
reset_clock x = some (tt, record x { session = record (x.session) { online_clock = 0 } })

unfoldable pub set_levels : ℕ → ℕ → ℕ → Handle (Unit {0})
set_levels level active upgrade x = some (
  tt,
  record x {
    session = record (x.session) { level = level; active_days = active; upgrade_days = upgrade };
  },
)

unfoldable pub put_event : Event → Handle (Unit {0})
put_event e x = some (tt, record x { session = qqclient_put_event x.session e })

-- `buddy_msg_callback( qq, from, ... )`
unfoldable pub callback : ℕ → Notice → Handle (Unit {0})
callback from n x = some (
  tt,
  record x { session = record (x.session) { callbacks = x.session.callbacks ++ ((from, n) ∷ []) } },
)

-- writes through the pointer that a search for a number returned
abbrev pub edit_buddy : ℕ → (Buddy → Buddy) → Handle (Unit {0})
edit_buddy number f = buddies (λ l. some (tt, change (λ b. b.number == number) f l))

abbrev pub edit_group : ℕ → (Group → Group) → Handle (Unit {0})
edit_group number f = groups (λ l. some (tt, change (λ g. g.number == number) f l))

abbrev pub put_qun : Qun → Handle (Unit {0})
put_qun q = quns (λ l. some (tt, change (λ c. c.number == q.number) (λ _. q) l))

-- `group_put_event` of src/group.c, `buddy_put_event` of src/buddy.c and `qun_put_single_event` of
-- src/qun.c: each holds the list's mutex while it prints.
abbrev pub buddy_put_event : Handle (Unit {0})
buddy_put_event =
    buddies (λ l. with_lock l (take l.count l.items, l)) >>= λ bs. put_event (Event.buddies bs)

abbrev pub group_put_event : Handle (Unit {0})
group_put_event =
    groups (λ l. with_lock l (take l.count l.items, l)) >>= λ gs. put_event (Event.groups gs)

abbrev pub qun_put_single_event : Qun → Handle (Unit {0})
qun_put_single_event q = attempt (with_lock q.member_list tt) >>= λ _. put_event (Event.cluster q)

-- `qq->self`: the client's own record, which `qqclient_create` puts into the list
abbrev pub first_of : List Buddy → ℕ → Buddy
first_of [] number = null_buddy
first_of (b ∷ bs) number = if b.number == number then b else first_of bs number

abbrev pub self : Session → Buddy
self s = first_of s.buddy_list.items s.account.number

-- `while( buf->pos + margin < buf->len )`, on fuel. The body says whether the loop goes on; the
-- result says whether the loop came to the end by itself.
unfoldable pub while_left : {S : Type 0} → ℕ → ℕ → (S → Handle (Bool × S)) → S → Handle (Bool × S)
while_left zero margin body s x = none
while_left (suc fuel) margin body s x = elim (ltb (x.buf.pos + margin) x.buf.len) [
  | false ↦ some ((true, s), x)
  | true ↦ elim (body s x) [
    | none ↦ none
    | some ((go, s'), y) ↦ elim go [
      | false ↦ some ((false, s'), y)
      | true ↦ while_left fuel margin body s' y
    ]
  ]
]

-- Each round that goes on reads a byte at least, or the loop never ends.
unfoldable pub while_more : {S : Type 0} → ℕ → (S → Handle (Bool × S)) → S → Handle (Bool × S)
unfolding while_left
while_more margin body s x = while_left (x.buf.len + 1) margin body s x
