-- ===== src/Session.antt =====
-- The state of `struct qqclient` in src/qqclient.h and of `struct qqpacketmgr` in
-- src/packetmgr.h that the packet layer shares, with the event functions of src/qqclient.c.
-- An event is kept as data; the source prints it into a string first. `null` items of the loops
-- stand for slots that were never written.
use myqq.Base.{ℕ, Bool, true, false, List, []}
use myqq.Loop.{Loop, loop_push_to_tail}
use myqq.Packet.{Token}
use myqq.PtrList.{PtrList}
use myqq.Roster.{Buddy, Group, Qun}
use myqq.Protocol.{KeyType, QqPacket, Account}

-- `enum LOGIN_PROCESS`
pub data Process : Type 0 where
  init logging verifying login error denied wrongpass busy waiting : Process

pub data Event : Type 0 where
  process : Process → Event
  send_failed : ℕ → ℕ → Event
  text : List ℕ → Event
  buddies : List Buddy → Event
  buddy_status : ℕ → ℕ → Event
  groups : List Group → Event
  cluster : Qun → Event
  keepalive : ℕ → Event
  status : ℕ → Event
  level : ℕ → ℕ → ℕ → Event
  broadcast : List ℕ → List ℕ → Event

-- What `buddy_msg_callback` of a front end is told. `message` has the time and the text;
-- `qun_message`, which is for `qun_msg_callback`, the qun's number before them.
pub data Notice : Type 0 where
  send_failed : Notice
  rejects_all needs_answer added deleted added_by accepted_by : ℕ → Notice
  asks refuses : ℕ → List ℕ → Notice
  message : ℕ → List ℕ → Notice
  qun_message : ℕ → ℕ → List ℕ → Notice

abbrev pub null_event : Event
null_event = text []

abbrev pub null_packet : QqPacket
null_packet = record {
  id = 0;
  head = 0;
  tail = 0;
  version = 0;
  command = 0;
  seqno = 0;
  buf = record { pos = 0; len = 0; size = 0; bytes = [] };
  time_create = 0;
  time_alive = 0;
  send_times = 0;
  key_type = KeyType.no_key;
  key = [];
  need_ack = false;
}

pub record PacketMgr : Type 0 where
  pub recv_packets : ℕ
  pub failed_packets : ℕ
  pub ready_loop : Loop QqPacket
  pub temp_loop : Loop QqPacket
  pub sent_loop : Loop QqPacket
  pub recv_loop : Loop ℕ

-- `struct qqdata_2009`; the strings are their bytes without the 0
pub record QqData : Type 0 where
  pub operating_number : ℕ
  pub operation : ℕ
  pub addbuddy_str : List ℕ
  pub user_token : Token
  pub user_token_time : ℕ
  pub qqsession : List ℕ
  pub im_key : List ℕ
  pub file_token : Token
  pub file_key : List ℕ

-- What the login keeps, of `struct qqdata_2009` and `struct qqclient`.
pub record LoginData : Type 0 where
  pub md5_pass1 : List ℕ
  pub md5_pass_qq : List ℕ
  pub locale : List ℕ
  pub version_spec : List ℕ
  pub exe_hash : List ℕ
  pub server_data : List ℕ
  pub verify_key1 : List ℕ
  pub login_info_key1 : List ℕ
  pub login_info_unknown1 : ℕ
  pub login_info_unknown2 : ℕ
  pub login_list_count : ℕ
  pub login_token : Token
  pub verify_token : Token
  pub token_c : Token
  pub login_info_token : Token
  pub login_info_data : Token
  pub login_info_large : Token
  pub server_ip : ℕ
  pub server_time : ℕ
  pub client_ip : ℕ
  pub client_port : ℕ
  pub login_time : ℕ

-- `callbacks` has the calls of the two callbacks of a front end, with the number that is given as
-- the sender.
pub record Session : Type 0 where
  pub account : Account
  pub seqno : ℕ
  pub process : Process
  pub proxy_established : Bool
  pub mgr : PacketMgr
  pub event_loop : Loop Event
  pub callbacks : List (ℕ × Notice)
  pub buddy_list : PtrList Buddy
  pub qun_list : PtrList Qun
  pub group_list : PtrList Group
  pub qqdata : QqData
  pub login : LoginData
  pub online_clock : ℕ
  pub mode : ℕ
  pub auto_accept : ℕ
  pub auto_reply : List ℕ
  pub level : ℕ
  pub active_days : ℕ
  pub upgrade_days : ℕ
  pub last_login_time : ℕ
  pub next_id : ℕ

-- What the C library and the system give a call: `time( NULL )`; the result of `rand()` when `n`
-- packets have been allocated, and that in `prot_im_send_msg`; the results of `randkey` and `rand2`
-- in a function of src/prot_login.c, counted from 0; and that of `qqsocket_send` for the bytes
-- sent, as the bit pattern of the `int`.
pub record Env : Type 0 where
  pub now : ℕ
  pub rand : ℕ → ℕ
  pub rand_id : ℕ
  pub randkey : ℕ → List ℕ
  pub rand2 : ℕ → ℕ
  pub socket : List ℕ → ℕ

unfoldable pub qqclient_put_event : Session → Event → Session
qqclient_put_event s e = record s { event_loop = (loop_push_to_tail null_event s.event_loop e).1 }

unfoldable pub qqclient_set_process : Session → Process → Session
unfolding qqclient_put_event
qqclient_set_process s p = qqclient_put_event (record s { process = p }) (process p)

abbrev pub is_login : Process → Bool
is_login Process.login = true
is_login _ = false

abbrev pub is_init : Process → Bool
is_init Process.init = true
is_init _ = false
