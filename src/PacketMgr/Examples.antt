-- ===== src/PacketMgr/Examples.antt =====
-- A session that is logged in, and an environment, for the examples of several parts.
use myqq.Base.{false, [], length, replicate}
use myqq.Protocol.{Network, Account}
use myqq.PtrList.{list_create}
use myqq.Roster.{null_buddy, null_qun, null_group, zero_token}
use myqq.Session.{Process, QqData, LoginData, Session, Env, null_event}
use myqq.PacketMgr.{packetmgr_start}

abbrev pub account : Account
account = record {
  number = 123456;
  version = 4609;
  network = Network.udp;
  session_key = replicate 16 77;
  md5_pass2 = [];
  verify_key2 = [];
  login_info_key2 = [];
  login_info_key3 = [];
  login_info_magic = record { len = 0; bytes = [] };
}

abbrev pub null_data : QqData
null_data = record {
  operating_number = 0;
  operation = 0;
  addbuddy_str = [];
  user_token = zero_token;
  user_token_time = 0;
  qqsession = [];
  im_key = replicate 16 5;
  file_token = zero_token;
  file_key = replicate 16 0;
}

abbrev pub null_login : LoginData
null_login = record {
  md5_pass1 = replicate 16 0;
  md5_pass_qq = replicate 16 0;
  locale = replicate 6 0;
  version_spec = replicate 12 0;
  exe_hash = replicate 16 0;
  server_data = replicate 15 0;
  verify_key1 = replicate 16 0;
  login_info_key1 = replicate 16 0;
  login_info_unknown1 = 0;
  login_info_unknown2 = 0;
  login_list_count = 0;
  login_token = zero_token;
  verify_token = zero_token;
  token_c = zero_token;
  login_info_token = zero_token;
  login_info_data = zero_token;
  login_info_large = zero_token;
  server_ip = 0;
  server_time = 0;
  client_ip = 0;
  client_port = 0;
  login_time = 0;
}

abbrev pub first_session : Session
first_session = record {
  account = account;
  seqno = 0;
  process = Process.login;
  proxy_established = false;
  mgr = packetmgr_start;
  event_loop = record { size = 2; head = 0; tail = 0; items = replicate 2 null_event };
  callbacks = [];
  buddy_list = list_create null_buddy 300;
  qun_list = list_create null_qun 40;
  group_list = list_create null_group 20;
  qqdata = null_data;
  login = null_login;
  online_clock = 11;
  mode = 10;
  auto_accept = 0;
  auto_reply = [];
  level = 0;
  active_days = 0;
  upgrade_days = 0;
  last_login_time = 0;
  next_id = 1;
}

abbrev pub env : Env
env = record {
  now = 100;
  rand = λ n. 7;
  rand_id = 8;
  randkey = λ n. replicate 16 3;
  rand2 = λ n. 6;
  socket = length;
}
