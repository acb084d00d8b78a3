-- ===== src/Protocol.antt =====
-- src/protocol.c and src/protocol.h: how a packet is sealed before it is queued, opened when it
-- arrives, and handed to its handler. The `qqpacket` of src/qqpacket.h is a record here; `id` is
-- its address, and the packet that `match` points to is passed beside it.
pub mod Commands
pub mod Seal
pub mod SealLaws
pub mod Unsealed
pub mod Open
pub mod Arrival
mod Tests
use myqq.Base.{ℕ, Bool, true, false, ◌||◌, List, ◌==◌, length}
use myqq.Packet.{ByteBuffer, Token, packet_size}

pub data Network : Type 0 where
  udp tcp proxy_http : Network

pub data KeyType : Type 0 where
  no_key random_key session_key : KeyType

pub record QqPacket : Type 0 where
  pub id : ℕ
  pub head : ℕ
  pub tail : ℕ
  pub version : ℕ
  pub command : ℕ
  pub seqno : ℕ
  pub buf : ByteBuffer
  pub time_create : ℕ
  pub time_alive : ℕ
  pub send_times : ℕ
  pub key_type : KeyType
  pub key : List ℕ
  pub need_ack : Bool

-- the fields of `qqclient` that the packet layer reads
pub record Account : Type 0 where
  pub number : ℕ
  pub version : ℕ
  pub network : Network
  pub session_key : List ℕ
  pub md5_pass2 : List ℕ
  pub verify_key2 : List ℕ
  pub login_info_key2 : List ℕ
  pub login_info_key3 : List ℕ
  pub login_info_magic : Token

-- `network == TCP || network == PROXY_HTTP`: packets carry their length
abbrev pub is_stream : Network → Bool
is_stream Network.udp = false
is_stream Network.tcp = true
is_stream Network.proxy_http = true
