-- ===== src/Prot/Tests.antt =====
-- Examples for the requests and the replies.
use myqq.Base.{
  ℕ, zero, suc, ◌+◌, ◌/◌, ◌%◌, ◌<◌, ◌≡◌, refl, ◌≢◌, true, false, none, some, List, [], ◌∷◌, ◌++◌,
  arith, length, get_or, take, replicate,
}
use myqq.Packet.{int_bytes}
use myqq.Packet.RoundTrip.{Field, byte, word, put_fields}
use myqq.PtrList.{PtrList}
use myqq.PtrList.Contents.{IsPtrList}
use myqq.Protocol.{QqPacket}
use myqq.Protocol.Commands
use myqq.Roster.{Qun, Member, null_qun, null_member, null_buddy}
use myqq.PacketMgr.{packetmgr_put, packetmgr_new_send}
use myqq.PacketMgr.Examples.{env, first_session}
use myqq.PacketMgr.InFlight.{InFlight}
use myqq.PacketMgr.Steps.{post, done, next}
use myqq.Prot.{Reply, while_left, send_packet}
use myqq.Prot.QunSend.{prot_qun_get_memberinfo}
use myqq.Prot.QunReply.{parse_number, parse_online}
use myqq.Prot.BuddyEdit.{parse_entry}
use myqq.Prot.Text.{Strings}
use myqq.Prot.ImSend.{cut, max_length}
use myqq.Prot.Slices.{continues, IsText, AreShort, cut-whole}
use myqq.Roster.Batches.{flat}
use myqq.Prot.LoginSend.{prot_login_touch}
use myqq.Prot.LoginRequests.{OpensItself, touch_bytes, before_touch, prot_login_touch-opens}
use myqq.Prot.Requests.{
  deciphered, numbers_bytes, send_packet-deciphered, prot_qun_get_memberinfo-deciphered,
}
use myqq.Prot.Ending.{parse_online-ends}
use myqq.Prot.InfoHang.{parse_entry-hangs}
use myqq.Prot.Keeps.{Sends}
use myqq.Prot.Handlers.{Library, Reach-handlers}

abbrev print : ℕ → List ℕ
print n = (n % 10 + 48) ∷ []

abbrev strings : Strings
strings = record { print = print; gb_to_utf8 = λ t. t; contains = λ t u. false; atoi = length }

abbrev lib : Library
lib = record {
  qsort = λ l. l;
  strings = strings;
  http_request = λ u. none;
  stack_key = replicate 20 0;
  stack_tmp = replicate 4096 0;
  stack_msg = replicate 256 0;
  stack_token = record { len = 0; bytes = replicate 256 0 };
  connect = λ s. s;
  establish = λ s. s;
  md5 = λ t. take 16 t;
}

connect-Sends : Sends (λ s. s)
connect-Sends = record { at = λ s v. v }

abbrev ping : QqPacket
ping = record (packetmgr_new_send env 88 first_session).0 { head = 2 }

Reach-handlers_example : InFlight (packetmgr_put env false ping first_session).mgr
Reach-handlers_example =
    Reach-handlers lib connect-Sends connect-Sends first_session
      (packetmgr_put env false ping first_session) refl
      (next first_session (packetmgr_put env false ping first_session) done (post env false ping))

abbrev small_fields : List Field
small_fields = byte 0x68 ∷ word 7 ∷ []

send_packet-deciphered_example :
    (q : QqPacket) × (send_packet env true 62 true
        (λ s p b. put_fields b small_fields)
        first_session
      ≡ packetmgr_put env true q (packetmgr_new_send env 62 first_session).1)
    × (deciphered first_session.account q 3 ≡ some (0x68 ∷ 0 ∷ 7 ∷ []))
send_packet-deciphered_example =
    send_packet-deciphered env true 62 true small_fields first_session (omega arith)
      (omega arith, (omega arith, (omega arith, tt)))

prot_qun_get_memberinfo-deciphered_example :
    let bytes = 0x0C ∷ (int_bytes 5 ++ numbers_bytes (7 ∷ 8 ∷ [])) in
    (q : QqPacket) × (prot_qun_get_memberinfo env true 5 (7 ∷ 8 ∷ []) first_session
      ≡ packetmgr_put env true q (packetmgr_new_send env Commands.qun_cmd first_session).1)
    × (deciphered first_session.account q (length bytes) ≡ some bytes)
prot_qun_get_memberinfo-deciphered_example =
    prot_qun_get_memberinfo-deciphered env true 5 (7 ∷ 8 ∷ []) first_session

-- a qun with one member, and a packet with one byte, the number 9, and one byte too many
abbrev qun : Qun
qun = record null_qun {
  number = 5;
  member_list = record {
    size = 3;
    count = 1;
    items = record null_member { number = 9 } ∷ null_member ∷ null_member ∷ [];
    locked = false;
  };
}

abbrev online_reply : Reply
online_reply = record {
  session = first_session;
  buf = record { pos = 0; len = 6; size = 6; bytes = 0 ∷ 0 ∷ 0 ∷ 0 ∷ 9 ∷ 0 ∷ [] };
}

abbrev behind_first : Reply
behind_first = record online_reply {
  buf = record { pos = 1; len = 6; size = 6; bytes = 0 ∷ 0 ∷ 0 ∷ 0 ∷ 9 ∷ 0 ∷ [] };
}

parse_online-ends_example :
    let left : ℕ = 1 in
    (left ≡ 0 → (y : Reply) × (parse_online print env qun online_reply ≡ some (tt, y)))
    × (left ≢ 0
        → (parse_online print env qun online_reply ≡ none)
          × ((fuel : ℕ) (l : PtrList Member)
              → IsPtrList l
              → while_left fuel 0 (parse_number print env) l behind_first ≡ none))
parse_online-ends_example =
    parse_online-ends print env qun online_reply
      (record { array = refl; fits = omega arith; open_lock = refl }) (omega arith)

abbrev last_byte : Reply
last_byte = record online_reply {
  buf = record { pos = 5; len = 6; size = 6; bytes = 0 ∷ 0 ∷ 0 ∷ 0 ∷ 9 ∷ 0 ∷ [] };
}

parse_entry-hangs_example :
    while_left 1000 0 (parse_entry print env) (record null_buddy { number = 9 }) last_byte ≡ none
parse_entry-hangs_example =
    parse_entry-hangs print env 1000 (record null_buddy { number = 9 }) last_byte refl

-- a message of 701 bytes, which makes two slices
abbrev long_text : List ℕ
long_text = replicate 701 65

get_or-replicate : (n i : ℕ) → get_or (replicate n 65) i 0 < 128
get_or-replicate zero i = omega arith
get_or-replicate (suc n) zero = omega arith
get_or-replicate (suc n) (suc i) = get_or-replicate n i

low-continues : (c : ℕ) → c < 128 → continues c ≡ false
low-continues c h = ground arith

long_text-IsText : IsText long_text
long_text-IsText i e =
    let low = low-continues (get_or long_text i 0) (get_or-replicate 701 i) in absurd (cc (e, low))

cut-whole_example :
    (slices : List (List ℕ)) × (cut long_text (length long_text / max_length + 1) 0 ≡ some slices)
    × (flat slices ≡ long_text)
    × AreShort slices
cut-whole_example = cut-whole long_text long_text-IsText (omega arith)

prot_login_touch-opens_example :
    (q : QqPacket) × (prot_login_touch env true first_session
      ≡ packetmgr_put env true q
          (packetmgr_new_send env Commands.touch (before_touch first_session)).1)
    × OpensItself first_session.account q (env.randkey 0) touch_bytes
prot_login_touch-opens_example = prot_login_touch-opens env true first_session refl
