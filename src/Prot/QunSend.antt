-- ===== src/Prot/QunSend.antt =====
-- The senders of src/prot_qun.c: what is asked of the server about quns.
use myqq.Base.{ℕ, ◌+◌, ◌%◌, Bool, true, List, [], ◌∷◌, length, take}
use myqq.Packet.{ByteBuffer}
use myqq.Packet.RoundTrip.{Field, byte, word, int, block, put_fields}
use myqq.Protocol.Commands
use myqq.Session.{Session, Env}
use myqq.PacketMgr.{empty_buffer}
use myqq.Prot.{send_packet}

abbrev pub ints : List ℕ → List Field
ints [] = []
ints (n ∷ ns) = int n ∷ ints ns

-- "宋体" in UTF-8
abbrev pub font_name : List ℕ
font_name = 0xe5 ∷ 0xae ∷ 0x8b ∷ 0xe4 ∷ 0xbd ∷ 0x93 ∷ []

module _ (env : Env) (in_recv : Bool) where
  abbrev pub prot_qun_get_info : ℕ → ℕ → Session → Session
  prot_qun_get_info number pos =
      send_packet env in_recv Commands.qun_cmd true
        (λ s p b. put_fields b (byte 0x72 ∷ int number ∷ int pos ∷ []))

  -- the message with its font, in a buffer of its own; `random` is the result of `rand()`
  unfoldable pub message_content : ℕ → ℕ → List ℕ → ByteBuffer
  message_content random time msg =
      let len = length msg % 65536 in
      put_fields empty_buffer (
        word 0x0001
        ∷ byte 0x01
        ∷ byte 0x00
        ∷ word 0
        ∷ int 0
        ∷ int 0x4D534700
        ∷ int 0x00000000
        ∷ int time
        ∷ int random
        ∷ int 0x00000000
        ∷ int 0x09008600
        ∷ word (length font_name)
        ∷ block font_name
        ∷ word 0x0000
        ∷ byte 0x01
        ∷ word (len + 3)
        ∷ byte 1
        ∷ word len
        ∷ block (take len msg)
        ∷ [])

  abbrev pub prot_qun_send_msg : ℕ → ℕ → List ℕ → Session → Session
  prot_qun_send_msg random number msg = send_packet env in_recv Commands.qun_cmd true (λ s p b.
      let content = message_content random p.time_create msg in
      put_fields b
        (byte 0x2A ∷ int number ∷ word content.pos ∷ block (take content.pos content.bytes) ∷ []))

  -- `numbers` has the numbers that `count` gives, of which 30 are asked for at most.
  abbrev pub prot_qun_get_memberinfo : ℕ → List ℕ → Session → Session
  prot_qun_get_memberinfo number numbers =
      send_packet env in_recv Commands.qun_cmd true
        (λ s p b. put_fields b (byte 0x0C ∷ int number ∷ ints (take 30 numbers)))

  abbrev pub prot_qun_get_online : ℕ → Session → Session
  prot_qun_get_online number =
      send_packet env in_recv Commands.qun_cmd true
        (λ s p b. put_fields b (byte 0x0B ∷ int number ∷ []))

  abbrev pub prot_qun_get_membername : ℕ → Session → Session
  prot_qun_get_membername number =
      send_packet env in_recv Commands.qun_cmd true
        (λ s p b. put_fields b (byte 0x0F ∷ int number ∷ int 0x0 ∷ int 0x0 ∷ []))

  -- the calls that `qun_update_memberinfo` of src/qun.c makes, in order
  unfoldable pub get_memberinfo_all : ℕ → List (List ℕ) → Session → Session
  get_memberinfo_all number [] s = s
  get_memberinfo_all number (ns ∷ rest) s =
      get_memberinfo_all number rest (prot_qun_get_memberinfo number ns s)
