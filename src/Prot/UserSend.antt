-- ===== src/Prot/UserSend.antt =====
-- The senders of src/prot_user.c. `print` is `sprintf( ..., "%u", number )`.
use myqq.Base.{
  ℕ, ◌%◌, Bool, true, false, Option, none, some, List, [], ◌∷◌, ◌==◌, if◌then◌else◌, length, take,
}
use myqq.Packet.RoundTrip.{byte, word, int, block, put_fields}
use myqq.Protocol.Commands
use myqq.Session.{Session, Env}
use myqq.Prot.{send_packet}

module _ (print : ℕ → List ℕ) (env : Env) (in_recv : Bool) where
  abbrev pub prot_user_keep_alive : Session → Session
  prot_user_keep_alive =
      send_packet env in_recv Commands.keep_alive true
        (λ s p b. put_fields b (block (print s.account.number) ∷ []))

  abbrev pub prot_user_change_status : Session → Session
  prot_user_change_status =
      send_packet env in_recv 0x000d true
        (λ s p b. put_fields b (byte (s.mode % 256) ∷ int 0 ∷ int 1 ∷ word 0 ∷ []))

  abbrev pub prot_user_get_key : ℕ → Session → Session
  prot_user_get_key key =
      send_packet env in_recv 0x001d true (λ s p b. put_fields b (byte key ∷ []))

  -- The command is that of `prot_user_get_key`.
  abbrev pub prot_user_get_notice : ℕ → Session → Session
  prot_user_get_notice type = send_packet env in_recv 0x001d false (λ s p b. put_fields b (
      if type == 0
      then int s.account.number ∷ []
      else if type == 1
      then int s.account.number ∷ word 0x0007 ∷ word 0x0008 ∷ []
      else []))

  abbrev pub prot_user_check_ip : Session → Session
  prot_user_check_ip = send_packet env in_recv 0x00da true (λ s p b.
      put_fields b
        (byte 2 ∷ byte 2 ∷ byte 0 ∷ int 0xD4020202 ∷ int s.last_login_time ∷ byte 8 ∷ byte 3 ∷ []))

  abbrev pub prot_user_get_level : Session → Session
  prot_user_get_level =
      send_packet env in_recv 0x005c true
        (λ s p b. put_fields b (byte 0x88 ∷ int s.account.number ∷ byte 0x00 ∷ []))

  -- `code` has the bytes of the verifying code; `none` is a NULL.
  unfoldable pub prot_user_request_token : ℕ → ℕ → ℕ → Option (List ℕ) → Session → Session
  prot_user_request_token number operation type none s =
      send_packet env in_recv 0x00ae true
        (λ s p b. put_fields b (byte 1 ∷ word type ∷ int number ∷ []))
        (record s {
          qqdata = record (s.qqdata) { operation = operation; operating_number = number };
        })
  prot_user_request_token number operation type (some code) s =
      send_packet env in_recv 0x00ae true
        (λ s p b. put_fields b (
          byte 2
          ∷ word type
          ∷ int number
          ∷ word 4
          ∷ block (take 4 code)
          ∷ word (length s.qqdata.qqsession)
          ∷ block s.qqdata.qqsession
          ∷ []))
        (record s { qqdata = record (s.qqdata) { operation = operation } })
