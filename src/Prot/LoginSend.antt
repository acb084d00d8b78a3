-- ===== src/Prot/LoginSend.antt =====
-- The senders of src/prot_login.c. `none` is a token whose length is more than its array has; of
-- `login_info_magic`, `post_packet` copies it.
use myqq.Base.{
  ℕ, ◌%◌, Bool, true, false, not, ◌&&◌, Option, none, some, List, [], ◌∷◌, ◌++◌, ltb, ◌==◌,
  if◌then◌else◌, length, take, replicate,
}
use myqq.Packet.{Token, ByteBuffer, token_len, advance}
use myqq.Packet.RoundTrip.{Field, byte, word, int, block, put_fields}
use myqq.Crypt.{qqencrypt}
use myqq.Protocol.Commands
use myqq.Session.{LoginData, Session, Env}
use myqq.PacketMgr.{empty_buffer}
use myqq.Prot.{send_packet, send_random}
use myqq.Prot.BuddySend.{token_fields}

abbrev pub zero_key : List ℕ
zero_key = replicate 16 0

abbrev pub fits : Token → Bool
fits t = not (ltb token_len t.len)

-- `QQ09_LOCALE`, `QQ09_VERSION_SPEC` and `QQ09_EXE_HASH`
unfoldable pub restore_version_data : LoginData → LoginData
restore_version_data d = record d {
  locale = 0x00 ∷ 0x00 ∷ 0x08 ∷ 0x04 ∷ 0x01 ∷ 0xE0 ∷ [];
  version_spec =
      0x00 ∷ 0x00 ∷ 0x03 ∷ 0x50 ∷ 0x00 ∷ 0x00 ∷ 0x00 ∷ 0x01 ∷ 0x00 ∷ 0x00 ∷ 0x0D ∷ 0x6F ∷ [];
  exe_hash =
      0xC1 ∷ 0xF7 ∷ 0xD0 ∷ 0xF0 ∷ 0xEE ∷ 0x9F ∷ 0x4D ∷ 0x33 ∷ 0xA8 ∷ 0x51 ∷ 0xBA ∷ 0x7D ∷ 0xDF
      ∷ 0xF3 ∷ 0xEE ∷ 0xC7 ∷ [];
}

abbrev pub with_login : Session → LoginData → Session
with_login s d = record s { login = d }

module _ (env : Env) (in_recv : Bool) where
  -- `server_data` has 15 bytes.
  unfoldable pub prot_login_touch_with_info : List ℕ → Session → Session
  unfolding restore_version_data
  prot_login_touch_with_info server_data s =
      let d = restore_version_data s.login in
      send_random env in_recv Commands.touch (env.randkey 0)
        (λ s p b. put_fields b (
          word 0x0001 ∷ block s.login.locale ∷ block s.login.version_spec ∷ block server_data ∷ []))
        (with_login s (record d { server_data = server_data }))

  unfoldable pub prot_login_touch : Session → Session
  unfolding prot_login_touch_with_info
  prot_login_touch s = prot_login_touch_with_info (replicate 15 0) s

  -- the answer to the picture, or the picture that is asked for
  abbrev pub answer_fields : Option Token → Option (List ℕ) → ℕ → List Field
  answer_fields (some tok) (some code) png_data = byte 4 ∷ block (take 4 code) ∷ token_fields tok
  answer_fields (some tok) none png_data =
      if png_data == 0 then byte 0 ∷ byte 0 ∷ [] else token_fields tok
  answer_fields none code png_data = byte 0 ∷ byte 0 ∷ []

  abbrev pub fits_some : Option Token → Bool
  fits_some none = true
  fits_some (some t) = fits t

  abbrev pub code_kind : Option (List ℕ) → ℕ
  code_kind none = 3
  code_kind (some code) = 4

  abbrev pub login_request : Option Token → Option (List ℕ) → ℕ → Session → Session
  login_request tok code png_data =
      send_random env in_recv Commands.login_request zero_key (λ s p b. put_fields b (
        word 0x0001
        ∷ block s.login.locale
        ∷ block s.login.version_spec
        ∷ (token_fields s.login.login_token
            ++ (byte (code_kind code)
                ∷ byte 0
                ∷ byte 5
                ∷ int 0
                ∷ byte png_data
                ∷ answer_fields tok code png_data))))

  unfoldable pub prot_login_request : Option Token → Option (List ℕ) → ℕ → Session → Option Session
  prot_login_request tok code png_data s =
      if fits s.login.login_token && fits_some tok
      then some (login_request tok code png_data s)
      else none

  -- the data that is enciphered with the password's key
  unfoldable pub verify_data : Session → ByteBuffer
  verify_data s =
      let b = put_fields empty_buffer (
        int (env.rand2 0)
        ∷ word 0x0001
        ∷ int s.account.number
        ∷ block s.login.version_spec
        ∷ byte 0
        ∷ word 0x0000
        ∷ block s.login.md5_pass1
        ∷ int s.login.server_time
        ∷ []) in
      put_fields (advance b 13) (
        int s.login.server_ip
        ∷ int 0
        ∷ int 0
        ∷ word 0x0010
        ∷ block s.login.verify_key1
        ∷ block s.account.verify_key2
        ∷ [])

  abbrev pub login_verify : Session → Session
  login_verify = send_random env in_recv Commands.login_verify zero_key (λ s p b.
      let data0 = verify_data s in
      let encrypted = qqencrypt (take data0.pos data0.bytes) s.login.md5_pass_qq in
      advance
        (put_fields b (
          word 0x00DE
          ∷ word 0x0001
          ∷ block s.login.locale
          ∷ block s.login.version_spec
          ∷ (token_fields s.login.token_c
              ++ (word (length encrypted)
                  ∷ block encrypted
                  ∷ word 0x0014
                  ∷ block (take 16 (env.randkey 0) ++ (0xAB ∷ 0x3B ∷ 0x4E ∷ 0x30 ∷ []))
                  ∷ word 0x0177
                  ∷ byte 0x2E
                  ∷ byte 0x01
                  ∷ int (env.rand2 1)
                  ∷ word 16
                  ∷ block (env.randkey 1)
                  ∷ byte 0x02
                  ∷ int (env.rand2 2)
                  ∷ word 16
                  ∷ block (env.randkey 2)
                  ∷ []))))
        328)

  unfoldable pub prot_login_verify : Session → Option Session
  unfolding verify_data
  prot_login_verify s = if fits s.login.token_c then some (login_verify s) else none

  abbrev pub login_get_info : List ℕ → Session → Session
  login_get_info key = send_random env in_recv Commands.login_get_info key (λ s p b. put_fields b (
      word 0x010E
      ∷ byte 0x00
      ∷ word 0x0101
      ∷ block s.login.locale
      ∷ block s.login.version_spec
      ∷ (token_fields s.login.token_c
          ++ (token_fields s.login.login_info_token
              ++ (int s.login.login_info_unknown1
                  ∷ int s.login.server_time
                  ∷ (token_fields s.login.login_info_data
                      ++ (word 0x0000 ∷ byte 0x01 ∷ int 0x00000000 ∷ [])))))))

  unfoldable pub prot_login_get_info : Session → Option Session
  prot_login_get_info s =
      if fits s.login.token_c
        && fits s.login.login_info_token
        && fits s.login.login_info_data
        && fits s.account.login_info_magic
      then some (login_get_info s.login.login_info_key1 s)
      else none

  abbrev pub login_a4 : List ℕ → Session → Session
  login_a4 key = send_random env in_recv Commands.login_a4 key (λ s p b.
      let t = s.login.login_info_token in
      put_fields b (
        word 0x0101
        ∷ word 0x0000
        ∷ byte (t.len % 256)
        ∷ block (take t.len t.bytes)
        ∷ block (
            0x10 ∷ 0x03 ∷ 0xC8 ∷ 0xEC ∷ 0xC8 ∷ 0x96 ∷ 0x8B ∷ 0xF2 ∷ 0xB3 ∷ 0x6B ∷ 0x4D ∷ 0x0C ∷ 0x5C
            ∷ 0xE0 ∷ 0x6A ∷ 0x51 ∷ 0xCE ∷ [])
        ∷ []))

  unfoldable pub prot_login_a4 : Session → Option Session
  prot_login_a4 s =
      if fits s.login.login_info_token && fits s.account.login_info_magic
      then some (login_a4 s.login.login_info_key1 s)
      else none

  -- the three runs of fields of `prot_login_send_info`, between which the cursor jumps
  abbrev pub info_fields_1 : Session → List Field
  info_fields_1 s =
      word 0x0001
      ∷ block s.login.version_spec
      ∷ int s.login.login_info_unknown2
      ∷ int s.login.server_time
      ∷ int s.login.client_ip
      ∷ int 0
      ∷ int 0
      ∷ token_fields s.login.login_info_large

  abbrev pub info_fields_2 : Session → List Field
  info_fields_2 s =
      block s.login.exe_hash
      ∷ byte (env.rand2 0 % 256)
      ∷ byte (s.mode % 256)
      ∷ block (replicate 10 0)
      ∷ block s.login.server_data
      ∷ block s.login.locale
      ∷ []

  abbrev pub info_fields_3 : Session → List Field
  info_fields_3 s =
      token_fields s.login.token_c
      ++ (int 0x00000008
          ∷ int 0x00000000
          ∷ int 0x08041000
          ∷ byte 0x01
          ∷ byte 0x40
          ∷ byte 0x01
          ∷ int (env.rand2 1)
          ∷ word 16
          ∷ block (env.randkey 0)
          ∷ block (replicate 10 0)
          ∷ block s.login.server_data
          ∷ byte 0x02
          ∷ int (env.rand2 2)
          ∷ word 16
          ∷ block (env.randkey 1)
          ∷ [])

  abbrev pub login_send_info : List ℕ → Session → Session
  login_send_info key = send_random env in_recv Commands.login_send_info key (λ s p b.
      let b1 = advance (put_fields b (info_fields_1 s)) 35 in
      let b2 = advance (put_fields b1 (info_fields_2 s)) 16 in
      advance (put_fields b2 (info_fields_3 s)) 251)

  unfoldable pub prot_login_send_info : Session → Option Session
  prot_login_send_info s =
      if fits s.login.login_info_large && fits s.login.token_c && fits s.account.login_info_magic
      then some (login_send_info s.login.login_info_key1 s)
      else none

  abbrev pub prot_login_get_list : ℕ → Session → Session
  prot_login_get_list pos =
      send_packet env in_recv Commands.login_get_list true
        (λ s p b. put_fields b (byte 1 ∷ int 0 ∷ int 0 ∷ word pos ∷ []))

  abbrev pub prot_login_e9 : Session → Session
  prot_login_e9 = send_packet env in_recv 0x00e9 true (λ s p b. put_fields b (word 0x0101 ∷ []))

  abbrev pub prot_login_ea : Session → Session
  prot_login_ea = send_packet env in_recv 0x00ea true (λ s p b. put_fields b (byte 0x01 ∷ []))

  abbrev pub prot_login_ed : Session → Session
  prot_login_ed = send_packet env in_recv 0x00ed true (λ s p b. put_fields b (byte 0x01 ∷ []))

  abbrev pub prot_login_ec : Session → Session
  prot_login_ec =
      send_packet env in_recv 0x00ec true (λ s p b. put_fields b (byte 0x01 ∷ word 0x000A ∷ []))

  abbrev pub prot_login_logout : Session → Session
  prot_login_logout = send_packet env in_recv 0x0062 false (λ s p b. advance b 16)
