-- ===== src/Prot/BuddySend.antt =====
-- The senders of src/prot_buddy.c. `qsort` is the C library's, on the buddies in use.
use myqq.Base.{
  ℕ, ◌%◌, Bool, true, ◌&&◌, Option, none, some, List, [], ◌∷◌, ◌++◌, map, ltb, leb, ◌==◌,
  if◌then◌else◌, length, take,
}
use myqq.Packet.{Token, token_len, advance}
use myqq.Packet.RoundTrip.{Field, byte, word, int, block, put_fields}
use myqq.Roster.{Buddy, buddy_sort_list}
use myqq.Session.{Session, Env}
use myqq.PacketMgr.{packetmgr_new_send}
use myqq.Prot.{send_packet}
use myqq.Prot.QunSend.{ints}

-- the loop `for( i; i<count; i++ ) if( number >= pos ) break;`: what stands from `i` on
unfoldable pub from_number : ℕ → List ℕ → List ℕ
from_number pos [] = []
from_number pos (n ∷ ns) = let rest = from_number pos ns in if leb pos n then n ∷ ns else rest

-- each number with four zeros behind it
unfoldable pub padded_ints : List ℕ → List Field
padded_ints [] = []
padded_ints (n ∷ ns) = int n ∷ int 0 ∷ padded_ints ns

unfoldable pub words : List ℕ → List Field
words [] = []
words (w ∷ ws) = word w ∷ words ws

-- the entries that `prot_buddy_get_info` asks for
abbrev pub info_types : List ℕ
info_types =
    0x4E22 ∷ 0x4E25 ∷ 0x4E26 ∷ 0x4E27 ∷ 0x4E29 ∷ 0x4E2A ∷ 0x4E2B ∷ 0x4E2C ∷ 0x4E2D ∷ 0x4E2E ∷ 0x4E2F
    ∷ 0x4E30 ∷ 0x4E31 ∷ 0x4E33 ∷ 0x4E35 ∷ 0x4E36 ∷ 0x4E37 ∷ 0x4E38 ∷ 0x4E3F ∷ 0x4E40 ∷ 0x4E41
    ∷ 0x4E42 ∷ 0x4E43 ∷ 0x4E45 ∷ 0x520B ∷ 0x520F ∷ []

-- the token with its length in front; its array has TOKEN_LEN bytes
abbrev pub token_fields : Token → List Field
token_fields t = word t.len ∷ block (take t.len t.bytes) ∷ []

module _ (env : Env) (in_recv : Bool) where
  abbrev pub prot_buddy_update_list : ℕ → Session → Session
  prot_buddy_update_list pos =
      send_packet env in_recv 0x0126 true
        (λ s p b. put_fields b (byte 0x01 ∷ int 0 ∷ int 0 ∷ byte 0x02 ∷ word pos ∷ word 0 ∷ []))

  abbrev pub prot_buddy_update_online : ℕ → Session → Session
  prot_buddy_update_online next_number =
      send_packet env in_recv 0x0027 true (λ s p b. put_fields b (byte 0x02 ∷ int next_number ∷ []))

  -- What the two functions that ask for the buddies in order share. The packet is dropped if no
  -- buddy has a number of `pos` or more.
  unfoldable pub send_sorted :
      (List Buddy → List Buddy) → ℕ → (Session → List ℕ → List Field) → ℕ → Session → Option Session
  unfolding from_number
  send_sorted qsort cmd fields pos s = elim (buddy_sort_list qsort s.buddy_list) [
    | none ↦ none
    | some l ↦
        let s1 = record s { buddy_list = l } in
        let numbers = take 50 (from_number pos (map (λ b. b.number) (take l.count l.items))) in
        if l.locked
        then none
        else if length numbers == 0
        then some (packetmgr_new_send env cmd s1).1
        else some (send_packet env in_recv cmd true (λ s p b. put_fields b (fields s numbers)) s1)
  ]

  abbrev pub prot_buddy_update_signiture : (List Buddy → List Buddy) → ℕ → Session → Option Session
  prot_buddy_update_signiture qsort =
      send_sorted qsort 0x0067
        (λ s numbers. byte 0x83 ∷ byte 0x00 ∷ byte (length numbers) ∷ padded_ints numbers)

  abbrev pub prot_buddy_update_account : (List Buddy → List Buddy) → ℕ → Session → Option Session
  prot_buddy_update_account qsort =
      send_sorted qsort 0x00b5
        (λ s numbers. byte 0x01 ∷ int s.account.number ∷ byte (length numbers) ∷ ints numbers)

  abbrev pub prot_buddy_update_alias : ℕ → Session → Session
  prot_buddy_update_alias index =
      send_packet env in_recv 0x003e true
        (λ s p b. put_fields b (byte 0x68 ∷ byte (index % 256) ∷ []))

  abbrev pub prot_buddy_request_addbuddy : ℕ → Session → Session
  prot_buddy_request_addbuddy number =
      send_packet env in_recv 0x00a7 true (λ s p b. put_fields b (int number ∷ []))

  abbrev pub verify_fields : ℕ → Session → List Field
  verify_fields cmd s =
      let token = token_fields s.qqdata.user_token in
      let text = s.qqdata.addbuddy_str in
      if cmd == 3
      then byte 0x00 ∷ []
      else if cmd == 2
      then token ++ (byte 1 ∷ byte 0 ∷ byte (length text) ∷ block text ∷ [])
      else if cmd == 1
      then token ++ (byte 0x00 ∷ [])
      else if cmd == 0
      then token ++ (byte 1 ∷ byte 0 ∷ [])
      else []

  -- `none` is a token whose length is more than its array has.
  unfoldable pub prot_buddy_verify_addbuddy : ℕ → ℕ → Session → Option Session
  prot_buddy_verify_addbuddy cmd number s =
      if ltb cmd 3 && ltb token_len s.qqdata.user_token.len
      then none
      else some (
          send_packet env in_recv 0x00a8 true
            (λ s p b. put_fields b (byte cmd ∷ int number ∷ word 0x0000 ∷ verify_fields cmd s)) s)

  unfoldable pub prot_buddy_del_buddy : (ℕ → List ℕ) → ℕ → Session → Option Session
  prot_buddy_del_buddy print number s =
      if ltb token_len s.qqdata.user_token.len
      then none
      else some (
          send_packet env in_recv 0x000a true
            (λ s p b. put_fields b (
              byte (s.qqdata.user_token.len % 256)
              ∷ block (take s.qqdata.user_token.len s.qqdata.user_token.bytes)
              ∷ block (print number)
              ∷ []))
            s)

  abbrev pub prot_buddy_get_info : ℕ → Session → Session
  prot_buddy_get_info number = send_packet env in_recv 0x003c true (λ s p b.
      put_fields (advance (put_fields b (word 0x0001 ∷ int number ∷ [])) 22)
        (word 0x001A ∷ words info_types))

  unfoldable pub prot_buddy_get_extra_info : ℕ → Session → Session
  prot_buddy_get_extra_info number s =
      prot_buddy_get_info number (
        send_packet env in_recv 0x0065 true (λ s p b. put_fields b (byte 0x03 ∷ int number ∷ [])) s)
