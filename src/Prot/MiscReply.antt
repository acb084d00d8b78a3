-- ===== src/Prot/MiscReply.antt =====
-- `prot_misc_broadcast` of src/prot_misc.c: the server's messages about adding buddies, four fields
-- of text with a 0x1f between them.
use myqq.Base.{
  ℕ, zero, suc, ◌+◌, Bool, true, not, none, some, List, [], ◌∷◌, ◌++◌, ltb, ◌==◌, if◌then◌else◌,
  get_or, take, drop, replicate, overwrite,
}
use myqq.Packet.{c_string}
use myqq.Roster.{buddy_get}
use myqq.Session.{Event, Notice, Env}
use myqq.Prot.{
  Handle, ◌>>=◌, ◌>>◌, pure, read, gets, attempt, on_found, try_send, buddies, edit_buddy,
  put_event, callback,
}
use myqq.Prot.BuddySend.{prot_buddy_verify_addbuddy}
use myqq.Prot.BuddyEdit.{buddy_update_list}
use myqq.Prot.Text.{Strings, same_text}

-- The fields: each ends at a 0x1f or at the end of the bytes, and there are four at most.
unfoldable pub split_fields : ℕ → List ℕ → List ℕ → List (List ℕ)
split_fields zero field str = []
split_fields (suc left) field [] = field ∷ []
split_fields (suc left) field (c ∷ str) =
    let next = field ∷ split_fields left [] str in
    let more = split_fields (suc left) (field ++ (c ∷ [])) str in if c == 0x1f then next else more

-- `e[j]`: 255 bytes of a field at most, in an array of 256 zeros
unfoldable pub field_at : List (List ℕ) → ℕ → List ℕ
field_at [] j = replicate 256 0
field_at (f ∷ fs) zero = overwrite (replicate 256 0) 0 (take 255 f)
field_at (f ∷ fs) (suc j) = field_at fs j

abbrev pub nothing_text : List ℕ
nothing_text = 78 ∷ 111 ∷ 116 ∷ 104 ∷ 105 ∷ 110 ∷ 103 ∷ []

-- the text behind its length in `e[3]`
abbrev pub said : List ℕ → List ℕ
said e3 =
    let len = get_or e3 0 0 in if ltb 0 len then c_string (take len (drop 1 e3)) else nothing_text

-- "06", "41", "04", "40", "43", "03"
abbrev pub is_code : List ℕ → ℕ → ℕ → Bool
is_code e0 c d = same_text (c_string e0) (c ∷ d ∷ [])

module _ (lib : Strings) (env : Env) where
  -- The type stands behind the text; a text of 255 bytes leaves none in the array.
  unfoldable pub asked_for : ℕ → List ℕ → Handle (Unit {0})
  asked_for from e3 = do
    let len = get_or e3 0 0
    type ← attempt (if ltb (len + 1) 256 then some (get_or e3 (len + 1) 0) else none)
    found ← buddies (λ l. buddy_get lib.print l from true)
    accept ← gets (λ s. s.auto_accept)
    on_found found (pure tt) (λ b.
        if not (type == 1)
        then pure tt
        else (edit_buddy from (λ b. record b { verify_flag = 0 })
            >> (if accept == 0
                then pure tt
                else try_send (prot_buddy_verify_addbuddy env true 3 from))))
    callback 101 (Notice.asks from (said e3))

  unfoldable pub broadcast_case : List (List ℕ) → Handle (Unit {0})
  unfolding asked_for
  broadcast_case fields =
      let e0 = field_at fields 0 in
      let e1 = field_at fields 1 in
      let e3 = field_at fields 3 in
      let from = lib.atoi (c_string e1) in
      if is_code e0 48 54
      then put_event (Event.broadcast (c_string e1) (c_string e3))
      else if is_code e0 52 49
      then asked_for from e3
      else if is_code e0 48 52
      then callback 100 (Notice.refuses from (said e3))
      else if is_code e0 52 48
      then callback 101 (Notice.added_by from)
      else if is_code e0 52 51
      then (buddy_update_list lib.print env >> callback 100 (Notice.accepted_by from))
      else if is_code e0 48 51
      then (buddy_update_list lib.print env >> callback 100 (Notice.added from))
      else pure tt

  unfoldable pub prot_misc_broadcast : Handle (Unit {0})
  unfolding split_fields field_at broadcast_case
  prot_misc_broadcast = do
    str ← read (λ b. some (take b.len b.bytes, b))
    broadcast_case (split_fields 4 [] str)
