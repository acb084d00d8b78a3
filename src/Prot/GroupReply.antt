-- ===== src/Prot/GroupReply.antt =====
-- src/prot_group.c: the names of the groups.
use myqq.Base.{ℕ, Bool, true, false, not, List, [], ◌∷◌, ◌==◌, if◌then◌else◌, replicate, overwrite}
use myqq.Packet.{get_byte, get_word, get_int, get_data}
use myqq.Packet.RoundTrip.{byte, int, put_fields}
use myqq.Protocol.Commands
use myqq.Roster.{group_get, nickname_len}
use myqq.Session.{Session, Env}
use myqq.Prot.{
  Handle, ◌>>=◌, ◌>>◌, pure, read, on_found, groups, edit_group, buddy_put_event, group_put_event,
  while_more, send_packet,
}

abbrev pub prot_group_download_labels : Env → Bool → ℕ → Session → Session
prot_group_download_labels env in_recv pos =
    send_packet env in_recv Commands.group_label true
      (λ s p b. put_fields b (byte 0x1F ∷ byte 0x01 ∷ int pos ∷ []))

module _ (print : ℕ → List ℕ) where
  -- one round of the loop; `false` is a `return`
  unfoldable pub parse_label : Unit {0} → Handle (Bool × Unit {0})
  parse_label u = do
    number ← read get_byte
    order ← read get_byte
    len ← read get_byte
    found ← groups (λ l. group_get print l number true)
    on_found found (pure (false, tt)) λ g. do
      name ← read (get_data (overwrite g.name 0 (replicate nickname_len 0)) len)
      edit_group number (λ g. record g { name = name.1; order = order })
      pure (true, tt)

  unfoldable pub prot_group_download_labels_reply : Handle (Unit {0})
  unfolding parse_label
  prot_group_download_labels_reply = do
    cmd ← read get_byte
    if not (cmd == 0x1F) then pure tt else do
      next_pos ← read get_int
      if next_pos == 0x1000000 then pure tt else do
        unknown ← read get_byte
        unknown2 ← read get_word
        all ← while_more 0 parse_label tt
        if not all.0 then pure tt else group_put_event >> buddy_put_event
