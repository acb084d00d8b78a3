-- ===== src/Prot/ImKeeps.antt =====
-- What the messages of src/prot_im.c and src/prot_misc.c leave in flight.
use myqq.Base.{
  ℕ, ◌+◌, ◌/◌, ◌%◌, ◌≡◌, refl, inl, inr, Bool, false, none, some, List, [], ◌∷◌, ◌==◌,
  if◌then◌else◌, Bool-cases, Option-cases, length, take,
}
use myqq.Protocol.{KeyType, QqPacket}
use myqq.Session.{Process, Env, qqclient_set_process}
use myqq.PacketMgr.{packetmgr_new_send, packetmgr_new_packet, packetmgr_inc_seqno}
use myqq.Packet.RoundTrip.{block, put_fields}
use myqq.Prot.Keeps.{Keeps, Sends, TrySends, Sends-send_packet, post_packet-InFlight, keeps_rules}
use myqq.Prot.UserKeeps.{Sends-qqclient_set_process}
use myqq.Prot.BuddyKeeps.{TrySends-prot_buddy_verify_addbuddy, buddy_update_list-Keeps}
use myqq.Prot.Text.{Strings}
use myqq.Prot.ImSend.{
  max_length, cut, send_slice, prot_im_send_msg_ex, send_slices, prot_im_send_msg, prot_im_ack_recv,
}
use myqq.Prot.ImReply.{
  skip_to_ff, parse_text, parse_face, parse_image, parse_piece, parse_message_09, parse_message_gb,
  content_of, process_buddy_im_text, process_buddy_im, process_sys_im, qun_content, process_qun_im,
  process_qun_member_im, im_case, prot_im_recv_msg,
}
use myqq.Prot.MiscReply.{asked_for, broadcast_case, prot_misc_broadcast}

module _ (env : Env) (in_recv : Bool) where
  Sends-prot_im_send_msg_ex :
      (to : ℕ) (msg : List ℕ) (msg_id slice_count i : ℕ)
      → Sends (prot_im_send_msg_ex env in_recv to msg msg_id slice_count i)
  unfolding prot_im_send_msg_ex
  Sends-prot_im_send_msg_ex to msg msg_id slice_count i = record {
    at = λ s v. elim (Bool-cases (length msg == 0)) [
      | inl e ↦ rw (prot_im_send_msg_ex, e) v
      | inr e ↦
          let sent : Sends (send_slice env in_recv to msg msg_id slice_count i) =
            Sends-send_packet env in_recv _ _ _ in
          rw (prot_im_send_msg_ex, e) (sent.at s v)
    ];
  }

  Sends-send_slices :
      (to msg_id slice_count i : ℕ) (slices : List (List ℕ))
      → Sends (send_slices env in_recv to msg_id slice_count i slices)
  unfolding send_slices
  Sends-send_slices to msg_id slice_count i [] = record { at = λ s v. v }
  Sends-send_slices to msg_id slice_count i (m ∷ ms) = record {
    at = λ s v.
        (Sends-send_slices to msg_id slice_count (i + 1) ms).at _
          ((Sends-prot_im_send_msg_ex to m msg_id slice_count i).at s v);
  }

  pub TrySends-prot_im_send_msg :
      (random to : ℕ) (msg : List ℕ) → TrySends (prot_im_send_msg env in_recv random to msg)
  unfolding prot_im_send_msg
  TrySends-prot_im_send_msg random to msg = record {
    at = λ s t e v.
        let n = length msg / max_length + 1 in
        elim (Option-cases (cut msg n 0)) [
          | inl x ↦
              let none_of : prot_im_send_msg env in_recv random to msg s ≡ none =
                rw (prot_im_send_msg, x) refl in
              absurd (cc (e, none_of))
          | inr (slices, x) ↦
              let u = send_slices env in_recv to (random % 65536) n 0 slices s in
              let got : prot_im_send_msg env in_recv random to msg s ≡ some u =
                rw (prot_im_send_msg, x) refl in
              let same : t ≡ u = cc (e, got) in
              rw same ((Sends-send_slices to (random % 65536) n 0 slices).at s v)
        ];
  }

  pub Sends-prot_im_ack_recv : (pre : QqPacket) → Sends (prot_im_ack_recv env in_recv pre)
  unfolding prot_im_ack_recv packetmgr_new_send packetmgr_new_packet packetmgr_inc_seqno
  Sends-prot_im_ack_recv pre = record {
    at = λ s v.
        let (p, t) = packetmgr_new_send env pre.command s in
        post_packet-InFlight env in_recv
          (record p {
            seqno = pre.seqno;
            need_ack = false;
            buf = put_fields p.buf (block (take 16 pre.buf.bytes) ∷ []);
          })
          KeyType.session_key t v;
  }

skip_to_ff-Keeps : Keeps skip_to_ff
unfolding skip_to_ff
skip_to_ff-Keeps = search keeps_rules depth 60

module _ (lib : Strings) (tmp : List ℕ) (env : Env) where
  parse_text-Keeps : (r : List ℕ × ℕ) → Keeps (parse_text lib tmp env r)
  unfolding parse_text
  parse_text-Keeps r = search keeps_rules depth 60

  parse_face-Keeps : (r : List ℕ × ℕ) → Keeps (parse_face lib tmp env r)
  unfolding parse_face
  parse_face-Keeps r = search keeps_rules depth 60

  parse_image-Keeps : (r : List ℕ × ℕ) → Keeps (parse_image lib tmp env r)
  unfolding parse_image
  parse_image-Keeps r = search (keeps_rules, skip_to_ff-Keeps) depth 60

  parse_piece-Keeps : (r : List ℕ × ℕ) → Keeps (parse_piece lib tmp env r)
  unfolding parse_piece
  parse_piece-Keeps r =
      search (keeps_rules, parse_text-Keeps, parse_face-Keeps, parse_image-Keeps) depth 60

  parse_message_09-Keeps : Keeps (parse_message_09 lib tmp env)
  unfolding parse_message_09
  parse_message_09-Keeps = search (keeps_rules, parse_piece-Keeps) depth 60

  parse_message_gb-Keeps : Keeps (parse_message_gb lib tmp env)
  unfolding parse_message_gb
  parse_message_gb-Keeps = search keeps_rules depth 60

  content_of-Keeps : (t n : ℕ) → Keeps (content_of lib tmp env t n)
  unfolding content_of
  content_of-Keeps t n =
      search (keeps_rules, parse_message_09-Keeps, parse_message_gb-Keeps) depth 60

  process_buddy_im_text-Keeps : (t from : ℕ) → Keeps (process_buddy_im_text lib tmp env t from)
  unfolding process_buddy_im_text
  process_buddy_im_text-Keeps t from =
      search (keeps_rules, content_of-Keeps, TrySends-prot_im_send_msg) depth 60

  process_buddy_im-Keeps : (t : ℕ) → Keeps (process_buddy_im lib tmp env t)
  unfolding process_buddy_im
  process_buddy_im-Keeps t = search (keeps_rules, process_buddy_im_text-Keeps) depth 60

  sets_process :
      (b : Bool) → Sends (λ s. qqclient_set_process s (if b then Process.busy else Process.error))
  sets_process b = Sends-qqclient_set_process (if b then Process.busy else Process.error)

  process_sys_im-Keeps : Keeps (process_sys_im lib tmp env)
  unfolding process_sys_im
  process_sys_im-Keeps = search (keeps_rules, sets_process) depth 60

  qun_content-Keeps : (t n : ℕ) → Keeps (qun_content lib tmp env t n)
  unfolding qun_content
  qun_content-Keeps t n =
      search (keeps_rules, parse_message_09-Keeps, parse_message_gb-Keeps) depth 60

  process_qun_im-Keeps : (t n : ℕ) → Keeps (process_qun_im lib tmp env t n)
  unfolding process_qun_im
  process_qun_im-Keeps t n = search (keeps_rules, qun_content-Keeps) depth 60

  process_qun_member_im-Keeps : (t : ℕ) → Keeps (process_qun_member_im lib tmp env t)
  unfolding process_qun_member_im
  process_qun_member_im-Keeps t = search (keeps_rules, process_buddy_im-Keeps) depth 60

  im_case-Keeps : (t n : ℕ) → Keeps (im_case lib tmp env t n)
  unfolding im_case
  im_case-Keeps t n =
      search
        (
          keeps_rules, process_buddy_im-Keeps, process_sys_im-Keeps, process_qun_im-Keeps,
          process_qun_member_im-Keeps,
        )
        depth 60

  pub prot_im_recv_msg-Keeps : (p : QqPacket) → Keeps (prot_im_recv_msg lib tmp env p)
  unfolding prot_im_recv_msg
  prot_im_recv_msg-Keeps p = search (keeps_rules, im_case-Keeps, Sends-prot_im_ack_recv) depth 60

module _ (lib : Strings) (env : Env) where
  asked_for-Keeps : (n : ℕ) (e : List ℕ) → Keeps (asked_for lib env n e)
  unfolding asked_for
  asked_for-Keeps n e = search (keeps_rules, TrySends-prot_buddy_verify_addbuddy) depth 60

  broadcast_case-Keeps : (fs : List (List ℕ)) → Keeps (broadcast_case lib env fs)
  unfolding broadcast_case
  broadcast_case-Keeps fs = search (keeps_rules, asked_for-Keeps, buddy_update_list-Keeps) depth 60

  pub prot_misc_broadcast-Keeps : Keeps (prot_misc_broadcast lib env)
  unfolding prot_misc_broadcast
  prot_misc_broadcast-Keeps = search (keeps_rules, broadcast_case-Keeps) depth 60
