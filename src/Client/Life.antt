-- ===== src/Client/Life.antt =====
-- Login and logout in src/qqclient.c.
use myqq.Base.{◌≡◌, refl, ap₂, ◌≢◌, false, ◌++◌, arith, ◌==◌}
use myqq.Loop.Window.{contents, IsLoop}
use myqq.Loop.Search.{loop_cleanup-contents}
use myqq.Session.{
  PacketMgr, Process, null_packet, qqclient_set_process, qqclient_put_event, is_init,
}
use myqq.Client.{Client, qqclient_detach, packetmgr_end, qqclient_logout}

-- A client that has not detached and is not in P_INIT ends up the same whether it detaches before
-- it logs out or not: out of the session, in P_INIT, with the same packets freed.
pub qqclient_logout-qqclient_detach :
    (c : Client)
    → is_init c.session.process ≡ false
    → c.login_finish ≢ 2
    → (qqclient_logout (qqclient_detach c) ≡ qqclient_logout c)
      × ((qqclient_logout c).1.session.process ≡ Process.init)
      × ((qqclient_logout c).1.login_finish ≡ 0)
unfolding qqclient_logout qqclient_detach qqclient_set_process qqclient_put_event
qqclient_logout-qqclient_detach c i f =
    let g : (c.login_finish == 2) ≡ false = ground arith in
    rw (qqclient_logout, qqclient_detach, i, g) (refl, refl, refl)

-- If the three loops are well formed, `packetmgr_end` frees each of their packets once: those sent,
-- those ready and those kept back, each loop from the head on.
pub packetmgr_end-contents :
    (m : PacketMgr)
    → IsLoop m.ready_loop
    → IsLoop m.temp_loop
    → IsLoop m.sent_loop
    → packetmgr_end m
      ≡ contents null_packet m.sent_loop
        ++ (contents null_packet m.ready_loop ++ contents null_packet m.temp_loop)
unfolding packetmgr_end
packetmgr_end-contents m r t s = ap₂ ◌++◌ (loop_cleanup-contents null_packet m.sent_loop s) (
    ap₂ ◌++◌ (loop_cleanup-contents null_packet m.ready_loop r)
      (loop_cleanup-contents null_packet m.temp_loop t))
