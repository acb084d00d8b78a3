-- ===== src/Client/Tests.antt =====
-- Examples for a client that is logged in, with one event and one message waiting.
use myqq.Base.{ℕ, ◌+◌, ◌%◌, ◌≡◌, refl, false, none, some, List, [], ◌∷◌, ◌++◌, arith}
use myqq.PtrList.{list_create}
use myqq.Loop.{Loop}
use myqq.Loop.Window.{IsLoop, contents}
use myqq.Session.{Process, Event, null_packet, null_event}
use myqq.PacketMgr.{packetmgr_start}
use myqq.PacketMgr.InFlight.{packetmgr_start-InFlight}
use myqq.PacketMgr.Examples.{env, first_session}
use myqq.Client.{
  Client, event, no_event, qqclient_keepalive, qqclient_detach, qqclient_logout, qqclient_get_event,
  packetmgr_end,
}
use myqq.Client.Life.{qqclient_logout-qqclient_detach, packetmgr_end-contents}
use myqq.Client.Events.{events, messages, due, qqclient_get_event-due}
use myqq.Client.Keepalive.{IsRound, qqclient_keepalive-IsRound}

abbrev one_event : ℕ → Loop Event
one_event n = record { size = 2; head = 0; tail = 1; items = Event.text (n ∷ []) ∷ null_event ∷ [] }

one_event-IsLoop : (n : ℕ) → IsLoop (one_event n)
one_event-IsLoop n = record {
  room = omega arith;
  array = refl;
  head_in = omega arith;
  tail_in = omega arith;
}

abbrev logged_in : Client
logged_in = record {
  session = record first_session { event_loop = one_event 65 };
  login_finish = 0;
  keep_alive_counter = 30;
  msg_loop = one_event 66;
  locked = false;
}

-- the digits of a number, of which one is kept
abbrev print : ℕ → List ℕ
print n = (n % 10 + 48) ∷ []

logged_in-open : logged_in.session.qun_list.locked ≡ false
unfolding list_create
logged_in-open = refl

qqclient_keepalive-IsRound_example :
    (c' : Client) × (qqclient_keepalive print env logged_in ≡ some c')
    × IsRound print env logged_in c'
qqclient_keepalive-IsRound_example =
    qqclient_keepalive-IsRound print env logged_in packetmgr_start-InFlight logged_in-open

qqclient_logout-qqclient_detach_example :
    (qqclient_logout (qqclient_detach logged_in) ≡ qqclient_logout logged_in)
    × ((qqclient_logout logged_in).1.session.process ≡ Process.init)
    × ((qqclient_logout logged_in).1.login_finish ≡ 0)
qqclient_logout-qqclient_detach_example =
    qqclient_logout-qqclient_detach logged_in refl (omega arith)

packetmgr_end-contents_example :
    packetmgr_end packetmgr_start
    ≡ contents null_packet packetmgr_start.sent_loop
      ++ (contents null_packet packetmgr_start.ready_loop
          ++ contents null_packet packetmgr_start.temp_loop)
packetmgr_end-contents_example =
    packetmgr_end-contents packetmgr_start packetmgr_start-InFlight.ready
      packetmgr_start-InFlight.temp packetmgr_start-InFlight.sent

qqclient_get_event-due_example :
    let (r, c) = qqclient_get_event (λ c. c) 0 logged_in in
    (due logged_in (events logged_in) (messages logged_in) ≡ none
      → (r ≡ no_event) × (c ≡ logged_in))
    × ((e : Event) (es ms : List Event)
        → due logged_in (events logged_in) (messages logged_in) ≡ some (e, es, ms)
        → (r ≡ event e) × (events c ≡ es) × (messages c ≡ ms))
qqclient_get_event-due_example =
    qqclient_get_event-due (λ c. c) logged_in (one_event-IsLoop 65) (one_event-IsLoop 66) refl refl
