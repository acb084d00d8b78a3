-- ===== src/Lib.antt =====
-- MyQQ, a client of the QQ instant-messaging protocol (2009): the core of its C sources in src/.
--
-- A packet is written field by field into a byte buffer, sealed (enciphered, framed by a header
-- and a tail byte), queued and sent; a packet that arrives is checked, deciphered and given to
-- the handler of its command; a packet whose answer does not come is sent again. Around that
-- stand the client with its login, its keeper and its events, and the rosters of buddies, groups
-- and quns.
--
-- What models what, each by functions with the names of the source:
--   Base             numbers, tests, lists, bits: what the other modules share
--   Packet           src/qqpacket.c: the byte buffer, its writers and readers
--   Loop             src/loop.c: circular queues; PtrList: src/list.c, bounded arrays with a mutex
--   Crypt            src/qqcrypt.c: the block cipher and the chaining around it
--   Protocol         src/protocol.c and src/protocol.h: `post_packet` is seal_packet in Seal,
--                    followed by post_packet of PacketMgr; `process_packet` is in Open, and its
--                    `switch` is handler_of in Commands; Arrival has what comes
--                    of the bytes that arrive, Unsealed what is sent of a body that
--                    does not fit
--   Session          the part of `struct qqclient` (src/qqclient.h) that packets read and write
--   PacketMgr        src/packetmgr.c: sending, answers, time-outs; Receive has
--                    a round of the receiving thread, Steps the step relation
--   Prot             src/prot_login.c, src/prot_im.c, src/prot_misc.c, src/prot_qun.c,
--                    src/prot_group.c, src/prot_user.c and src/prot_buddy.c: LoginSend, ImSend,
--                    QunSend, UserSend and BuddySend have the senders, LoginReply, ImReply, MiscReply,
--                    QunReply, GroupReply, UserReply, BuddyReply and BuddyEdit the replies, Text the
--                    strings of messages, and Handlers the `switch` of `process_packet` with all
--                    of them. Prot itself has the monad in which they are written: a reader of
--                    the packet's buffer that changes the session
--   Roster           src/buddy.c, src/group.c, src/qun.c
--   Config           src/config.c: the configuration file
--   Client           src/qqclient.c: login, logout, the keeper, events, with the senders of Prot;
--                    Requests has what its user asks for, Frame and Sends what a round of the
--                    keeper leaves alone
--
-- State is passed from call to call. Bytes and words are native natural numbers, with the
-- wrap-around of `unsigned` arithmetic written out; `none` is undefined behaviour in Packet, a
-- call that blocks for ever in PtrList and Roster, and either of them or an endless loop in Prot.
-- A pointer to a record is the record, and where pointers are compared, a number given at the
-- allocation. Each function that holds a mutex from its first to its last line is one step.
--
-- Fuel: a search or a move round a loop of n slots gets n rounds, and a round of the loop is
-- shorter than n; `flush_temp` gets the size of the loop that it empties; `batches` gets the
-- number of numbers left, and each round sends one at least; a loop over a packet of n bytes gets
-- n + 1 rounds, which a loop that reads a byte in each round does not use up. The theorems are
-- about these amounts. The cipher's loops count the bytes that are left.
--
-- Parameters: `qsort`, `sprintf`, `strcasecmp`, `strstr`, `atoi`, `atol`, the time, random
-- numbers and the result of the socket; what arrays on the stack hold; `http_request` of
-- src/util.c, `gb_to_utf8` of src/utf8.c, the MD5 of a string, `qqconn_connect` and
-- `qqconn_establish` of src/qqconn.c. The hypotheses on them are that `qsort` permutes, and that
-- connecting keeps the invariant of the packet manager, which posting a packet does.
--
-- The options LOGIN_WAIT, NO_IM, NO_QUN_INFO and NO_BUDDY_INFO of a build are taken as not set;
-- USE_RANDKEY is set, as src/prot_login.c sets it.
--
-- Not modelled: payloads of more than 4086 bytes, whose cipher runs over its array in
-- `post_packet`; two threads at once in `check_ready_packets`; failing allocations, logging,
-- threads, the texts of events and messages for the user, sockets, the file of a verifying
-- picture, most of src/util.c, src/utf8.c, src/crc32.c and src/memory.c, the front ends
-- (src/myqq.c, src/libqq.c, src/webqq.c), and the copies of MD5 and of the pthread headers.
pub mod Base
pub mod Packet
pub mod Loop
pub mod PtrList
pub mod Crypt
pub mod Prot
pub mod Protocol
pub mod Session
pub mod PacketMgr
pub mod Roster
pub mod Config
pub mod Client
