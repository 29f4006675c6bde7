-- ===== src/Lib.antt =====
-- A verification library for Peace, an osu! bancho server written in Rust.
--
-- The parts of the program that are modelled, and how they interact: a client sends a buffer of
-- packets, which the bancho service splits by a PacketReader and processes one after the other. The
-- payload of a packet is read by a PayloadReader. The answers are packets that `packet!` writes and a
-- PacketBuilder joins. Sessions stand in a UserStore under four keys. What other users have to be told
-- waits in the PacketsQueue of a session, and what a whole channel or everyone has to be told in a
-- message queue, from which each session receives what it has not read. The bancho state service joins
-- the three: its calls create, change and delete sessions, put packets in their queues and notices in
-- the message queue, and take both out for a user who asks. A packet of a client is processed by a call
-- of this service or of the chat service. The chat service keeps channels and sessions of its own; a
-- channel and the session of a user who joined it each have an entry for the other. A message to a
-- channel waits in the channel's message queue until the users of the channel ask for it.
--
-- Which file models what (paths from the root of the repository):
--   Packets/Ids          PacketId, in lib/bancho-packets/src/lib.rs
--   Packets/Uleb         u32_to_uleb128 and uleb128_to_u32, in the same file
--   Packets/Reader       PayloadReader and BanchoPacketRead, in the same file
--   Packets/Items        BanchoPacketWrite, BanchoPacketLength, data! and packet!, in the same file
--   Packets/Frames       PacketReader, in the same file
--   Packets/Builder      PacketBuilder, in the same file
--   Packets/Structs      the structures that are read from clients, with the packets of
--                        lib/bancho-packets/src/client.rs that carry them
--   Packets/Server       the packets of lib/bancho-packets/src/server.rs
--   Packets/Words, Utf8  little-endian words and str::from_utf8 of the Rust library
--   Bancho/Batch         batch_process_bancho_packets, in
--                        core/services/bancho/src/services/bancho/service.rs
--   Bancho/Processor     process_bancho_packet, in the same file, and its handlers, in
--                        packet_processor.rs beside it
--   BanchoState/Enums, Token
--                        core/domain/bancho/src/lib.rs: the enums of a status, and the client's token
--   BanchoState/Geoip    core/domain/{geoip,bancho_state}/src/lib.rs: places and connections
--   BanchoState/Session, Info
--                        core/services/bancho_state/src/components.rs: a session and its packets
--   BanchoState/Queries  core/pb/modules/bancho_state/src/lib.rs: queries for users
--   BanchoState/Service  core/services/bancho_state/src/services/{bancho_state,user_sessions,traits}.rs
--   MessageQueue         lib/message_queue/src/lib.rs
--   Users                core/infra/users/src/sessions.rs
--   Users/Store          core/infra/users/src/users_store.rs
--   Chat, Chat/Channels, Chat/Membership
--                        core/services/chat/src/components.rs: channels and their users
--   Chat/Queries         core/pb/modules/chat/src/lib.rs: queries for channels and targets
--   Chat/Service         core/services/chat/src/services/chat.rs: its calls, and what they promise
--   Chat/Snapshot        its snapshot, in the same two files
--   Chat/Recycle         core/services/chat/src/services/background.rs: the recycling of sessions and
--                        channel messages
--   Recycle              core/services/bancho_state/src/services/background.rs: the recycling of
--                        user sessions and of notices
--   PacketsQueue         core/infra/packets/src/queue.rs
--   Base                 what the modules share: tests, lists, maps, sets, and calls that may panic
--   Examples             the theorems at concrete inputs
--
-- How the code is modelled. A byte is a number below 256, a text is a list of bytes, and an integer of
-- w bits is the number of its bits, with `% 2 ^ w` written where the code wraps around. A call that
-- may panic returns an `Exec`. The parameter `checks` says whether the build has overflow checks. A
-- method that changes its object takes and returns the object; a method is one
-- step. The sessions of a service are shared by their four indexes, and the channels of the chat by three, so
-- the indexes hold addresses, and the state maps an address to what is there: a change under one key is
-- seen under all. A weak pointer is an address, and it is alive while an index holds the address. A
-- validator of a notice asks whether its session is still in the store at the time of the call. What
-- the system gives a call (an id, the time, the answer of the signature service) is an argument. A BTreeMap is a list in the order of its keys where the order matters and an association list
-- where not; a HashSet is a list without doubles. A Ulid is a number.
--
-- Fuel and bounds. The loop of batch_process_bancho_packets has one round for each byte of the buffer
-- and one more, which is enough, since each packet takes seven bytes at least. The encoder of ULEB128
-- has five rounds, which is enough for 32 bits. The ids of the users online are cut into shards with the length
-- of the list as fuel, and ten rounds are enough for the digits of an i32. All other loops go over a
-- list.
--
-- What is not modelled: logs, times and runtime; floats, but for their bits; the files of snapshots;
-- login, the gateway, the database and configuration; the RPC between services, so that the processing
-- of packets takes the calls of the chat service, which may run elsewhere, as a record;
-- get_all_sessions, which is JSON. A call is one step also where the code lets
-- others come between: UserStore::create adds to the count after its lock is released, and the model
-- has the state after both; receive_messages holds the queue's lock for reading only, and the model has
-- calls that do not overlap. The recycling of sessions takes the lock of the store twice: Recycle has a
-- round without another caller in between and, as a theorem of its own, one with a login there. The
-- order in which a HashMap gives its entries is that of the list; the packets about channels come in it.
-- The ids and presences of the users online come in the order of the user ids, as i32s (Base.Ordered).
-- A call that waits for a lock that it holds itself has an end of its own, `blocked`: the RwLock of
-- tokio is a parameter of logout, of which it is assumed that a free lock is given to a writer and one
-- that is read is not.
mod Base
pub mod Packets
pub mod Bancho
pub mod MessageQueue
pub mod Users
pub mod Examples
pub mod PacketsQueue
pub mod Chat
pub mod Recycle
pub mod BanchoState
