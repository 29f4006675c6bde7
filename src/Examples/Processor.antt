-- ===== src/Examples/Processor.antt =====
-- Runs of the calls of the bancho state service that pack packets, and of the processing of packets.
use peace.Base.{
  ◌≢◌, ℕ, zero, suc, ◌+◌, ◌==◌, ◌≤◌, ◌<◌, ◌^◌, ◌≡◌, ◌≢◌, refl, arith, Bool, true, false, Option,
  none, some, List, [], ◌∷◌, ◌++◌, map, length, All, Exec, done, panic,
}
use peace.Base.Keys.{nat_eq, text_eq}
use peace.Base.Ordered.{in_order}
use peace.Base.HashMap.{HashMap, get}
use peace.BanchoState.Info.{user_stats_packet, user_presence_packet, user_info_packets}
use peace.BanchoState.Queries.{ok, RawUserQuery, into_user_query, raw_from, query_from, success}
use peace.BanchoState.Service.{deref, Env, State, find, push_to, dequeue_at}
use peace.BanchoState.Service.Presences.{send_all_presences}
use peace.BanchoState.Service.Users.{
  CreateUserSessionRequest, CreateUserSessionResponse, Fresh, pending_packets,
}
use peace.BanchoState.Service.Calls.{create_user_session, check_user_token, changed}
use peace.BanchoState.Service.Login.{create_user_session-check_user_token}
use peace.BanchoState.Service.Targets.{except, values}
use peace.BanchoState.Service.Sent.{queued_at, send_all_presences-others}
use peace.Users.Store.Full.{IsFull}
use peace.Users.Store.Count.{Counted}
use peace.BanchoState.Service.Shards.{concat, IsShard, bundle_of, pending_packets-shards}
use peace.Examples.BanchoState.{env, floats, nowhere, two_users}
use peace.PacketsQueue.{Packet}
use peace.PacketsQueue.Flow.{joined}
use peace.Users.{by_user_id}
use peace.Users.Store.{get_inner}

abbrev ids : List ℕ
ids = 1 ∷ 2 ∷ 3 ∷ []

abbrev query_8 : RawUserQuery
query_8 = raw_from env.ulids (by_user_id 8)

abbrev unwrapped : Exec Packet → Packet
unwrapped panic = []
unwrapped (done p) = p

abbrev presences : ℕ → Packet
presences a = unwrapped (user_presence_packet floats (two_users.sessions a))

packed : (a : ℕ) → user_presence_packet floats (two_users.sessions a) ≡ done (presences a)
unfolding user_presence_packet peace.Packets.Server.user_presence
    peace.BanchoState.Session.new_extend peace.Packets.Items.packet
    peace.Packets.Uleb.u32_to_uleb128 peace.Base.slice?
packed zero = refl
packed (suc n) = refl

info_packet :
    user_info_packets floats (two_users.sessions 0)
    ≡ done (unwrapped (user_info_packets floats (two_users.sessions 0)))
unfolding user_info_packets user_presence_packet user_stats_packet
    peace.Packets.Server.user_presence peace.Packets.Server.user_stats
    peace.BanchoState.Info.mode_stats peace.BanchoState.Session.new_extend
    peace.Packets.Items.packet peace.Packets.Uleb.u32_to_uleb128 peace.Base.slice?
info_packet = refl

pending_packets-shards_example :
    (shards : List (List ℕ)) × (pending_packets floats (two_users.sessions 0) ids
      ≡ ok (unwrapped (user_info_packets floats (two_users.sessions 0)) ∷ map bundle_of shards))
    × (concat shards ≡ ids)
    × All (IsShard 512) shards
pending_packets-shards_example =
    pending_packets-shards floats (two_users.sessions 0) ids
      (unwrapped (user_info_packets floats (two_users.sessions 0))) info_packet

read_8 : into_user_query env.ulids query_8 ≡ ok (by_user_id 8)
unfolding into_user_query query_from raw_from
read_8 = refl

found_8 : find two_users (by_user_id 8) ≡ ok 1
unfolding find get_inner get
found_8 = refl

store_of_two-Counted : Counted (deref two_users) two_users.user_sessions
unfolding get
store_of_two-Counted = record {
  consistent = record {
    session_id = λ k s h. ground (arith, h);
    user_id = λ k s h. ground (arith, h);
    username = λ k s h. ground (arith, h);
    username_unicode = λ k s h. ground (arith, h);
  };
  one_entry = (refl, (refl, tt));
  count = refl;
}

store_of_two-IsFull : IsFull (deref two_users) two_users.user_sessions.indexes
unfolding get
store_of_two-IsFull k s h = ground (arith, h)

-- The user 8 gets the presence of the user 7.
send_all_presences-others_example :
    ((send_all_presences env two_users (some query_8)).1 ≡ ok success)
    × ((send_all_presences env two_users (some query_8)).0.sessions 1
        ≡ queued_at (two_users.sessions 1) (
            joined (
              map presences
                (except 1 (values (in_order two_users.user_sessions.indexes.user_id))))))
    × ((b : ℕ)
        → b ≢ 1
        → (send_all_presences env two_users (some query_8)).0.sessions b ≡ two_users.sessions b)
    × ((send_all_presences env two_users (some query_8)).0.user_sessions ≡ two_users.user_sessions)
    × ((send_all_presences env two_users (some query_8)).0.notify_queue ≡ two_users.notify_queue)
send_all_presences-others_example =
    send_all_presences-others env two_users query_8 (by_user_id 8) 1 presences store_of_two-Counted
      store_of_two-IsFull (λ id. refl) read_8 found_8 tt packed

abbrev fresh : Fresh
fresh = record { session_id = 23; notify_index = 6; notice_id = 7; created_at = 0; now = 0 }

abbrev request : CreateUserSessionRequest
request = record {
  user_id = 9;
  username = 99 ∷ [];
  username_unicode = none;
  privileges = 1;
  client_version = [];
  utc_offset = 8;
  display_city = false;
  only_friend_pm_allowed = false;
  bancho_privileges = 1;
  connection_info = some nowhere;
  country_code = 0;
}

-- The user id and the session id, with a dot between them, as text and as its own signature.
abbrev response : CreateUserSessionResponse
response = record { session_id = 23 ∷ []; signature = 57 ∷ 46 ∷ 23 ∷ [] }

created : (create_user_session env two_users fresh request).1 ≡ ok response
unfolding create_user_session peace.BanchoState.Service.Users.create_session
    peace.Packets.Server.Sessions.user_presence_single peace.Packets.Items.packet
    peace.BanchoState.Service.Users.pending_packets peace.BanchoState.Info.user_info_packets
    peace.Packets.Server.user_stats peace.BanchoState.Service.Users.new_session
    peace.Packets.Server.user_presence peace.Packets.Uleb.u32_to_uleb128 peace.Base.slice?
    peace.Users.Store.create peace.Users.Store.add_session peace.Base.HashMap.insert
    peace.Users.Store.without_prev get_inner get peace.BanchoState.Service.Users.store_session
    peace.BanchoState.Service.Calls.respond peace.Packets.Server.Sessions.user_presence_bundle
    peace.BanchoState.Token.encode_content in_order
created = refl

accepts :
    (text signature : List ℕ)
    → env.sign text ≡ some signature
    → env.verify text signature ≡ some true
accepts text signature h = ground (arith, text_eq.beq_iff text signature, h)

create_user_session-check_user_token_example :
    (response.session_id ≡ env.ulids.to_string fresh.session_id)
    × ((check_user_token env
          (create_user_session env two_users fresh request).0
          5
          (record { user_id = 9; session_id = 23; signature = response.signature })).1
        ≡ ok true)
create_user_session-check_user_token_example =
    create_user_session-check_user_token env two_users fresh request response 5 accepts created
