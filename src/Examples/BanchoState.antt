-- ===== src/Examples/BanchoState.antt =====
-- Runs of the bancho state service with the sessions of two users.
use peace.Base.{ℕ, zero, suc, ◌≤◌, ◌≡◌, arith, false, Option, none, some, List, [], ◌∷◌, ◌++◌}
use peace.Base.Keys.{nat_eq, text_eq}
use peace.BanchoState.Geoip.{RpcConnectionInfo, connection_info_from}
use peace.BanchoState.Session.{BanchoSession, new_extend}
use peace.BanchoState.Info.{Floats}
use peace.BanchoState.Queries.{
  convert_error, invalid_params, ok, err, RawUserQuery, raw_from, username,
}
use peace.BanchoState.Service.{
  Env, State, push_to, broadcast_bancho_packets, dequeue_at, enqueue_bancho_packets,
}
use peace.BanchoState.Service.Liveness.{
  Call, enqueue, broadcast, dequeue, run, step, AllSpare, broadcast-run-dequeue_at,
}
use peace.BanchoState.Service.Once.{dequeue_at-dequeue_at}
use peace.BanchoState.Service.Errors.{sends-Unchanged}
use peace.BanchoState.Service.Presences.{
  batch_send_presences, batch_send_user_stats_packet, send_all_presences, send_user_stats_packet,
}
use peace.Users.{by_user_id}

abbrev pub floats : Floats
floats = record { hundredth = λ n. n; as_i16 = λ n. n; as_f32 = λ n. n; checks = false }

abbrev from_text : List ℕ → Option ℕ
from_text [] = none
from_text (n ∷ ns) = some n

abbrev pub env : Env
env = record {
  floats = floats;
  ulids = record { from_str = from_text; to_string = λ n. n ∷ [] };
  sign = λ text. some text;
  verify = λ text signature. some (text_eq.beq text signature);
}

abbrev pub nowhere : RpcConnectionInfo
nowhere = record { ip = []; geoip_data = none }

abbrev pub session_of : ℕ → ℕ → List ℕ → BanchoSession
session_of id user_id name = record {
  base = record {
    id = id;
    user_id = user_id;
    username = name;
    username_unicode = none;
    privileges = 1;
    created_at = 0;
    last_active = 0;
  };
  extends = new_extend none [] 0 false false 1 (connection_info_from nowhere) 0 5;
}

abbrev sessions : ℕ → BanchoSession
sessions zero = session_of 21 7 (97 ∷ [])
sessions (suc n) = session_of 22 8 (98 ∷ [])

-- The users 7 and 8, at the addresses 0 and 1.
abbrev pub two_users : State
two_users = record {
  user_sessions = record {
    indexes = record {
      session_id = (21, 0) ∷ (22, 1) ∷ [];
      user_id = (7, 0) ∷ (8, 1) ∷ [];
      username = (97 ∷ [], 0) ∷ (98 ∷ [], 1) ∷ [];
      username_unicode = (97 ∷ [], 0) ∷ (98 ∷ [], 1) ∷ [];
    };
    len = 2;
  };
  sessions = sessions;
  next = 2;
  notify_queue = record { messages = [] };
}

-- The user 7 takes its packets, two packets are sent, and the user 8 still gets the first notice.
abbrev between : List Call
between = dequeue 0 ∷ broadcast 10 (6 ∷ []) ∷ enqueue 1 (3 ∷ []) ∷ []

young : (two_users.sessions 1).extends.notify_index ≤ 9
unfolding new_extend
young = omega arith

spared : AllSpare (broadcast_bancho_packets two_users 9 (4 ∷ [])) 1 9 between
unfolding step broadcast_bancho_packets dequeue_at
spared = (((λ p. ground arith), (λ p. ground arith)), ((λ p. ground arith), (tt, tt)))

broadcast-run-dequeue_at_example :
    (before after : List ℕ) × ((dequeue_at
        (run (broadcast_bancho_packets two_users 9 (4 ∷ [])) between)
        1).1
      ≡ ok (before ++ (4 ∷ []) ++ after))
broadcast-run-dequeue_at_example =
    broadcast-run-dequeue_at two_users 1 9 (4 ∷ []) between young spared

dequeue_at-dequeue_at_example :
    (dequeue_at (dequeue_at (push_to two_users 1 (3 ∷ [])) 1).0 1).1 ≡ ok []
dequeue_at-dequeue_at_example = dequeue_at-dequeue_at (push_to two_users 1 (3 ∷ [])) 1

abbrev busy : State
busy = broadcast_bancho_packets (push_to two_users 1 (3 ∷ [])) 9 (4 ∷ [])

-- A query without its value.
abbrev no_query : RawUserQuery
no_query = record { query_type = username; int_val = none; string_val = none }

abbrev query_8 : RawUserQuery
query_8 = raw_from env.ulids (by_user_id 8)

sends-Unchanged_example :
    ((batch_send_presences env two_users (query_8 ∷ no_query ∷ []) (some query_8)).1
        ≡ err (convert_error invalid_params)
      → (batch_send_presences env two_users (query_8 ∷ no_query ∷ []) (some query_8)).0 ≡ two_users)
    × ((batch_send_user_stats_packet env two_users (query_8 ∷ no_query ∷ []) (some query_8)).1
          ≡ err (convert_error invalid_params)
        → (batch_send_user_stats_packet env two_users (query_8 ∷ no_query ∷ []) (some query_8)).0
          ≡ two_users)
    × ((send_all_presences env two_users (some query_8)).1 ≡ err (convert_error invalid_params)
        → (send_all_presences env two_users (some query_8)).0 ≡ two_users)
    × ((send_user_stats_packet env two_users (some no_query) (some query_8)).1
          ≡ err (convert_error invalid_params)
        → (send_user_stats_packet env two_users (some no_query) (some query_8)).0 ≡ two_users)
    × ((enqueue_bancho_packets env two_users (some no_query) (3 ∷ [])).1
          ≡ err (convert_error invalid_params)
        → (enqueue_bancho_packets env two_users (some no_query) (3 ∷ [])).0 ≡ two_users)
sends-Unchanged_example =
    sends-Unchanged env two_users (query_8 ∷ no_query ∷ []) (some no_query) (some query_8) (3 ∷ [])
      (convert_error invalid_params)
