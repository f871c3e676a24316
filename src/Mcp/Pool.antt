-- ===== src/Mcp/Pool.antt =====
-- internal/mcp/mcpstdio/pool.go: the pool of stdio sessions. Each section between Lock and Unlock is
-- one function. The work that a goroutine still has to do is part of the state: a create that is in
-- flight stands in `creating` with the locals of its goroutine, a Close that gives its place back
-- only when it is done stands in `closing`, and one that has given it back stands in `retired`.
-- Whether a session is alive and when it was last active is up to its process: `alive` and
-- `last_activity` are arguments.
pub mod Invariant
pub mod Create
pub mod Steps
pub mod Endpoints
pub mod Races
pub mod Single
mod Tests
use orbitproxy_go.Prelude.{
  ℕ, zero, suc, ◌+◌, ◌-◌, ◌*◌, ℤ, pos, negsuc, non_positive, pos_part, Bool, true, false, not, ◌||◌,
  Text, text_eq, List, [], ◌∷◌, ◌++◌, Option, none, some, Dict, text_Eq, text_Eq, lookup, delete,
  insert, length, ltb, if◌then◌else◌, inc_int, dec_int, inc_int32, dec_int32, int_non_positive,
  int_at_least, int32_at_least, ◌==◌,
}
use orbitproxy_go.Mcp.SpawnConfig.{SpawnConfig, SessionConfig, config_changed}

pub record PoolConfig : Type 0 where
  pub max_sessions_per_endpoint : ℤ
  pub max_global_processes : ℤ
  pub idle_timeout : ℤ
  pub pid_file : Text
  pub machine_dir : Text

-- A *Session: which one it is, and the configuration that it was started with.
pub record Session : Type 0 where
  pub id : ℕ
  pub cfg : SessionConfig

-- A *createFlight, with the endpoint and the configuration that its creator works with.
pub record Flight : Type 0 where
  pub endpoint_id : Text
  pub cfg : SessionConfig

-- The limits of `cfg` after NewPool: positive numbers.
pub record Pool : Type 0 where
  pub sessions : Dict Session
  pub creating : Dict Flight
  pub ep_count : Dict ℕ
  pub configs : Dict SessionConfig
  pub global_count : ℕ
  pub max_sessions : ℕ
  pub max_global : ℕ
  pub idle_timeout : ℕ
  pub pid_file : Text
  pub machine_dir : Text
  pub stopped : Bool
  pub closing : List Session
  pub retired : List Session

abbrev pub second : ℕ
second = 1_000_000_000

abbrev or_default : ℤ → ℕ → ℕ
or_default n d = if non_positive n then d else pos_part n

unfoldable pub new_pool : PoolConfig → Pool
new_pool cfg = record {
  sessions = [];
  creating = [];
  ep_count = [];
  configs = [];
  global_count = 0;
  max_sessions = or_default cfg.max_sessions_per_endpoint 8;
  max_global = or_default cfg.max_global_processes 32;
  idle_timeout = or_default cfg.idle_timeout (300 * second);
  pid_file = cfg.pid_file;
  machine_dir = cfg.machine_dir;
  stopped = false;
  closing = [];
  retired = [];
}

-- epCount[e], where a missing key reads as 0
unfoldable pub count_of : Text → Dict ℕ → ℕ
count_of e m = elim (lookup e m) [ none ↦ 0 | some n ↦ n ]

-- epCount[e]--, and the entry goes when nothing is left
unfoldable pub release_place : Text → Dict ℕ → Dict ℕ
release_place e m =
    let n = dec_int (count_of e m) in if int_non_positive n then delete e m else insert e n m

-- The sessions of an endpoint, and the others.
unfoldable pub sessions_of : Text → Dict Session → List Session
sessions_of e [] = []
sessions_of e ((k, s) ∷ m) =
    let rest = sessions_of e m in if text_eq s.cfg.endpoint_id e then s ∷ rest else rest

unfoldable pub other_sessions : Text → Dict Session → Dict Session
other_sessions e [] = []
other_sessions e ((k, s) ∷ m) =
    let rest = other_sessions e m in if text_eq s.cfg.endpoint_id e then rest else (k, s) ∷ rest

-- closeEndpointSessionsLocked
unfoldable pub close_endpoint_sessions : Text → Pool → Pool
close_endpoint_sessions e p = record p {
  sessions = other_sessions e p.sessions;
  ep_count = delete e p.ep_count;
  closing = sessions_of e p.sessions ++ p.closing;
}

-- removeSessionLocked
unfoldable pub remove_session : Text → Text → Pool → Pool
remove_session key e p = elim (lookup key p.sessions) [
  | none ↦ p
  | some s ↦ record p {
    sessions = delete key p.sessions;
    ep_count = release_place e p.ep_count;
    global_count = dec_int32 p.global_count;
    retired = s ∷ p.retired;
  }
]

unfoldable pub register_endpoint : Text → SessionConfig → Pool → Pool
register_endpoint e cfg p =
    let q : Pool = record p { configs = insert e cfg p.configs } in
    elim (lookup e p.configs) [
      | none ↦ q
      | some old ↦ if config_changed old.spawn cfg.spawn then close_endpoint_sessions e q else q
    ]

unfoldable pub unregister_endpoint : Text → Pool → Pool
unregister_endpoint e p = close_endpoint_sessions e (record p { configs = delete e p.configs })

-- What the first section of GetOrCreate decides.
pub data Decision : Type 0 where
  stopped_error global_limit endpoint_limit not_registered : Decision
  found : Session → Decision
  wait : Flight → Decision
  create : SessionConfig → Decision

-- The configuration that a create uses.
unfoldable pub create_config : Pool → Text → SessionConfig → SessionConfig
create_config p e cfg = record cfg {
  pid_file = p.pid_file;
  endpoint_id = e;
  machine_dir = if text_eq cfg.machine_dir [] then p.machine_dir else cfg.machine_dir;
}

-- The end of that section, with no session and no flight at the key: the limits, the configuration,
-- and the places that are taken in advance.
unfoldable pub begin_create : Text → Text → Pool → Pool × Decision
begin_create key e p =
    if int32_at_least p.global_count p.max_global
    then (p, global_limit)
    else if int_at_least (count_of e p.ep_count) p.max_sessions
    then (p, endpoint_limit)
    else elim (lookup e p.configs) [
      | none ↦ (p, not_registered)
      | some cfg ↦ (
        record p {
          creating =
              insert key (record { endpoint_id = e; cfg = create_config p e cfg }) p.creating;
          ep_count = insert e (inc_int (count_of e p.ep_count)) p.ep_count;
          global_count = inc_int32 p.global_count;
        },
        create (create_config p e cfg),
      )
    ]

unfoldable pub join_or_create : Text → Text → Pool → Pool × Decision
join_or_create key e p = elim (lookup key p.creating) [
  | some flight ↦ (p, wait flight)
  | none ↦ begin_create key e p
]

-- One round of GetOrCreate up to the point where it unlocks.
unfoldable pub get_or_create : (ℕ → Bool) → Text → Text → Pool → Pool × Decision
get_or_create alive key e p =
    if p.stopped then (p, stopped_error) else elim (lookup key p.sessions) [
      | some s ↦ if alive s.id then (p, found s) else join_or_create key e (remove_session key e p)
      | none ↦ join_or_create key e p
    ]

-- The last section of GetOrCreate: `none` is a failed NewSession.
unfoldable pub finish_create : Text → Text → Option Session → Pool → Pool
finish_create key e none p =
    let n = dec_int (count_of e p.ep_count) in
    record p {
      creating = delete key p.creating;
      ep_count = if n == 0 then delete e p.ep_count else insert e n p.ep_count;
      global_count = dec_int32 p.global_count;
    }
finish_create key e (some s) p = record p {
  creating = delete key p.creating;
  sessions = insert key s p.sessions;
}

-- What a caller that waited for a flight does with its outcome; `none` is another round.
unfoldable pub after_wait : (ℕ → Bool) → Option Session → Option (Option Session)
after_wait alive none = some none
after_wait alive (some s) = if alive s.id then some (some s) else none

unfoldable pub invalidate : Text → Pool → Pool
invalidate key p = elim (lookup key p.sessions) [
  | none ↦ p
  | some s ↦ remove_session key s.cfg.endpoint_id p
]

-- A Close that gives its place back afterwards has ended: of closeEndpointSessionsLocked, and of
-- CloseAll.
unfoldable pub close_done : List Session → List Session → Pool → Pool
close_done before after p = record p {
  closing = before ++ after;
  global_count = dec_int32 p.global_count;
}

-- CloseAll: the stop, the section for one key, and the end.
unfoldable pub stop_pool : Pool → Pool
stop_pool p = record p { stopped = true }

unfoldable pub close_all_key : Text → Pool → Pool
close_all_key key p = elim (lookup key p.sessions) [
  | none ↦ p
  | some s ↦ record p { sessions = delete key p.sessions; closing = s ∷ p.closing }
]

unfoldable pub reset_counts : Pool → Pool
reset_counts p = record p { ep_count = [] }

unfoldable pub keys_of : Dict Session → List Text
keys_of [] = []
keys_of ((k, s) ∷ m) = k ∷ keys_of m

unfoldable pub close_all_keys : List Text → Pool → Pool
close_all_keys [] p = p
close_all_keys (k ∷ ks) p = close_all_keys ks (close_all_key k p)

-- CloseAll with nobody between its sections.
unfoldable pub close_all : Pool → Pool
close_all p = reset_counts (close_all_keys (keys_of p.sessions) (stop_pool p))

-- reapIdle: the keys to close, and the section for one of them.
unfoldable pub reap_keys : (ℕ → Bool) → (ℕ → ℕ) → ℕ → ℕ → Dict Session → List Text
reap_keys alive last_activity now timeout [] = []
reap_keys alive last_activity now timeout ((k, s) ∷ m) =
    let rest = reap_keys alive last_activity now timeout m in
    if not (alive s.id) || ltb timeout (now - last_activity s.id) then k ∷ rest else rest

unfoldable pub reap_key : Text → Pool → Pool
reap_key key p = elim (lookup key p.sessions) [
  | none ↦ p
  | some s ↦ record p {
    sessions = delete key p.sessions;
    ep_count = release_place s.cfg.endpoint_id p.ep_count;
    global_count = dec_int32 p.global_count;
    retired = s ∷ p.retired;
  }
]

unfoldable pub session_count : Pool → ℕ
session_count p = length p.sessions
