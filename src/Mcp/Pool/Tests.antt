-- ===== src/Mcp/Pool/Tests.antt =====
-- Runs of the pool, and its theorems at a pool of one endpoint.
use orbitproxy_go.Prelude.{
  ℕ, ◌+◌, ◌-◌, ◌^◌, ◌≤◌, ◌≡◌, ◌⊎◌, refl, Bool, true, false, Text, codes, [], ◌∷◌, none, some, pos,
  negsuc, text_Eq, text_eq, lookup, delete, insert, length, arith,
}
use orbitproxy_go.Mcp.SpawnConfig.{SpawnConfig, SessionConfig, config_changed}
use orbitproxy_go.Mcp.Pool.{
  Pool, PoolConfig, Session, Flight, new_pool, count_of, register_endpoint, unregister_endpoint,
  found, wait, create, create_config, stopped_error, begin_create, join_or_create, get_or_create,
  finish_create, close_all, session_count,
}
use orbitproxy_go.Mcp.Pool.Steps.{Step, Reach, here, next, global_count-exact}
use orbitproxy_go.Mcp.Pool.Endpoints.{present}
use orbitproxy_go.Mcp.Pool.Endpoints.Quiet.{QuietStep, QuietReach, ep_count-exact}
use orbitproxy_go.Mcp.Pool.Single.{start, then_step, get_or_create_single}
use orbitproxy_go.Mcp.Pool.Races.{
  unregister_misses_flight, unregister_then_failure, register_misses_flight, close_all_lem,
  close_all_misses_flight,
}

abbrev spawn_of : Text → SpawnConfig
spawn_of command = record {
  command = command;
  args = [];
  work_dir = [];
  env = [];
  env_passthrough = [];
  family_key = [];
  requires_env_file = false;
  preflight_env = [];
}

abbrev session_config : Text → SessionConfig
session_config command = record {
  spawn = spawn_of command;
  handshake_timeout = pos 0;
  request_timeout = pos 0;
  endpoint_id = codes "ep";
  machine_dir = [];
  pid_file = [];
}

abbrev defaults : PoolConfig
defaults = record {
  max_sessions_per_endpoint = pos 0;
  max_global_processes = negsuc 4;
  idle_timeout = pos 0;
  pid_file = [];
  machine_dir = codes "/m";
}

abbrev ep : Text
ep = codes "ep"

abbrev all_alive : ℕ → Bool
all_alive n = true

-- `ep` is registered, and a create for it is in flight.
registered : Pool
registered = register_endpoint ep (session_config (codes "npx")) (new_pool defaults)

flying : Pool
flying = (get_or_create all_alive ep ep registered).0

abbrev flight : Flight
flight = record {
  endpoint_id = ep;
  cfg = record (session_config (codes "npx")) { machine_dir = codes "/m" };
}

abbrev session : Session
session = record { id = 7; cfg = flight.cfg }

flying_at : lookup ep flying.creating ≡ some flight
unfolding flying registered new_pool register_endpoint get_or_create join_or_create begin_create
    count_of create_config lookup insert delete text_eq
flying_at = refl

flying_runs : flying.stopped ≡ false
unfolding flying registered new_pool register_endpoint get_or_create join_or_create begin_create
    count_of create_config lookup insert delete text_eq
flying_runs = refl

flying_counts :
    (flying.global_count ≡ 1) × (count_of ep flying.ep_count ≡ 1) × (session_count flying ≡ 0)
unfolding flying registered new_pool register_endpoint get_or_create join_or_create begin_create
    count_of create_config lookup insert delete text_eq session_count
flying_counts = (refl, refl, refl)

new_pool_limit : (new_pool defaults).max_global ≡ 32
unfolding new_pool
new_pool_limit = refl

flying-Reach : Reach (new_pool defaults) flying
unfolding flying registered
flying-Reach =
    next (next here (Step.register ep (session_config (codes "npx")))) (Step.get all_alive ep ep)

global_count-exact_example :
    (flying.global_count ≡ length flying.sessions + length flying.creating + length flying.closing)
    × (length flying.sessions + length flying.creating + length flying.closing ≤ flying.max_global)
global_count-exact_example =
    global_count-exact defaults flying (omega (arith, new_pool_limit)) flying-Reach

none_creating : lookup ep (new_pool defaults).creating ≡ none
unfolding new_pool lookup
none_creating = refl

flying-QuietReach : QuietReach (new_pool defaults) flying
unfolding flying registered
flying-QuietReach =
    QuietReach.next
      (QuietReach.next QuietReach.here
        (QuietStep.register ep (session_config (codes "npx")) none_creating))
      (QuietStep.get all_alive ep)

ep_count-exact_example :
    (count_of ep flying.ep_count
      ≡ present (lookup ep flying.sessions) + present (lookup ep flying.creating))
    × (present (lookup ep flying.sessions) + present (lookup ep flying.creating) ≤ 1)
ep_count-exact_example = ep_count-exact defaults flying ep flying-QuietReach

registered-Reach : Reach (new_pool defaults) registered
unfolding registered
registered-Reach = next here (Step.register ep (session_config (codes "npx")))

flying_begins : (get_or_create all_alive ep ep registered).1 ≡ create flight.cfg
unfolding registered new_pool register_endpoint get_or_create join_or_create begin_create count_of
    create_config lookup insert delete text_eq
flying_begins = refl

-- While the create runs, its endpoint is removed, and another create is begun under another key.
abbrev elsewhere : Pool
elsewhere =
    (get_or_create all_alive (codes "other") ep
      (unregister_endpoint ep (get_or_create all_alive ep ep registered).0)).0

get_or_create_single_example :
    ((elsewhere.stopped ≡ true)
      × (get_or_create all_alive ep ep elsewhere ≡ (elsewhere, stopped_error)))
    ⊎ ((elsewhere.stopped ≡ false)
        × (get_or_create all_alive ep ep elsewhere ≡ (elsewhere, wait flight)))
get_or_create_single_example =
    get_or_create_single defaults all_alive all_alive ep ep ep flight.cfg
      (omega (arith, new_pool_limit)) registered-Reach flying_begins
      (then_step (then_step start (Step.unregister ep) tt) (Step.get all_alive (codes "other") ep)
        tt)

unregister_misses_flight_example :
    let q = finish_create ep ep (some session) (unregister_endpoint ep flying) in
    (lookup ep q.configs ≡ none) × (get_or_create all_alive ep ep q ≡ (q, found session))
unregister_misses_flight_example =
    unregister_misses_flight all_alive ep ep flight session flying flying_runs flying_at refl

unregister_then_failure_test :
    count_of ep (finish_create ep ep none (unregister_endpoint ep flying)).ep_count ≡ 2 ^ 64 - 1
unregister_then_failure_test = unregister_then_failure ep ep flying

uvx_differs : config_changed flight.cfg.spawn (spawn_of (codes "uvx")) ≡ true
unfolding config_changed text_eq
uvx_differs = refl

register_misses_flight_test :
    let q =
      finish_create ep ep
        (some session)
        (register_endpoint ep (session_config (codes "uvx")) flying) in
    (lookup ep q.configs ≡ some (session_config (codes "uvx")))
    × (get_or_create all_alive ep ep q ≡ (q, found session))
    × (config_changed session.cfg.spawn (spawn_of (codes "uvx")) ≡ true)
register_misses_flight_test =
    register_misses_flight all_alive ep ep flight (session_config (codes "uvx")) session flying
      flying_runs flying_at uvx_differs refl refl

no_sessions : flying.sessions ≡ []
unfolding flying registered new_pool register_endpoint get_or_create join_or_create begin_create
    count_of create_config lookup insert delete text_eq
no_sessions = refl

abbrev served : Pool
served = finish_create ep ep (some session) flying

served_sessions : served.sessions ≡ (ep, session) ∷ []
unfolding finish_create insert
served_sessions = rw no_sessions (unfold delete in refl)

close_all_test :
    let q = close_all served in
    (q.sessions ≡ [])
    × (length q.closing ≡ length served.sessions + length served.closing)
    × (q.ep_count ≡ [])
    × (get_or_create all_alive ep ep q ≡ (q, stopped_error))
close_all_test =
    close_all_lem all_alive ep ep served (rw served_sessions (unfold lookup in (refl, tt)))

close_all_misses_flight_example :
    let q = finish_create ep ep (some session) (close_all flying) in
    (lookup ep q.sessions ≡ some session) × (get_or_create all_alive ep ep q ≡ (q, stopped_error))
close_all_misses_flight_example =
    close_all_misses_flight all_alive ep ep ep ep flight session flying flying_at
