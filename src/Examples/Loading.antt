-- ===== src/Examples/Loading.antt =====
-- The plugin at concrete inputs: it is loaded, registered, unregistered and destroyed.
use mathlib.Core.Option.{some-injective}
use strongswan_plugin_vpn_cu.Base.{
  ℕ, ◌+◌, ◌-◌, ◌^◌, ◌<◌, ◌≡◌, refl, false, true, Bool, Option, none, some, inl, ok, Returns, arith,
  ap, sym,
}
use strongswan_plugin_vpn_cu.Examples.World.{
  world, TestHost, fresh, fresh-IsConsistent, ab, hosts, peer,
}
use strongswan_plugin_vpn_cu.Hashtable.Assoc.{assoc_table}
use strongswan_plugin_vpn_cu.EventListener.{event_listener_create}
use strongswan_plugin_vpn_cu.FixedPool
use strongswan_plugin_vpn_cu.Host.{host_to_u32}
use strongswan_plugin_vpn_cu.IpAllocator.Lifecycle.{ip_allocator_create, ip_allocator_destroy}
use strongswan_plugin_vpn_cu.PolicyEngine.{
  PolicyEngine, policy_engine_create, get_pool, snapshot_load,
}
use strongswan_plugin_vpn_cu.Plugin.Create.{create-Outcome, Outcome}
use strongswan_plugin_vpn_cu.YamlLoader.{
  Source, event, stream_end, failed, yaml_load_policy, load_events,
}
use strongswan_plugin_vpn_cu.Plugin.{
  Plugin, Settings, Instance, freed, plugin_ref, plugin_unref, plugin_destroy_internal, destroy,
  initial, user_policy_plugin_create,
}
use strongswan_plugin_vpn_cu.Plugin.Ending.{
  Runs-Move, Runs-freed, JobMove-pending, pending, IsStopped,
}
use strongswan_plugin_vpn_cu.Plugin.Life.{IsWhole, IsEmpty, IsSound}
use strongswan_plugin_vpn_cu.Plugin.Moves.{Move-IsSound}
use strongswan_plugin_vpn_cu.Plugin.System.{
  System, Move, here, next, loaded, registered, unloaded, entering, job, plugin_cb, unload,
  enter_job, serve, served, updown,
}
use strongswan_plugin_vpn_cu.SessionManager.{
  SessionManager, session_manager_destroy, session_manager_create,
}

-- A plugin with the allocator that is given.
abbrev plugin : ℕ → Bool → Plugin world
plugin refcnt terminating = record {
  refcnt = refcnt;
  terminating = terminating;
  policy = some fresh.policy;
  allocator = some fresh;
  listener = some (record { allocator = tt });
  policy_path = ab;
  pool_name = ab;
  lease_timeout = 3600;
  sweep_interval = 60;
}

plugin-IsWhole : (refcnt : ℕ) (terminating : Bool) → IsWhole world (plugin refcnt terminating)
plugin-IsWhole refcnt terminating = record {
  a = fresh;
  allocator = refl;
  policy = refl;
  consistent = fresh-IsConsistent;
}

abbrev defaults : Settings
defaults = record { ns = ab; get_str = λ key def. def; get_int = λ key def. def }

-- A policy file with nothing in it.
abbrev empty_policy : Source
empty_policy = record { opens = true; initialises = true; feed = event stream_end failed }

abbrev engine : Option (PolicyEngine world)
engine =
    policy_engine_create world true true (some (initial world defaults).policy_path) empty_policy

no_range :
    (made : PolicyEngine world) (start end : TestHost)
    → engine ≡ some made
    → get_pool world made ≡ some (start, end)
    → host_to_u32 hosts end < host_to_u32 hosts start + (2 ^ 32 - 8)
unfolding policy_engine_create snapshot_load yaml_load_policy load_events get_pool
no_range made start end e pool =
    let same = ap (get_pool world) (some-injective _ made e) in absurd (cc)

abbrev empty_engine : PolicyEngine world
empty_engine = record {
  active =
      some
        (record { fixed = FixedPool.fixed_pool_create world; pool_start = none; pool_end = none });
  path = (initial world defaults).policy_path;
}

-- What the constructor makes of that file.
abbrev new_plugin : Plugin world
new_plugin = record (initial world defaults) {
  policy = some empty_engine;
  allocator = some (record {
    policy = empty_engine;
    dyn = none;
    sessions = session_manager_create world;
    pool_name = (initial world defaults).pool_name;
    lease_timeout = 3600;
  });
  listener = some (record { allocator = tt });
}

created :
    user_policy_plugin_create world true true true true true defaults empty_policy
    ≡ ok (some new_plugin)
unfolding user_policy_plugin_create policy_engine_create snapshot_load yaml_load_policy load_events
    get_pool initial ip_allocator_create event_listener_create
created = refl

abbrev registered_once : System world
registered_once = record (loaded world (record new_plugin { refcnt = 2 })) {
  featured = true;
  provider = true;
  listener = true;
  queued = 1;
}

registers : Move world (loaded world new_plugin) (ok registered_once)
unfolding plugin_cb plugin_ref initial
registers = registered true true refl refl refl

Runs-Move_example :
    (t : System world) × (serve world (updown (some (peer ab 7)) false) registered_once ≡ ok t)
Runs-Move_example =
    Runs-Move world true true true true true defaults empty_policy no_range new_plugin created
      (next here registers) (serve world (updown (some (peer ab 7)) false) registered_once)
      (served (updown (some (peer ab 7)) false) refl tt refl)

destroyed :
    unload world (loaded world new_plugin)
    ≡ ok (record (loaded world new_plugin) {
      plugin = freed (some (session_manager_create world));
      held = false;
    })
unfolding unload destroy plugin_unref plugin_destroy_internal ip_allocator_destroy
    session_manager_destroy session_manager_create assoc_table initial
destroyed = refl

Runs-freed_example :
    (left : Option (SessionManager world)) × (◌≡◌ {A = Instance world}
      (freed (some (session_manager_create world)))
      (freed left))
    × IsEmpty world left
    × (◌≡◌ {A = Bool} false false)
    × (◌≡◌ {A = Bool} false false)
Runs-freed_example =
    Runs-freed world true true true true true defaults empty_policy no_range new_plugin created
      (next here (unloaded refl refl (sym destroyed))) refl refl

-- The plugin is unregistered, and one job is queued.
abbrev stopped : System world
stopped = record (loaded world (plugin 2 true)) { queued = 1 }

stopped-IsSound : IsSound world stopped
stopped-IsSound = (
  (refl, omega arith, plugin-IsWhole 2 true),
  record { provider = refl; listener = refl; loader = inl refl },
)

Move-IsSound_example : Returns (enter_job world stopped) (IsSound world)
Move-IsSound_example =
    Move-IsSound world stopped stopped-IsSound (enter_job world stopped)
      (job (entering (omega arith) refl))

JobMove-pending_example :
    Returns
      (enter_job world stopped)
      (λ t. (pending world t < pending world stopped) × IsStopped world t.plugin)
JobMove-pending_example =
    JobMove-pending world stopped stopped-IsSound refl (enter_job world stopped)
      (entering (omega arith) refl)

create-Outcome_example :
    Returns
      (user_policy_plugin_create world true true true true true defaults empty_policy)
      (Outcome world engine true true)
create-Outcome_example =
    create-Outcome world true true true true true defaults empty_policy no_range
