-- ===== src/PolicyEngine.antt =====
-- plugin/src/policy_engine.c: the policy in force, and its replacement.
pub mod Reload
use strongswan_plugin_vpn_cu.Base.{Bool, true, false, Option, none, some, if◌then◌else◌, Name}
use strongswan_plugin_vpn_cu.Env.{Env}
use strongswan_plugin_vpn_cu.FixedPool
use strongswan_plugin_vpn_cu.FixedPool.{FixedPool}
use strongswan_plugin_vpn_cu.YamlLoader.{Source, Loader, yaml_load_policy}

pub record Snapshot (env : Env) : Type 0 where
  pub fixed : FixedPool env
  pub pool_start : Option env.Host
  pub pool_end : Option env.Host

pub record PolicyEngine (env : Env) : Type 0 where
  pub active : Option (Snapshot env)
  pub path : Name

module _ (env : Env) where
  open env use {Host as H}

  -- A snapshot from what the loader returned.
  snapshot_of : Bool × Loader env → Option (Snapshot env)
  snapshot_of (false, l) = none
  snapshot_of (true, l) =
      some (record { fixed = l.fixed; pool_start = l.pool_start; pool_end = l.pool_end })

  -- `calloc_ok` says whether there is memory for the snapshot.
  unfoldable pub snapshot_load : Bool → Option Name → Source → Option (Snapshot env)
  unfolding snapshot_of
  snapshot_load calloc_ok path source =
      if calloc_ok
      then snapshot_of (yaml_load_policy env path source (FixedPool.fixed_pool_create env))
      else none

  lookup_in : Option (Snapshot env) → Option Name → Option H
  lookup_in none user = none
  lookup_in (some s) none = none
  lookup_in (some s) (some user) = FixedPool.lookup env (some user) s.fixed

  unfoldable pub lookup_fixed : PolicyEngine env → Option Name → Option H
  unfolding lookup_in
  lookup_fixed this user = lookup_in this.active user

  both : Option H → Option H → Option (H × H)
  both none end = none
  both (some start) none = none
  both (some start) (some end) = some (start, end)

  pool_of : Option (Snapshot env) → Option (H × H)
  unfolding both
  pool_of none = none
  pool_of (some s) = both s.pool_start s.pool_end

  -- The two end points, or FALSE.
  unfoldable pub get_pool : PolicyEngine env → Option (H × H)
  unfolding pool_of
  get_pool this = pool_of this.active

  pub swap : PolicyEngine env → Option (Snapshot env) → Bool × PolicyEngine env
  swap this none = (false, this)
  swap this (some fresh) = (true, record this { active = some fresh })

  unfoldable pub reload : Bool → Source → PolicyEngine env → Bool × PolicyEngine env
  unfolding swap
  reload calloc_ok source this = swap this (snapshot_load calloc_ok (some this.path) source)

  pub engine_of : Bool → Name → Option (Snapshot env) → Option (PolicyEngine env)
  engine_of calloc_ok path none = none
  engine_of calloc_ok path (some s) =
      if calloc_ok then some (record { active = some s; path = path }) else none

  -- The two flags are for the memory of the snapshot and of the engine.
  unfoldable pub policy_engine_create :
      Bool → Bool → Option Name → Source → Option (PolicyEngine env)
  unfolding engine_of
  policy_engine_create snapshot_ok calloc_ok none source = none
  policy_engine_create snapshot_ok calloc_ok (some path) source =
      engine_of calloc_ok path (snapshot_load snapshot_ok (some path) source)
