-- ===== src/Storage/Engine.antt =====
-- The memory of plugin/src/policy_engine.c: the engine, its path, and the snapshot of the policy.
pub mod Snapshots
pub mod Engines
pub mod Lifetime
pub mod Lent
use strongswan_plugin_vpn_cu.Base.{
  Bool, true, false, Option, none, some, List, [], ◌∷◌, if◌then◌else◌, Name, Run, ok, ◌>>=◌,
}
use strongswan_plugin_vpn_cu.Env.{Ptr}
use strongswan_plugin_vpn_cu.Host.{HostLib}
use strongswan_plugin_vpn_cu.Storage.{Storage, malloc, free, free_option}
use strongswan_plugin_vpn_cu.Storage.Fixed.{
  KeyTable, FixedPool, lookup_option, fixed_pool_create, fixed_pool_destroy,
}
use strongswan_plugin_vpn_cu.Storage.Loader.{Loader, yaml_load_policy}
use strongswan_plugin_vpn_cu.YamlLoader.{Source}

pub record Snapshot (lib : KeyTable) : Type 0 where
  pub self : Ptr
  pub fixed : Option (FixedPool lib)
  pub pool_start : Option Ptr
  pub pool_end : Option Ptr

-- `path_block` is the copy of the path.
pub record PolicyEngine (lib : KeyTable) : Type 0 where
  pub self : Ptr
  pub active : Option (Snapshot lib)
  pub path_block : Ptr
  pub path : Name

module _ (lib : KeyTable) where
  pub destroy_fixed : Option (FixedPool lib) → Storage → Run Storage
  destroy_fixed none m = ok m
  destroy_fixed (some fixed) m = fixed_pool_destroy lib fixed m

  unfoldable pub snapshot_destroy : Option (Snapshot lib) → Storage → Run Storage
  unfolding destroy_fixed
  snapshot_destroy none m = ok m
  snapshot_destroy (some s) m = do
    m ← destroy_fixed s.fixed m
    m ← free_option s.pool_start m
    m ← free_option s.pool_end m
    free s.self m

  -- A snapshot from what the loader returned; after a failure all is given back.
  pub snapshot_of : Ptr → Bool × Loader lib × Storage → Run (Option (Snapshot lib) × Storage)
  unfolding snapshot_destroy
  snapshot_of self (true, l, m) =
      let s : Snapshot lib = record {
        self = self;
        fixed = some l.fixed;
        pool_start = l.pool_start;
        pool_end = l.pool_end;
      } in
      ok (some s, m)
  snapshot_of self (false, l, m) =
      let s : Snapshot lib = record {
        self = self;
        fixed = some l.fixed;
        pool_start = none;
        pool_end = none;
      } in
      do
        m ← snapshot_destroy (some s) m
        m ← free_option l.pool_start m
        m ← free_option l.pool_end m
        ok (none, m)

  pub lookup_in : Option (Snapshot lib) → Option Name → Option Ptr
  lookup_in none user = none
  lookup_in (some s) none = none
  lookup_in (some s) (some user) = lookup_option lib (some user) s.fixed

  -- The host that `lookup_fixed` lends.
  unfoldable pub lookup_fixed : Option Name → PolicyEngine lib → Option Ptr
  unfolding lookup_in
  lookup_fixed user this = lookup_in this.active user

  unfoldable pub policy_engine_destroy : Option (PolicyEngine lib) → Storage → Run Storage
  policy_engine_destroy none m = ok m
  policy_engine_destroy (some this) m = do
    m ← snapshot_destroy this.active m
    m ← free this.path_block m
    free this.self m

  pub swap :
      PolicyEngine lib → Option (Snapshot lib) → Storage → Run (Bool × PolicyEngine lib × Storage)
  swap this none m = ok (false, this, m)
  swap this (some fresh) m = do
    m ← snapshot_destroy this.active m
    ok (true, record this { active = some fresh }, m)

  pub engine_of :
      Bool → Name → Option (Snapshot lib) → Storage → Run (Option (PolicyEngine lib) × Storage)
  engine_of calloc_ok path none m = ok (none, m)
  engine_of true path (some s) m =
      let (self, m) = malloc m in
      let (path_block, m) = malloc m in
      ok (some (record { self = self; active = some s; path_block = path_block; path = path }), m)
  engine_of false path (some s) m = do m ← snapshot_destroy (some s) m; ok (none, m)

module _ (lib : KeyTable) (hosts : HostLib) where
  unfoldable pub snapshot_load :
      Bool → Option Name → Source → Storage → Run (Option (Snapshot lib) × Storage)
  unfolding snapshot_of
  snapshot_load calloc_ok path source m =
      if calloc_ok
      then (let (self, m) = malloc m in
          let (fixed, m) = fixed_pool_create lib m in
          yaml_load_policy lib hosts path source fixed m >>= snapshot_of lib self)
      else ok (none, m)

  unfoldable pub reload :
      Bool → Source → PolicyEngine lib → Storage → Run (Bool × PolicyEngine lib × Storage)
  unfolding swap
  reload calloc_ok source this m = do
    (fresh, m) ← snapshot_load calloc_ok (some this.path) source m
    swap lib this fresh m

  unfoldable pub policy_engine_create :
      Bool → Bool → Option Name → Source → Storage → Run (Option (PolicyEngine lib) × Storage)
  unfolding engine_of
  policy_engine_create snapshot_ok calloc_ok none source m = ok (none, m)
  policy_engine_create snapshot_ok calloc_ok (some path) source m = do
    (s, m) ← snapshot_load snapshot_ok (some path) source m
    engine_of lib calloc_ok path s m
