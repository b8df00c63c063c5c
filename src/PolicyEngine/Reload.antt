-- ===== src/PolicyEngine/Reload.antt =====
-- `reload` of plugin/src/policy_engine.c against `policy_engine_create`.
use strongswan_plugin_vpn_cu.Base.{◌≡◌, refl, Bool, true, false, Option, none, some}
use strongswan_plugin_vpn_cu.Env.{Env}
use strongswan_plugin_vpn_cu.PolicyEngine.{
  Snapshot, PolicyEngine, reload, swap, engine_of, policy_engine_create, snapshot_load,
}
use strongswan_plugin_vpn_cu.YamlLoader.{Source}

module _ (env : Env) where
  -- What a reload makes of a new engine, if one could be built.
  abbrev pub replaced : PolicyEngine env → Option (PolicyEngine env) → Bool × PolicyEngine env
  replaced this none = (false, this)
  replaced this (some fresh) = (true, fresh)

  swapped :
      (this : PolicyEngine env) (o : Option (Snapshot env))
      → swap env this o ≡ replaced this (engine_of env true this.path o)
  unfolding swap engine_of
  swapped this none = refl
  swapped this (some s) = refl

  -- A reload leaves the engine that `policy_engine_create` would build from the same path and file
  -- contents with memory for the engine, and returns TRUE; where that fails it returns FALSE and
  -- keeps the policy in force.
  pub reload-create :
      (snapshot_ok : Bool) (source : Source) (this : PolicyEngine env)
      → reload env snapshot_ok source this
        ≡ replaced this (policy_engine_create env snapshot_ok true (some this.path) source)
  unfolding reload policy_engine_create
  reload-create snapshot_ok source this =
      swapped this (snapshot_load env snapshot_ok (some this.path) source)
