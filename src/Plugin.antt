-- ===== src/Plugin.antt =====
-- plugin/src/plugin.c: the object that charon loads, its count of references, and its sweep job.
pub mod System
pub mod Life
pub mod Jobs
pub mod Moves
pub mod Create
pub mod Ending
use Prim.Native.Char.{code}
use Prim.Native.String.{String}
use strongswan_plugin_vpn_cu.Base.{
  ℕ, ◌+◌, ◌-◌, ◌*◌, ◌%◌, ◌^◌, Bool, true, false, Option, none, some, List, [], ◌∷◌, ◌++◌, Run, ok,
  ◌>>=◌, ltb, if◌then◌else◌, Name, take,
}
use strongswan_plugin_vpn_cu.Env.{Env}
use strongswan_plugin_vpn_cu.EventListener.{EventListener, event_listener_create}
use strongswan_plugin_vpn_cu.IpAllocator.{IpAllocator, sweep}
use strongswan_plugin_vpn_cu.IpAllocator.Lifecycle.{ip_allocator_create, ip_allocator_destroy}
use strongswan_plugin_vpn_cu.PolicyEngine
use strongswan_plugin_vpn_cu.PolicyEngine.{PolicyEngine, policy_engine_create}
use strongswan_plugin_vpn_cu.SessionManager.{SessionManager}
use strongswan_plugin_vpn_cu.YamlLoader.{Source}

-- The bytes of a text.
abbrev pub codes : String → Name
codes String.[] = []
codes (String.◌∷◌ c s) = code c ∷ codes s

abbrev pub cupp_plugin_name : Name
cupp_plugin_name = codes "user-policy"

abbrev pub cupp_default_policy : Name
cupp_default_policy = codes "/etc/strongswan/cupp/policy.yaml"

abbrev pub cupp_default_pool : Name
cupp_default_pool = codes "cupp"

abbrev pub cupp_default_lease : ℕ
cupp_default_lease = 3600

abbrev pub cupp_default_sweep : ℕ
cupp_default_sweep = 60

-- strongSwan's `lib->settings` and `lib->ns`: `get_str` and `get_int` take a key and a default. An
-- `int` is given by its 32 bits.
pub record Settings : Type 0 where
  pub ns : Name
  pub get_str : Name → Name → Name
  pub get_int : Name → ℕ → ℕ

-- `snprintf` into 128 bytes.
abbrev pub key_of : Settings → Name → Name
key_of settings key = take 127 (settings.ns ++ codes ".plugins." ++ cupp_plugin_name ++ key)

-- The copy that `strdup` makes is a value.
abbrev pub settings_get_str : Settings → Name → Name → Name
settings_get_str settings key def = settings.get_str key def

abbrev pub settings_get_int : Settings → Name → ℕ → ℕ
settings_get_int settings key def = settings.get_int key def % 2 ^ 32

-- There is one allocator, so a pointer to it says nothing more. It borrows the policy engine: its
-- field `policy` and that of the plugin are one object.
pub record Plugin (env : Env) : Type 0 where
  pub refcnt : ℕ
  pub terminating : Bool
  pub policy : Option (PolicyEngine env)
  pub allocator : Option (IpAllocator env)
  pub listener : Option (EventListener (Unit {0}))
  pub policy_path : Name
  pub pool_name : Name
  pub lease_timeout : ℕ
  pub sweep_interval : ℕ

-- The plugin's memory: in use, or freed, with what was left on the heap of leases then.
pub data Instance (env : Env) : Type 0 where
  live : Plugin env → Instance env
  freed : Option (SessionManager env) → Instance env

-- The type `job_requeue_t`.
pub data JobRequeue : Type 0 where
  job_requeue_none : JobRequeue
  job_reschedule_ms : ℕ → JobRequeue

module _ (env : Env) where
  unfoldable pub plugin_ref : Plugin env → Plugin env
  plugin_ref this = record this { refcnt = this.refcnt + 1 }

  -- The listener and the policy engine are freed without a trace in the model.
  unfoldable pub plugin_destroy_internal : Plugin env → Run (Instance env)
  plugin_destroy_internal this = ip_allocator_destroy env this.allocator >>= λ left. ok (freed left)

  unfoldable pub plugin_unref : Plugin env → Run (Instance env)
  unfolding plugin_destroy_internal
  plugin_unref this =
      if ltb 0 (this.refcnt - 1)
      then ok (live (record this { refcnt = this.refcnt - 1 }))
      else plugin_destroy_internal this

  pub sweep_allocator : ℕ → (ℕ → Bool) → Option (IpAllocator env) → Run (Option (IpAllocator env))
  sweep_allocator now alive none = ok none
  sweep_allocator now alive (some a) = sweep env now alive a >>= λ a'. ok (some a')

  -- The part of `sweep_cb` under `sweep_lock`.
  unfoldable pub sweep_locked : ℕ → (ℕ → Bool) → Plugin env → Run (Plugin env)
  unfolding sweep_allocator
  sweep_locked now alive this = if this.terminating then ok this else do
    allocator ← sweep_allocator now alive this.allocator
    ok (record this { allocator = allocator })

  -- What `sweep_cb` returns at its end.
  unfoldable pub sweep_result : Plugin env → JobRequeue
  sweep_result this =
      if this.terminating
      then job_requeue_none
      else job_reschedule_ms (this.sweep_interval * 1000 % 2 ^ 32)

  -- The whole of it, where no other thread comes between.
  unfoldable pub sweep_cb : ℕ → (ℕ → Bool) → Plugin env → Run (JobRequeue × Plugin env)
  sweep_cb now alive this =
      if this.terminating
      then ok (job_requeue_none, this)
      else do this' ← sweep_locked now alive this; ok (sweep_result this', this')

  unfoldable pub sweep_cancel : Plugin env → Bool
  sweep_cancel this = this.terminating

  unfoldable pub sweep_cleanup : Plugin env → Run (Instance env)
  sweep_cleanup this = plugin_unref this

  reloaded : Plugin env → Option (PolicyEngine env) → Bool → Source → Bool × Plugin env
  reloaded this none calloc_ok source = (false, this)
  reloaded this (some policy) calloc_ok source =
      let (done, policy') = PolicyEngine.reload env calloc_ok source policy in
      (
        done,
        record this {
          policy = some policy';
          allocator = elim this.allocator [
            | none ↦ none
            | some a ↦ some (record a { policy = policy' })
          ];
        },
      )

  unfoldable pub reload : Bool → Source → Plugin env → Bool × Plugin env
  unfolding reloaded
  reload calloc_ok source this = reloaded this this.policy calloc_ok source

  unfoldable pub destroy : Plugin env → Run (Instance env)
  destroy this = plugin_unref this

  -- `INIT` and the settings.
  unfoldable pub initial : Settings → Plugin env
  initial settings = record {
    refcnt = 1;
    terminating = false;
    policy = none;
    allocator = none;
    listener = none;
    policy_path = settings_get_str settings (key_of settings (codes ".policy")) cupp_default_policy;
    pool_name = settings_get_str settings (key_of settings (codes ".pool_name")) cupp_default_pool;
    lease_timeout =
        settings_get_int settings (key_of settings (codes ".lease_timeout")) cupp_default_lease;
    sweep_interval =
        settings_get_int settings (key_of settings (codes ".sweep_interval")) cupp_default_sweep;
  }

  abort : Plugin env → Run (Option (Plugin env))
  abort this = do _ ← plugin_destroy_internal this; ok none

  with_listener : Plugin env → Option (EventListener (Unit {0})) → Run (Option (Plugin env))
  unfolding abort plugin_destroy_internal
  with_listener this none = abort this
  with_listener this (some listener) = ok (some (record this { listener = some listener }))

  with_allocator : Bool → Plugin env → Option (IpAllocator env) → Run (Option (Plugin env))
  unfolding abort plugin_destroy_internal with_listener
  with_allocator listener_ok this none = abort this
  with_allocator listener_ok this (some a) =
      with_listener (record this { allocator = some a })
        (event_listener_create listener_ok (some tt))

  with_policy :
      Bool → Bool → Bool → Plugin env → Option (PolicyEngine env) → Run (Option (Plugin env))
  unfolding abort plugin_destroy_internal with_allocator
  with_policy allocator_ok bits_ok listener_ok this none = abort this
  with_policy allocator_ok bits_ok listener_ok this (some policy) =
      with_allocator listener_ok (record this { policy = some policy })
        (ip_allocator_create env allocator_ok bits_ok (some policy) (some this.pool_name)
          this.lease_timeout)

  -- The flags are for the memory of the snapshot, the engine, the allocator, its bitmap and the
  -- listener.
  unfoldable pub user_policy_plugin_create :
      Bool → Bool → Bool → Bool → Bool → Settings → Source → Run (Option (Plugin env))
  unfolding with_policy initial
  user_policy_plugin_create snapshot_ok engine_ok allocator_ok bits_ok listener_ok settings source =
      let this = initial settings in
      with_policy allocator_ok bits_ok listener_ok this
        (policy_engine_create env snapshot_ok engine_ok (some this.policy_path) source)
