-- ===== src/Plugin/System.antt =====
-- plugin/src/plugin.c among the threads of charon: the plugin loader, the processor that runs the
-- sweep jobs, and the threads that call the provider and the listener as long as these are
-- registered. What one thread does between two tests of `terminating`, or under a lock, is one step.
use strongswan_plugin_vpn_cu.Base.{
  ℕ, ◌+◌, ◌-◌, ◌<◌, ◌≡◌, Bool, true, false, not, Option, none, some, List, Run, ok, fault, dangling,
  ◌>>=◌, if◌then◌else◌, Name,
}
use strongswan_plugin_vpn_cu.Env.{Env}
use strongswan_plugin_vpn_cu.EventListener.{ike_updown}
use strongswan_plugin_vpn_cu.History.{Unclaimed}
use strongswan_plugin_vpn_cu.IdentityManager.{IkeSa}
use strongswan_plugin_vpn_cu.IpAllocator.{IpAllocator, Memory, acquire_address, release_address}
use strongswan_plugin_vpn_cu.Plugin
use strongswan_plugin_vpn_cu.Plugin.{
  Plugin, Instance, live, freed, plugin_ref, plugin_unref, sweep_locked, sweep_cancel,
  sweep_cleanup, destroy,
}
use strongswan_plugin_vpn_cu.YamlLoader.{Source}

-- The sweep jobs that wait in the queue, that are past the first test of `sweep_cb`, that are past its
-- locked part, and that have ended but for `sweep_cleanup`.
pub record System (env : Env) : Type 0 where
  pub plugin : Instance env
  -- The plugin loader has not called `destroy` yet.
  pub held : Bool
  -- The plugin loader has loaded the plugin's feature and not unloaded it: it has called `plugin_cb`
  -- with `reg` set, and not yet with `reg` unset.
  pub featured : Bool
  -- charon's attribute manager has the provider, and its bus the listener.
  pub provider : Bool
  pub listener : Bool
  pub queued : ℕ
  pub entered : ℕ
  pub swept : ℕ
  pub finished : ℕ

module _ (env : Env) where
  -- A use of the plugin's memory.
  abbrev pub access : Instance env → Run (Plugin env)
  access (live this) = ok this
  access (freed left) = fault dangling

  -- `plugin_cb` with `reg` set; `job_ok` says whether `callback_job_create` has memory.
  unfoldable pub plugin_cb_register : Bool → System env → Run (Bool × System env)
  plugin_cb_register job_ok s = access s.plugin >>= λ this.
      let used : Plugin env = plugin_ref env this in
      let s' : System env = record s { plugin = live used; provider = true; listener = true } in
      if job_ok
      then ok (true, record s' { queued = s.queued + 1 })
      else (plugin_unref env used >>= λ i. ok (true, record s' { plugin = i }))

  -- `plugin_cb` with `reg` unset.
  unfoldable pub plugin_cb_unregister : System env → Run (Bool × System env)
  plugin_cb_unregister s = do
    this ← access s.plugin
    ok (
      true,
      record s {
        plugin = live (record this { terminating = true });
        provider = false;
        listener = false;
      },
    )

  unfoldable pub plugin_cb : Bool → Bool → System env → Run (Bool × System env)
  unfolding plugin_cb_register plugin_cb_unregister
  plugin_cb job_ok true s = plugin_cb_register job_ok s
  plugin_cb job_ok false s = plugin_cb_unregister s

  -- The loader gives its reference back.
  unfoldable pub unload : System env → Run (System env)
  unload s = do
    this ← access s.plugin
    i ← destroy env this
    ok (record s { plugin = i; held = false })

  unfoldable pub reload_policy : Bool → Source → System env → Run (System env)
  reload_policy calloc_ok source s = do
    this ← access s.plugin
    ok (record s { plugin = live (Plugin.reload env calloc_ok source this).1 })

  -- `sweep_cb` up to its first test.
  unfoldable pub enter_job : System env → Run (System env)
  enter_job s = do
    this ← access s.plugin
    ok (
        if this.terminating
        then record s { queued = s.queued - 1; finished = s.finished + 1 }
        else record s { queued = s.queued - 1; entered = s.entered + 1 })

  -- The locked part of `sweep_cb`.
  unfoldable pub sweep_job : ℕ → (ℕ → Bool) → System env → Run (System env)
  sweep_job now alive s = do
    this ← access s.plugin
    this' ← sweep_locked env now alive this
    ok (record s { plugin = live this'; entered = s.entered - 1; swept = s.swept + 1 })

  -- The last test of `sweep_cb`: the job is queued again or not.
  unfoldable pub leave_job : System env → Run (System env)
  leave_job s = do
    this ← access s.plugin
    ok (
        if this.terminating
        then record s { swept = s.swept - 1; finished = s.finished + 1 }
        else record s { swept = s.swept - 1; queued = s.queued + 1 })

  -- The processor asks a queued job to cancel.
  unfoldable pub cancel_job : System env → Run (System env)
  cancel_job s = do
    this ← access s.plugin
    ok (
        if sweep_cancel env this
        then record s { queued = s.queued - 1; finished = s.finished + 1 }
        else s)

  -- The processor destroys a job.
  unfoldable pub clean_job : System env → Run (System env)
  clean_job s = do
    this ← access s.plugin
    i ← sweep_cleanup env this
    ok (record s { plugin = i; finished = s.finished - 1 })

  -- The calls that the attribute manager makes of the provider, and the bus of the listener.
  pub data Call : Type 0 where
    acquire : Memory → ℕ → Option (List (Option Name)) → Option IkeSa → Option env.Host → Call
    release : Option (List (Option Name)) → Option env.Host → Option IkeSa → Call
    updown : Option IkeSa → Bool → Call

  -- Who makes the call has the provider, or the listener.
  abbrev pub reaches : Call → System env → Bool
  reaches (acquire mem now pools sa requested) s = s.provider
  reaches (release pools address sa) s = s.provider
  reaches (updown sa up) s = s.listener

  -- An acquisition has memory for a lease, and its unique id is not that of another user's lease.
  abbrev pub Permits : Call → IpAllocator env → Type 0
  Permits (acquire mem now pools sa requested) a = (mem.lease_ok ≡ true) × Unclaimed env a mem sa
  Permits (release pools address sa) a = Unit {0}
  Permits (updown sa up) a = Unit {0}

  abbrev pub PermitsIn : Call → Instance env → Type 0
  PermitsIn c (live this) = elim this.allocator [ none ↦ Unit {0} | some a ↦ Permits c a ]
  PermitsIn c (freed left) = Unit {0}

  abbrev pub run_call : Call → IpAllocator env → Run (IpAllocator env)
  run_call (acquire mem now pools sa requested) a =
      acquire_address env mem now pools sa requested a >>= λ r. ok r.1
  run_call (release pools address sa) a = release_address env pools address sa a >>= λ r. ok r.1
  run_call (updown sa up) a = ike_updown env sa up a >>= λ r. ok r.1

  -- There is no allocator behind a pointer that is NULL.
  abbrev pub on_allocator : Call → Option (IpAllocator env) → Run (IpAllocator env)
  on_allocator c none = fault dangling
  on_allocator c (some a) = run_call c a

  -- A call from a thread of charon, in whatever memory the plugin then has.
  unfoldable pub serve : Call → System env → Run (System env)
  serve c s = do
    this ← access s.plugin
    a ← on_allocator c this.allocator
    ok (record s { plugin = live (record this { allocator = some a; policy = some a.policy }) })

  -- The steps of the sweep jobs, and how they run.
  pub data JobMove (s : System env) (o : Run (System env)) : Type 0 where
    entering : 0 < s.queued → o ≡ enter_job s → JobMove s o
    sweeping :
        (now : ℕ) (alive : ℕ → Bool) → 0 < s.entered → o ≡ sweep_job now alive s → JobMove s o
    leaving : 0 < s.swept → o ≡ leave_job s → JobMove s o
    cancelling : 0 < s.queued → o ≡ cancel_job s → JobMove s o
    cleaning : 0 < s.finished → o ≡ clean_job s → JobMove s o

  -- The steps of all threads. The loader uses the plugin until it destroys it, and destroys it once;
  -- it loads the feature, unloads it only after that, and destroys no plugin with a loaded feature.
  -- The other threads call what is registered, whether the plugin's memory is still there or not.
  pub data Move (s : System env) (o : Run (System env)) : Type 0 where
    registered :
        (job_ok reg : Bool)
        → s.held ≡ true
        → s.featured ≡ not reg
        → o ≡ (plugin_cb job_ok reg s >>= λ r. ok (record r.1 { featured = reg }))
        → Move s o
    reloaded :
        (calloc_ok : Bool) (source : Source)
        → s.held ≡ true
        → o ≡ reload_policy calloc_ok source s
        → Move s o
    unloaded : s.held ≡ true → s.featured ≡ false → o ≡ unload s → Move s o
    job : JobMove s o → Move s o
    served : (c : Call) → reaches c s ≡ true → PermitsIn c s.plugin → o ≡ serve c s → Move s o

  -- The systems that some steps make of one.
  pub data Runs (s : System env) : System env → Type 0 where
    here : Runs s s
    next : {t u : System env} → Runs s t → Move t (ok u) → Runs s u

  -- The system when the loader has the new plugin.
  abbrev pub loaded : Plugin env → System env
  loaded this = record {
    plugin = live this;
    held = true;
    featured = false;
    provider = false;
    listener = false;
    queued = 0;
    entered = 0;
    swept = 0;
    finished = 0;
  }
