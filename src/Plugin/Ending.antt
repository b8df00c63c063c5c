-- ===== src/Plugin/Ending.antt =====
-- The end of the plugin of plugin/src/plugin.c.
use mathlib.Core.Path.{subst}
use strongswan_plugin_vpn_cu.Base.{
  ℕ, ◌+◌, ◌-◌, ◌*◌, ◌^◌, ◌<◌, ◌≡◌, refl, sym, ◌∙◌, inl, inr, Bool, true, false, Option, some, arith,
  Run, ok, ltb, Bool-cases, Returns, Returns-at,
}
use strongswan_plugin_vpn_cu.Env.{Env}
use strongswan_plugin_vpn_cu.IpAllocator.Lifecycle.{ip_allocator_destroy}
use strongswan_plugin_vpn_cu.Plugin.{
  Plugin, Instance, live, freed, plugin_unref, plugin_destroy_internal, sweep_locked, sweep_cancel,
  sweep_cleanup, Settings, initial, user_policy_plugin_create,
}
use strongswan_plugin_vpn_cu.Host.{host_to_u32}
use strongswan_plugin_vpn_cu.Plugin.Create.{create-Outcome}
use strongswan_plugin_vpn_cu.PolicyEngine.{PolicyEngine, policy_engine_create, get_pool}
use strongswan_plugin_vpn_cu.YamlLoader.{Source}
use strongswan_plugin_vpn_cu.Plugin.System.{
  System, Move, Runs, loaded, JobMove, entering, sweeping, leaving, cancelling, cleaning, here,
  next, enter_job, sweep_job, leave_job, cancel_job, clean_job,
}
use strongswan_plugin_vpn_cu.SessionManager.{SessionManager}
use strongswan_plugin_vpn_cu.Plugin.Life.{IsWhole, IsEmpty, Counts, refs, IsSound, access-Counts}
use strongswan_plugin_vpn_cu.Plugin.Moves.{Move-IsSound}
use strongswan_plugin_vpn_cu.SessionManager.Destroy.{session_manager_destroy-freed}

module _ (env : Env) where
  Runs-IsSound : {s t : System env} → IsSound env s → Runs env s t → IsSound env t
  Runs-IsSound c here = c
  Runs-IsSound {s} c (next {t = t} {u = u} r m) =
      Returns-at (ok u) (IsSound env) (Move-IsSound env t (Runs-IsSound c r) (ok u) m) refl

  freed-Counts :
      (i : Instance env)
      → Counts env 0 i
      → (left : Option (SessionManager env)) × (i ≡ freed left) × IsEmpty env left
  freed-Counts (live this) (_, h, _) = absurd (omega arith)
  freed-Counts (freed left) (_, empty) = (left, refl, empty)

  -- The plugin that the constructor has made for a policy with a range that is not too wide.
  module _ (snapshot_ok engine_ok allocator_ok bits_ok listener_ok : Bool) (settings : Settings)
      (source : Source)
      (narrow : (policy : PolicyEngine env) (start end : env.Host)
        → policy_engine_create env snapshot_ok engine_ok
            (some (initial env settings).policy_path)
            source
          ≡ some policy
        → get_pool env policy ≡ some (start, end)
        → host_to_u32 env.lib end < host_to_u32 env.lib start + (2 ^ 32 - 8))
      (this : Plugin env)
      (made : user_policy_plugin_create env snapshot_ok engine_ok allocator_ok bits_ok listener_ok
          settings source
        ≡ ok (some this))
      {s : System env} (r : Runs env (loaded env this) s) where
    reached-IsSound : IsSound env s
    reached-IsSound =
        let (_, count, _, _, _, whole) =
          Returns-at _ _
            (create-Outcome env snapshot_ok engine_ok allocator_ok bits_ok listener_ok settings
              source narrow)
            made in
        Runs-IsSound
          (
            (count, omega arith, whole),
            record { provider = refl; listener = refl; loader = inl refl },
          )
          r

    -- From a plugin that `user_policy_plugin_create` returned for a policy whose range, if it has
    -- one, is at least eight addresses short of the whole address space: after any steps of the
    -- loader, the sweep jobs and the threads that call the provider and the listener, the next
    -- step of any of them runs without a fault, so none uses the plugin after it was freed, or
    -- frees it twice. The loader loads and unloads the feature in turn and destroys the plugin
    -- once, with the feature unloaded; the others call only what is registered, and acquire only
    -- with memory for a lease and under a unique id that no other user has leased.
    pub Runs-Move : (o : Run (System env)) → Move env s o → (t : System env) × (o ≡ ok t)
    Runs-Move o m = let (t, ran, _) = Move-IsSound env s reached-IsSound o m in (t, ran)

    -- From a plugin that `user_policy_plugin_create` returned for a policy whose range, if it has
    -- one, is at least eight addresses short of the whole address space: after any steps of the
    -- loader, the sweep jobs and the threads that call what is registered, where each acquisition
    -- had memory for a lease and a unique id that no other user had leased, once the loader has
    -- destroyed the plugin and no sweep job is left, the plugin is freed, no lease is left on the
    -- heap, and neither the provider nor the listener is registered any more.
    pub Runs-freed :
        s.held ≡ false
        → s.queued + s.entered + s.swept + s.finished ≡ 0
        → (left : Option (SessionManager env)) × (s.plugin ≡ freed left)
          × IsEmpty env left
          × (s.provider ≡ false)
          × (s.listener ≡ false)
    Runs-freed released idle =
        let (counted, listed) = reached-IsSound in
        let none_left : refs env s ≡ 0 = rw released (omega arith) in
        let (left, is_freed, empty) =
          freed-Counts s.plugin (subst (λ n. Counts env n s.plugin) none_left counted) in
        let off : s.featured ≡ false = elim listed.loader [
          | inl off ↦ off
          | inr held ↦ absurd (let e = sym held ∙ released in cc)
        ] in
        (left, is_freed, empty, listed.provider ∙ off, listed.listener ∙ off)

  -- The plugin was unregistered.
  abbrev pub IsStopped : Instance env → Type 0
  IsStopped (live this) = this.terminating ≡ true
  IsStopped (freed left) = Unit {0}

  -- The steps that the jobs have before them, once none is queued again.
  abbrev pub pending : System env → ℕ
  pending s = 4 * s.queued + 3 * s.entered + 2 * s.swept + s.finished

  unref-IsStopped :
      (this : Plugin env)
      → this.terminating ≡ true
      → IsWhole env this
      → Returns (plugin_unref env this) IsStopped
  unfolding plugin_unref plugin_destroy_internal ip_allocator_destroy
  unref-IsStopped this off w = elim (Bool-cases (ltb 0 (this.refcnt - 1))) [
    | inl more ↦ (live (record this { refcnt = this.refcnt - 1 }), rw more, off)
    | inr last ↦
        let (s, ran, _) = session_manager_destroy-freed env w.a.sessions w.consistent.index in
        (freed (some s), rw (last, w.allocator, ran), tt)
  ]

  module _ (s : System env) (sound : IsSound env s) (stopped : IsStopped s.plugin) where
    running :
        0 < s.queued + s.entered + s.swept + s.finished
        → (this : Plugin env) × (s.plugin ≡ live this)
          × (this.terminating ≡ true)
          × IsWhole env this
    running some_job =
        let (this, at, _, w) = access-Counts env (refs env s) s.plugin sound.0 (omega arith) in
        (this, at, subst IsStopped at stopped, w)

    -- In a sound system whose plugin is unregistered, every step of a sweep job runs without a
    -- fault, leaves the plugin unregistered or freed, and lowers the number of steps that the
    -- jobs have before them, so they come to an end.
    pub JobMove-pending :
        (o : Run (System env))
        → JobMove env s o
        → Returns o (λ t. (pending t < pending s) × IsStopped t.plugin)
    unfolding enter_job sweep_job sweep_locked leave_job cancel_job sweep_cancel clean_job
        sweep_cleanup
    JobMove-pending o (entering h e) =
        let (this, at, off, w) = running (omega arith) in
        (
          record s { plugin = live this; queued = s.queued - 1; finished = s.finished + 1 },
          rw (e, at, off),
          (omega arith, off),
        )
    JobMove-pending o (sweeping now alive h e) =
        let (this, at, off, w) = running (omega arith) in
        (
          record s { plugin = live this; entered = s.entered - 1; swept = s.swept + 1 },
          rw (e, at, off),
          (omega arith, off),
        )
    JobMove-pending o (leaving h e) =
        let (this, at, off, w) = running (omega arith) in
        (
          record s { plugin = live this; swept = s.swept - 1; finished = s.finished + 1 },
          rw (e, at, off),
          (omega arith, off),
        )
    JobMove-pending o (cancelling h e) =
        let (this, at, off, w) = running (omega arith) in
        (
          record s { plugin = live this; queued = s.queued - 1; finished = s.finished + 1 },
          rw (e, at, off),
          (omega arith, off),
        )
    JobMove-pending o (cleaning h e) =
        let (this, at, off, w) = running (omega arith) in
        let (i, ran, last) = unref-IsStopped this off w in
        (record s { plugin = i; finished = s.finished - 1 }, rw (e, at, ran), (omega arith, last))
