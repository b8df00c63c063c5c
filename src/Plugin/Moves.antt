-- ===== src/Plugin/Moves.antt =====
-- Every step of the threads of plugin/src/plugin.c finds the plugin's memory in use.
use mathlib.Core.Path.{subst}
use strongswan_plugin_vpn_cu.History
use strongswan_plugin_vpn_cu.History.{Step, acquired}
use strongswan_plugin_vpn_cu.Base.{
  ◌+◌, ◌≡◌, refl, sym, ◌∙◌, inl, inr, Bool, true, false, some, arith, Run, ok, ◌>>=◌, Bool-cases,
  Returns,
}
use strongswan_plugin_vpn_cu.Env.{Env}
use strongswan_plugin_vpn_cu.IpAllocator.{IpAllocator}
use strongswan_plugin_vpn_cu.History.Table.{Step-Keeps}
use strongswan_plugin_vpn_cu.Plugin
use strongswan_plugin_vpn_cu.Plugin.{
  Plugin, Instance, live, freed, plugin_ref, plugin_unref, plugin_destroy_internal, sweep_locked,
  sweep_cancel, sweep_cleanup, destroy,
}
use strongswan_plugin_vpn_cu.Plugin.System.{
  System, Move, job, registered, reloaded, unloaded, served, plugin_cb, unload, reload_policy, Call,
  acquire, release, updown, reaches, Permits, PermitsIn, run_call, serve,
}
use strongswan_plugin_vpn_cu.YamlLoader.{Source}
use strongswan_plugin_vpn_cu.Plugin.Jobs.{Found, JobMove-IsCounted}
use strongswan_plugin_vpn_cu.Plugin.Life.{
  refs, IsSound, access-Counts, unref-Counts, ref-IsWhole, reload-IsWhole, Unmoved-IsListed,
}

module _ (env : Env) where
  call-Step : (c : Call env) (a : IpAllocator env) → Permits env c a → Step env a (run_call env c a)
  call-Step (acquire mem now pools sa requested) a (memory, own) =
      acquired mem now pools sa requested memory own refl
  call-Step (release pools address sa) a permits = History.released pools address sa refl
  call-Step (updown sa up) a permits = History.updown sa up refl

  permitted :
      (c : Call env) (this : Plugin env) {a : IpAllocator env}
      → this.allocator ≡ some a
      → PermitsIn env c (live this)
      → Permits env c a
  permitted c this e h = rw e at h

  module _ (s : System env) (sound : IsSound env s) where
    by_loader : s.held ≡ true → Found env s sound.0
    by_loader held = access-Counts env (refs env s) s.plugin sound.0 (rw held (omega arith))

    register-IsSound :
        (job_ok : Bool)
        → s.held ≡ true
        → Returns
            (plugin_cb env job_ok true s >>= λ r. ok (record r.1 { featured = true }))
            (IsSound env)
    unfolding plugin_cb
    register-IsSound job_ok held =
        let (this, at, e, w) = by_loader held in
        let used : Plugin env = plugin_ref env this in
        let counted : used.refcnt ≡ refs env s + 1 = unfold plugin_ref in omega arith in
        elim (Bool-cases job_ok) [
          | inl made ↦ (
            record s {
              plugin = live used;
              featured = true;
              provider = true;
              listener = true;
              queued = s.queued + 1;
            },
            rw (at, made),
            (
              (omega arith, omega arith, ref-IsWhole env this w),
              record { provider = refl; listener = refl; loader = inr held },
            ),
          )
          | inr failed ↦
              let (i, ran, c) =
                unref-Counts env used (refs env s) counted (ref-IsWhole env this w) in
              (
                record s { plugin = i; featured = true; provider = true; listener = true },
                rw (at, failed, ran),
                (c, record { provider = refl; listener = refl; loader = inr held }),
              )
        ]

    unregister-IsSound :
        (job_ok : Bool)
        → s.held ≡ true
        → Returns
            (plugin_cb env job_ok false s >>= λ r. ok (record r.1 { featured = false }))
            (IsSound env)
    unfolding plugin_cb
    unregister-IsSound job_ok held =
        let (this, at, e, w) = by_loader held in
        (
          record s {
            plugin = live (record this { terminating = true });
            featured = false;
            provider = false;
            listener = false;
          },
          rw at,
          (
            (
              e,
              rw held (omega arith),
              record {
                a = w.a;
                allocator = w.allocator;
                policy = w.policy;
                consistent = w.consistent;
              },
            ),
            record { provider = refl; listener = refl; loader = inl refl },
          ),
        )

    unload-IsSound : s.held ≡ true → s.featured ≡ false → Returns (unload env s) (IsSound env)
    unfolding unload destroy
    unload-IsSound held off =
        let (this, at, e, w) = by_loader held in
        let t : System env = record s { held = false } in
        let whole : refs env s ≡ refs env t + 1 = rw held (omega arith) in
        let (i, ran, c) = unref-Counts env this (refs env t) (e ∙ whole) w in
        (
          record t { plugin = i },
          rw (at, ran),
          (
            c,
            record { provider = sound.1.provider; listener = sound.1.listener; loader = inl off },
          ),
        )

    reload_policy-IsSound :
        (calloc_ok : Bool) (source : Source)
        → s.held ≡ true
        → Returns (reload_policy env calloc_ok source s) (IsSound env)
    unfolding reload_policy
    reload_policy-IsSound calloc_ok source held =
        let (this, at, e, w) = by_loader held in
        let (count, whole) = reload-IsWhole env calloc_ok source this w in
        (
          record s { plugin = live (Plugin.reload env calloc_ok source this).1 },
          rw at,
          (
            (count ∙ e, rw held (omega arith), whole),
            record {
              provider = sound.1.provider;
              listener = sound.1.listener;
              loader = sound.1.loader;
            },
          ),
        )

    -- Who reaches the plugin finds it registered, so that the loader still has its reference.
    reached-held : (c : Call env) → reaches env c s ≡ true → s.held ≡ true
    reached-held (acquire mem now pools sa requested) h = elim sound.1.loader [
      | inl off ↦ absurd (let e = sym h ∙ sound.1.provider ∙ off in cc)
      | inr held ↦ held
    ]
    reached-held (release pools address sa) h = elim sound.1.loader [
      | inl off ↦ absurd (let e = sym h ∙ sound.1.provider ∙ off in cc)
      | inr held ↦ held
    ]
    reached-held (updown sa up) h = elim sound.1.loader [
      | inl off ↦ absurd (let e = sym h ∙ sound.1.listener ∙ off in cc)
      | inr held ↦ held
    ]

    serve-IsSound :
        (c : Call env)
        → reaches env c s ≡ true
        → PermitsIn env c s.plugin
        → Returns (serve env c s) (IsSound env)
    unfolding serve
    serve-IsSound c reached permits =
        let held = reached-held c reached in
        let (this, at, e, w) = by_loader held in
        let here = subst (PermitsIn env c) at permits in
        let allowed : Permits env c w.a = permitted c this w.allocator here in
        let (b, ran, kept) =
          Step-Keeps env w.a w.consistent (run_call env c w.a) (call-Step c w.a allowed) in
        (
          record s { plugin = live (record this { allocator = some b; policy = some b.policy }) },
          rw (at, w.allocator, ran),
          (
            (
              e,
              rw held (omega arith),
              record { a = b; allocator = refl; policy = refl; consistent = kept.0 },
            ),
            record {
              provider = sound.1.provider;
              listener = sound.1.listener;
              loader = sound.1.loader;
            },
          ),
        )

    -- In a sound system every step of every thread runs without a fault and leaves a sound system.
    -- A system is sound if the plugin counts its references, that of the loader and one for each
    -- sweep job, and has been freed, with all its leases, exactly if there is none; and if the
    -- provider and the listener are registered exactly as long as the loader has the plugin's
    -- feature loaded, and then the loader has its reference. The steps are those of a loader that
    -- loads and unloads the feature in turn and destroys the plugin once, with the feature
    -- unloaded; of the sweep jobs; and of any thread of charon that calls the provider or the
    -- listener while it is registered, an acquisition with memory for a lease and under a unique
    -- id that no other user has leased.
    pub Move-IsSound : (o : Run (System env)) → Move env s o → Returns o (IsSound env)
    Move-IsSound o (registered job_ok true held off e) = rw e (register-IsSound job_ok held)
    Move-IsSound o (registered job_ok false held on e) = rw e (unregister-IsSound job_ok held)
    Move-IsSound o (reloaded calloc_ok source held e) =
        rw e (reload_policy-IsSound calloc_ok source held)
    Move-IsSound o (unloaded held off e) = rw e (unload-IsSound held off)
    Move-IsSound o (job m) =
        let (t, ran, (counted, same)) = JobMove-IsCounted env s sound.0 o m in
        (t, ran, (counted, Unmoved-IsListed env same sound.1))
    Move-IsSound o (served c reached permits e) = rw e (serve-IsSound c reached permits)
