-- ===== src/Plugin/Jobs.antt =====
-- Every step of a sweep job of plugin/src/plugin.c finds the plugin's memory in use.
use strongswan_plugin_vpn_cu.Base.{
  ℕ, ◌+◌, ◌-◌, ◌<◌, ◌≡◌, refl, inl, inr, Bool, arith, Run, Bool-cases, Returns,
}
use strongswan_plugin_vpn_cu.Env.{Env}
use strongswan_plugin_vpn_cu.Plugin.{Plugin, live, sweep_cancel, sweep_cleanup}
use strongswan_plugin_vpn_cu.Plugin.System.{
  System, JobMove, entering, sweeping, leaving, cancelling, cleaning, enter_job, sweep_job,
  leave_job, cancel_job, clean_job,
}
use strongswan_plugin_vpn_cu.Plugin.Life.{
  IsWhole, refs, IsCounted, Unmoved, access-Counts, unref-Counts, sweep_locked-IsWhole,
}

module _ (env : Env) where
  module _ (s : System env) (sound : IsCounted env s) where
    -- Who has a reference finds the plugin there.
    abbrev pub Found : Type 0
    Found =
        (this : Plugin env) × (s.plugin ≡ live this) × (this.refcnt ≡ refs env s) × IsWhole env this

    -- A step of a job leaves the references counted, and nothing else has changed.
    abbrev pub After : System env → Type 0
    After t = IsCounted env t × Unmoved env s t

    by_job : 0 < s.queued + s.entered + s.swept + s.finished → Found
    by_job some_job = access-Counts env (refs env s) s.plugin sound (omega arith)

    enter_job-IsCounted : 0 < s.queued → Returns (enter_job env s) After
    unfolding enter_job
    enter_job-IsCounted some_job =
        let (this, at, e, w) = by_job (omega arith) in
        elim (Bool-cases this.terminating) [
          | inl off ↦ (
            record s { plugin = live this; queued = s.queued - 1; finished = s.finished + 1 },
            rw (at, off),
            (
              (omega arith, omega arith, w),
              record { held = refl; featured = refl; provider = refl; listener = refl },
            ),
          )
          | inr on ↦ (
            record s { plugin = live this; queued = s.queued - 1; entered = s.entered + 1 },
            rw (at, on),
            (
              (omega arith, omega arith, w),
              record { held = refl; featured = refl; provider = refl; listener = refl },
            ),
          )
        ]

    sweep_job-IsCounted :
        (now : ℕ) (alive : ℕ → Bool) → 0 < s.entered → Returns (sweep_job env now alive s) After
    unfolding sweep_job
    sweep_job-IsCounted now alive some_job =
        let (this, at, e, w) = by_job (omega arith) in
        let (r, ran, (count, whole)) = sweep_locked-IsWhole env now alive this w in
        (
          record s { plugin = live r; entered = s.entered - 1; swept = s.swept + 1 },
          rw (at, ran),
          (
            (omega arith, omega arith, whole),
            record { held = refl; featured = refl; provider = refl; listener = refl },
          ),
        )

    leave_job-IsCounted : 0 < s.swept → Returns (leave_job env s) After
    unfolding leave_job
    leave_job-IsCounted some_job =
        let (this, at, e, w) = by_job (omega arith) in
        elim (Bool-cases this.terminating) [
          | inl off ↦ (
            record s { plugin = live this; swept = s.swept - 1; finished = s.finished + 1 },
            rw (at, off),
            (
              (omega arith, omega arith, w),
              record { held = refl; featured = refl; provider = refl; listener = refl },
            ),
          )
          | inr on ↦ (
            record s { plugin = live this; swept = s.swept - 1; queued = s.queued + 1 },
            rw (at, on),
            (
              (omega arith, omega arith, w),
              record { held = refl; featured = refl; provider = refl; listener = refl },
            ),
          )
        ]

    cancel_job-IsCounted : 0 < s.queued → Returns (cancel_job env s) After
    unfolding cancel_job sweep_cancel
    cancel_job-IsCounted some_job =
        let (this, at, e, w) = by_job (omega arith) in
        elim (Bool-cases this.terminating) [
          | inl off ↦ (
            record s { plugin = live this; queued = s.queued - 1; finished = s.finished + 1 },
            rw (at, off),
            (
              (omega arith, omega arith, w),
              record { held = refl; featured = refl; provider = refl; listener = refl },
            ),
          )
          | inr on ↦ (
            record s { plugin = live this },
            rw (at, on),
            (
              (e, omega arith, w),
              record { held = refl; featured = refl; provider = refl; listener = refl },
            ),
          )
        ]

    clean_job-IsCounted : 0 < s.finished → Returns (clean_job env s) After
    unfolding clean_job sweep_cleanup
    clean_job-IsCounted some_job =
        let (this, at, e, w) = by_job (omega arith) in
        let t : System env = record s { finished = s.finished - 1 } in
        let (i, ran, c) = unref-Counts env this (refs env t) (omega arith) w in
        (
          record t { plugin = i },
          rw (at, ran),
          (c, record { held = refl; featured = refl; provider = refl; listener = refl }),
        )

    pub JobMove-IsCounted : (o : Run (System env)) → JobMove env s o → Returns o After
    JobMove-IsCounted o (entering h e) = rw e (enter_job-IsCounted h)
    JobMove-IsCounted o (sweeping now alive h e) = rw e (sweep_job-IsCounted now alive h)
    JobMove-IsCounted o (leaving h e) = rw e (leave_job-IsCounted h)
    JobMove-IsCounted o (cancelling h e) = rw e (cancel_job-IsCounted h)
    JobMove-IsCounted o (cleaning h e) = rw e (clean_job-IsCounted h)
