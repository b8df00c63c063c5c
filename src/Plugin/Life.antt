-- ===== src/Plugin/Life.antt =====
-- The count of references of plugin/src/plugin.c keeps the plugin's memory until the last use.
use strongswan_plugin_vpn_cu.Base.{
  ℕ, zero, suc, ◌+◌, ◌-◌, ◌<◌, ◌≡◌, refl, sym, ◌∙◌, ap, ◌⊎◌, inl, inr, Bool, true, false, Option,
  none, some, arith, ltb, if◌then◌else◌, Bool-cases, Returns,
}
use strongswan_plugin_vpn_cu.Env.{Env, Ptr}
use strongswan_plugin_vpn_cu.IpAllocator.{IpAllocator}
use strongswan_plugin_vpn_cu.IpAllocator.Invariant.{IsConsistent}
use strongswan_plugin_vpn_cu.IpAllocator.Lifecycle.{ip_allocator_destroy}
use strongswan_plugin_vpn_cu.IpAllocator.Sweep.{sweep-Swept}
use strongswan_plugin_vpn_cu.Plugin
use strongswan_plugin_vpn_cu.Plugin.{
  Plugin, Instance, live, freed, plugin_ref, plugin_unref, plugin_destroy_internal, sweep_locked,
  sweep_cancel, sweep_cleanup, destroy,
}
use strongswan_plugin_vpn_cu.Plugin.System.{System}
use strongswan_plugin_vpn_cu.PolicyEngine
use strongswan_plugin_vpn_cu.PolicyEngine.{PolicyEngine}
use strongswan_plugin_vpn_cu.SessionManager.{SessionManager}
use strongswan_plugin_vpn_cu.YamlLoader.{Source}
use strongswan_plugin_vpn_cu.SessionManager.Destroy.{session_manager_destroy-freed}

module _ (env : Env) where
  -- The plugin has its parts, and its allocator uses its policy engine.
  pub record IsWhole (this : Plugin env) : Type 0 where
    pub a : IpAllocator env
    pub allocator : this.allocator ≡ some a
    pub policy : this.policy ≡ some a.policy
    pub consistent : IsConsistent env a

  -- No lease is left on the heap.
  abbrev pub IsEmpty : Option (SessionManager env) → Type 0
  IsEmpty none = ⊥
  IsEmpty (some s) = (p : Ptr) → s.heap p ≡ none

  -- With `n` references the plugin is there, whole, and counts them; with none it was freed, and all
  -- its leases with it.
  abbrev pub Counts : ℕ → Instance env → Type 0
  Counts n (live this) = (this.refcnt ≡ n) × (0 < n) × IsWhole this
  Counts n (freed left) = (n ≡ 0) × IsEmpty left

  -- The references: that of the loader, and one for each job.
  abbrev pub refs : System env → ℕ
  refs s = (if s.held then 1 else 0) + s.queued + s.entered + s.swept + s.finished

  abbrev pub IsCounted : System env → Type 0
  IsCounted s = Counts (refs s) s.plugin

  -- The provider and the listener are registered exactly as long as the feature is loaded, and then
  -- the loader has its reference.
  pub record IsListed (s : System env) : Type 0 where
    pub provider : s.provider ≡ s.featured
    pub listener : s.listener ≡ s.featured
    pub loader : (s.featured ≡ false) ⊎ (s.held ≡ true)

  abbrev pub IsSound : System env → Type 0
  IsSound s = IsCounted s × IsListed s

  -- The loader and the registrations are as they were.
  pub record Unmoved (s t : System env) : Type 0 where
    pub held : t.held ≡ s.held
    pub featured : t.featured ≡ s.featured
    pub provider : t.provider ≡ s.provider
    pub listener : t.listener ≡ s.listener

  pub Unmoved-IsListed : {s t : System env} → Unmoved s t → IsListed s → IsListed t
  Unmoved-IsListed u l = record {
    provider = u.provider ∙ l.provider ∙ sym u.featured;
    listener = u.listener ∙ l.listener ∙ sym u.featured;
    loader = elim l.loader [ inl e ↦ inl (u.featured ∙ e) | inr e ↦ inr (u.held ∙ e) ];
  }

  -- Who has a reference may use the plugin.
  pub access-Counts :
      (n : ℕ) (i : Instance env)
      → Counts n i
      → 0 < n
      → (this : Plugin env) × (i ≡ live this) × (this.refcnt ≡ n) × IsWhole this
  access-Counts n (live this) (e, _, w) h = (this, refl, e, w)
  access-Counts n (freed left) (e, _) h = absurd (omega arith)

  pub destroy_internal-IsEmpty :
      (this : Plugin env) → IsWhole this → Returns (plugin_destroy_internal env this) (Counts 0)
  unfolding plugin_destroy_internal ip_allocator_destroy
  destroy_internal-IsEmpty this w =
      let (s, ran, empty) = session_manager_destroy-freed env w.a.sessions w.consistent.index in
      (freed (some s), rw (w.allocator, ran), (refl, empty))

  pub unref-Counts :
      (this : Plugin env) (n : ℕ)
      → this.refcnt ≡ n + 1
      → IsWhole this
      → Returns (plugin_unref env this) (Counts n)
  unfolding plugin_unref
  unref-Counts this zero e w =
      let last : ltb 0 (this.refcnt - 1) ≡ false = ground arith in
      rw last (destroy_internal-IsEmpty this w)
  unref-Counts this (suc n) e w =
      let more : ltb 0 (this.refcnt - 1) ≡ true = ground arith in
      (
        live (record this { refcnt = this.refcnt - 1 }),
        rw more,
        (
          omega arith,
          omega arith,
          record { a = w.a; allocator = w.allocator; policy = w.policy; consistent = w.consistent },
        ),
      )

  pub sweep_locked-IsWhole :
      (now : ℕ) (alive : ℕ → Bool) (this : Plugin env)
      → IsWhole this
      → Returns (sweep_locked env now alive this) (λ r. (r.refcnt ≡ this.refcnt) × IsWhole r)
  unfolding sweep_locked
  sweep_locked-IsWhole now alive this w = elim (Bool-cases this.terminating) [
    | inl off ↦ (this, rw off, (refl, w))
    | inr on ↦
        let (a, ran, s) = sweep-Swept env now alive w.a w.consistent in
        (
          record this { allocator = some a },
          rw (on, w.allocator, ran),
          (
            refl,
            record {
              a = a;
              allocator = refl;
              policy = w.policy ∙ ap some (sym s.same.policy);
              consistent = s.consistent;
            },
          ),
        )
  ]

  pub ref-IsWhole : (this : Plugin env) → IsWhole this → IsWhole (plugin_ref env this)
  unfolding plugin_ref
  ref-IsWhole this w = record {
    a = w.a;
    allocator = w.allocator;
    policy = w.policy;
    consistent = w.consistent;
  }

  pub reload-IsWhole :
      (calloc_ok : Bool) (source : Source) (this : Plugin env)
      → IsWhole this
      → ((Plugin.reload env calloc_ok source this).1.refcnt ≡ this.refcnt)
        × IsWhole (Plugin.reload env calloc_ok source this).1
  unfolding Plugin.reload
  reload-IsWhole calloc_ok source this w =
      let c = w.consistent in
      rw (w.policy, w.allocator)
        (
          refl,
          record {
            a = record w.a { policy = (PolicyEngine.reload env calloc_ok source w.a.policy).1 };
            allocator = refl;
            policy = refl;
            consistent = record { index = c.index; addressed = c.addressed; pool = c.pool };
          },
        )
