-- ===== src/IpAllocator/Release.antt =====
-- `release_by_uid_impl` of plugin/src/ip_allocator.c and its callers.
use mathlib.Core.Path.{subst}
use strongswan_plugin_vpn_cu.Base.{
  ℕ, ◌≡◌, refl, sym, ◌∙◌, inl, inr, Bool, true, false, Option, none, some, arith, ◌==◌,
  if◌then◌else◌, Bool-cases, Returns,
}
use strongswan_plugin_vpn_cu.Env.{Env, Ptr}
use strongswan_plugin_vpn_cu.IpAllocator.{IpAllocator, finish_release, release_by_uid_impl}
use strongswan_plugin_vpn_cu.IpAllocator.Invariant.{
  IsConsistent, SameConfig, PoolMatches, recycle-PoolMatches,
}
use strongswan_plugin_vpn_cu.SessionManager.{SessionManager, Lease}
use strongswan_plugin_vpn_cu.SessionManager.Tables.{leases, uid_of}
use strongswan_plugin_vpn_cu.SessionManager.Unbind.{
  Unbound, SameLeases, SameLeases-leases, SameLeases-Inv, load-Unbound, unbind-Unbinds,
  destroy-Destroyed,
}

-- Whether there is one.
abbrev pub is_some {ℓ} : {A : Type ℓ} → Option A → Bool
is_some none = false
is_some (some a) = true

module _ (env : Env) where
  open env use {Host as H, lib}

  -- The lease of the number `uid`, if there was one, is gone, and no other.
  pub record Released (a : IpAllocator env) (uid : ℕ) (r : Bool × IpAllocator env) : Type 0 where
    pub consistent : IsConsistent env r.1
    pub same : SameConfig env a r.1
    pub found : r.0 ≡ is_some (leases env a.sessions uid)
    pub entries :
        (v : ℕ) → uid_of env r.1.sessions v ≡ (if uid == v then none else uid_of env a.sessions v)
    pub pool_kept : leases env a.sessions uid ≡ none → r.1.dyn ≡ a.dyn
    pub view :
        (v : ℕ) → leases env r.1.sessions v ≡ (if uid == v then none else leases env a.sessions v)

  module _ (a : IpAllocator env) (c : IsConsistent env a) (uid : ℕ) where
    nothing :
        (o : Option Ptr) (t : SessionManager env)
        → uid_of env a.sessions uid ≡ none
        → o ≡ none
        → SameLeases env a.sessions t
        → Returns (finish_release env (o, t) a) (Released a uid)
    unfolding finish_release
    nothing o t no_lease e s = (
      (false, record a { sessions = t }),
      rw e,
      record {
        consistent = record {
          index = SameLeases-Inv env s c.index;
          addressed = λ v k h. c.addressed v k (sym (at v) ∙ h);
          pool = subst (PoolMatches env a.dyn) (sym (SameLeases-leases env s)) c.pool;
        };
        same = record { policy = refl; pool_name = refl; lease_timeout = refl };
        found = rw no_lease;
        entries = λ v. (λ i. s.by_uid i v) ∙ ground (arith, no_lease);
        pool_kept = λ e. refl;
        view = λ v. at v ∙ still v;
      },
    )
      where
        at : (v : ℕ) → leases env t v ≡ leases env a.sessions v
        at v = λ i. SameLeases-leases env s i v

        still :
            (v : ℕ) → leases env a.sessions v ≡ (if uid == v then none else leases env a.sessions v)
        still v = elim (Bool-cases (uid == v)) [
          | inl same ↦ let uv : uid ≡ v = ground arith in rw (same, ← uv, no_lease)
          | inr other ↦ rw other
        ]

    something :
        (o : Option Ptr) (t : SessionManager env) (p : Ptr) (l : Lease H)
        → o ≡ some p
        → Unbound env a.sessions uid p l t
        → Returns (finish_release env (o, t) a) (Released a uid)
    unfolding finish_release
    something o t p l e w =
        let (t', freed, d) = destroy-Destroyed env a.sessions c.index w in
        let at : leases env a.sessions uid ≡ some l = rw w.entry w.at in
        let (dyn, recycled, pool) =
          recycle-PoolMatches env (leases env a.sessions) (leases env t') uid l at d.view a.dyn
            c.pool in
        (
          (true, record a { dyn = dyn; sessions = t' }),
          rw (e, load-Unbound env w, recycled, freed),
          record {
            consistent = record {
              index = d.valid;
              addressed = λ v k h. c.addressed v k (ground (arith, d.view v));
              pool = pool;
            };
            same = record { policy = refl; pool_name = refl; lease_timeout = refl };
            found = rw at;
            entries = d.entries;
            pool_kept = λ e. absurd (let e' = at in cc);
            view = d.view;
          },
        )

    -- On a consistent allocator `release_by_uid_impl` commits no fault and leaves a consistent
    -- allocator with the same policy, pool name and timeout. The lease of the number, if there
    -- was one, is gone, every other lease is as it was, and the result says whether there was
    -- one.
    pub release_by_uid_impl-Released : Returns (release_by_uid_impl env uid a) (Released a uid)
    unfolding release_by_uid_impl
    release_by_uid_impl-Released =
        let (r, ran, done) = unbind-Unbinds env a.sessions c.index uid in
        rw ran (elim done [
          | inl (no_lease, e, s) ↦ nothing r.0 r.1 no_lease e s
          | inr (p, l, e, w) ↦ something r.0 r.1 p l e w
        ])
