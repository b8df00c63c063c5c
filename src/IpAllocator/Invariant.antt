-- ===== src/IpAllocator/Invariant.antt =====
-- The invariant of plugin/src/ip_allocator.c, and the address that a released lease gives back.
use strongswan_plugin_vpn_cu.Base.{
  ℕ, ◌≡◌, refl, inl, inr, true, false, Option, none, some, arith, ◌==◌, if◌then◌else◌, Bool-cases,
  Returns,
}
use strongswan_plugin_vpn_cu.DynamicPool.{DynamicPool}
use strongswan_plugin_vpn_cu.DynamicPool.Release.{release-Frees}
use strongswan_plugin_vpn_cu.Env.{Env}
use strongswan_plugin_vpn_cu.IpAllocator.{IpAllocator, recycle}
use strongswan_plugin_vpn_cu.IpAllocator.Match.{Matched, View, drop_fixed}
use strongswan_plugin_vpn_cu.IpAllocator.Traffic.{drop_dynamic}
use strongswan_plugin_vpn_cu.SessionManager.{Lease}
use strongswan_plugin_vpn_cu.SessionManager.Tables.{Inv, leases}

module _ (env : Env) where
  open env use {Host as H, lib}

  -- Without a pool no lease is from one.
  abbrev pub PoolMatches : Option (DynamicPool H) → View lib → Type 0
  PoolMatches none L = (u : ℕ) (l : Lease H) → L u ≡ some l → l.fixed ≡ true
  PoolMatches (some p) L = Matched lib p L

  -- The index of leases is whole, every lease has an address, and the marks of the pool are the
  -- addresses of its leases.
  pub record IsConsistent (a : IpAllocator env) : Type 0 where
    pub index : Inv env a.sessions
    pub addressed :
        (u : ℕ) (l : Lease H) → leases env a.sessions u ≡ some l → (h : H) × (l.ip ≡ some h)
    pub pool : PoolMatches a.dyn (leases env a.sessions)

  -- All but the pool and the leases.
  pub record SameConfig (a b : IpAllocator env) : Type 0 where
    pub policy : b.policy ≡ a.policy
    pub pool_name : b.pool_name ≡ a.pool_name
    pub lease_timeout : b.lease_timeout ≡ a.lease_timeout

  module _ (L L' : View lib) (u : ℕ) (l : Lease H) (at : L u ≡ some l)
      (e : (v : ℕ) → L' v ≡ (if u == v then none else L v)) where
    recycle_dynamic :
        (p : DynamicPool H)
        → l.fixed ≡ false
        → Matched lib p L
        → Returns (recycle env l (some p)) (λ d. PoolMatches d L')
    unfolding recycle
    recycle_dynamic p dynamic m =
        let (i, s, marked) = m.backed u l at dynamic in
        let (q, ran, f) = release-Frees lib p m.valid s.host i s.at in
        (some q, rw (dynamic, s.ip, ran), drop_dynamic lib p L m u l L' dynamic i q at s f e)

    -- The pool matches the leases again once the lease of `u` is gone.
    pub recycle-PoolMatches :
        (dyn : Option (DynamicPool H))
        → PoolMatches dyn L
        → Returns (recycle env l dyn) (λ d. PoolMatches d L')
    unfolding recycle
    recycle-PoolMatches none all = (none, refl, λ v k h. all v k (ground (arith, e v)))
    recycle-PoolMatches (some p) m = elim (Bool-cases l.fixed) [
      | inl fixed ↦ (some p, rw fixed, drop_fixed lib p L m u l L' at fixed e)
      | inr dynamic ↦ recycle_dynamic p dynamic m
    ]
