-- ===== src/History/Safety.antt =====
-- What holds of the allocator of plugin/src/ip_allocator.c after any sequence of calls.
use mathlib.Core.Option.{some-injective}
use strongswan_plugin_vpn_cu.Base.{
  ℕ, ◌≡◌, refl, sym, ◌∙◌, ap, false, Option, none, some, arith, ok, Returns-at,
}
use strongswan_plugin_vpn_cu.DynamicPool.{DynamicPool}
use strongswan_plugin_vpn_cu.Env.{Env}
use strongswan_plugin_vpn_cu.History.{Reach, here, next}
use strongswan_plugin_vpn_cu.History.Table.{Step-Keeps, Keeps}
use strongswan_plugin_vpn_cu.Host.{host_to_u32}
use strongswan_plugin_vpn_cu.IpAllocator.{IpAllocator}
use strongswan_plugin_vpn_cu.IpAllocator.Invariant.{IsConsistent, PoolMatches}
use strongswan_plugin_vpn_cu.IpAllocator.Match.{View, Holds}
use strongswan_plugin_vpn_cu.SessionManager.{Lease}
use strongswan_plugin_vpn_cu.SessionManager.Tables.{leases}

module _ (env : Env) where
  open env use {Host as H, lib}

  Reach-IsConsistent :
      {a b : IpAllocator env} → IsConsistent env a → Reach env a b → IsConsistent env b
  Reach-IsConsistent c here = c
  Reach-IsConsistent {a} c (next {b = b} {c = d} r s) =
      (Returns-at (ok d) (Keeps env b) (Step-Keeps env b (Reach-IsConsistent c r) (ok d) s) refl).0

  same_index :
      (p : DynamicPool H) (l k : Lease H) (x y : H) (i j : ℕ)
      → l.ip ≡ some x
      → k.ip ≡ some y
      → host_to_u32 lib x ≡ host_to_u32 lib y
      → Holds lib p l i
      → Holds lib p k j
      → i ≡ j
  same_index p l k x y i j lx ky e a b =
      let ax = ap (host_to_u32 lib) (some-injective a.host x (sym a.ip ∙ lx)) in
      let by = ap (host_to_u32 lib) (some-injective b.host y (sym b.ip ∙ ky)) in
      omega (arith, a.at.address, b.at.address)

  separate :
      (dyn : Option (DynamicPool H)) (L : View lib)
      → PoolMatches env dyn L
      → (u v : ℕ) (l k : Lease H) (x y : H) → L u ≡ some l
      → L v ≡ some k
      → l.fixed ≡ false
      → k.fixed ≡ false
      → l.ip ≡ some x
      → k.ip ≡ some y
      → host_to_u32 lib x ≡ host_to_u32 lib y
      → u ≡ v
  separate none L all u v l k x y lu kv ld kd lx ky e = absurd (let e' = all u l lu in cc)
  separate (some p) L m u v l k x y lu kv ld kd lx ky e =
      let (i, hi, _) = m.backed u l lu ld in
      let (j, hj, _) = m.backed v k kv kd in
      let ij = same_index p l k x y i j lx ky e hi hj in m.apart u v i l k lu kv ld kd hi (rw ij hj)

  -- After any calls of a consistent allocator, each acquisition with memory for a lease and under a
  -- unique id that no other user had leased, and each sweep without a call in between, no two
  -- leases from the dynamic pool have the same address: the leases with that address are under one
  -- unique id.
  pub Reach-separate :
      {a b : IpAllocator env}
      → IsConsistent env a
      → Reach env a b
      → (u v : ℕ) (l k : Lease H) (x y : H) → leases env b.sessions u ≡ some l
      → leases env b.sessions v ≡ some k
      → l.fixed ≡ false
      → k.fixed ≡ false
      → l.ip ≡ some x
      → k.ip ≡ some y
      → host_to_u32 lib x ≡ host_to_u32 lib y
      → u ≡ v
  Reach-separate {a} {b} c r u v l k x y lu kv ld kd lx ky e =
      let d = Reach-IsConsistent c r in
      separate b.dyn (leases env b.sessions) d.pool u v l k x y lu kv ld kd lx ky e
