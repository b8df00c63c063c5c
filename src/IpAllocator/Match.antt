-- ===== src/IpAllocator/Match.antt =====
-- How the leases of plugin/src/session_manager.c and the marks of plugin/src/dynamic_pool.c fit
-- together, and that the changes the allocator makes to both keep them so.
use mathlib.Core.Option.{some-injective}
use strongswan_plugin_vpn_cu.Base.{
  ℕ, ◌<◌, ◌≡◌, sym, ap, ◌∙◌, true, false, Option, none, some, arith, ◌==◌, if◌then◌else◌,
}
use strongswan_plugin_vpn_cu.DynamicPool.{DynamicPool}
use strongswan_plugin_vpn_cu.DynamicPool.Acquire.{SameRange}
use strongswan_plugin_vpn_cu.DynamicPool.Release.{IsAt, IsAt-same, back}
use strongswan_plugin_vpn_cu.DynamicPool.Valid.{IsValid, taken}
use strongswan_plugin_vpn_cu.Host.{HostLib, host_to_u32}
use strongswan_plugin_vpn_cu.SessionManager.{Lease}

module _ (lib : HostLib) where
  open lib use {Host as H}

  -- The lease has the address at the index `i` of the pool.
  pub record Holds (p : DynamicPool H) (l : Lease H) (i : ℕ) : Type 0 where
    pub host : H
    pub ip : l.ip ≡ some host
    pub at : IsAt lib p host i

  abbrev pub View : Type 0
  View = ℕ → Option (Lease H)

  -- The marked addresses are exactly those of the leases from the pool, one lease each.
  pub record Matched (p : DynamicPool H) (L : View) : Type 0 where
    pub valid : IsValid p
    pub backed :
        (u : ℕ) (l : Lease H)
        → L u ≡ some l
        → l.fixed ≡ false
        → (i : ℕ) × Holds p l i × (taken p i ≡ true)
    pub owned :
        (i : ℕ)
        → i < p.capacity
        → taken p i ≡ true
        → (u : ℕ) × (l : Lease H) × (L u ≡ some l) × (l.fixed ≡ false) × Holds p l i
    pub apart :
        (u v i : ℕ) (l k : Lease H)
        → L u ≡ some l
        → L v ≡ some k
        → l.fixed ≡ false
        → k.fixed ≡ false
        → Holds p l i
        → Holds p k i
        → u ≡ v

  -- A lease has one address.
  pub Holds-eq : {p : DynamicPool H} {l : Lease H} {i j : ℕ} → Holds p l i → Holds p l j → i ≡ j
  Holds-eq {p} {l} {i} {j} a b =
      let same : a.host ≡ b.host = some-injective a.host b.host (sym a.ip ∙ b.ip) in
      let e : host_to_u32 lib a.host ≡ host_to_u32 lib b.host = ap (host_to_u32 lib) same in
      omega (arith, a.at.address, b.at.address)

  pub Holds-same :
      {p q : DynamicPool H} {l : Lease H} {i : ℕ} → SameRange p q → Holds p l i → Holds q l i
  Holds-same same h = record { host = h.host; ip = h.ip; at = IsAt-same lib h.at same }

  pub Holds-back :
      {p q : DynamicPool H} {l : Lease H} {i : ℕ} → SameRange p q → Holds q l i → Holds p l i
  Holds-back same h = Holds-same (back lib same) h

  -- A lease from outside the pool comes.
  module _ (p : DynamicPool H) (L : View) (m : Matched p L) (u : ℕ) where
    pub add_fixed :
        (l : Lease H) (L' : View)
        → L u ≡ none
        → l.fixed ≡ true
        → ((v : ℕ) → L' v ≡ (if u == v then some l else L v))
        → Matched p L'
    add_fixed l L' new fixed e = record {
      valid = m.valid;
      backed = λ v k h d. m.backed v k (ground (arith, e v)) d;
      owned = λ i b t. let (v, k, h, d, s) = m.owned i b t in (v, k, ground (arith, e v), d, s);
      apart =
          λ v w i k j h h' d d'. m.apart v w i k j (ground (arith, e v)) (ground (arith, e w)) d d';
    }

    -- A lease from outside the pool goes.
    pub drop_fixed :
        (l : Lease H) (L' : View)
        → L u ≡ some l
        → l.fixed ≡ true
        → ((v : ℕ) → L' v ≡ (if u == v then none else L v))
        → Matched p L'
    drop_fixed l L' old fixed e = record {
      valid = m.valid;
      backed = λ v k h d. m.backed v k (ground (arith, e v)) d;
      owned = λ i b t. let (v, k, h, d, s) = m.owned i b t in (v, k, ground (arith, e v), d, s);
      apart =
          λ v w i k j h h' d d'. m.apart v w i k j (ground (arith, e v)) (ground (arith, e w)) d d';
    }
