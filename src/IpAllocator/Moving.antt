-- ===== src/IpAllocator/Moving.antt =====
-- A lease keeps its address under another number.
use strongswan_plugin_vpn_cu.Base.{
  ℕ, ◌≡◌, refl, sym, ◌∙◌, inl, inr, false, none, some, arith, ◌==◌, if◌then◌else◌, Bool-cases,
}
use strongswan_plugin_vpn_cu.DynamicPool.{DynamicPool}
use strongswan_plugin_vpn_cu.Host.{HostLib}
use strongswan_plugin_vpn_cu.IpAllocator.Match.{Matched, View, Holds}
use strongswan_plugin_vpn_cu.SessionManager.{Lease}

module _ (lib : HostLib) where
  open lib use {Host as H}

  module _ (p : DynamicPool H) (L : View lib) (m : Matched lib p L) (old new : ℕ) (l l' : Lease H)
      (L' : View lib) (at : L old ≡ some l) (ip : l'.ip ≡ l.ip) (kind : l'.fixed ≡ l.fixed)
      (free : (k : Lease H) → L new ≡ some k → new ≡ old)
      (e : (v : ℕ) → L' v ≡ (if new == v then some l' else (if old == v then none else L v))) where
    same_address : {k j : Lease H} {i : ℕ} → j.ip ≡ k.ip → Holds lib p k i → Holds lib p j i
    same_address q h = record { host = h.host; ip = q ∙ h.ip; at = h.at }

    -- Where the lease of the number `v` was before.
    record From (v : ℕ) (k : Lease H) : Type 0 where
      number : ℕ
      lease : Lease H
      before : L number ≡ some lease
      address : lease.ip ≡ k.ip
      same_kind : lease.fixed ≡ k.fixed
      was : number ≡ (if new == v then old else v)
      still : (new == v) ≡ false → (old == v) ≡ false

    origin : (v : ℕ) (k : Lease H) → L' v ≡ some k → From v k
    origin v k h = elim (Bool-cases (new == v)) [
      | inl same ↦
          let kl : k ≡ l' = ground (arith, e v) in
          record {
            number = old;
            lease = l;
            before = at;
            address = rw kl (sym ip);
            same_kind = rw kl (sym kind);
            was = rw same;
            still = λ n. ground arith;
          }
      | inr other ↦ record {
        number = v;
        lease = k;
        before = ground (arith, e v);
        address = refl;
        same_kind = refl;
        was = rw other;
        still = λ n. ground (arith, e v);
      }
    ]

    pub move_lease : Matched lib p L'
    move_lease = record {
      valid = m.valid;
      backed = λ v k h d.
          let o = origin v k h in
          let (i, s, t) = m.backed o.number o.lease o.before (o.same_kind ∙ d) in
          (i, same_address (sym o.address) s, t);
      owned = λ i b t.
          let (v, k, h, d, s) = m.owned i b t in
          elim (Bool-cases (old == v)) [
            | inl same ↦
                let kl : k ≡ l = ground arith in
                (new, l', ground (arith, e new), kind ∙ rw (← kl) d, same_address (rw kl ip) s)
            | inr other ↦ (v, k, ground (arith, e v, free k), d, s)
          ];
      apart = λ v w i k j h h' d d' a b.
          let o = origin v k h in
          let o' = origin w j h' in
          let one =
            m.apart o.number o'.number i o.lease o'.lease o.before o'.before (o.same_kind ∙ d)
              (o'.same_kind ∙ d') (same_address o.address a) (same_address o'.address b) in
          ground (arith, one, o.was, o'.was, o.still, o'.still);
    }
