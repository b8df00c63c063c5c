-- ===== src/IpAllocator/Traffic.antt =====
-- An address of the pool is handed out, or comes back, or its lease gets another number.
use strongswan_plugin_vpn_cu.Base.{
  ℕ, ◌≡◌, inl, inr, true, false, none, some, arith, ◌==◌, if◌then◌else◌, Bool-cases,
}
use strongswan_plugin_vpn_cu.DynamicPool.{DynamicPool}
use strongswan_plugin_vpn_cu.DynamicPool.Acquire.{Grants}
use strongswan_plugin_vpn_cu.DynamicPool.Release.{Frees}
use strongswan_plugin_vpn_cu.DynamicPool.Valid.{taken}
use strongswan_plugin_vpn_cu.Host.{HostLib}
use strongswan_plugin_vpn_cu.IpAllocator.Match.{
  Matched, View, Holds, Holds-eq, Holds-same, Holds-back,
}
use strongswan_plugin_vpn_cu.SessionManager.{Lease}

module _ (lib : HostLib) where
  open lib use {Host as H}

  module _ (p : DynamicPool H) (L : View lib) (m : Matched lib p L) (u : ℕ) (l : Lease H)
      (L' : View lib) (dynamic : l.fixed ≡ false) where
    module _ (h : H) (q : DynamicPool H) (new : L u ≡ none) (ip : l.ip ≡ some h)
        (g : Grants lib p h q) (e : (v : ℕ) → L' v ≡ (if u == v then some l else L v)) where
      here : Holds lib q l g.index
      here = record {
        host = h;
        ip = ip;
        at = record { family = g.family; address = omega arith; inside = omega arith };
      }

      -- No older lease has the index.
      clash : (w : ℕ) (j : Lease H) → L w ≡ some j → j.fixed ≡ false → Holds lib q j g.index → ⊥
      clash w j at d s =
          let (i, t, marked) = m.backed w j at d in
          let same : i ≡ g.index = Holds-eq lib t (Holds-back lib g.same s) in
          ground (arith, g.was_free)

      new_index :
          (v i : ℕ) (k : Lease H) → (u == v) ≡ true → L' v ≡ some k → Holds lib q k i → i ≡ g.index
      new_index v i k same at s =
          let kl : k ≡ l = ground (arith, e v) in Holds-eq lib s (rw kl here)

      pub add_dynamic : Matched lib q L'
      add_dynamic = record {
        valid = g.valid;
        backed = λ v k at d. elim (Bool-cases (u == v)) [
          | inl same ↦
              let kl : k ≡ l = ground (arith, e v) in
              rw kl (g.index, here, ground (arith, g.marked g.index))
          | inr other ↦
              let (i, s, t) = m.backed v k (ground (arith, e v)) d in
              (i, Holds-same lib g.same s, ground (arith, g.marked i, t))
        ];
        owned = λ i b t. elim (Bool-cases (g.index == i)) [
          | inl same ↦
              let gi : g.index ≡ i = ground arith in
              (u, l, ground (arith, e u), dynamic, rw (← gi) here)
          | inr other ↦
              let (v, k, at, d, s) =
                m.owned i (omega (arith, g.same.capacity)) (ground (arith, g.marked i)) in
              (v, k, ground (arith, e v), d, Holds-same lib g.same s)
        ];
        apart = λ v w i k j at at' d d' a b. elim (Bool-cases (u == v)) [
          | inl one ↦ elim (Bool-cases (u == w)) [
            | inl two ↦ ground arith
            | inr two ↦
                let gi = new_index v i k one at a in
                absurd (clash w j (ground (arith, e w)) d' (rw (← gi) b))
          ]
          | inr one ↦ elim (Bool-cases (u == w)) [
            | inl two ↦
                let gi = new_index w i j two at' b in
                absurd (clash v k (ground (arith, e v)) d (rw (← gi) a))
            | inr two ↦
                m.apart v w i k j (ground (arith, e v)) (ground (arith, e w)) d d'
                  (Holds-back lib g.same a) (Holds-back lib g.same b)
          ]
        ];
      }

    module _ (i : ℕ) (q : DynamicPool H) (old : L u ≡ some l) (held : Holds lib p l i)
        (f : Frees lib p i q) (e : (v : ℕ) → L' v ≡ (if u == v then none else L v)) where
      -- The index of another lease is another one.
      distinct :
          (v j : ℕ) (k : Lease H)
          → (u == v) ≡ false
          → L v ≡ some k
          → k.fixed ≡ false
          → Holds lib p k j
          → (i == j) ≡ false
      distinct v j k other at d s = elim (Bool-cases (i == j)) [
        | inr ne ↦ ne
        | inl same ↦
            let ij : i ≡ j = ground arith in
            let uv = m.apart u v j l k old at dynamic d (rw (← ij) held) s in ground arith
      ]

      not_gone :
          (v j : ℕ) (k : Lease H)
          → L v ≡ some k
          → taken q j ≡ true
          → Holds lib p k j
          → (u == v) ≡ false
      not_gone v j k at t s = elim (Bool-cases (u == v)) [
        | inr ne ↦ ne
        | inl same ↦
            let kl : k ≡ l = ground arith in
            let ij : j ≡ i = Holds-eq lib s (rw kl held) in ground (arith, f.cleared j)
      ]

      pub drop_dynamic : Matched lib q L'
      drop_dynamic = record {
        valid = f.valid;
        backed = λ v k at d. elim (Bool-cases (u == v)) [
          | inl same ↦ absurd (let e' = e v in ground arith)
          | inr other ↦
              let before : L v ≡ some k = ground (arith, e v) in
              let (j, s, t) = m.backed v k before d in
              let ne = distinct v j k other before d s in
              (j, Holds-same lib f.same s, ground (arith, f.cleared j, t))
        ];
        owned = λ j b t.
            let kept : taken p j ≡ true = ground (arith, f.cleared j) in
            let (v, k, at, d, s) = m.owned j (omega (arith, f.same.capacity)) kept in
            let moved = not_gone v j k at t s in
            (v, k, ground (arith, e v), d, Holds-same lib f.same s);
        apart = λ v w j k k' at at' d d' a b.
            m.apart v w j k k' (ground (arith, e v)) (ground (arith, e w)) d d'
              (Holds-back lib f.same a) (Holds-back lib f.same b);
      }
