-- ===== src/DynamicPool/Keeps.antt =====
-- The pool of plugin/src/dynamic_pool.c keeps the contract of plugin/src/dynamic_pool.h.
use strongswan_plugin_vpn_cu.AddressPool.{AddressPool, Contract}
use strongswan_plugin_vpn_cu.AddressPool.Calls.{Calls, Calls-Tracks, Unique, mem}
use strongswan_plugin_vpn_cu.Base.{
  List, length, ℕ, ◌+◌, ◌-◌, ◌≤◌, ◌<◌, ◌≡◌, ◌↔◌, ◌⊎◌, sym, ◌∙◌, inl, inr, Bool, true, false, ◌&&◌,
  none, some, arith, leb, ltb, ◌==◌, if◌then◌else◌, ok, Returns,
}
use strongswan_plugin_vpn_cu.DynamicPool
use strongswan_plugin_vpn_cu.DynamicPool.{DynamicPool, is_in_pool, get_capacity, get_used}
use strongswan_plugin_vpn_cu.DynamicPool.Acquire.{acquire-Acquired, SameRange}
use strongswan_plugin_vpn_cu.DynamicPool.Bitmap.{is_set}
use strongswan_plugin_vpn_cu.DynamicPool.Count.{count-le, count-eq-zero, count_full}
use strongswan_plugin_vpn_cu.DynamicPool.Member.{is_in_pool-IsAt}
use strongswan_plugin_vpn_cu.DynamicPool.Release.{release-Frees}
use strongswan_plugin_vpn_cu.DynamicPool.Valid.{IsValid, taken}
use strongswan_plugin_vpn_cu.Host.{HostLib, af_inet, host_to_u32}

module _ (lib : HostLib) where
  open lib use {Host, get_family}

  -- `INIT` fills the table of methods.
  abbrev pub methods : AddressPool lib
  methods = record {
    Self = DynamicPool Host;
    acquire = DynamicPool.acquire lib;
    release = DynamicPool.release lib;
    is_in_pool = is_in_pool lib;
    capacity = get_capacity lib;
    used = get_used lib;
  }

  -- Whether the address `a` is one of the range whose index is marked.
  abbrev pub holds : DynamicPool Host → ℕ → Bool
  holds p a = leb p.start_h a && (ltb a (p.start_h + p.capacity) && taken p (a - p.start_h))

  used_lem : (p : DynamicPool Host) → IsValid p → get_used lib p ≤ get_capacity lib p
  unfolding get_used get_capacity
  used_lem p v = omega (arith, v.counted, count-le (is_set p.bits) p.capacity)

  in_pool :
      (p : DynamicPool Host) (ip : Host)
      → IsValid p
      → (is_in_pool lib (some ip) p ≡ true) ↔ (
          (get_family ip ≡ af_inet)
          × (p.start_h ≤ host_to_u32 lib ip)
          × (host_to_u32 lib ip < p.start_h + get_capacity lib p))
  unfolding is_in_pool get_capacity
  in_pool p ip v = ground (arith, v.range)

  marks :
      (p q : DynamicPool Host) (i a : ℕ) (b : Bool)
      → i < p.capacity
      → ((j : ℕ) → taken q j ≡ (if i == j then b else taken p j))
      → SameRange p q
      → holds q a ≡ (if p.start_h + i == a then b else holds p a)
  marks p q i a b inside now same =
      rw (same.start_h, same.capacity) (ground (arith, now (a - p.start_h)))

  acquired :
      (p : DynamicPool Host)
      → IsValid p
      → Returns (DynamicPool.acquire lib p) λ r.
        ((r.0 ≡ none) × (r.1 ≡ p) × (get_used lib p ≡ get_capacity lib p))
        ⊎ ((h : Host) × (r.0 ≡ some h)
            × (is_in_pool lib (some h) p ≡ true)
            × (holds p (host_to_u32 lib h) ≡ false)
            × ((a : ℕ) → holds r.1 a ≡ (if host_to_u32 lib h == a then true else holds p a))
            × (get_used lib r.1 ≡ get_used lib p + 1)
            × (r.1.start_h ≡ p.start_h)
            × (get_capacity lib r.1 ≡ get_capacity lib p)
            × IsValid r.1)
  unfolding get_used get_capacity
  acquired p v =
      let (r, ran, w) = acquire-Acquired lib p v in
      (
        r,
        ran,
        elim w [
          | inl (full, e, same) ↦
              inl (e, same, v.counted ∙ count_full (is_set p.bits) p.capacity full)
          | inr (h, e, g) ↦
              let index : host_to_u32 lib h - p.start_h ≡ g.index = omega (arith, g.address) in
              inr (
                h,
                e,
                (in_pool p h v).1 (
                  g.family,
                  omega (arith, g.address),
                  unfold get_capacity in omega (arith, g.address, g.inside),
                ),
                rw index (ground (arith, g.was_free)),
                λ a. rw g.address (marks p r.1 g.index a true g.inside g.marked g.same),
                g.counted,
                g.same.start_h,
                g.same.capacity,
                g.valid,
              )
        ],
      )

  released :
      (p : DynamicPool Host) (ip : Host)
      → IsValid p
      → is_in_pool lib (some ip) p ≡ true
      → Returns (DynamicPool.release lib (some ip) p) λ q.
        ((a : ℕ) → holds q a ≡ (if host_to_u32 lib ip == a then false else holds p a))
        × (get_used lib q + (if holds p (host_to_u32 lib ip) then 1 else 0) ≡ get_used lib p)
        × (q.start_h ≡ p.start_h)
        × (get_capacity lib q ≡ get_capacity lib p)
        × IsValid q
  unfolding get_used get_capacity
  released p ip v inside = elim (is_in_pool-IsAt lib p v ip) [
    | inr (e, _) ↦ absurd (let e' = inside in cc)
    | inl (_, (i, at)) ↦
        let (q, ran, f) = release-Frees lib p v ip i at in
        let index : host_to_u32 lib ip - p.start_h ≡ i = omega (arith, at.address) in
        (
          q,
          ran,
          (
            λ a. rw at.address (marks p q i a false at.inside f.cleared f.same),
            rw index (ground (arith, at.address, at.inside, f.counted)),
            f.same.start_h,
            f.same.capacity,
            f.valid,
          ),
        )
  ]

  foreign :
      (p : DynamicPool Host) (ip : Host)
      → IsValid p
      → is_in_pool lib (some ip) p ≡ false
      → DynamicPool.release lib (some ip) p ≡ ok p
  unfolding is_in_pool DynamicPool.release
  foreign p ip v outside = ground (arith, v.range)

  -- The contract holds of it.
  pub keeps : Contract methods
  keeps = record {
    IsGood = IsValid;
    first = λ p. p.start_h;
    held = holds;
    used-le-capacity = used_lem;
    is_in_pool_iff = in_pool;
    acquire_lem = acquired;
    release_lem = released;
    release_foreign = foreign;
  }

  -- Whatever is acquired from a valid pool with no address in use, and given back to it, in whatever
  -- order: no address is out twice at a time; those that are out are the ones that the pool has
  -- marked; `used` is their number, and there are at most as many as the capacity says.
  pub Calls-Unique :
      (p q : DynamicPool Host) (out : List ℕ)
      → IsValid p
      → ((i : ℕ) → taken p i ≡ false)
      → Calls methods p q out
      → Unique out
        × ((a : ℕ) → mem a out ≡ holds q a)
        × (get_used lib q ≡ length out)
        × (length out ≤ get_capacity lib p)
  unfolding keeps
  Calls-Unique p q out v free c =
      let none_used : get_used lib p ≡ 0 =
        unfold get_used in v.counted ∙ count-eq-zero (is_set p.bits) p.capacity free in
      let (t, room) =
        Calls-Tracks methods keeps v (λ a. ground (arith, free (a - p.start_h))) none_used c in
      (t.unique, λ a. sym (t.holds a), t.counted, room)
