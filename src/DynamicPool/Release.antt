-- ===== src/DynamicPool/Release.antt =====
-- `release` of plugin/src/dynamic_pool.c gives back one address, once.
use mathlib.Core.Option.{some-injective}
use strongswan_plugin_vpn_cu.Base.{
  ℕ, ◌+◌, ◌-◌, ◌<◌, ◌≡◌, ◌≢◌, refl, ◌∙◌, sym, ◌⊎◌, inl, inr, true, false, List, some, arith, ltb,
  ◌==◌, if◌then◌else◌, Bool-cases, ok, Returns, Returns-at,
}
use strongswan_plugin_vpn_cu.Host.{HostLib, af_inet, host_to_u32}
use strongswan_plugin_vpn_cu.DynamicPool.{DynamicPool, acquire, release, free_index}
use strongswan_plugin_vpn_cu.DynamicPool.Bitmap.{is_set, test_bit_lem, clear_bit_lem, Changes}
use strongswan_plugin_vpn_cu.DynamicPool.Count.{count_clear}
use strongswan_plugin_vpn_cu.DynamicPool.Valid.{IsValid, taken}
use strongswan_plugin_vpn_cu.DynamicPool.Acquire.{SameRange, Acquired, acquire-Acquired}

module _ (lib : HostLib) where
  open lib use {Host, get_family}

  -- The index `i` is free in `q`, and nothing else differs from `p`.
  pub record Frees (p : DynamicPool Host) (i : ℕ) (q : DynamicPool Host) : Type 0 where
    pub cleared : (j : ℕ) → taken q j ≡ (if i == j then false else taken p j)
    pub counted : q.used + (if taken p i then 1 else 0) ≡ p.used
    pub same : SameRange p q
    pub valid : IsValid q

  -- `ip` is not an IPv4 address of the range.
  abbrev pub Foreign : Host → DynamicPool Host → Type 0
  Foreign ip p =
      (get_family ip ≢ af_inet)
      ⊎ ((host_to_u32 lib ip < p.start_h) ⊎ (p.end_h < host_to_u32 lib ip))

  -- `ip` is the address at the index `i` of the range.
  pub record IsAt (p : DynamicPool Host) (ip : Host) (i : ℕ) : Type 0 where
    pub family : get_family ip ≡ af_inet
    pub address : host_to_u32 lib ip ≡ p.start_h + i
    pub inside : i < p.capacity

  abbrev pub Released : Host → DynamicPool Host → DynamicPool Host → Type 0
  Released ip p q = (Foreign ip p × (q ≡ p)) ⊎ ((i : ℕ) × IsAt p ip i × Frees p i q)

  module _ (p : DynamicPool Host) (valid : IsValid p) where
    open valid use {range, nonempty, word, narrow, covers, bytes, counted}

    clear :
        (i : ℕ) (after : List ℕ)
        → i < p.capacity
        → taken p i ≡ true
        → Changes p.bits i false after
        → Frees p i
            (record p { bits = after; used = (if ltb 0 p.used then p.used - 1 else p.used) })
    clear i after inside full ch =
        let fewer =
          count_clear (is_set p.bits) (is_set after) i false ch.reads refl full p.capacity inside in
        let used : (if ltb 0 p.used then p.used - 1 else p.used) + 1 ≡ p.used = ground arith in
        record {
          cleared = ch.reads;
          counted = rw full used;
          same = record { start = refl; end = refl; start_h = refl; end_h = refl; capacity = refl };
          valid = record {
            range = range;
            nonempty = nonempty;
            word = word;
            narrow = narrow;
            covers = omega (arith, ch.size);
            bytes = ch.bytes;
            counted = omega arith;
          };
        }

    keep : (i : ℕ) → taken p i ≡ false → Frees p i p
    keep i free = record {
      cleared = λ j. elim (Bool-cases (i == j)) [
        | inl e ↦ let here : i ≡ j = ground arith in rw (e, ← here) free
        | inr e ↦ rw e
      ];
      counted = rw free (omega arith);
      same = record { start = refl; end = refl; start_h = refl; end_h = refl; capacity = refl };
      valid = valid;
    }

    free_index_free : (i : ℕ) → i < p.capacity → taken p i ≡ false → free_index lib i p ≡ ok p
    unfolding free_index
    free_index_free i inside free = rw (test_bit_lem p.bits i (omega arith), free)

    release_at : (ip : Host) (i : ℕ) → IsAt p ip i → release lib (some ip) p ≡ free_index lib i p
    unfolding release
    release_at ip i here =
        let family : (get_family ip == af_inet) ≡ true = ground arith in
        let above : ltb (host_to_u32 lib ip) p.start_h ≡ false = ground arith in
        let below : ltb p.end_h (host_to_u32 lib ip) ≡ false = ground arith in
        let index : host_to_u32 lib ip - p.start_h ≡ i = omega arith in
        rw (family, above, below, index)

    free_index-Frees : (i : ℕ) → i < p.capacity → Returns (free_index lib i p) (Frees p i)
    unfolding free_index
    free_index-Frees i inside = elim (Bool-cases (taken p i)) [
      | inr free ↦ rw (test_bit_lem p.bits i (omega arith), free) (p, refl, keep i free)
      | inl full ↦
          let (after, ran, ch) = clear_bit_lem p.bits i (omega arith) bytes in
          (_, rw (test_bit_lem p.bits i (omega arith), full, ran), clear i after inside full ch)
    ]

    -- On a valid pool `release` never leaves the bitmap. An address that is not an IPv4 address
    -- of the range changes nothing; any other frees its own index, lowers the counter exactly if
    -- that index was taken, changes nothing else, and leaves a valid pool.
    pub release-Released : (ip : Host) → Returns (release lib (some ip) p) (Released ip p)
    unfolding release
    release-Released ip = elim (Bool-cases (get_family ip == af_inet)) [
      | inr e ↦ (p, rw e, inl (inl (ground arith), refl))
      | inl e ↦ elim (Bool-cases (ltb (host_to_u32 lib ip) p.start_h)) [
        | inl f ↦ (p, rw (e, f), inl (inr (inl (ground arith)), refl))
        | inr f ↦ elim (Bool-cases (ltb p.end_h (host_to_u32 lib ip))) [
          | inl g ↦ (p, rw (e, f, g), inl (inr (inr (ground arith)), refl))
          | inr g ↦
              let (q, ran, freed) =
                free_index-Frees (host_to_u32 lib ip - p.start_h) (ground arith) in
              (
                q,
                rw (e, f, g) ran,
                inr (
                  host_to_u32 lib ip - p.start_h,
                  record { family = ground arith; address = ground arith; inside = ground arith },
                  freed,
                ),
              )
        ]
      ]
    ]

    -- Giving an address of the range back frees its index.
    pub release-Frees :
        (ip : Host) (i : ℕ) → IsAt p ip i → Returns (release lib (some ip) p) (Frees p i)
    release-Frees ip i here = rw (release_at ip i here) (free_index-Frees i here.inside)

  pub IsAt-same :
      {p q : DynamicPool Host} {ip : Host} {i : ℕ} → IsAt p ip i → SameRange p q → IsAt q ip i
  IsAt-same here same = record { family = here.family; address = omega arith; inside = omega arith }

  -- On a valid pool, releasing an address a second time changes nothing.
  pub release_again :
      (p : DynamicPool Host) {q : DynamicPool Host} (ip : Host)
      → IsValid p
      → release lib (some ip) p ≡ ok q
      → release lib (some ip) q ≡ ok q
  release_again p {q} ip valid ran =
      elim (Returns-at _ (Released ip p) (release-Released p valid ip) ran) [
        | inl (_, e) ↦ cc
        | inr (i, here, freed) ↦
            let there = IsAt-same here freed.same in
            rw (release_at q freed.valid ip i there)
              (free_index_free q freed.valid i there.inside (ground (arith, freed.cleared i)))
      ]

  pub back : {p q : DynamicPool Host} → SameRange p q → SameRange q p
  back a = record {
    start = sym a.start;
    end = sym a.end;
    start_h = sym a.start_h;
    end_h = sym a.end_h;
    capacity = sym a.capacity;
  }

  same_trans : {p q r : DynamicPool Host} → SameRange p q → SameRange q r → SameRange p r
  same_trans a b = record {
    start = b.start ∙ a.start;
    end = b.end ∙ a.end;
    start_h = b.start_h ∙ a.start_h;
    end_h = b.end_h ∙ a.end_h;
    capacity = b.capacity ∙ a.capacity;
  }

  -- On a valid pool `release` undoes `acquire`: the address that was handed out is taken back
  -- without a fault, and the pool has the range, the marks and the counter of before.
  pub release-acquire :
      (p : DynamicPool Host) {q : DynamicPool Host} {h : Host}
      → IsValid p
      → acquire lib p ≡ ok (some h, q)
      → Returns
          (release lib (some h) q)
          λ r. SameRange p r × ((j : ℕ) → taken r j ≡ taken p j) × (r.used ≡ p.used) × IsValid r
  release-acquire p {q} {h} valid ran =
      elim (Returns-at _ (Acquired lib p) (acquire-Acquired lib p valid) ran) [
        | inl (_, e, _) ↦ absurd (cc)
        | inr (h', e, g) ↦
            let same : h ≡ h' = some-injective h h' e in
            let there : IsAt q h g.index = record {
              family = rw same g.family;
              address = rw same (omega arith);
              inside = omega arith;
            } in
            let (r, freed, f) = release-Frees q g.valid h g.index there in
            (
              r,
              freed,
              (
                same_trans g.same f.same,
                λ j. ground (arith, f.cleared j, g.marked j, g.was_free),
                ground (arith, g.marked g.index, f.counted, g.counted),
                f.valid,
              ),
            )
      ]
