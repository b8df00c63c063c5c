-- ===== src/DynamicPool/Acquire.antt =====
-- `acquire` of plugin/src/dynamic_pool.c hands out the lowest free address.
use strongswan_plugin_vpn_cu.Base.{
  ℕ, zero, suc, ◌+◌, ◌%◌, ◌^◌, ◌≤◌, ◌<◌, ◌≡◌, refl, ◌⊎◌, inl, inr, true, false, List, Option, none,
  some, arith, ltb, ◌==◌, if◌then◌else◌, Bool-cases, Returns,
}
use strongswan_plugin_vpn_cu.Host.{HostLib, af_inet, host_to_u32}
use strongswan_plugin_vpn_cu.Host.Words.{host_to_u32-u32_to_host}
use strongswan_plugin_vpn_cu.DynamicPool.{DynamicPool, acquire, scan}
use strongswan_plugin_vpn_cu.DynamicPool.Bitmap.{is_set, test_bit_lem, set_bit_lem, Changes}
use strongswan_plugin_vpn_cu.DynamicPool.Count.{count_not_full, count_mark, extend}
use strongswan_plugin_vpn_cu.DynamicPool.Valid.{IsValid, taken}

-- `q` is `p` but for the bitmap and the counter.
pub record SameRange {H : Type 0} (p q : DynamicPool H) : Type 0 where
  pub start : q.start ≡ p.start
  pub end : q.end ≡ p.end
  pub start_h : q.start_h ≡ p.start_h
  pub end_h : q.end_h ≡ p.end_h
  pub capacity : q.capacity ≡ p.capacity

module _ (lib : HostLib) where
  open lib use {Host, get_family}

  -- The host `h` was handed out: it is the address of the lowest index that was free, and that
  -- index is now marked.
  pub record Grants (p : DynamicPool Host) (h : Host) (q : DynamicPool Host) : Type 0 where
    pub index : ℕ
    pub inside : index < p.capacity
    pub was_free : taken p index ≡ false
    pub lowest : (j : ℕ) → j < index → taken p j ≡ true
    pub family : get_family h ≡ af_inet
    pub address : host_to_u32 lib h ≡ p.start_h + index
    pub marked : (j : ℕ) → taken q j ≡ (if index == j then true else taken p j)
    pub counted : q.used ≡ p.used + 1
    pub same : SameRange p q
    pub valid : IsValid q

  -- The pool had no free address, and is as it was.
  abbrev pub IsFull : DynamicPool Host → Type 0
  IsFull p = (j : ℕ) → j < p.capacity → taken p j ≡ true

  -- What `acquire` does to a pool.
  abbrev pub Acquired : DynamicPool Host → Option Host × DynamicPool Host → Type 0
  Acquired p r =
      (IsFull p × (r.0 ≡ none) × (r.1 ≡ p)) ⊎ ((h : Host) × (r.0 ≡ some h) × Grants p h r.1)

  module _ (p : DynamicPool Host) (valid : IsValid p) where
    open valid use {range, word, narrow, covers, bytes, counted}

    grant :
        (i : ℕ) (h : Host) (after : List ℕ)
        → i < p.capacity
        → ((j : ℕ) → j < i → taken p j ≡ true)
        → taken p i ≡ false
        → get_family h ≡ af_inet
        → host_to_u32 lib h ≡ p.start_h + i
        → Changes p.bits i true after
        → Grants p h (record p { bits = after; used = p.used + 1 })
    grant i h after inside below free family address ch =
        let more =
          count_mark (is_set p.bits) (is_set after) i true ch.reads refl free p.capacity inside in
        record {
          index = i;
          inside = inside;
          was_free = free;
          lowest = below;
          family = family;
          address = address;
          marked = ch.reads;
          counted = refl;
          same = record { start = refl; end = refl; start_h = refl; end_h = refl; capacity = refl };
          valid = record {
            range = range;
            nonempty = valid.nonempty;
            word = word;
            narrow = narrow;
            covers = omega (arith, ch.size);
            bytes = ch.bytes;
            counted = omega arith;
          };
        }

    scan-Acquired :
        (rounds i : ℕ)
        → i + rounds ≡ p.capacity
        → ((j : ℕ) → j < i → taken p j ≡ true)
        → Returns (scan lib rounds i p) (Acquired p)
    unfolding scan
    scan-Acquired zero i e below = ((none, p), refl, inl (λ j h. below j (omega arith), refl, refl))
    scan-Acquired (suc rounds) i e below = elim (Bool-cases (is_set p.bits i)) [
      | inl full ↦
          rw (test_bit_lem p.bits i (omega arith), full)
            (scan-Acquired rounds (i + 1) (omega arith) (extend (is_set p.bits) i full below))
      | inr free ↦
          let (after, ran, ch) = set_bit_lem p.bits i (omega arith) bytes in
          let (h, made, family, address) =
            host_to_u32-u32_to_host lib (p.start_h + i) (omega arith) in
          let fits : (p.start_h + i) % 2 ^ 32 ≡ p.start_h + i = omega arith in
          let few = count_not_full (is_set p.bits) p.capacity i (omega arith) free in
          let counts : (p.used + 1) % 2 ^ 32 ≡ p.used + 1 = omega arith in
          (
            (some h, record p { bits = after; used = p.used + 1 }),
            rw (test_bit_lem p.bits i (omega arith), free, ran, fits, made, counts),
            inr (h, refl, grant i h after (omega arith) below free family address ch),
          )
    ]

    full : p.capacity ≤ p.used → IsFull p
    full le j h = elim (Bool-cases (taken p j)) [
      | inl e ↦ e
      | inr e ↦ absurd (omega (arith, count_not_full (is_set p.bits) p.capacity j h e))
    ]

    -- On a valid pool `acquire` never leaves the bitmap. If every address is in use it returns NULL
    -- and changes nothing; otherwise it returns the lowest free address and marks that one alone.
    pub acquire-Acquired : Returns (acquire lib p) (Acquired p)
    unfolding acquire
    acquire-Acquired = elim (Bool-cases (ltb p.used p.capacity)) [
      | inl more ↦ rw more (scan-Acquired p.capacity 0 (omega arith) (λ j h. elim h [ ]))
      | inr no_more ↦ rw no_more ((none, p), refl, inl (full (ground arith), refl, refl))
    ]
