-- ===== src/DynamicPool/Drain.antt =====
-- A pool of plugin/src/dynamic_pool.c from which every address is taken.
use mathlib.Core.Path.{subst}
use strongswan_plugin_vpn_cu.Base.{
  ◌∙◌, ℕ, zero, suc, ◌+◌, ◌≤◌, ◌<◌, ◌≡◌, refl, inl, inr, false, Option, none, some, List, [], ◌∷◌,
  arith, ltb, length, Run, ok, ◌>>=◌, Returns,
}
use strongswan_plugin_vpn_cu.DynamicPool.{DynamicPool, acquire, get_capacity, get_used}
use strongswan_plugin_vpn_cu.DynamicPool.Acquire.{acquire-Acquired, Acquired, SameRange}
use strongswan_plugin_vpn_cu.DynamicPool.Bitmap.{is_set}
use strongswan_plugin_vpn_cu.DynamicPool.Count.{count_full}
use strongswan_plugin_vpn_cu.DynamicPool.Valid.{IsValid, IsIpv4, taken}
use strongswan_plugin_vpn_cu.Host.{HostLib, host_to_u32}

module _ (lib : HostLib) where
  open lib use {Host}

  -- `acquire` again and again.
  unfoldable pub acquire_times : ℕ → DynamicPool Host → Run (List (Option Host) × DynamicPool Host)
  acquire_times zero p = ok ([], p)
  acquire_times (suc n) p = do (h, p) ← acquire lib p; (hs, p) ← acquire_times n p; ok (h ∷ hs, p)

  -- The hosts are the IPv4 addresses from `v` on, one after the other.
  abbrev pub Consecutive : ℕ → List (Option Host) → Type 0
  Consecutive v [] = Unit {0}
  Consecutive v (none ∷ hs) = ⊥
  Consecutive v (some h ∷ hs) = IsIpv4 lib h × (host_to_u32 lib h ≡ v) × Consecutive (v + 1) hs

  -- The addresses below the index `i` are taken, and no others.
  abbrev Prefix : ℕ → DynamicPool Host → Type 0
  Prefix i p = (j : ℕ) → taken p j ≡ ltb j i

  -- The next address is the one at `i`.
  next_index :
      (p : DynamicPool Host) (i : ℕ) (r : Option Host × DynamicPool Host)
      → Prefix i p
      → i < p.capacity
      → Acquired lib p r
      → (h : Host) × (r.0 ≡ some h)
        × IsIpv4 lib h
        × (host_to_u32 lib h ≡ p.start_h + i)
        × Prefix (i + 1) r.1
        × IsValid r.1
        × SameRange p r.1
  next_index p i r prefix more (inl (full, _, _)) = absurd (ground (arith, full i, prefix i))
  next_index p i r prefix more (inr (h, e, g)) =
      let at : g.index ≡ i = ground (arith, g.was_free, prefix g.index, prefix i, g.lowest i) in
      (
        h,
        e,
        g.family,
        omega (arith, g.address),
        (λ j. ground (arith, g.marked j, prefix j)),
        g.valid,
        g.same,
      )

  record Taken (p : DynamicPool Host) (i k : ℕ) (r : List (Option Host) × DynamicPool Host)
      : Type 0 where
    hosts : Consecutive (p.start_h + i) r.0
    many : length r.0 ≡ k
    prefix : Prefix (i + k) r.1
    valid : IsValid r.1
    capacity : r.1.capacity ≡ p.capacity

  acquire_times-Taken :
      (k i : ℕ) (p : DynamicPool Host)
      → IsValid p
      → Prefix i p
      → i + k ≤ p.capacity
      → Returns (acquire_times k p) (Taken p i k)
  unfolding acquire_times
  acquire_times-Taken zero i p valid prefix fits = (
    ([], p),
    refl,
    record {
      hosts = tt;
      many = refl;
      prefix = λ j. ground (arith, prefix j);
      valid = valid;
      capacity = refl;
    },
  )
  acquire_times-Taken (suc k) i p valid prefix fits =
      let (r, ran, w) = acquire-Acquired lib p valid in
      let (h, e, ipv4, at, prefix1, valid1, same) = next_index p i r prefix (omega arith) w in
      let (s, ran1, t) =
        acquire_times-Taken k (i + 1) r.1 valid1 prefix1 (omega (arith, same.capacity)) in
      (
        (some h ∷ s.0, s.1),
        rw (ran, ran1, e),
        record {
          hosts = (
            ipv4,
            at,
            subst (λ v. Consecutive v s.0)
                (let e' : r.1.start_h + (i + 1) ≡ p.start_h + i + 1 = omega (arith, same.start_h) in
                  e')
                t.hosts,
          );
          many = omega (arith, t.many);
          prefix = λ j. ground (arith, t.prefix j);
          valid = t.valid;
          capacity = omega (arith, t.capacity, same.capacity);
        },
      )

  -- From a valid pool with no address in use, `acquire` hands out as many addresses as the
  -- capacity says, one after the other from the start of the range, so no two are the same. Then
  -- `used` is the capacity, and `acquire` returns NULL and changes nothing.
  pub acquire_times-Consecutive :
      (p : DynamicPool Host)
      → IsValid p
      → ((j : ℕ) → taken p j ≡ false)
      → Returns (acquire_times (get_capacity lib p) p) (λ r.
        Consecutive p.start_h r.0
        × (length r.0 ≡ get_capacity lib p)
        × (get_used lib r.1 ≡ get_capacity lib p)
        × (acquire lib r.1 ≡ ok (none, r.1)))
  unfolding get_capacity get_used
  acquire_times-Consecutive p valid free =
      let (r, ran, t) =
        acquire_times-Taken p.capacity 0 p valid (λ j. ground (arith, free j)) (omega arith) in
      let full : r.1.used ≡ r.1.capacity =
        t.valid.counted
        ∙ count_full (is_set r.1.bits) r.1.capacity
            (λ j lt. ground (arith, t.prefix j, t.capacity)) in
      (
        r,
        ran,
        (
          subst (λ v. Consecutive v r.0) (let e' : p.start_h + 0 ≡ p.start_h = omega arith in e')
              t.hosts,
          t.many,
          omega (arith, t.capacity),
          unfold acquire in ground (arith),
        ),
      )
