-- ===== src/DynamicPool/Overrun.antt =====
-- `dynamic_pool_create` of plugin/src/dynamic_pool.c for a range so wide that `(cap + 7) / 8` wraps.
use strongswan_plugin_vpn_cu.Base.{
  ℕ, zero, suc, ◌+◌, ◌-◌, ◌^◌, ◌%◌, ◌/◌, ◌≤◌, ◌<◌, ◌≡◌, refl, inl, inr, true, none, some, List, [],
  arith, ◌==◌, if◌then◌else◌, Bool-cases, ok, fault, bad_index,
}
use strongswan_plugin_vpn_cu.DynamicPool
use strongswan_plugin_vpn_cu.DynamicPool.{
  DynamicPool, dynamic_pool_create, fresh_pool, range_size, scan, free_index, test_bit, at,
  get_capacity,
}
use strongswan_plugin_vpn_cu.DynamicPool.Valid.{IsIpv4}
use strongswan_plugin_vpn_cu.Host.{HostLib, host_to_u32}
use strongswan_plugin_vpn_cu.Host.Words.{host_to_u32-lt}

test_bit-empty : (bits : List ℕ) (i : ℕ) → bits ≡ [] → test_bit bits i ≡ fault bad_index
unfolding test_bit at
test_bit-empty bits i e = rw e

module _ (lib : HostLib) where
  open lib use {Host, get_family}

  scan-empty :
      (n : ℕ) (p : DynamicPool Host) → p.bits ≡ [] → 0 < n → scan lib n 0 p ≡ fault bad_index
  unfolding scan
  scan-empty zero p e some_rounds = absurd (omega arith)
  scan-empty (suc n) p e some_rounds = rw (test_bit-empty p.bits 0 e)

  acquire_empty :
      (p : DynamicPool Host)
      → p.bits ≡ []
      → p.used ≡ 0
      → DynamicPool.acquire lib p
        ≡ (if get_capacity lib p == 0 then ok (none, p) else fault bad_index)
  unfolding DynamicPool.acquire get_capacity
  acquire_empty p e unused = elim (Bool-cases (p.capacity == 0)) [
    | inl none_at_all ↦ ground arith
    | inr more ↦ let faults = scan-empty p.capacity p e (ground arith) in ground arith
  ]

  free_index-empty :
      (p : DynamicPool Host) (i : ℕ) → p.bits ≡ [] → free_index lib i p ≡ fault bad_index
  unfolding free_index
  free_index-empty p i e = rw (test_bit-empty p.bits i e)

  module _ (start end : Host) (start_ipv4 : IsIpv4 lib start) (end_ipv4 : IsIpv4 lib end)
      (wide : host_to_u32 lib start + (2 ^ 32 - 8) ≤ host_to_u32 lib end) where
    abbrev p : DynamicPool Host
    p = fresh_pool lib start end (host_to_u32 lib start) (host_to_u32 lib end)

    no_bytes : (range_size lib (host_to_u32 lib start) (host_to_u32 lib end) + 7) % 2 ^ 32 / 8 ≡ 0
    no_bytes = omega (arith, host_to_u32-lt lib end)

    no_bits : p.bits ≡ []
    unfolding fresh_pool
    no_bits = rw no_bytes

    created : dynamic_pool_create lib true (some start) (some end) ≡ some p
    unfolding dynamic_pool_create
    created = ground arith

    -- For IPv4 end points with at least 2 ^ 32 - 7 addresses from the one to the other, and an
    -- allocation that succeeds, `dynamic_pool_create` builds a pool without a bitmap: `acquire` reads
    -- behind the bitmap, unless the capacity is 0 as for the whole address space, where it returns
    -- NULL; and `release` of any IPv4 address of the range reads behind the bitmap.
    pub create-fault :
        (ip : Host)
        → IsIpv4 lib ip
        → host_to_u32 lib start ≤ host_to_u32 lib ip
        → host_to_u32 lib ip ≤ host_to_u32 lib end
        → (q : DynamicPool Host) × (dynamic_pool_create lib true (some start) (some end) ≡ some q)
          × (DynamicPool.acquire lib q
              ≡ (if get_capacity lib q == 0 then ok (none, q) else fault bad_index))
          × (DynamicPool.release lib (some ip) q ≡ fault bad_index)
    create-fault ip ipv4 from to = (
      p,
      created,
      acquire_empty p no_bits (unfold fresh_pool in refl),
      (unfold DynamicPool.release fresh_pool in
          ground (arith, free_index-empty p (host_to_u32 lib ip - host_to_u32 lib start) no_bits)),
    )
