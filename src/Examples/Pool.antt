-- ===== src/Examples/Pool.antt =====
-- The pool of the addresses 10.0.0.1 to 10.0.0.3, and one user with a fixed address.
use mathlib.Core.Option.{some-injective}
use mathlib.Core.Path.{subst}
use strongswan_plugin_vpn_cu.Base.{
  ℕ, ◌+◌, ◌-◌, ◌^◌, ◌<◌, ◌≤◌, ◌≡◌, ◌==◌, if◌then◌else◌, fault, bad_index, refl, sym, ◌∙◌, ◌⊎◌, inl,
  inr, true, false, none, some, List, [], ◌∷◌, ok, Returns, length, Returns-at, arith, Name,
}
use strongswan_plugin_vpn_cu.DynamicPool
use strongswan_plugin_vpn_cu.DynamicPool.{
  DynamicPool, dynamic_pool_create, fresh_pool, scan, test_bit, set_bit, clear_bit, at, free_index,
}
use strongswan_plugin_vpn_cu.DynamicPool.Acquire.{acquire-Acquired, Acquired, SameRange}
use strongswan_plugin_vpn_cu.DynamicPool.Bitmap.{is_set-replicate}
use strongswan_plugin_vpn_cu.DynamicPool.Drain.{
  acquire_times, acquire_times-Consecutive, Consecutive,
}
use strongswan_plugin_vpn_cu.DynamicPool.Overrun.{create-fault}
use strongswan_plugin_vpn_cu.DynamicPool.Release.{release-Released, Released, release-acquire}
use strongswan_plugin_vpn_cu.DynamicPool.Valid.{create-IsValid, IsValid, Refused, Created, taken}
use strongswan_plugin_vpn_cu.Examples.World.{hosts, ip, TestHost, world, ab, cd}
use strongswan_plugin_vpn_cu.FixedPool
use strongswan_plugin_vpn_cu.FixedPool.Adds.{adds, last_of, distinct_names, adds-last_of}
use strongswan_plugin_vpn_cu.Host.{host_to_u32, u32_to_host, ntohl, htonl, af_inet}
use strongswan_plugin_vpn_cu.Host.Words.{host_to_u32-u32_to_host}

narrow : host_to_u32 hosts (ip 3) < host_to_u32 hosts (ip 1) + (2 ^ 32 - 8)
unfolding host_to_u32 ntohl
narrow = omega arith

create-IsValid_example :
    ((dynamic_pool_create hosts true (some (ip 1)) (some (ip 3)) ≡ none)
      × Refused hosts (ip 1) (ip 3) true)
    ⊎ ((p : DynamicPool TestHost) × (dynamic_pool_create hosts true (some (ip 1)) (some (ip 3))
          ≡ some p)
        × Created hosts (ip 1) (ip 3) true p)
create-IsValid_example = create-IsValid hosts (ip 1) (ip 3) true narrow

-- The pool with the bitmap and the counter that are given.
abbrev pub pool : List ℕ → ℕ → DynamicPool TestHost
pool bits used = record {
  start = ip 1;
  end = ip 3;
  start_h = 167772161;
  end_h = 167772163;
  capacity = 3;
  bits = bits;
  used = used;
}

pub created : dynamic_pool_create hosts true (some (ip 1)) (some (ip 3)) ≡ some (pool (0 ∷ []) 0)
unfolding dynamic_pool_create fresh_pool host_to_u32 ntohl
created = refl

pub empty-IsValid : IsValid (pool (0 ∷ []) 0)
empty-IsValid = elim (create-IsValid hosts (ip 1) (ip 3) true narrow) [
  | inl (e, _) ↦ absurd (let e' = created in cc)
  | inr (p, e, c) ↦ subst IsValid (some-injective p _ (sym e ∙ created)) c.valid
]

acquire-Acquired_example :
    Returns (DynamicPool.acquire hosts (pool (0 ∷ []) 0)) (Acquired hosts (pool (0 ∷ []) 0))
acquire-Acquired_example = acquire-Acquired hosts (pool (0 ∷ []) 0) empty-IsValid

acquired : DynamicPool.acquire hosts (pool (0 ∷ []) 0) ≡ ok (some (ip 1), pool (1 ∷ []) 1)
unfolding DynamicPool.acquire scan test_bit set_bit at u32_to_host htonl
acquired = refl

release-acquire_example : Returns (DynamicPool.release hosts (some (ip 1)) (pool (1 ∷ []) 1)) λ r.
    SameRange (pool (0 ∷ []) 0) r
    × ((j : ℕ) → taken r j ≡ taken (pool (0 ∷ []) 0) j)
    × (r.used ≡ 0)
    × IsValid r
release-acquire_example = release-acquire hosts (pool (0 ∷ []) 0) empty-IsValid acquired

one-IsValid : IsValid (pool (1 ∷ []) 1)
one-IsValid =
    elim (Returns-at _ (Acquired hosts (pool (0 ∷ []) 0))
      (acquire-Acquired hosts (pool (0 ∷ []) 0) empty-IsValid) acquired) [
        | inl (_, e, _) ↦ absurd (cc)
        | inr (h, e, g) ↦ g.valid
      ]

release-Released_example :
    Returns
      (DynamicPool.release hosts (some (ip 1)) (pool (1 ∷ []) 1))
      (Released hosts (ip 1) (pool (1 ∷ []) 1))
release-Released_example = release-Released hosts (pool (1 ∷ []) 1) one-IsValid (ip 1)

host_to_u32-u32_to_host_example :
    (h : TestHost) × (u32_to_host hosts 167772161 ≡ some h)
    × (h.0 ≡ af_inet)
    × (host_to_u32 hosts h ≡ 167772161)
host_to_u32-u32_to_host_example = host_to_u32-u32_to_host hosts 167772161 (omega arith)

pub none_taken : (j : ℕ) → taken (pool (0 ∷ []) 0) j ≡ false
none_taken = is_set-replicate 1

acquire_times-Consecutive_example : Returns (acquire_times hosts 3 (pool (0 ∷ []) 0)) (λ r.
    Consecutive hosts 167772161 r.0
    × (length r.0 ≡ 3)
    × (DynamicPool.get_used hosts r.1 ≡ 3)
    × (DynamicPool.acquire hosts r.1 ≡ ok (none, r.1)))
unfolding DynamicPool.get_capacity
acquire_times-Consecutive_example =
    acquire_times-Consecutive hosts (pool (0 ∷ []) 0) empty-IsValid none_taken

-- The user "ab" is added twice, with "cd" in between.
abbrev listed : List (Name × TestHost)
listed = (ab, ip 5) ∷ (cd, ip 6) ∷ (ab, ip 7) ∷ []

adds-last_of_example :
    ((n : Name)
      → FixedPool.lookup world (some n) (adds world listed (FixedPool.fixed_pool_create world))
        ≡ last_of world n listed none)
    × (FixedPool.count world (adds world listed (FixedPool.fixed_pool_create world))
        ≡ distinct_names world [] listed)
adds-last_of_example = adds-last_of world listed

-- The first and the last address of a range with all addresses but 0.0.0.0.
abbrev low : TestHost
low = (af_inet, 0 ∷ 0 ∷ 0 ∷ 1 ∷ [])

abbrev high : TestHost
high = (af_inet, 255 ∷ 255 ∷ 255 ∷ 255 ∷ [])

too_wide : host_to_u32 hosts low + (2 ^ 32 - 8) ≤ host_to_u32 hosts high
unfolding host_to_u32 ntohl
too_wide = omega arith

in_between :
    (host_to_u32 hosts low ≤ host_to_u32 hosts (ip 2))
    × (host_to_u32 hosts (ip 2) ≤ host_to_u32 hosts high)
unfolding host_to_u32 ntohl
in_between = (omega arith, omega arith)

create-fault_example :
    (q : DynamicPool TestHost) × (dynamic_pool_create hosts true (some low) (some high) ≡ some q)
    × (DynamicPool.acquire hosts q
        ≡ (if DynamicPool.get_capacity hosts q == 0 then ok (none, q) else fault bad_index))
    × (DynamicPool.release hosts (some (ip 2)) q ≡ fault bad_index)
create-fault_example =
    create-fault hosts low high refl refl too_wide (ip 2) refl in_between.0 in_between.1
