-- ===== src/AddressPool.antt =====
-- The interface of plugin/src/dynamic_pool.h: the methods of a pool of addresses, and what its
-- comments promise of them.
pub mod Calls
use strongswan_plugin_vpn_cu.Base.{
  ℕ, ◌+◌, ◌≤◌, ◌<◌, ◌≡◌, ◌↔◌, ◌⊎◌, Bool, true, false, Option, none, some, ◌==◌, if◌then◌else◌, Run,
  ok, Returns,
}
use strongswan_plugin_vpn_cu.Host.{HostLib, af_inet, host_to_u32}

-- The methods of `dynamic_pool_t`. `acquire` returns a host that the caller owns, or NULL.
pub record AddressPool (lib : HostLib) : Type 1 where
  pub Self : Type 0
  pub acquire : Self → Run (Option lib.Host × Self)
  pub release : Option lib.Host → Self → Run Self
  pub is_in_pool : Option lib.Host → Self → Bool
  pub capacity : Self → ℕ
  pub used : Self → ℕ

module _ {lib : HostLib} (pool : AddressPool lib) where
  open pool use {Self, acquire, release, is_in_pool, capacity, used}

  -- The promises. `held p a` says whether the address `a` is handed out, and `first p` is the start of
  -- the range.
  pub record Contract : Type 1 where
    pub IsGood : Self → Type 0
    pub first : Self → ℕ
    pub held : Self → ℕ → Bool
    pub used-le-capacity : (p : Self) → IsGood p → used p ≤ capacity p
    -- A host is in the pool if it is an IPv4 address of the range.
    pub is_in_pool_iff :
        (p : Self) (ip : lib.Host)
        → IsGood p
        → (is_in_pool (some ip) p ≡ true) ↔ (
            (lib.get_family ip ≡ af_inet)
            × (first p ≤ host_to_u32 lib ip)
            × (host_to_u32 lib ip < first p + capacity p))
    -- The pool is full and as it was, or the host was free and in the range, and is now taken.
    pub acquire_lem :
        (p : Self)
        → IsGood p
        → Returns (acquire p) λ r.
          ((r.0 ≡ none) × (r.1 ≡ p) × (used p ≡ capacity p))
          ⊎ ((h : lib.Host) × (r.0 ≡ some h)
              × (is_in_pool (some h) p ≡ true)
              × (held p (host_to_u32 lib h) ≡ false)
              × ((a : ℕ) → held r.1 a ≡ (if host_to_u32 lib h == a then true else held p a))
              × (used r.1 ≡ used p + 1)
              × (first r.1 ≡ first p)
              × (capacity r.1 ≡ capacity p)
              × IsGood r.1)
    -- A host of the pool becomes free, whether it was taken or not.
    pub release_lem :
        (p : Self) (ip : lib.Host)
        → IsGood p
        → is_in_pool (some ip) p ≡ true
        → Returns (release (some ip) p) λ q.
          ((a : ℕ) → held q a ≡ (if host_to_u32 lib ip == a then false else held p a))
          × (used q + (if held p (host_to_u32 lib ip) then 1 else 0) ≡ used p)
          × (first q ≡ first p)
          × (capacity q ≡ capacity p)
          × IsGood q
    pub release_foreign :
        (p : Self) (ip : lib.Host)
        → IsGood p
        → is_in_pool (some ip) p ≡ false
        → release (some ip) p ≡ ok p
