-- ===== src/DynamicPool/Member.antt =====
-- `is_in_pool` of plugin/src/dynamic_pool.c.
use strongswan_plugin_vpn_cu.Base.{
  ◌≡◌, ◌⊎◌, ◌-◌, inl, inr, true, false, some, arith, ltb, ◌==◌, Bool-cases, ℕ,
}
use strongswan_plugin_vpn_cu.DynamicPool.{DynamicPool, is_in_pool}
use strongswan_plugin_vpn_cu.DynamicPool.Release.{Foreign, IsAt}
use strongswan_plugin_vpn_cu.DynamicPool.Valid.{IsValid}
use strongswan_plugin_vpn_cu.Host.{HostLib, af_inet, host_to_u32}

module _ (lib : HostLib) where
  open lib use {Host, get_family}

  -- On a valid pool `is_in_pool` is TRUE for a host that is the IPv4 address at an index of the
  -- range, which `release` would free, and FALSE for any other, which `release` would ignore.
  pub is_in_pool-IsAt :
      (p : DynamicPool Host)
      → IsValid p
      → (ip : Host)
      → ((is_in_pool lib (some ip) p ≡ true) × ((i : ℕ) × IsAt lib p ip i))
        ⊎ ((is_in_pool lib (some ip) p ≡ false) × Foreign lib ip p)
  unfolding is_in_pool
  is_in_pool-IsAt p valid ip = elim (Bool-cases (get_family ip == af_inet)) [
    | inr e ↦ inr (ground arith, inl (ground arith))
    | inl e ↦ elim (Bool-cases (ltb (host_to_u32 lib ip) p.start_h)) [
      | inl f ↦ inr (ground arith, inr (inl (ground arith)))
      | inr f ↦ elim (Bool-cases (ltb p.end_h (host_to_u32 lib ip))) [
        | inl g ↦ inr (ground arith, inr (inr (ground arith)))
        | inr g ↦ inl (
          ground arith,
          (
            host_to_u32 lib ip - p.start_h,
            record {
              family = ground arith;
              address = ground arith;
              inside = ground (arith, valid.range);
            },
          ),
        )
      ]
    ]
  ]
