-- ===== src/DynamicPool/Valid.antt =====
-- What holds of a pool of plugin/src/dynamic_pool.c between its operations.
use strongswan_plugin_vpn_cu.Base.{
  ℕ, ◌+◌, ◌-◌, ◌*◌, ◌^◌, ◌≤◌, ◌<◌, ◌≡◌, refl, sym, ◌≢◌, ◌⊎◌, inl, inr, Bool, true, false, none,
  some, arith, length, ltb, ◌==◌, length-replicate, Bool-cases,
}
use strongswan_plugin_vpn_cu.Host.{HostLib, af_inet, host_to_u32}
use strongswan_plugin_vpn_cu.Host.Words.{host_to_u32-lt}
use strongswan_plugin_vpn_cu.DynamicPool.{DynamicPool, dynamic_pool_create, fresh_pool}
use strongswan_plugin_vpn_cu.DynamicPool.Bitmap.{
  IsBytes, is_set, replicate-IsBytes, is_set-replicate,
}
use strongswan_plugin_vpn_cu.DynamicPool.Count.{count, count-eq-zero}

-- The range is that of 32-bit addresses, the bitmap covers it, and `used` counts the marks.
pub record IsValid {H : Type 0} (p : DynamicPool H) : Type 0 where
  pub range : p.start_h + p.capacity ≡ p.end_h + 1
  pub nonempty : 0 < p.capacity
  pub word : p.end_h < 2 ^ 32
  pub narrow : p.capacity < 2 ^ 32
  pub covers : p.capacity ≤ 8 * length p.bits
  pub bytes : IsBytes p.bits
  pub counted : p.used ≡ count (is_set p.bits) p.capacity

-- The index `i` is marked.
abbrev pub taken : {H : Type 0} → DynamicPool H → ℕ → Bool
taken p i = is_set p.bits i

module _ (lib : HostLib) where
  open lib use {Host, get_family}

  abbrev pub IsIpv4 : Host → Type 0
  IsIpv4 h = get_family h ≡ af_inet

  module _ (start end : Host) where
    abbrev first : ℕ
    first = host_to_u32 lib start

    abbrev last : ℕ
    last = host_to_u32 lib end

    -- Why `dynamic_pool_create` returns NULL.
    abbrev pub Refused : Bool → Type 0
    Refused calloc_ok =
        (get_family start ≢ af_inet)
        ⊎ ((get_family end ≢ af_inet) ⊎ ((last < first) ⊎ (calloc_ok ≡ false)))

    pub record Created (calloc_ok : Bool) (p : DynamicPool Host) : Type 0 where
      pub start_ipv4 : IsIpv4 start
      pub end_ipv4 : IsIpv4 end
      pub ordered : first ≤ last
      pub allocated : calloc_ok ≡ true
      pub valid : IsValid p
      pub from : p.start_h ≡ first
      pub to : p.end_h ≡ last
      pub unused : p.used ≡ 0
      pub free : (i : ℕ) → taken p i ≡ false

    fresh_pool-IsValid :
        first ≤ last → last < first + (2 ^ 32 - 8) → IsValid (fresh_pool lib start end first last)
    unfolding fresh_pool
    fresh_pool-IsValid ordered narrow = record {
      range = omega arith;
      nonempty = omega arith;
      word = host_to_u32-lt lib end;
      narrow = omega arith;
      covers = rw (length-replicate {A = ℕ}) (omega arith);
      bytes = replicate-IsBytes _;
      counted = sym (count-eq-zero _ _ (is_set-replicate _));
    }

    -- For two end points, neither of them NULL, whose numbers are those of a range at least eight
    -- addresses short of the whole address space: `dynamic_pool_create` refuses an end point that
    -- is not IPv4, an end before the start and a failed allocation, and nothing else; and the pool
    -- that it builds is valid, has the given range and no address in use.
    pub create-IsValid :
        (calloc_ok : Bool)
        → last < first + (2 ^ 32 - 8)
        → ((dynamic_pool_create lib calloc_ok (some start) (some end) ≡ none) × Refused calloc_ok)
          ⊎ ((p : DynamicPool Host) × (dynamic_pool_create lib calloc_ok (some start) (some end)
                ≡ some p)
              × Created calloc_ok p)
    unfolding dynamic_pool_create
    create-IsValid calloc_ok narrow = elim (Bool-cases (get_family start == af_inet)) [
      | inr e ↦ inl (ground arith, inl (ground arith))
      | inl e ↦ elim (Bool-cases (get_family end == af_inet)) [
        | inr f ↦ inl (ground arith, inr (inl (ground arith)))
        | inl f ↦ elim (Bool-cases (ltb last first)) [
          | inl g ↦ inl (ground arith, inr (inr (inl (ground arith))))
          | inr g ↦ elim (Bool-cases calloc_ok) [
            | inr c ↦ inl (ground arith, inr (inr (inr c)))
            | inl c ↦ inr (
              fresh_pool lib start end first last,
              ground arith,
              record {
                start_ipv4 = ground arith;
                end_ipv4 = ground arith;
                ordered = ground arith;
                allocated = c;
                valid = fresh_pool-IsValid (ground arith) narrow;
                from = unfold fresh_pool in refl;
                to = unfold fresh_pool in refl;
                unused = unfold fresh_pool in refl;
                free = unfold fresh_pool in is_set-replicate _;
              },
            )
          ]
        ]
      ]
    ]
