-- ===== src/IpAllocator/Lifecycle.antt =====
-- `ip_allocator_create` and `ip_allocator_destroy` of plugin/src/ip_allocator.c.
use strongswan_plugin_vpn_cu.Base.{
  ℕ, ◌+◌, ◌-◌, ◌^◌, ◌<◌, ◌≡◌, refl, inl, inr, Bool, true, false, Option, none, some, [], ◌∷◌, ◌==◌,
  if◌then◌else◌, Run, ok, ◌>>=◌, Name,
}
use strongswan_plugin_vpn_cu.Host.{host_to_u32}
use strongswan_plugin_vpn_cu.DynamicPool.{DynamicPool, dynamic_pool_create}
use strongswan_plugin_vpn_cu.DynamicPool.Valid.{create-IsValid}
use strongswan_plugin_vpn_cu.Hashtable.{u32_key-IsLawful}
use strongswan_plugin_vpn_cu.Env.{Env}
use strongswan_plugin_vpn_cu.IpAllocator.{IpAllocator}
use strongswan_plugin_vpn_cu.IpAllocator.Invariant.{IsConsistent, PoolMatches}
use strongswan_plugin_vpn_cu.PolicyEngine.{PolicyEngine, get_pool}
use strongswan_plugin_vpn_cu.SessionManager.{
  SessionManager, session_manager_create, session_manager_destroy,
}
use strongswan_plugin_vpn_cu.SessionManager.Tables.{create-Inv, leases}

-- "cupp"
abbrev pub default_name : Name
default_name = b'c' ∷ b'u' ∷ b'p' ∷ b'p' ∷ []

abbrev pub or_default : Option Name → Name
or_default none = default_name
or_default (some name) = name

module _ (env : Env) where
  open env use {Host as H, lib, uids}

  -- The dynamic pool from the end points of the policy, if it has both.
  abbrev pub dyn_of : Bool → Option (H × H) → Option (DynamicPool H)
  dyn_of bits_ok none = none
  dyn_of bits_ok (some (start, end)) = dynamic_pool_create lib bits_ok (some start) (some end)

  -- The two flags are for the memory of the allocator and of the bitmap.
  unfoldable pub ip_allocator_create :
      Bool → Bool → Option (PolicyEngine env) → Option Name → ℕ → Option (IpAllocator env)
  ip_allocator_create calloc_ok bits_ok none pool_name lease_timeout = none
  ip_allocator_create calloc_ok bits_ok (some policy) pool_name lease_timeout =
      if calloc_ok
      then some (record {
        policy = policy;
        dyn = dyn_of bits_ok (get_pool env policy);
        sessions = session_manager_create env;
        pool_name = or_default pool_name;
        lease_timeout = (if lease_timeout == 0 then 3600 else lease_timeout);
      })
      else none

  -- What is left is the heap of leases; all the rest is freed. `this` may be NULL.
  unfoldable pub ip_allocator_destroy : Option (IpAllocator env) → Run (Option (SessionManager env))
  ip_allocator_destroy none = ok none
  ip_allocator_destroy (some this) = session_manager_destroy env this.sessions >>= λ s. ok (some s)

  no_leases : (u : ℕ) → leases env (session_manager_create env) u ≡ none
  unfolding session_manager_create
  no_leases u = rw (uids.get-create u32_key-IsLawful 0 u)

  fresh_matches :
      (bits_ok : Bool) (range : Option (H × H))
      → ((start end : H)
          → range ≡ some (start, end)
          → host_to_u32 lib end < host_to_u32 lib start + (2 ^ 32 - 8))
      → PoolMatches env (dyn_of bits_ok range) (leases env (session_manager_create env))
  fresh_matches bits_ok none narrow = λ v k e. absurd (let e' = no_leases v in cc)
  fresh_matches bits_ok (some (start, end)) narrow =
      elim (create-IsValid lib start end bits_ok (narrow start end refl)) [
        | inl (e, why) ↦ rw e (λ v k h. absurd (let e' = no_leases v in cc))
        | inr (p, e, c) ↦ rw e (record {
          valid = c.valid;
          backed = λ v k h d. absurd (let e' = no_leases v in cc);
          owned = λ i h t. absurd (let e' = c.free i in cc);
          apart = λ u v i l k h. absurd (let e' = no_leases u in cc);
        })
      ]

  pub create_no_memory :
      (bits_ok : Bool) (policy : PolicyEngine env) (pool_name : Option Name) (lease_timeout : ℕ)
      → ip_allocator_create false bits_ok (some policy) pool_name lease_timeout ≡ none
  unfolding ip_allocator_create
  create_no_memory bits_ok policy pool_name lease_timeout = refl

  -- Given a policy and memory for the allocator, `ip_allocator_create` builds a consistent
  -- allocator without leases, if the policy's range is at least eight addresses short of the
  -- whole address space. Its pool is the one that `dynamic_pool_create` makes of the policy's two
  -- end points, if the policy has both and they are accepted, and otherwise it has none.
  pub create-IsConsistent :
      (bits_ok : Bool) (policy : PolicyEngine env) (pool_name : Option Name) (lease_timeout : ℕ)
      → ((start end : H)
          → get_pool env policy ≡ some (start, end)
          → host_to_u32 lib end < host_to_u32 lib start + (2 ^ 32 - 8))
      → (a : IpAllocator env) × (ip_allocator_create true bits_ok
            (some policy)
            pool_name
            lease_timeout
          ≡ some a)
        × IsConsistent env a
        × ((u : ℕ) → leases env a.sessions u ≡ none)
        × (a.dyn ≡ dyn_of bits_ok (get_pool env policy))
        × (a.policy ≡ policy)
  unfolding ip_allocator_create
  create-IsConsistent bits_ok policy pool_name lease_timeout narrow = (
    _,
    refl,
    record {
      index = create-Inv env;
      addressed = λ v k h. absurd (let e' = no_leases v in cc);
      pool = fresh_matches bits_ok (get_pool env policy) narrow;
    },
    no_leases,
    refl,
    refl,
  )
