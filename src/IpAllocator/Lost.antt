-- ===== src/IpAllocator/Lost.antt =====
-- `acquire_address` of plugin/src/ip_allocator.c without memory for the lease.
use strongswan_plugin_vpn_cu.Base.{
  ℕ, ◌≡◌, refl, inl, inr, Bool, true, false, ◌⊎◌, Option, none, some, List, ok, Returns, Name,
}
use strongswan_plugin_vpn_cu.DynamicPool.{DynamicPool}
use strongswan_plugin_vpn_cu.DynamicPool.Acquire.{acquire-Acquired, Grants, IsFull}
use strongswan_plugin_vpn_cu.DynamicPool.Valid.{IsValid}
use strongswan_plugin_vpn_cu.Env.{Env}
use strongswan_plugin_vpn_cu.IdentityManager.{IkeSa}
use strongswan_plugin_vpn_cu.IpAllocator.{
  IpAllocator, Memory, acquire_address, lease_name, pools_include, fixed_ip, choose_ip, bind_new,
}
use strongswan_plugin_vpn_cu.SessionManager.{bind_lease, lookup_by_user}
use strongswan_plugin_vpn_cu.SessionManager.Tables.{S, user_of}

module _ (env : Env) where
  open env use {Host as H, lib}

  no_memory :
      (s : S env) (now : ℕ) (name : Name) (uid : ℕ) (ip : Option H) (fixed : Bool)
      → user_of env s name ≡ none
      → bind_lease env false now (some name) uid ip fixed s ≡ ok (none, s)
  unfolding bind_lease
  no_memory s now name uid ip fixed new = rw new

  -- Without memory for the lease, on an allocator with a valid pool, a named user of the pool who
  -- has no lease and no fixed address gets NULL, and no lease is made or changed; but unless
  -- every address of the pool was taken, one address that was free is marked as in use all the
  -- same.
  pub acquire_address_lost :
      (a : IpAllocator env) (pool : DynamicPool H)
      → a.dyn ≡ some pool
      → IsValid pool
      → (mem : Memory) → mem.lease_ok ≡ false
      → (now : ℕ) (pools : Option (List (Option Name))) (sa : IkeSa) (requested : Option H)
        (name : Name)
      → pools_include a.pool_name pools ≡ true
      → lease_name env mem sa ≡ some name
      → user_of env a.sessions name ≡ none
      → fixed_ip env mem name a.policy ≡ none
      → Returns (acquire_address env mem now pools (some sa) requested a) λ r.
        (r.0 ≡ none)
        × (r.1.sessions ≡ a.sessions)
        × ((q : DynamicPool H) × (r.1.dyn ≡ some q)
            × ((IsFull lib pool × (q ≡ pool)) ⊎ ((h : H) × Grants lib pool h q)))
  unfolding acquire_address choose_ip bind_new lookup_by_user
  acquire_address_lost a pool dyn valid mem broke now pools sa requested name listed called new
        without =
      let (r, ran, res) = acquire-Acquired lib pool valid in
      elim res [
        | inl (full, e, same) ↦ (
          (none, record a { dyn = some r.1 }),
          rw (listed, called, new, without, dyn, ran, e),
          (refl, refl, (r.1, refl, inl (full, same))),
        )
        | inr (h, e, g) ↦ (
          (none, record a { dyn = some r.1 }),
          rw (
            listed,
            called,
            new,
            without,
            dyn,
            ran,
            e,
            broke,
            no_memory a.sessions now name sa.unique_id (some h) false new,
          ),
          (refl, refl, (r.1, refl, inr (h, g))),
        )
      ]
