-- ===== src/Examples/Policy.antt =====
-- Policy files, usernames and a failed allocation, at concrete inputs.
use strongswan_plugin_vpn_cu.Base.{
  ◌≡◌, ◌⊎◌, refl, true, false, none, some, [], ◌∷◌, Returns, arith, strndup, streq, starts_with,
}
use strongswan_plugin_vpn_cu.DynamicPool.{DynamicPool}
use strongswan_plugin_vpn_cu.DynamicPool.Acquire.{Grants, IsFull}
use strongswan_plugin_vpn_cu.Examples.Pool.{pool, empty-IsValid, created}
use strongswan_plugin_vpn_cu.Examples.World.{
  world, hosts, TestHost, fresh, ab, cd, peer, pools, pools_listed, all_memory,
}
use strongswan_plugin_vpn_cu.FixedPool
use strongswan_plugin_vpn_cu.Hashtable.{cupp_str_eq}
use strongswan_plugin_vpn_cu.Hashtable.Assoc.{assoc_table, assoc_remove}
use strongswan_plugin_vpn_cu.IdentityManager.{identity_get_username}
use strongswan_plugin_vpn_cu.IdentityManager.Order.{
  identity_get_username-first_there, text_of, first_there, identities,
}
use strongswan_plugin_vpn_cu.IpAllocator.{Memory, acquire_address, lease_name, fixed_ip}
use strongswan_plugin_vpn_cu.IpAllocator.Lost.{acquire_address_lost}
use strongswan_plugin_vpn_cu.PolicyEngine.{lookup_fixed}
use strongswan_plugin_vpn_cu.SessionManager.{session_manager_create}
use strongswan_plugin_vpn_cu.SessionManager.Tables.{user_of}
use strongswan_plugin_vpn_cu.YamlLoader.{Source, event, scalar, failed, yaml_load_policy}
use strongswan_plugin_vpn_cu.YamlLoader.Bounds.{yaml_load_policy-Fits, Fits}
use strongswan_plugin_vpn_cu.YamlLoader.Document.{
  Document, document_feed, Loaded, yaml_load_policy-document_feed,
}

-- The user "ab" stands twice, and "cd" once.
abbrev document : Document
document = record { users = (ab, ab) ∷ (cd, ab) ∷ (ab, cd) ∷ []; start = ab; end = cd }

yaml_load_policy-document_feed_example : Loaded world document (
    yaml_load_policy world
      (some ab)
      (record { opens = true; initialises = true; feed = document_feed document })
      (FixedPool.fixed_pool_create world))
yaml_load_policy-document_feed_example =
    yaml_load_policy-document_feed world ab document (omega arith, (omega arith, (omega arith, tt)))

abbrev broken : Source
broken = record { opens = true; initialises = true; feed = event (scalar ab) failed }

yaml_load_policy-Fits_example :
    Fits world (yaml_load_policy world (some ab) broken (FixedPool.fixed_pool_create world)).1
yaml_load_policy-Fits_example =
    yaml_load_policy-Fits world (some ab) broken (FixedPool.fixed_pool_create world)

identity_get_username-first_there_example :
    identity_get_username true (some (peer cd 7)) ≡ text_of (first_there (identities (peer cd 7)))
identity_get_username-first_there_example = identity_get_username-first_there (peer cd 7)

-- There is memory for all but the lease.
abbrev no_lease_memory : Memory
no_lease_memory = record all_memory { lease_ok = false }

cd_named : lease_name world no_lease_memory (peer cd 7) ≡ some cd
unfolding lease_name identity_get_username strndup
cd_named = refl

cd_new : user_of world fresh.sessions cd ≡ none
unfolding session_manager_create assoc_table
cd_new = refl

cd_dynamic : fixed_ip world no_lease_memory cd fresh.policy ≡ none
unfolding lookup_fixed FixedPool.lookup FixedPool.add FixedPool.fixed_pool_create assoc_table
    assoc_remove cupp_str_eq streq starts_with
cd_dynamic = refl

acquire_address_lost_example :
    Returns (acquire_address world no_lease_memory 100 pools (some (peer cd 7)) none fresh) λ r.
      (r.0 ≡ none)
      × (r.1.sessions ≡ fresh.sessions)
      × ((q : DynamicPool TestHost) × (r.1.dyn ≡ some q)
          × ((IsFull hosts (pool (0 ∷ []) 0) × (q ≡ pool (0 ∷ []) 0))
              ⊎ ((h : TestHost) × Grants hosts (pool (0 ∷ []) 0) h q)))
acquire_address_lost_example =
    acquire_address_lost world fresh (pool (0 ∷ []) 0) created empty-IsValid no_lease_memory refl
      100 pools (peer cd 7) none cd pools_listed cd_named cd_new cd_dynamic
