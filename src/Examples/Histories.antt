-- ===== src/Examples/Histories.antt =====
-- Sequences of calls: two users of a session manager, and a pool that gives one address twice.
use strongswan_plugin_vpn_cu.AddressPool.Calls.{Calls, start, got, gave, Unique, mem}
use strongswan_plugin_vpn_cu.Base.{
  ℕ, List, [], ◌∷◌, arith, Name, ◌≡◌, ◌≤◌, refl, false, none, some, Returns,
}
use strongswan_plugin_vpn_cu.DynamicPool
use strongswan_plugin_vpn_cu.DynamicPool.{
  DynamicPool, scan, test_bit, set_bit, clear_bit, at, free_index, get_used, get_capacity,
}
use strongswan_plugin_vpn_cu.DynamicPool.Keeps.{methods, holds, Calls-Unique}
use strongswan_plugin_vpn_cu.Examples.Pool.{pool, empty-IsValid, none_taken}
use strongswan_plugin_vpn_cu.Examples.World.{world, hosts, TestHost, ab, cd, ip}
use strongswan_plugin_vpn_cu.Hashtable.Assoc.{assoc_table}
use strongswan_plugin_vpn_cu.Host.{host_to_u32, u32_to_host, ntohl, htonl}
use strongswan_plugin_vpn_cu.SessionManager.{SessionManager, session_manager_create, lookup_by_user}
use strongswan_plugin_vpn_cu.SessionManager.Contract.{
  Call, bind_lease, migrate, unbind, specs, AllAllowed, runs,
}
use strongswan_plugin_vpn_cu.SessionManager.Refines.{runs-specs}
use strongswan_plugin_vpn_cu.SessionManager.Tables.{deref, lease_of_user, create-Inv, Inv}

abbrev empty : SessionManager world
empty = session_manager_create world

-- Two users get a lease, one of them a new number, and the other leaves.
abbrev calls : List (Call TestHost)
calls =
    bind_lease 100 cd 7 (some (ip 1)) false
    ∷ bind_lease 110 ab 8 (some (ip 2)) false
    ∷ migrate 120 cd 9
    ∷ unbind 8
    ∷ []

nobody : (m : Name) → lease_of_user world empty m ≡ none
unfolding session_manager_create assoc_table
nobody m = refl

calls-AllAllowed : AllAllowed calls (lease_of_user world empty)
calls-AllAllowed = (
  λ m k e number. absurd (let e' = nobody m in cc),
  (λ m k e number. ground (arith, nobody m), (λ m k e number. ground (arith, nobody m), (tt, tt))),
)

runs-specs_example : Returns (runs world calls empty) λ t.
    Inv world t
    × ((m : Name)
        → deref t.heap (lookup_by_user world (some m) t)
          ≡ specs calls (lease_of_user world empty) m)
runs-specs_example = runs-specs world calls empty (create-Inv world) calls-AllAllowed

-- The pool after the address 10.0.0.1 was given, taken back and given again.
again : Calls (methods hosts) (pool (0 ∷ []) 0) (pool (1 ∷ []) 1) (host_to_u32 hosts (ip 1) ∷ [])
unfolding DynamicPool.acquire DynamicPool.release scan test_bit set_bit clear_bit at u32_to_host
    htonl host_to_u32 ntohl DynamicPool.is_in_pool free_index
again =
    got (ip 1) (pool (1 ∷ []) 1) _
      (gave (ip 1) (pool (0 ∷ []) 0) []
        (got (ip 1) (pool (1 ∷ []) 1) (host_to_u32 hosts (ip 1) ∷ []) start refl refl) refl refl
        refl)
      refl refl

Calls-Unique_example :
    Unique (host_to_u32 hosts (ip 1) ∷ [])
    × ((a : ℕ) → mem a (host_to_u32 hosts (ip 1) ∷ []) ≡ holds hosts (pool (1 ∷ []) 1) a)
    × (get_used hosts (pool (1 ∷ []) 1) ≡ 1)
    × (1 ≤ get_capacity hosts (pool (0 ∷ []) 0))
Calls-Unique_example =
    Calls-Unique hosts (pool (0 ∷ []) 0) (pool (1 ∷ []) 1) (host_to_u32 hosts (ip 1) ∷ [])
      empty-IsValid none_taken again
