-- ===== src/Examples/Allocation.antt =====
-- The allocator at concrete inputs: the user "cd" connects to a fresh allocator, connects again and
-- leaves.
use strongswan_plugin_vpn_cu.Base.{refl, none, some, true, ◌≡◌, Returns, Returns-at, ℕ}
use strongswan_plugin_vpn_cu.Examples.World.{
  world, ab, fresh, fresh-IsConsistent, cd, cd-IsOwn, all_memory, peer, pools, pools_listed,
  cd_called, one_lease, acquire_cd, policy, range_small,
}
use strongswan_plugin_vpn_cu.IpAllocator.{acquire_address, release_by_uid_impl, IpAllocator}
use strongswan_plugin_vpn_cu.IpAllocator.Answer.{acquire_address-Served, Answered}
use strongswan_plugin_vpn_cu.IpAllocator.Invariant.{IsConsistent}
use strongswan_plugin_vpn_cu.IpAllocator.Lifecycle.{
  create-IsConsistent, ip_allocator_create, dyn_of,
}
use strongswan_plugin_vpn_cu.IpAllocator.Release.{release_by_uid_impl-Released, Released}
use strongswan_plugin_vpn_cu.IpAllocator.Served.{Served}
use strongswan_plugin_vpn_cu.PolicyEngine.{get_pool, reload, policy_engine_create}
use strongswan_plugin_vpn_cu.PolicyEngine.Reload.{reload-create, replaced}
use strongswan_plugin_vpn_cu.YamlLoader.{Source, event, stream_end, failed}
use strongswan_plugin_vpn_cu.SessionManager.Tables.{leases}

acquire_address-Served_example :
    Returns
      (acquire_address world all_memory 100 pools (some (peer cd 7)) none fresh)
      λ r. Served world fresh cd 7 r × Answered world fresh all_memory cd 7 r
acquire_address-Served_example =
    acquire_address-Served world fresh fresh-IsConsistent 100 cd 7 cd-IsOwn all_memory refl
      (peer cd 7) pools none refl pools_listed cd_called

pub one_lease-IsConsistent : IsConsistent world one_lease
one_lease-IsConsistent =
    let holds =
      Returns-at _ _
        (acquire_address-Served world fresh fresh-IsConsistent 100 cd 7 cd-IsOwn all_memory refl
          (peer cd 7) pools none refl pools_listed cd_called)
        acquire_cd in
    holds.0.consistent

release_by_uid_impl-Released_example :
    Returns (release_by_uid_impl world 7 one_lease) (Released world one_lease 7)
release_by_uid_impl-Released_example =
    release_by_uid_impl-Released world one_lease one_lease-IsConsistent 7

create-IsConsistent_example :
    (a : IpAllocator world) × (ip_allocator_create world true true (some policy) none 0 ≡ some a)
    × IsConsistent world a
    × ((u : ℕ) → leases world a.sessions u ≡ none)
    × (a.dyn ≡ dyn_of world true (get_pool world policy))
    × (a.policy ≡ policy)
create-IsConsistent_example = create-IsConsistent world true policy none 0 range_small

-- A policy file with nothing in it.
abbrev empty_file : Source
empty_file = record { opens = true; initialises = true; feed = event stream_end failed }

reload-create_example :
    reload world true empty_file policy
    ≡ replaced world policy (policy_engine_create world true true (some ab) empty_file)
reload-create_example = reload-create world true empty_file policy
