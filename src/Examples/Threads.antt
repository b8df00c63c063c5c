-- ===== src/Examples/Threads.antt =====
-- The allocator and the plugin in sequences of steps, at concrete inputs.
use strongswan_plugin_vpn_cu.Base.{
  ℕ, ◌≡◌, refl, false, true, Bool, none, some, List, Run, ok, fault, dangling, Returns,
  if◌then◌else◌, ap, ◌∙◌,
}
use strongswan_plugin_vpn_cu.Env.{Ptr}
use strongswan_plugin_vpn_cu.EventListener.{ike_updown}
use strongswan_plugin_vpn_cu.EventListener.Down.{ike_updown-release_address}
use strongswan_plugin_vpn_cu.Examples.Allocation.{one_lease-IsConsistent}
use strongswan_plugin_vpn_cu.Examples.World.{
  world, TestHost, fresh, fresh-IsConsistent, one_lease, one_lease_at, lease, peer, cd, ip,
  all_memory, pools, acquire_cd, ab_no_lease,
}
use strongswan_plugin_vpn_cu.History.{Step, here, next, acquired}
use strongswan_plugin_vpn_cu.History.Safety.{Reach-separate}
use strongswan_plugin_vpn_cu.History.Table.{Step-Keeps, Keeps}
use strongswan_plugin_vpn_cu.IpAllocator.{release_address, release_by_uid, sweep}
use strongswan_plugin_vpn_cu.IpAllocator.Interrupted.{sweep_interrupted, sweep_interrupted-dangling}
use strongswan_plugin_vpn_cu.IpAllocator.Invariant.{IsConsistent}
use strongswan_plugin_vpn_cu.IpAllocator.Release.{Released}
use strongswan_plugin_vpn_cu.IpAllocator.Rounds.{kept, Swept}
use strongswan_plugin_vpn_cu.IpAllocator.Sweep.{sweep-Swept}
use strongswan_plugin_vpn_cu.SessionManager.{
  Lease, foreach_expiring, call_all, session_manager_destroy, session_manager_create,
}
use strongswan_plugin_vpn_cu.SessionManager.Destroy.{session_manager_destroy-freed}
use strongswan_plugin_vpn_cu.SessionManager.Expire.{foreach_expiring-call_all, times, is_old}
use strongswan_plugin_vpn_cu.SessionManager.Tables.{leases, deref}
use strongswan_plugin_vpn_cu.Hashtable.Assoc.{assoc_table}

-- The sweep comes too late for the IKE_SA of "cd".
abbrev gone : ℕ → Bool
gone uid = false

sweep-Swept_example : Returns (sweep world 5000 gone one_lease) (
    Swept world one_lease
      (λ v. kept 5000 one_lease.lease_timeout gone (leases world one_lease.sessions v)))
sweep-Swept_example = sweep-Swept world 5000 gone one_lease one_lease-IsConsistent

foreach_expiring-call_all_example :
    (ps : List Ptr) × ((X : Type 0) (cb : Ptr → X → Run X) (x : X)
      → foreach_expiring world 5000 3600 (some cb) one_lease.sessions x ≡ call_all cb ps x)
    × ((p : Ptr) (l : Lease TestHost)
        → one_lease.sessions.heap p ≡ some l
        → times p ps ≡ (if is_old 5000 3600 l then 1 else 0))
    × ((p : Ptr) → one_lease.sessions.heap p ≡ none → times p ps ≡ 0)
foreach_expiring-call_all_example =
    foreach_expiring-call_all world one_lease.sessions one_lease-IsConsistent.index 5000 3600

session_manager_destroy-freed_example :
    Returns (session_manager_destroy world one_lease.sessions) (λ t. (p : Ptr) → t.heap p ≡ none)
session_manager_destroy-freed_example =
    session_manager_destroy-freed world one_lease.sessions one_lease-IsConsistent.index

ike_updown-release_address_example :
    Returns (release_address world pools (some (ip 1)) (some (peer cd 7)) one_lease) λ r.
      Released world one_lease 7 r
      × Returns (ike_updown world (some (peer cd 7)) false r.1) λ r'.
        (r'.0 ≡ true)
        × IsConsistent world r'.1
        × ((v : ℕ) → leases world r'.1.sessions v ≡ leases world r.1.sessions v)
        × (r'.1.dyn ≡ r.1.dyn)
ike_updown-release_address_example =
    ike_updown-release_address world one_lease one_lease-IsConsistent pools (some (ip 1))
      (peer cd 7)

cd_acquires : Step world fresh (ok one_lease)
unfolding assoc_table session_manager_create
cd_acquires =
    acquired all_memory 100 pools (some (peer cd 7)) none refl (λ name called q e. absurd (cc))
      (rw acquire_cd)

Step-Keeps_example : Returns (ok one_lease) (Keeps world fresh)
Step-Keeps_example = Step-Keeps world fresh fresh-IsConsistent (ok one_lease) cd_acquires

cd_lease : leases world one_lease.sessions 7 ≡ some lease
cd_lease = ap (deref one_lease.sessions.heap) one_lease_at.1 ∙ one_lease_at.2

Reach-separate_example : lease.unique_id ≡ 7
Reach-separate_example =
    Reach-separate world fresh-IsConsistent (next here cd_acquires) 7 7 lease lease (ip 1) (ip 1)
      cd_lease cd_lease refl refl refl refl refl

cd_is_old : is_old 5000 one_lease.lease_timeout lease ≡ true
cd_is_old = rw ab_no_lease.1

sweep_interrupted-dangling_example :
    sweep_interrupted world 5000 gone (release_by_uid world 7) one_lease ≡ fault dangling
sweep_interrupted-dangling_example =
    sweep_interrupted-dangling world 5000 gone one_lease 7 lease one_lease-IsConsistent cd_lease
      cd_is_old
