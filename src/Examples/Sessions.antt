-- ===== src/Examples/Sessions.antt =====
-- The leases at concrete inputs: no lease, and the one lease of the user "cd".
use strongswan_plugin_vpn_cu.Base.{
  ℕ, ◌==◌, if◌then◌else◌, ◌≡◌, refl, true, false, none, some, Returns, streq,
}
use strongswan_plugin_vpn_cu.Env.{Ptr}
use strongswan_plugin_vpn_cu.Hashtable.Assoc.{assoc_table}
use strongswan_plugin_vpn_cu.Examples.Allocation.{one_lease-IsConsistent}
use strongswan_plugin_vpn_cu.Examples.World.{
  world, ab, cd, ip, one_lease, one_lease_at, lease, ab_no_lease,
}
use strongswan_plugin_vpn_cu.SessionManager.{
  SessionManager, bind_lease, migrate, unbind, session_manager_create,
}
use strongswan_plugin_vpn_cu.SessionManager.Bind.{bind_lease-Bound, Bound, new_lease}
use strongswan_plugin_vpn_cu.SessionManager.Collide.{bind_lease-Stranded, Stranded}
use strongswan_plugin_vpn_cu.SessionManager.Migrate.{migrate-Migrated, Migrated}
use strongswan_plugin_vpn_cu.SessionManager.Rebind.{bind_lease-Destroyed}
use strongswan_plugin_vpn_cu.SessionManager.Tables.{leases, create-Inv, Inv, uid_of, user_of}
use strongswan_plugin_vpn_cu.SessionManager.Unbind.{unbind-Unbinds, Unbinds}

abbrev empty : SessionManager world
empty = session_manager_create world

no_uid : uid_of world empty 7 ≡ none
unfolding session_manager_create assoc_table
no_uid = refl

no_user : user_of world empty cd ≡ none
unfolding session_manager_create assoc_table
no_user = refl

bind_lease-Bound_example :
    Returns (bind_lease world true 100 (some cd) 7 (some (ip 1)) false empty) λ r.
      (r.0 ≡ some empty.brk)
      × Bound world empty
          (new_lease world empty (create-Inv world) 100 cd 7 (some (ip 1)) false)
          empty.brk
          r.1
bind_lease-Bound_example =
    bind_lease-Bound world empty (create-Inv world) 100 cd 7 (some (ip 1)) false no_uid no_user

abbrev s : SessionManager world
s = one_lease.sessions

s-Inv : Inv world s
s-Inv = one_lease-IsConsistent.index

unbind-Unbinds_example : Returns (unbind world 7 s) (Unbinds world s 7)
unbind-Unbinds_example = unbind-Unbinds world s s-Inv 7

only : (q : Ptr) → uid_of world s 9 ≡ some q → q ≡ 0
only q e = absurd (let e' = one_lease_at.3 in cc)

migrate-Migrated_example :
    Returns
      (migrate world 200 (some cd) 9 s)
      λ r. (r.0 ≡ some 0) × Migrated world s lease 9 200 0 r.1
migrate-Migrated_example =
    migrate-Migrated world s s-Inv 200 cd 9 0 lease one_lease_at.0 one_lease_at.2 only

bind_lease-Destroyed_example :
    Returns (bind_lease world true 200 (some cd) 9 (some (ip 2)) false s) λ r.
      Inv world r.1
      × (r.0 ≡ user_of world r.1 cd)
      × ((v : ℕ)
          → leases world r.1 v ≡ (
              if 9 == v
              then some (record {
                username = cd;
                unique_id = 9;
                ip = some (ip 2);
                fixed = false;
                acquired = 200;
              })
              else (if 7 == v then none else leases world s v)))
bind_lease-Destroyed_example =
    bind_lease-Destroyed world s s-Inv cd 0 lease one_lease_at.0 one_lease_at.2 refl one_lease_at.1
      200 9 (some (ip 2)) false only

bind_lease-Stranded_example :
    Returns
      (bind_lease world true 200 (some ab) 7 (some (ip 2)) false s)
      (λ r. (r.0 ≡ some s.brk) × (uid_of world r.1 7 ≡ some s.brk) × Stranded world 0 lease r.1)
unfolding streq
bind_lease-Stranded_example =
    bind_lease-Stranded world s 200 ab 7 (some (ip 2)) false 0 lease s-Inv one_lease_at.1
      one_lease_at.2 refl ab_no_lease.0
