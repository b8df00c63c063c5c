-- ===== src/EventListener/Down.antt =====
-- `ike_updown` of plugin/src/event_listener.c, alone and after `release_address`.
use strongswan_plugin_vpn_cu.Base.{
  ℕ, ◌≡◌, refl, Bool, true, false, Option, some, List, arith, Returns, Name,
}
use strongswan_plugin_vpn_cu.Env.{Env}
use strongswan_plugin_vpn_cu.EventListener.{ike_updown}
use strongswan_plugin_vpn_cu.IdentityManager.{IkeSa}
use strongswan_plugin_vpn_cu.IpAllocator.{IpAllocator, release_by_uid, release_address}
use strongswan_plugin_vpn_cu.IpAllocator.Invariant.{IsConsistent}
use strongswan_plugin_vpn_cu.IpAllocator.Release.{release_by_uid_impl-Released, Released}
use strongswan_plugin_vpn_cu.SessionManager.Tables.{leases}

module _ (env : Env) where
  open env use {Host as H}

  pub ike_updown-Released :
      (a : IpAllocator env)
      → IsConsistent env a
      → (sa : IkeSa)
      → Returns
          (ike_updown env (some sa) false a)
          (λ r. (r.0 ≡ true) × ((b : Bool) × Released env a sa.unique_id (b, r.1)))
  unfolding ike_updown release_by_uid
  ike_updown-Released a c sa =
      let (r, ran, d) = release_by_uid_impl-Released env a c sa.unique_id in
      ((true, r.1), rw ran, (refl, (r.0, d)))

  -- On a consistent allocator charon may tell of the end of an IKE_SA twice, by `release_address`
  -- and then by `ike_updown`: neither commits a fault, the first takes away the lease of the
  -- IKE_SA and no other, and the second changes neither the leases nor the dynamic pool.
  pub ike_updown-release_address :
      (a : IpAllocator env)
      → IsConsistent env a
      → (pools : Option (List (Option Name))) (address : Option H) (sa : IkeSa)
      → Returns (release_address env pools address (some sa) a) λ r.
        Released env a sa.unique_id r
        × Returns (ike_updown env (some sa) false r.1) λ r'.
          (r'.0 ≡ true)
          × IsConsistent env r'.1
          × ((v : ℕ) → leases env r'.1.sessions v ≡ leases env r.1.sessions v)
          × (r'.1.dyn ≡ r.1.dyn)
  unfolding release_address
  ike_updown-release_address a c pools address sa =
      let (r, ran, d) = release_by_uid_impl-Released env a c sa.unique_id in
      let (r', ran', (up, (b, d'))) = ike_updown-Released r.1 d.consistent sa in
      (
        r,
        ran,
        (
          d,
          (
            r',
            ran',
            (
              up,
              d'.consistent,
              λ v. ground (arith, d'.view v, d.view v),
              d'.pool_kept (ground (arith, d.view sa.unique_id)),
            ),
          ),
        ),
      )
