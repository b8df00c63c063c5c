-- ===== src/EventListener.antt =====
-- plugin/src/event_listener.c: the lease of an IKE_SA that goes down is released.
pub mod Down
use strongswan_plugin_vpn_cu.Base.{Bool, true, false, Option, none, some, Run, ok, ◌>>=◌}
use strongswan_plugin_vpn_cu.Env.{Env}
use strongswan_plugin_vpn_cu.IdentityManager.{IkeSa}
use strongswan_plugin_vpn_cu.IpAllocator.{IpAllocator, release_by_uid}

-- The allocator is borrowed: `P` is the type of the pointers to it.
pub record EventListener (P : Type 0) : Type 0 where
  pub allocator : P

-- `calloc_ok` says whether there is memory; a pointer that may be NULL is an option.
unfoldable pub event_listener_create : {P : Type 0} → Bool → Option P → Option (EventListener P)
event_listener_create calloc_ok none = none
event_listener_create false (some p) = none
event_listener_create true (some p) = some (record { allocator = p })

module _ (env : Env) where
  -- The result TRUE keeps the listener registered. `this` is the allocator that it points to.
  unfoldable pub ike_updown : Option IkeSa → Bool → IpAllocator env → Run (Bool × IpAllocator env)
  ike_updown sa true this = ok (true, this)
  ike_updown none false this = ok (true, this)
  ike_updown (some sa) false this = do
    this' ← release_by_uid env sa.unique_id this
    ok (true, this')
