-- ===== src/History.antt =====
-- The calls that reach the allocator of plugin/src/ip_allocator.c, from charon (attribute requests and
-- the listener of plugin/src/event_listener.c), the sweep job and a reload of the policy, as steps.
pub mod Table
pub mod Safety
use strongswan_plugin_vpn_cu.Base.{
  ℕ, ◌≡◌, Bool, true, Option, none, some, List, Run, ok, ◌>>=◌, Name,
}
use strongswan_plugin_vpn_cu.Env.{Env}
use strongswan_plugin_vpn_cu.EventListener.{ike_updown}
use strongswan_plugin_vpn_cu.IdentityManager.{IkeSa}
use strongswan_plugin_vpn_cu.IpAllocator.{
  IpAllocator, Memory, acquire_address, release_address, release_by_uid, sweep, lease_name,
}
use strongswan_plugin_vpn_cu.IpAllocator.Served.{IsOwn}
use strongswan_plugin_vpn_cu.PolicyEngine.{reload}
use strongswan_plugin_vpn_cu.YamlLoader.{Source}

module _ (env : Env) where
  open env use {Host as H}

  -- No other user has a lease under the unique id of the IKE_SA: charon gives each IKE_SA its own.
  abbrev pub Unclaimed : IpAllocator env → Memory → Option IkeSa → Type 0
  Unclaimed a mem none = Unit {0}
  Unclaimed a mem (some sa) =
      (name : Name) → lease_name env mem sa ≡ some name → IsOwn env a name sa.unique_id

  -- One call and how it runs. `acquired` has memory for a lease.
  pub data Step (a : IpAllocator env) (o : Run (IpAllocator env)) : Type 0 where
    acquired :
        (mem : Memory) (now : ℕ) (pools : Option (List (Option Name))) (sa : Option IkeSa)
        (requested : Option H)
        → mem.lease_ok ≡ true
        → Unclaimed a mem sa
        → o ≡ (acquire_address env mem now pools sa requested a >>= λ r. ok r.1)
        → Step a o
    released :
        (pools : Option (List (Option Name))) (address : Option H) (sa : Option IkeSa)
        → o ≡ (release_address env pools address sa a >>= λ r. ok r.1)
        → Step a o
    withdrawn : (uid : ℕ) → o ≡ release_by_uid env uid a → Step a o
    updown :
        (sa : Option IkeSa) (up : Bool) → o ≡ (ike_updown env sa up a >>= λ r. ok r.1) → Step a o
    swept : (now : ℕ) (alive : ℕ → Bool) → o ≡ sweep env now alive a → Step a o
    reloaded :
        (calloc_ok : Bool) (source : Source)
        → o ≡ ok (record a { policy = (reload env calloc_ok source a.policy).1 })
        → Step a o

  -- The allocators that some calls make of one.
  pub data Reach (a : IpAllocator env) : IpAllocator env → Type 0 where
    here : Reach a a
    next : {b c : IpAllocator env} → Reach a b → Step b (ok c) → Reach a c
