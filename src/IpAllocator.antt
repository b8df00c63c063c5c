-- ===== src/IpAllocator.antt =====
-- plugin/src/ip_allocator.c: the address provider that joins the policy, the dynamic pool and the
-- leases. Each operation is one step. `acquire_address` holds the lock throughout;
-- `release_by_uid_impl` drops it once the lease is out of the tables, when no other thread can reach
-- the lease any more.
pub mod Fixed
pub mod Match
pub mod Traffic
pub mod Moving
pub mod Invariant
pub mod Release
pub mod Served
pub mod Acquire
pub mod Answer
pub mod Reconnect
pub mod Lifecycle
pub mod Rounds
pub mod Sweep
pub mod Lost
pub mod Interrupted
use strongswan_plugin_vpn_cu.Base.{
  ℕ, zero, suc, ◌+◌, ◌/◌, ◌%◌, Bool, true, false, not, ◌&&◌, ◌||◌, Option, none, some, List, [],
  ◌∷◌, ◌++◌, Run, ok, fault, dangling, ◌>>=◌, ltb, ◌==◌, if◌then◌else◌, Name, streq, starts_with,
}
use strongswan_plugin_vpn_cu.DynamicPool
use strongswan_plugin_vpn_cu.DynamicPool.{DynamicPool}
use strongswan_plugin_vpn_cu.Env.{Env, Ptr}
use strongswan_plugin_vpn_cu.IdentityManager.{IkeSa, identity_get_username}
use strongswan_plugin_vpn_cu.PolicyEngine
use strongswan_plugin_vpn_cu.PolicyEngine.{PolicyEngine}
use strongswan_plugin_vpn_cu.SessionManager.{
  SessionManager, Lease, load, lookup_by_user, migrate, bind_lease, unbind, lease_destroy,
  foreach_expiring, session_manager_create, session_manager_destroy,
}

pub record IpAllocator (env : Env) : Type 0 where
  pub policy : PolicyEngine env
  pub dyn : Option (DynamicPool env.Host)
  pub sessions : SessionManager env
  pub pool_name : Name
  pub lease_timeout : ℕ

-- Which of the allocations of one `acquire_address` succeed, in the order of the code.
pub record Memory : Type 0 where
  pub username_ok : Bool
  pub anon_ok : Bool
  pub fixed_ok : Bool
  pub lease_ok : Bool
  pub result_ok : Bool

-- Whether the list of pool names, in which a pointer may be NULL, has the name.
unfoldable pub pools_include : Name → Option (List (Option Name)) → Bool
pools_include pool_name none = false
pools_include pool_name (some []) = false
pools_include pool_name (some (none ∷ rest)) = pools_include pool_name (some rest)
pools_include pool_name (some (some name ∷ rest)) =
    streq name pool_name || pools_include pool_name (some rest)

-- `%u`: ten digits are enough for 32 bits.
pub decimal : ℕ → ℕ → Name
decimal zero n = []
decimal (suc digits) n =
    let rest = decimal digits (n / 10) in
    if ltb n 10 then (48 + n) ∷ [] else rest ++ (48 + n % 10) ∷ []

-- "anon-"
abbrev pub anon_prefix : Name
anon_prefix = b'a' ∷ b'n' ∷ b'o' ∷ b'n' ∷ b'-' ∷ []

unfoldable pub anon_name : ℕ → Name
unfolding decimal
anon_name uid = anon_prefix ++ decimal 10 uid

module _ (env : Env) where
  open env use {Host as H, clone}

  abbrev A : Type 0
  A = IpAllocator env

  -- The lease's address goes back to the pool if it came from there.
  pub recycle : Lease H → Option (DynamicPool H) → Run (Option (DynamicPool H))
  recycle l none = ok none
  recycle l (some pool) = elim l.fixed [
    | true ↦ ok (some pool)
    | false ↦ elim l.ip [
      | none ↦ ok (some pool)
      | some ip ↦ DynamicPool.release env.lib (some ip) pool >>= λ pool'. ok (some pool')
    ]
  ]

  pub finish_release : Option Ptr × SessionManager env → A → Run (Bool × A)
  unfolding recycle
  finish_release (none, sessions) this = ok (false, record this { sessions = sessions })
  finish_release (some p, sessions) this = do
    l ← load env p sessions
    dyn ← recycle l this.dyn
    freed ← lease_destroy env (some p) sessions
    ok (true, record this { dyn = dyn; sessions = freed })

  unfoldable pub release_by_uid_impl : ℕ → A → Run (Bool × A)
  unfolding finish_release
  release_by_uid_impl uid this = unbind env uid this.sessions >>= λ r. finish_release r this

  -- `ip->clone(ip)`, where there is memory.
  abbrev pub clone_if : Bool → H → Option H
  clone_if true ip = some (clone ip)
  clone_if false ip = none

  -- `lease->ip->clone(lease->ip)`
  pub clone_ip : Bool → Option H → Run (Option H)
  clone_ip clone_ok none = fault dangling
  clone_ip clone_ok (some ip) = ok (clone_if clone_ok ip)

  -- The user has a lease: it moves to the new unique id.
  pub reuse : Memory → ℕ → Name → ℕ → Ptr → A → Run (Option H × A)
  unfolding clone_ip
  reuse mem now username uid lease this = do
    (_, sessions) ← migrate env now (some username) uid this.sessions
    l ← load env lease sessions
    result ← clone_ip mem.result_ok l.ip
    ok (result, record this { sessions = sessions })

  -- The fixed address of a user whose name is not that of an anonymous peer.
  abbrev pub fixed_ip : Memory → Name → PolicyEngine env → Option H
  fixed_ip mem username policy =
      if starts_with username anon_prefix
      then none
      else elim (PolicyEngine.lookup_fixed env policy (some username)) [
        | none ↦ none
        | some source ↦ clone_if mem.fixed_ok source
      ]

  -- The address for a new lease, and whether it is a fixed one.
  pub choose_ip : Option H → Option (DynamicPool H) → Run (Option H × Bool × Option (DynamicPool H))
  choose_ip (some ip) dyn = ok (some ip, true, dyn)
  choose_ip none none = ok (none, false, none)
  choose_ip none (some pool) = do
    (ip, pool') ← DynamicPool.acquire env.lib pool
    ok (ip, false, some pool')

  -- The copy for charon; without memory for it the lease is given up again.
  pub hand_out : Option H → ℕ → A → Run (Option H × A)
  hand_out (some result) uid this = ok (some result, this)
  hand_out none uid this = do (_, this') ← release_by_uid_impl uid this; ok (none, this')

  pub deliver : Memory → ℕ → Option Ptr × SessionManager env → A → Run (Option H × A)
  unfolding clone_ip hand_out
  deliver mem uid (none, sessions) this = ok (none, record this { sessions = sessions })
  deliver mem uid (some p, sessions) this = do
    l ← load env p sessions
    result ← clone_ip mem.result_ok l.ip
    hand_out result uid (record this { sessions = sessions })

  pub bind_new :
      Memory → ℕ → Name → ℕ → Option H × Bool × Option (DynamicPool H) → A → Run (Option H × A)
  unfolding deliver
  bind_new mem now username uid (none, fixed, dyn) this = ok (none, record this { dyn = dyn })
  bind_new mem now username uid (some ip, fixed, dyn) this = do
    r ← bind_lease env mem.lease_ok now (some username) uid (some ip) fixed this.sessions
    deliver mem uid r (record this { dyn = dyn })

  -- The part of `acquire_address` under the lock.
  pub acquire_locked : Memory → ℕ → Name → ℕ → Option Ptr → A → Run (Option H × A)
  unfolding reuse choose_ip bind_new
  acquire_locked mem now username uid (some lease) this = reuse mem now username uid lease this
  acquire_locked mem now username uid none this = do
    chosen ← choose_ip (fixed_ip mem username this.policy) this.dyn
    bind_new mem now username uid chosen this

  -- The name under which the address is leased.
  unfoldable pub lease_name : Memory → IkeSa → Option Name
  lease_name mem sa = elim (identity_get_username mem.username_ok (some sa)) [
    | some username ↦ some username
    | none ↦ if mem.anon_ok then some (anon_name sa.unique_id) else none
  ]

  pub acquire_as : Memory → ℕ → Option Name → ℕ → A → Run (Option H × A)
  unfolding acquire_locked
  acquire_as mem now none uid this = ok (none, this)
  acquire_as mem now (some username) uid this =
      acquire_locked mem now username uid (lookup_by_user env (some username) this.sessions) this

  -- The requested address is ignored, as in the source. `now` is the value of `time(NULL)`.
  unfoldable pub acquire_address :
      Memory → ℕ → Option (List (Option Name)) → Option IkeSa → Option H → A → Run (Option H × A)
  unfolding acquire_as lease_name
  acquire_address mem now pools none requested this = ok (none, this)
  acquire_address mem now pools (some sa) requested this =
      if pools_include this.pool_name pools
      then acquire_as mem now (lease_name mem sa) sa.unique_id this
      else ok (none, this)

  unfoldable pub release_address :
      Option (List (Option Name)) → Option H → Option IkeSa → A → Run (Bool × A)
  release_address pools address none this = ok (false, this)
  release_address pools address (some sa) this = release_by_uid_impl sa.unique_id this

  -- The enumeration yields no attribute, whatever the pools, the IKE_SA and the addresses.
  abbrev pub create_attribute_enumerator :
      Option (List (Option Name)) → Option IkeSa → List H → A → List (ℕ × List ℕ)
  create_attribute_enumerator pools sa vips this = []

  unfoldable pub release_by_uid : ℕ → A → Run A
  release_by_uid unique_id this = do (_, this') ← release_by_uid_impl unique_id this; ok this'

  -- `alive` says for which unique ids `checkout_by_id` finds an IKE_SA.
  unfoldable pub sweep_cb : (ℕ → Bool) → Ptr → A → Run A
  sweep_cb alive lease this = do
    l ← load env lease this.sessions
    (_, this') ←
        (if alive l.unique_id then ok (false, this) else release_by_uid_impl l.unique_id this)
    ok this'

  unfoldable pub sweep : ℕ → (ℕ → Bool) → A → Run A
  unfolding sweep_cb
  sweep now alive this =
      foreach_expiring env now this.lease_timeout (some (sweep_cb alive)) this.sessions this
