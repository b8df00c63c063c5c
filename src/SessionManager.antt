-- ===== src/SessionManager.antt =====
-- plugin/src/session_manager.c: the leases, as structures on a heap that two tables point to. The
-- manager's own mutex makes each operation one step.
pub mod Links
pub mod Tables
pub mod Unbind
pub mod Bind
pub mod Rebind
pub mod Collide
pub mod ByUser
pub mod Owner
pub mod Contract
pub mod Refines
pub mod Migrate
pub mod Expire
pub mod Destroy
use strongswan_plugin_vpn_cu.Base.{
  ℕ, zero, suc, ◌+◌, ◌-◌, ◌<◌, ◌≡◌, Bool, true, false, Option, none, some, List, [], ◌∷◌, Run, ok,
  fault, dangling, ◌>>=◌, ltb, ◌==◌, if◌then◌else◌, length, Name,
}
use strongswan_plugin_vpn_cu.Env.{Env, Ptr}

-- `lease_t`. `ip` is NULL where it is `none`.
pub record Lease (H : Type 0) : Type 0 where
  pub username : Name
  pub unique_id : ℕ
  pub ip : Option H
  pub fixed : Bool
  pub acquired : ℕ

-- `brk` is the next address that `malloc` gives out.
pub record SessionManager (env : Env) : Type 0 where
  pub heap : Ptr → Option (Lease env.Host)
  pub brk : Ptr
  pub by_uid : env.uids.Table
  pub by_user : env.users.Table

abbrev pub update : {A : Type 0} → (Ptr → Option A) → Ptr → Option A → Ptr → Option A
update heap p v q = if p == q then v else heap q

-- The second loop, over the state `X` of the code that gave the callback.
unfoldable pub call_all {ℓ} : {X : Type ℓ} → (Ptr → X → Run X) → List Ptr → X → Run X
call_all cb [] x = ok x
call_all cb (p ∷ rest) x = cb p x >>= call_all cb rest

-- A callback that is NULL is replaced by one that does nothing.
unfoldable pub lease_cb {ℓ} : {X : Type ℓ} → Option (Ptr → X → Run X) → Ptr → X → Run X
lease_cb none p x = ok x
lease_cb (some cb) p x = cb p x

module _ (env : Env) where
  open env use {Host as H, uids, users}

  abbrev S : Type 0
  S = SessionManager env

  -- A read through the pointer `p`.
  unfoldable pub load : Ptr → S → Run (Lease H)
  load p s = elim (s.heap p) [ none ↦ fault dangling | some l ↦ ok l ]

  -- `malloc_ok` says whether `malloc` has memory; `now` is the value of `time(NULL)`.
  pub lease_create : Bool → ℕ → Name → ℕ → Option H → Bool → S → Option Ptr × S
  lease_create false now username uid ip fixed s = (none, s)
  lease_create true now username uid ip fixed s =
      let l : Lease H = record {
        username = username;
        unique_id = uid;
        ip = ip;
        fixed = fixed;
        acquired = now;
      } in
      (some s.brk, record s { heap = update s.heap s.brk (some l); brk = suc s.brk })

  -- The structure is read for its `ip` and its `username` and then freed.
  unfoldable pub lease_destroy : Option Ptr → S → Run S
  unfolding load
  lease_destroy none s = ok s
  lease_destroy (some p) s = load p s >>= λ l. ok (record s { heap = update s.heap p none })

  -- "The later one wins": a lease that the user still has is taken out of both tables and freed.
  pub evict : Option Ptr → S → Run S
  unfolding load
  evict none s = ok s
  evict (some existing) s = do
    l ← load existing s
    lease_destroy (some existing) (record s {
      by_uid = (uids.remove s.by_uid l.unique_id).1;
      by_user = (users.remove s.by_user l.username).1;
    })

  -- The new lease goes into both tables; with no memory for it `bind_lease` returns NULL.
  pub enter : Name → ℕ → Option Ptr × S → Run (Option Ptr × S)
  enter username uid (none, s) = ok (none, s)
  enter username uid (some p, s) = ok (
    some p,
    record s { by_uid = (uids.put s.by_uid uid p).1; by_user = (users.put s.by_user username p).1 },
  )

  unfoldable pub bind_lease :
      Bool → ℕ → Option Name → ℕ → Option H → Bool → S → Run (Option Ptr × S)
  unfolding evict enter lease_create
  bind_lease malloc_ok now none uid ip fixed s = ok (none, s)
  bind_lease malloc_ok now (some username) uid ip fixed s = do
    s' ← evict (users.get s.by_user username) s
    enter username uid (lease_create malloc_ok now username uid ip fixed s')

  pub renumber : ℕ → ℕ → Option Ptr → S → Run (Option Ptr × S)
  unfolding load
  renumber now new_uid none s = ok (none, s)
  renumber now new_uid (some p) s = do
    l ← load p s
    ok (
      some p,
      record s {
        heap = update s.heap p (some (record l { unique_id = new_uid; acquired = now }));
        by_uid = (uids.put (uids.remove s.by_uid l.unique_id).1 new_uid p).1;
      },
    )

  unfoldable pub migrate : ℕ → Option Name → ℕ → S → Run (Option Ptr × S)
  unfolding renumber
  migrate now none new_uid s = ok (none, s)
  migrate now (some username) new_uid s = renumber now new_uid (users.get s.by_user username) s

  unfoldable pub lookup_by_user : Option Name → S → Option Ptr
  lookup_by_user none s = none
  lookup_by_user (some username) s = users.get s.by_user username

  pub drop_user : Option Ptr → S → Run (Option Ptr × S)
  unfolding load
  drop_user none s = ok (none, s)
  drop_user (some p) s = do
    l ← load p s
    ok (some p, record s { by_user = (users.remove s.by_user l.username).1 })

  unfoldable pub unbind : ℕ → S → Run (Option Ptr × S)
  unfolding drop_user
  unbind uid s =
      let (removed, rest) = uids.remove s.by_uid uid in
      drop_user removed (record s { by_uid = rest })

  -- The first loop of `foreach_expiring`. `now - l->acquired` is signed in the source, so a time
  -- before `acquired` never counts as more than `timeout`; here the difference is 0 then.
  unfoldable pub expired : ℕ → ℕ → List (ℕ × Ptr) → S → Run (List Ptr)
  unfolding load
  expired now timeout [] s = ok []
  expired now timeout ((k, p) ∷ rest) s = do
    l ← load p s
    more ← expired now timeout rest s
    ok (if ltb timeout (now - l.acquired) then p ∷ more else more)

  unfoldable pub foreach_expiring {ℓ} :
      {X : Type ℓ} → ℕ → ℕ → Option (Ptr → X → Run X) → S → X → Run X
  unfolding expired call_all lease_cb
  foreach_expiring now timeout cb s x = do
    snapshot ← expired now timeout (uids.entries s.by_uid) s
    call_all (lease_cb cb) snapshot x

  unfoldable pub count : S → ℕ
  count s = length (uids.entries s.by_uid)

  unfoldable pub session_manager_create : S
  session_manager_create = record {
    heap = λ p. none;
    brk = 0;
    by_uid = uids.hashtable_create 0;
    by_user = users.hashtable_create 0;
  }

  pub destroy_all : List (ℕ × Ptr) → S → Run S
  destroy_all [] s = ok s
  destroy_all ((k, p) ∷ rest) s = lease_destroy (some p) s >>= destroy_all rest

  unfoldable pub session_manager_destroy : S → Run S
  unfolding destroy_all
  session_manager_destroy s = destroy_all (uids.entries s.by_uid) s
