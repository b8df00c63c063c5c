-- ===== src/History/Table.antt =====
-- What the allocator of plugin/src/ip_allocator.c promises: a table of leases by unique id, of which a
-- call changes only what is its own; and that each call keeps the promise.
use strongswan_plugin_vpn_cu.Base.{
  ℕ, ◌≡◌, ◌≢◌, refl, ◌∙◌, ap, ◌⊎◌, inl, inr, Bool, true, false, not, ◌&&◌, Option, none, some, List,
  ◌==◌, if◌then◌else◌, Bool-cases, Option-cases, Run, ok, ◌>>=◌, Returns, Name,
}
use strongswan_plugin_vpn_cu.Env.{Env}
use strongswan_plugin_vpn_cu.EventListener.{ike_updown}
use strongswan_plugin_vpn_cu.History.{
  Step, acquired, released, withdrawn, updown, swept, reloaded, Unclaimed,
}
use strongswan_plugin_vpn_cu.IdentityManager.{IkeSa}
use strongswan_plugin_vpn_cu.IpAllocator.{
  IpAllocator, Memory, acquire_address, release_address, release_by_uid, lease_name, pools_include,
}
use strongswan_plugin_vpn_cu.IpAllocator.Answer.{acquire_address-Served}
use strongswan_plugin_vpn_cu.IpAllocator.Invariant.{IsConsistent}
use strongswan_plugin_vpn_cu.IpAllocator.Release.{release_by_uid_impl-Released, Released}
use strongswan_plugin_vpn_cu.IpAllocator.Rounds.{kept}
use strongswan_plugin_vpn_cu.IpAllocator.Sweep.{sweep-Swept}
use strongswan_plugin_vpn_cu.SessionManager.{Lease}
use strongswan_plugin_vpn_cu.SessionManager.Expire.{is_old}
use strongswan_plugin_vpn_cu.SessionManager.Tables.{leases}

module _ (H : Type 0) where
  abbrev pub Table : Type 0
  Table = ℕ → Option (Lease H)

  -- The moves of the abstract table. `assign` serves one user under one number: all others keep their
  -- leases, and the only lease that may be new is the user's, under that number. `withdraw` takes
  -- some leases away.
  pub data Change (L L' : Table) : Type 0 where
    assign :
        (u : ℕ) (n : Name)
        → ((v : ℕ) (k : Lease H) → L v ≡ some k → k.username ≢ n → L' v ≡ some k)
        → ((v : ℕ) (k : Lease H) → L' v ≡ some k → (L v ≡ some k) ⊎ ((v ≡ u) × (k.username ≡ n)))
        → Change L L'
    withdraw : (gone : ℕ → Bool) → ((v : ℕ) → L' v ≡ (if gone v then none else L v)) → Change L L'

  still : (L : Table) → Change L L
  still L = withdraw (λ v. false) (λ v. refl)

-- Whether a sweep takes the lease.
abbrev goes : {H : Type 0} → ℕ → ℕ → (ℕ → Bool) → Option (Lease H) → Bool
goes now timeout alive none = false
goes now timeout alive (some l) = is_old now timeout l && not (alive l.unique_id)

kept-goes :
    {H : Type 0} (now timeout : ℕ) (alive : ℕ → Bool) (x : Option (Lease H))
    → kept now timeout alive x ≡ (if goes now timeout alive x then none else x)
kept-goes now timeout alive none = refl
kept-goes now timeout alive (some l) = refl

module _ (env : Env) where
  open env use {Host as H}

  -- A call leaves a consistent allocator whose table has made a move.
  abbrev pub Keeps : IpAllocator env → IpAllocator env → Type 0
  Keeps a b = IsConsistent env b × Change H (leases env a.sessions) (leases env b.sessions)

  module _ (a : IpAllocator env) (c : IsConsistent env a) where
    unchanged : Keeps a a
    unchanged = (c, still H (leases env a.sessions))

    Released-Keeps : (uid : ℕ) (r : Bool × IpAllocator env) → Released env a uid r → Keeps a r.1
    Released-Keeps uid r d = (d.consistent, withdraw (λ v. uid == v) d.view)

    acquired-Keeps :
        (mem : Memory) (now : ℕ) (pools : Option (List (Option Name))) (sa : Option IkeSa)
        (requested : Option H)
        → mem.lease_ok ≡ true
        → Unclaimed env a mem sa
        → Returns (acquire_address env mem now pools sa requested a >>= λ r. ok r.1) (Keeps a)
    unfolding acquire_address
    acquired-Keeps mem now pools none requested memory own = (a, refl, unchanged)
    acquired-Keeps mem now pools (some sa) requested memory own =
        elim (Bool-cases (pools_include a.pool_name pools)) [
          | inr other ↦ (a, rw other, unchanged)
          | inl ours ↦ elim (Option-cases (lease_name env mem sa)) [
            | inl nameless ↦ (a, rw (ours, nameless), unchanged)
            | inr (name, called) ↦
                let (r, ran, (served, _)) =
                  acquire_address-Served env a c now name sa.unique_id (own name called) mem memory
                    sa pools requested refl ours called in
                (
                  r.1,
                  ap (λ (m : Run (Option H × IpAllocator env)). m >>= λ x. ok x.1) ran,
                  (served.consistent, assign sa.unique_id name served.others served.source),
                )
          ]
        ]

    -- Every call of a consistent allocator, an acquisition with memory for a lease and under a
    -- unique id that no other user has leased, a release, an event of the listener, a sweep or a
    -- reload of the policy, runs without a fault and leaves a consistent allocator whose table of
    -- leases has made one move of the abstract table: it served one user and kept the leases of
    -- all others, or it only took leases away.
    pub Step-Keeps : (o : Run (IpAllocator env)) → Step env a o → Returns o (Keeps a)
    unfolding release_address release_by_uid ike_updown
    Step-Keeps o (acquired mem now pools sa requested memory own e) =
        rw e (acquired-Keeps mem now pools sa requested memory own)
    Step-Keeps o (released pools address none e) = rw e (a, refl, unchanged)
    Step-Keeps o (released pools address (some sa) e) =
        let (r, ran, d) = release_by_uid_impl-Released env a c sa.unique_id in
        rw e (r.1, rw ran, Released-Keeps sa.unique_id r d)
    Step-Keeps o (withdrawn uid e) =
        let (r, ran, d) = release_by_uid_impl-Released env a c uid in
        rw e (r.1, rw ran, Released-Keeps uid r d)
    Step-Keeps o (updown none true e) = rw e (a, refl, unchanged)
    Step-Keeps o (updown (some sa) true e) = rw e (a, refl, unchanged)
    Step-Keeps o (updown none false e) = rw e (a, refl, unchanged)
    Step-Keeps o (updown (some sa) false e) =
        let (r, ran, d) = release_by_uid_impl-Released env a c sa.unique_id in
        rw e (r.1, rw ran, Released-Keeps sa.unique_id r d)
    Step-Keeps o (swept now alive e) =
        let (r, ran, w) = sweep-Swept env now alive a c in
        rw e (
          r,
          ran,
          (
            w.consistent,
            withdraw (λ v. goes now a.lease_timeout alive (leases env a.sessions v))
                (λ v. w.view v ∙ kept-goes now a.lease_timeout alive (leases env a.sessions v)),
          ),
        )
    Step-Keeps o (reloaded calloc_ok source e) = rw e (
      _,
      refl,
      (
        record { index = c.index; addressed = c.addressed; pool = c.pool },
        still H (leases env a.sessions),
      ),
    )
