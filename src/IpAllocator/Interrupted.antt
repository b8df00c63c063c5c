-- ===== src/IpAllocator/Interrupted.antt =====
-- A sweep of plugin/src/ip_allocator.c that another thread interrupts. `foreach_expiring` unlocks the
-- mutex of the session manager between its two loops, and a release may come in there.
use strongswan_plugin_vpn_cu.Base.{
  ℕ, ◌≤◌, ◌≡◌, ◌≢◌, refl, sym, ◌∙◌, inl, inr, Bool, true, false, Option, none, some, List, [], ◌∷◌,
  arith, ◌==◌, if◌then◌else◌, Bool-cases, Option-cases, Run, ok, fault, dangling, ◌>>=◌,
}
use strongswan_plugin_vpn_cu.Env.{Env, Ptr}
use strongswan_plugin_vpn_cu.Hashtable.{u32_key-IsLawful}
use strongswan_plugin_vpn_cu.IpAllocator.{IpAllocator, sweep_cb, release_by_uid, sweep}
use strongswan_plugin_vpn_cu.IpAllocator.Invariant.{IsConsistent}
use strongswan_plugin_vpn_cu.IpAllocator.Release.{release_by_uid_impl-Released}
use strongswan_plugin_vpn_cu.SessionManager.{
  Lease, expired, call_all, lease_cb, foreach_expiring, load,
}
use strongswan_plugin_vpn_cu.SessionManager.Expire.{is_old, times, expired-Old, entries-Listed}
use strongswan_plugin_vpn_cu.SessionManager.Tables.{S, uid_of, leases, load_at}

module _ (env : Env) where
  open env use {Host as H, uids}

  abbrev A : Type 0
  A = IpAllocator env

  -- `sweep`, with what the other threads do between the two loops.
  unfoldable pub sweep_interrupted : ℕ → (ℕ → Bool) → (A → Run A) → A → Run A
  sweep_interrupted now alive others this = do
    snapshot ← expired env now this.lease_timeout (uids.entries this.sessions.by_uid) this.sessions
    this' ← others this
    call_all (lease_cb (some (sweep_cb env alive))) snapshot this'

  -- With nothing in between it is `sweep`.
  pub sweep_interrupted-ok :
      (now : ℕ) (alive : ℕ → Bool) (a : A)
      → sweep_interrupted now alive ok a ≡ sweep env now alive a
  unfolding sweep_interrupted sweep foreach_expiring
  sweep_interrupted-ok now alive a = refl

  -- No number leads to the pointer.
  abbrev Unlisted : Ptr → A → Type 0
  Unlisted p a = (v : ℕ) → uid_of env a.sessions v ≢ some p

  off_heap : (p : Ptr) (a : A) → IsConsistent env a → Unlisted p a → a.sessions.heap p ≡ none
  off_heap p a c unlisted = elim (Option-cases (a.sessions.heap p)) [
    | inl e ↦ e
    | inr (l, e) ↦ absurd (unlisted l.unique_id (c.index.kept p l e))
  ]

  -- What is under a number that was not taken away was there before.
  still : (b : Bool) (o : Option Ptr) (p : Ptr) → (if b then none else o) ≡ some p → o ≡ some p
  still true o p e = absurd (cc)
  still false o p e = e

  pointer :
      (a : A) (uid : ℕ) (l : Lease H)
      → leases env a.sessions uid ≡ some l
      → (p : Ptr) × (uid_of env a.sessions uid ≡ some p) × (a.sessions.heap p ≡ some l)
  pointer a uid l has = elim (Option-cases (uid_of env a.sessions uid)) [
    | inl e ↦ absurd (ground (arith))
    | inr (p, e) ↦ (p, e, ground arith)
  ]

  owner :
      (a : A) (p : Ptr) (l : Lease H)
      → a.sessions.heap p ≡ some l
      → IsConsistent env a
      → (v : ℕ) → uid_of env a.sessions v ≡ some p
      → v ≡ l.unique_id
  owner a p l at c v e = let (k, here, number, _) = c.index.numbered v p e in ground (arith)

  gone_from :
      (u v : ℕ) (o : Option Ptr) (p : Ptr)
      → (if u == v then none else o) ≡ some p
      → (o ≡ some p → u ≡ v)
      → ⊥
  gone_from u v o p e same = elim (Bool-cases (u == v)) [
    | inl yes_same ↦ absurd (ground (arith))
    | inr differ ↦ let e' : o ≡ some p = ground arith in absurd (ground (arith, same e'))
  ]

  load_gone : (q : Ptr) (s : S env) → s.heap q ≡ none → load env q s ≡ fault dangling
  unfolding load
  load_gone q s e = rw (load, e)

  call_all-dangling :
      (alive : ℕ → Bool) (p : Ptr) (ps : List Ptr) (a : A)
      → IsConsistent env a
      → Unlisted p a
      → 1 ≤ times p ps
      → call_all (lease_cb (some (sweep_cb env alive))) ps a ≡ fault dangling
  unfolding call_all lease_cb sweep_cb
  call_all-dangling alive p [] a c unlisted many = absurd (omega arith)
  call_all-dangling alive p (q ∷ ps) a c unlisted many = elim (Option-cases (a.sessions.heap q)) [
    | inl e ↦ rw (load_gone q a.sessions e)
    | inr (l, e) ↦
        let more : 1 ≤ times p ps = ground (arith, off_heap p a c unlisted) in
        elim (Bool-cases (alive l.unique_id)) [
          | inl lives ↦
              rw (load_at env a.sessions q l e, lives)
                (call_all-dangling alive p ps a c unlisted more)
          | inr dead ↦
              let (r, ran, done) = release_by_uid_impl-Released env a c l.unique_id in
              rw (load_at env a.sessions q l e, dead, ran)
                (call_all-dangling alive p ps r.1 done.consistent
                  (λ v f. unlisted v (still (l.unique_id == v) _ p (sym (done.entries v) ∙ f)))
                  more)
        ]
  ]

  -- If the lease of a number of a consistent allocator is old, and is released between the two
  -- loops of a sweep, when the mutex of the session manager is free, the sweep reads a lease
  -- after it was freed: it ends in a fault, whichever IKE_SAs there are.
  pub sweep_interrupted-dangling :
      (now : ℕ) (alive : ℕ → Bool) (a : A) (uid : ℕ) (l : Lease H)
      → IsConsistent env a
      → leases env a.sessions uid ≡ some l
      → is_old now a.lease_timeout l ≡ true
      → sweep_interrupted now alive (release_by_uid env uid) a ≡ fault dangling
  unfolding sweep_interrupted release_by_uid
  sweep_interrupted-dangling now alive a uid l c has old =
      let (p, entry, at) = pointer a uid l has in
      let (ps, ran, o) =
        expired-Old env a.sessions c.index now a.lease_timeout (uids.entries a.sessions.by_uid)
          (entries-Listed env a.sessions) in
      let (r, ran', done) = release_by_uid_impl-Released env a c uid in
      let once : times p ps ≡ 1 =
        o.once p l at
        ∙ rw (
          old,
          ← uids.get-entries u32_key-IsLawful a.sessions.by_uid l.unique_id,
          c.index.kept p l at,
        ) in
      let unlisted : Unlisted p r.1 = λ v f.
        gone_from uid v (uid_of env a.sessions v) p (sym (done.entries v) ∙ f)
          (λ e. owner a p l at c uid entry ∙ sym (owner a p l at c v e)) in
      rw (ran, ran') (call_all-dangling alive p ps r.1 done.consistent unlisted (omega arith))
