-- ===== src/SessionManager/Bind.antt =====
-- `bind_lease` and `migrate` of plugin/src/session_manager.c.
use strongswan_plugin_vpn_cu.Base.{
  ℕ, ◌≡◌, refl, inl, inr, Bool, true, false, Option, none, some, arith, ◌==◌, suc, if◌then◌else◌,
  Name, streq, Option-cases, Bool-cases, ok, Returns,
}
use strongswan_plugin_vpn_cu.Env.{Env, Ptr}
use strongswan_plugin_vpn_cu.SessionManager.{Lease, update, bind_lease}
use strongswan_plugin_vpn_cu.SessionManager.Links.{add-IsLinked}
use strongswan_plugin_vpn_cu.SessionManager.Tables.{
  uids-put, users-put, S, Inv, leases, uid_of, user_of,
}

module _ (env : Env) where
  open env use {Host as H, uids, users}

  -- The new lease `l` is at `p`, and nothing else changed.
  pub record Bound (s : S env) (l : Lease H) (p : Ptr) (t : S env) : Type 0 where
    pub valid : Inv env t
    pub at : t.heap p ≡ some l
    pub entry : uid_of env t l.unique_id ≡ some p
    pub view : (v : ℕ) → leases env t v ≡ (if l.unique_id == v then some l else leases env s v)
    pub names :
        (m : Name) → user_of env t m ≡ (if streq l.username m then some p else user_of env s m)

  module _ (s : S env) (inv : Inv env s) (now : ℕ) (n : Name) (u : ℕ) (ip : Option H)
      (fixed : Bool) where
    abbrev pub new_lease : Lease H
    new_lease = record { username = n; unique_id = u; ip = ip; fixed = fixed; acquired = now }

    abbrev bound : S env
    bound = record {
      heap = update s.heap s.brk (some new_lease);
      brk = suc s.brk;
      by_uid = (uids.put s.by_uid u s.brk).1;
      by_user = (users.put s.by_user n s.brk).1;
    }

    old_entry : (q : Ptr) (v : ℕ) → uid_of env s v ≡ some q → (s.brk == q) ≡ false
    old_entry q v e = let (k, at, _, _) = inv.numbered v q e in ground (arith, inv.bounded q k at)

    bound_view : (v : ℕ) → leases env bound v ≡ (if u == v then some new_lease else leases env s v)
    bound_view v = elim (Bool-cases (u == v)) [
      | inl same ↦ rw (uids-put env s.by_uid u s.brk, same) (ground arith)
      | inr other ↦ elim (Option-cases (uid_of env s v)) [
        | inl e ↦ rw (uids-put env s.by_uid u s.brk, other, e)
        | inr (q, e) ↦ rw (uids-put env s.by_uid u s.brk, other, e, old_entry q v e)
      ]
    ]

    -- On a manager whose index is whole, with memory, for a user and a number without a lease,
    -- `bind_lease` adds the one lease: the index stays whole, the lease is found under both keys,
    -- and no other lookup changes.
    pub bind_lease-Bound :
        uid_of env s u ≡ none
        → user_of env s n ≡ none
        → Returns
            (bind_lease env true now (some n) u ip fixed s)
            λ r. (r.0 ≡ some s.brk) × Bound s new_lease s.brk r.1
    unfolding bind_lease
    bind_lease-Bound no_uid no_user = (
      (some s.brk, bound),
      rw no_user,
      (
        refl,
        record {
          valid =
              rw (uids-put env s.by_uid u s.brk, users-put env s.by_user n s.brk)
                (add-IsLinked inv new_lease no_uid no_user);
          at = ground arith;
          entry = rw (uids-put env s.by_uid u s.brk) (ground arith);
          view = bound_view;
          names = λ m. rw (users-put env s.by_user n s.brk);
        },
      ),
    )

    -- Without memory for the lease `bind_lease` returns NULL and changes nothing.
    pub bind_lease_no_memory :
        user_of env s n ≡ none → bind_lease env false now (some n) u ip fixed s ≡ ok (none, s)
    unfolding bind_lease
    bind_lease_no_memory no_user = rw no_user
