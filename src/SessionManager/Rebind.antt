-- ===== src/SessionManager/Rebind.antt =====
-- `bind_lease` of plugin/src/session_manager.c for a user who has a lease already: the later one wins.
use strongswan_plugin_vpn_cu.Base.{
  ℕ, ◌≡◌, refl, inl, inr, true, Option, none, some, arith, ◌==◌, if◌then◌else◌, Bool, Option-cases,
  Name, streq_refl, Returns,
}
use strongswan_plugin_vpn_cu.Env.{Env, Ptr}
use strongswan_plugin_vpn_cu.SessionManager.{Lease, bind_lease, evict}
use strongswan_plugin_vpn_cu.SessionManager.Bind.{bind_lease-Bound}
use strongswan_plugin_vpn_cu.SessionManager.Tables.{
  S, Inv, uid_of, user_of, leases, uids-remove, users-remove, load_at,
}
use strongswan_plugin_vpn_cu.SessionManager.Unbind.{Unbound, Destroyed, destroy-Destroyed}

module _ (env : Env) where
  open env use {Host as H, uids, users}

  module _ (s : S env) (inv : Inv env s) (n : Name) (p : Ptr) (l : Lease H)
      (found : user_of env s n ≡ some p) (at : s.heap p ≡ some l) (named : l.username ≡ n)
      (entry : uid_of env s l.unique_id ≡ some p) where
    abbrev taken_out : S env
    taken_out = record s {
      by_uid = (uids.remove s.by_uid l.unique_id).1;
      by_user = (users.remove s.by_user l.username).1;
    }

    out : Unbound env s l.unique_id p l taken_out
    out = record {
      at = at;
      number = refl;
      entry = entry;
      heap = refl;
      brk = refl;
      by_uid = uids-remove env s.by_uid l.unique_id;
      by_user = users-remove env s.by_user l.username;
    }

    evict-Destroyed : Returns (evict env (some p) s) (Destroyed env s l.unique_id l)
    unfolding evict
    evict-Destroyed =
        let (t, ran, d) = destroy-Destroyed env s inv out in (t, rw (load_at env s p l at) ran, d)

    -- On a manager whose index is whole, with memory, for a user who has a lease and a number that is
    -- free or that of this lease, `bind_lease` frees the old lease and adds the new one: the index
    -- stays whole, the user and the number have the new lease, the old number has none unless it is
    -- the new one, and no other number has another lease than before.
    pub bind_lease-Destroyed :
        (now u : ℕ) (ip : Option H) (fixed : Bool)
        → ((q : Ptr) → uid_of env s u ≡ some q → q ≡ p)
        → Returns (bind_lease env true now (some n) u ip fixed s) λ r.
          Inv env r.1
          × (r.0 ≡ user_of env r.1 n)
          × ((v : ℕ)
              → leases env r.1 v ≡ (
                  if u == v
                  then some (record {
                    username = n;
                    unique_id = u;
                    ip = ip;
                    fixed = fixed;
                    acquired = now;
                  })
                  else (if l.unique_id == v then none else leases env s v)))
    unfolding bind_lease
    bind_lease-Destroyed now u ip fixed free =
        let (t, ran, d) = evict-Destroyed in
        let no_user : user_of env t n ≡ none = ground (arith, d.names n, streq_refl n) in
        let no_uid : uid_of env t u ≡ none = elim (Option-cases (uid_of env s u)) [
          | inl e ↦ ground (arith, d.entries u)
          | inr (q, e) ↦
              let qp = free q e in
              let (k, here, number, _) = inv.numbered u q e in ground (arith, d.entries u)
        ] in
        let (r, bound, res) = bind_lease-Bound env t d.valid now n u ip fixed no_uid no_user in
        let b = res.1 in
        (
          r,
          rw (found, ran) (rw no_user at bound),
          (
            b.valid,
            ground (arith, b.names n, streq_refl n),
            λ v. ground (arith, b.view v, d.view v),
          ),
        )
