-- ===== src/SessionManager/Refines.antt =====
-- plugin/src/session_manager.c keeps the contract of plugin/src/session_manager.h.
use mathlib.Core.Path.{fun_ext, subst}
use strongswan_plugin_vpn_cu.Base.{
  ℕ, ◌≡◌, refl, sym, ap, ◌∙◌, inl, inr, Bool, Option, none, some, List, [], ◌∷◌, arith,
  if◌then◌else◌, Bool-cases, Option-cases, Name, streq, streq_iff, Returns,
}
use strongswan_plugin_vpn_cu.Env.{Env}
use strongswan_plugin_vpn_cu.SessionManager.{Lease, lease_destroy, lookup_by_user}
use strongswan_plugin_vpn_cu.SessionManager.Bind.{bind_lease-Bound}
use strongswan_plugin_vpn_cu.SessionManager.ByUser.{served, dropped}
use strongswan_plugin_vpn_cu.SessionManager.Contract.{
  Call, bind_lease, migrate, unbind, Users, spec, specs, Allowed, AllAllowed, run, runs,
}
use strongswan_plugin_vpn_cu.SessionManager.Migrate.{migrate_absent, migrate-Migrated}
use strongswan_plugin_vpn_cu.SessionManager.Rebind.{bind_lease-Destroyed}
use strongswan_plugin_vpn_cu.SessionManager.Tables.{S, Inv, user_of, lease_of_user, deref}
use strongswan_plugin_vpn_cu.SessionManager.Unbind.{
  unbind-Unbinds, destroy-Destroyed, SameLeases-Inv, SameLeases-leases,
}
use strongswan_plugin_vpn_cu.SessionManager.Owner.{
  Own, Own-lease, no_strip, one_strip, no_entry, same_entry,
}

module _ (env : Env) where
  open env use {Host as H}

  -- A manager whose index is whole and that has these leases.
  abbrev Has : Users H → S env → Type 0
  Has L t = Inv env t × ((m : Name) → lease_of_user env t m ≡ L m)

  module _ (s : S env) (inv : Inv env s) where
    bind_lease-Has :
        (now : ℕ) (n : Name) (u : ℕ) (ip : Option H) (fixed : Bool)
        → Own env s inv u n
        → Returns
            (run env (bind_lease now n u ip fixed) s)
            (Has (spec (bind_lease now n u ip fixed) (lease_of_user env s)))
    unfolding run
    bind_lease-Has now n u ip fixed own =
        let new : Lease H = record {
          username = n;
          unique_id = u;
          ip = ip;
          fixed = fixed;
          acquired = now;
        } in
        elim (Option-cases (user_of env s n)) [
          | inl nobody ↦
              let (r, ran, (_, b)) =
                bind_lease-Bound env s inv now n u ip fixed (no_entry env s inv u n own nobody)
                  nobody in
              (
                r.1,
                rw ran,
                (
                  b.valid,
                  served env s r.1 inv b.valid n new refl (Own-lease env s inv u n own)
                      (λ v. rw (← no_strip env s inv n nobody v) (b.view v)),
                ),
              )
          | inr (p, found) ↦
              let (l, at, name, entry) = inv.named n p found in
              let (r, ran, (valid, _, view)) =
                bind_lease-Destroyed env s inv n p l found at name entry now u ip fixed
                  (same_entry env s inv u n p own found) in
              let has : lease_of_user env s n ≡ some l = rw (found, at) in
              (
                r.1,
                rw ran,
                (
                  valid,
                  served env s r.1 inv valid n new refl (Own-lease env s inv u n own)
                      (λ v. rw (← one_strip env s inv n l has v) (view v)),
                ),
              )
        ]

    renewed_nobody :
        (now u : ℕ) (n m : Name)
        → user_of env s n ≡ none
        → lease_of_user env s m ≡ spec (migrate now n u) (lease_of_user env s) m
    renewed_nobody now u n m nobody = elim (Bool-cases (streq n m)) [
      | inl same ↦ let nm = (streq_iff n m).0 same in rw (same, ← nm, nobody)
      | inr other ↦ rw other
    ]

    renewed_user :
        (now u : ℕ) (n m : Name) (l : Lease H)
        → lease_of_user env s n ≡ some l
        → (if streq n m
            then some (record l { unique_id = u; acquired = now })
            else lease_of_user env s m)
          ≡ spec (migrate now n u) (lease_of_user env s) m
    renewed_user now u n m l has = elim (Bool-cases (streq n m)) [
      | inl same ↦
          let nm = (streq_iff n m).0 same in
          let has' : lease_of_user env s m ≡ some l = rw (← nm) has in rw (same, has')
      | inr other ↦ rw other
    ]

    migrate-Has :
        (now : ℕ) (n : Name) (u : ℕ)
        → Own env s inv u n
        → Returns (run env (migrate now n u) s) (Has (spec (migrate now n u) (lease_of_user env s)))
    unfolding run
    migrate-Has now n u own = elim (Option-cases (user_of env s n)) [
      | inl nobody ↦ (
        s,
        rw (migrate_absent env s inv now n u nobody),
        (inv, λ m. renewed_nobody now u n m nobody),
      )
      | inr (p, found) ↦
          let (l, at, name, entry) = inv.named n p found in
          let (r, ran, (_, w)) =
            migrate-Migrated env s inv now n u p l found at
              (same_entry env s inv u n p own found) in
          let has : lease_of_user env s n ≡ some l = rw (found, at) in
          (
            r.1,
            rw ran,
            (
              w.valid,
              λ m.
                  served env s r.1 inv w.valid n (record l { unique_id = u; acquired = now }) name
                    (Own-lease env s inv u n own)
                    (λ v. rw (← one_strip env s inv n l has v) (w.view v)) m
                  ∙ renewed_user now u n m l has,
            ),
          )
    ]

    unbind-Has :
        (u : ℕ) → Returns (run env (unbind u) s) (Has (spec (unbind u) (lease_of_user env s)))
    unfolding run
    unbind-Has u =
        let (r, ran, done) = unbind-Unbinds env s inv u in
        elim done [
          | inl (e, nothing, same) ↦
              let view = SameLeases-leases env same in
              (
                r.1,
                rw (ran, nothing) (unfold lease_destroy in refl),
                (
                  SameLeases-Inv env same inv,
                  dropped env s r.1 inv (SameLeases-Inv env same inv) u
                      (λ v. ap (λ f. f v) view ∙ ground (arith, e)),
                ),
              )
          | inr (p, l, just, w) ↦
              let (t, freed, d) = destroy-Destroyed env s inv w in
              (t, rw (ran, just) freed, (d.valid, dropped env s t inv d.valid u d.view))
        ]

  -- Every call does what the interface says.
  run-Has :
      (c : Call H) (s : S env)
      → Inv env s
      → Allowed c (lease_of_user env s)
      → Returns (run env c s) (Has (spec c (lease_of_user env s)))
  run-Has (bind_lease now n u ip fixed) s inv own = bind_lease-Has s inv now n u ip fixed own
  run-Has (migrate now n u) s inv own = migrate-Has s inv now n u own
  run-Has (unbind u) s inv allowed = unbind-Has s inv u

  -- From a manager whose index is whole on, any sequence of `bind_lease`, `migrate` and `unbind` with
  -- `lease_destroy`, with memory, each for a number that is free or the user's own: no call commits
  -- a fault, the index is whole at the end, and `lookup_by_user` finds for each user the lease that the
  -- interface says, the last one bound, renumbered by `migrate` and gone after `unbind`.
  pub runs-specs :
      (cs : List (Call H)) (s : S env)
      → Inv env s
      → AllAllowed cs (lease_of_user env s)
      → Returns (runs env cs s) λ t.
        Inv env t
        × ((m : Name)
            → deref t.heap (lookup_by_user env (some m) t) ≡ specs cs (lease_of_user env s) m)
  unfolding runs lookup_by_user
  runs-specs [] s inv allowed = (s, refl, (inv, λ m. refl))
  runs-specs (c ∷ cs) s inv (now, later) =
      let (t, ran, (valid, view)) = run-Has c s inv now in
      let users_now : lease_of_user env t ≡ spec c (lease_of_user env s) = fun_ext view in
      let (t', went, (valid', view')) =
        runs-specs cs t valid (subst (AllAllowed cs) (sym users_now) later) in
      (t', rw ran went, (valid', λ m. view' m ∙ ap (λ L. specs cs L m) users_now))
