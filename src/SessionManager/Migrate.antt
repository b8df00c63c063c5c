-- ===== src/SessionManager/Migrate.antt =====
-- `migrate` of plugin/src/session_manager.c.
use strongswan_plugin_vpn_cu.Base.{
  ℕ, ◌≡◌, ◌≢◌, refl, inl, inr, false, none, some, arith, ◌==◌, if◌then◌else◌, Name, Option-cases,
  Bool-cases, ok, Returns,
}
use strongswan_plugin_vpn_cu.Env.{Env, Ptr}
use strongswan_plugin_vpn_cu.SessionManager.{Lease, update, load, migrate}
use strongswan_plugin_vpn_cu.SessionManager.Links.{move-IsLinked}
use strongswan_plugin_vpn_cu.SessionManager.Tables.{
  uids-put, uids-remove, S, Inv, leases, uid_of, user_of,
}

module _ (env : Env) where
  open env use {Host as H, uids, users}

  -- The lease at `p` got the number `new` and the time `now`, and nothing else changed.
  pub record Migrated (s : S env) (l : Lease H) (new now : ℕ) (p : Ptr) (t : S env) : Type 0 where
    pub valid : Inv env t
    pub at : t.heap p ≡ some (record l { unique_id = new; acquired = now })
    pub view :
        (v : ℕ)
        → leases env t v ≡ (
            if new == v
            then some (record l { unique_id = new; acquired = now })
            else (if l.unique_id == v then none else leases env s v))
    pub names : user_of env t ≡ user_of env s
    pub others : (q : Ptr) → q ≢ p → t.heap q ≡ s.heap q

  module _ (s : S env) (inv : Inv env s) (now : ℕ) (n : Name) (new : ℕ) where
    -- `migrate` of a user without a lease returns NULL and changes nothing.
    pub migrate_absent : user_of env s n ≡ none → migrate env now (some n) new s ≡ ok (none, s)
    unfolding migrate
    migrate_absent e = rw e

    module _ (p : Ptr) (l : Lease H) (found : user_of env s n ≡ some p) (at : s.heap p ≡ some l)
        (free : (q : Ptr) → uid_of env s new ≡ some q → q ≡ p) where
      abbrev moved : S env
      moved = record s {
        heap = update s.heap p (some (record l { unique_id = new; acquired = now }));
        by_uid = (uids.put (uids.remove s.by_uid l.unique_id).1 new p).1;
      }

      moved_uid :
          uid_of env moved
          ≡ (λ v. if new == v then some p else (if l.unique_id == v then none else uid_of env s v))
      moved_uid = rw (uids-put env _ new p, uids-remove env s.by_uid l.unique_id)

      apart :
          (v : ℕ)
          → (l.unique_id == v) ≡ false
          → (q : Ptr) → uid_of env s v ≡ some q
          → (p == q) ≡ false
      apart v other q e = let (k, here, number, _) = inv.numbered v q e in ground arith

      moved_view :
          (v : ℕ)
          → leases env moved v ≡ (
              if new == v
              then some (record l { unique_id = new; acquired = now })
              else (if l.unique_id == v then none else leases env s v))
      moved_view v = elim (Bool-cases (new == v)) [
        | inl same ↦ rw (moved_uid, same) (ground arith)
        | inr other ↦ elim (Bool-cases (l.unique_id == v)) [
          | inl old ↦ rw (moved_uid, other, old)
          | inr rest ↦ elim (Option-cases (uid_of env s v)) [
            | inl e ↦ rw (moved_uid, other, rest, e)
            | inr (q, e) ↦ rw (moved_uid, other, rest, e, apart v rest q e)
          ]
        ]
      ]

      -- On a manager whose index is whole, for a user who has a lease and a new number that is
      -- free or the lease's own, `migrate` gives the lease the new number and time, keeps the
      -- index whole, and changes no other lease and no lookup by name.
      pub migrate-Migrated :
          Returns (migrate env now (some n) new s) λ r. (r.0 ≡ some p) × Migrated s l new now p r.1
      unfolding migrate
      migrate-Migrated = (
        (some p, moved),
        rw (found, load, at),
        (
          refl,
          record {
            valid = rw moved_uid (move-IsLinked inv p l at new now free);
            at = ground arith;
            view = moved_view;
            names = refl;
            others = λ q ne. ground arith;
          },
        ),
      )
