-- ===== src/SessionManager/Unbind.antt =====
-- `unbind` and `lease_destroy` of plugin/src/session_manager.c.
use mathlib.Core.Path.{fun_ext}
use strongswan_plugin_vpn_cu.Base.{
  ℕ, ◌≡◌, refl, ◌∙◌, ◌⊎◌, inl, inr, false, Option, none, some, arith, ◌==◌, if◌then◌else◌, Name,
  streq, Option-cases, Bool-cases, ok, Returns,
}
use strongswan_plugin_vpn_cu.Env.{Env, Ptr}
use strongswan_plugin_vpn_cu.SessionManager.{Lease, update, load, unbind, lease_destroy}
use strongswan_plugin_vpn_cu.SessionManager.Links.{drop-IsLinked}
use strongswan_plugin_vpn_cu.SessionManager.Tables.{
  uids-remove, uids-removed, users-remove, S, Inv, leases, uid_of, user_of, deref,
}

module _ (env : Env) where
  open env use {Host as H, uids, users}

  -- The lease `l` at `p` has left the tables; it is still allocated.
  pub record Unbound (s : S env) (u : ℕ) (p : Ptr) (l : Lease H) (t : S env) : Type 0 where
    pub at : s.heap p ≡ some l
    pub number : l.unique_id ≡ u
    pub entry : uid_of env s u ≡ some p
    pub heap : t.heap ≡ s.heap
    pub brk : t.brk ≡ s.brk
    pub by_uid : uid_of env t ≡ (λ v. if u == v then none else uid_of env s v)
    pub by_user : user_of env t ≡ (λ m. if streq l.username m then none else user_of env s m)

  -- The tables and the heap of `t` are those of `s`.
  pub record SameLeases (s t : S env) : Type 0 where
    pub heap : t.heap ≡ s.heap
    pub brk : t.brk ≡ s.brk
    pub by_uid : uid_of env t ≡ uid_of env s
    pub by_user : user_of env t ≡ user_of env s

  -- What `unbind` does for the number `u`.
  abbrev pub Unbinds : S env → ℕ → Option Ptr × S env → Type 0
  Unbinds s u r =
      ((uid_of env s u ≡ none) × (r.0 ≡ none) × SameLeases s r.1)
      ⊎ ((p : Ptr) × (l : Lease H) × (r.0 ≡ some p) × Unbound s u p l r.1)

  -- The lease `l` of the number `u` is freed, the index is whole again, and nothing else changed.
  pub record Destroyed (s : S env) (u : ℕ) (l : Lease H) (t : S env) : Type 0 where
    pub valid : Inv env t
    pub entries : (v : ℕ) → uid_of env t v ≡ (if u == v then none else uid_of env s v)
    pub view : (v : ℕ) → leases env t v ≡ (if u == v then none else leases env s v)
    pub names :
        (n : Name) → user_of env t n ≡ (if streq l.username n then none else user_of env s n)

  absent :
      (s : S env) {u : ℕ} (v : ℕ)
      → uid_of env s u ≡ none
      → (if u == v then none else uid_of env s v) ≡ uid_of env s v
  absent s v e = ground arith

  pub unbind_absent :
      (s : S env) (u : ℕ)
      → uid_of env s u ≡ none
      → Returns (unbind env u s) (λ r. (r.0 ≡ none) × SameLeases s r.1)
  unfolding unbind
  unbind_absent s u e = (
    (none, record s { by_uid = (uids.remove s.by_uid u).1 }),
    rw (uids-removed, e),
    (
      refl,
      record {
        heap = refl;
        brk = refl;
        by_uid = uids-remove env s.by_uid u ∙ fun_ext (λ v. absent s v e);
        by_user = refl;
      },
    ),
  )

  pub SameLeases-leases : {s t : S env} → SameLeases s t → leases env t ≡ leases env s
  SameLeases-leases w = λ i u. deref (w.heap i) (w.by_uid i u)

  pub SameLeases-Inv : {s t : S env} → SameLeases s t → Inv env s → Inv env t
  SameLeases-Inv w inv = rw (w.heap, w.brk, w.by_uid, w.by_user) inv

  pub load-Unbound :
      {s t : S env} {u : ℕ} {p : Ptr} {l : Lease H} → Unbound s u p l t → load env p t ≡ ok l
  unfolding load
  load-Unbound w = rw (w.heap, w.at)

  module _ (s : S env) (inv : Inv env s) where
    -- On a manager whose index is whole `unbind` commits no fault. For a number without a lease
    -- it returns NULL and changes no lookup; otherwise it returns the lease, takes it out of both
    -- tables, and leaves every other entry and the heap as they were.
    pub unbind-Unbinds : (u : ℕ) → Returns (unbind env u s) (Unbinds s u)
    unfolding unbind load
    unbind-Unbinds u = elim (Option-cases (uid_of env s u)) [
      | inl e ↦ let (r, ran, found) = unbind_absent s u e in (r, ran, inl (e, found.0, found.1))
      | inr (p, e) ↦
          let (l, at, number, name) = inv.numbered u p e in
          (
            (
              some p,
              record s {
                by_uid = (uids.remove s.by_uid u).1;
                by_user = (users.remove s.by_user l.username).1;
              },
            ),
            rw (uids-removed, e, at),
            inr (
              p,
              l,
              refl,
              record {
                at = at;
                number = number;
                entry = e;
                heap = refl;
                brk = refl;
                by_uid = uids-remove env s.by_uid u;
                by_user = users-remove env s.by_user l.username;
              },
            ),
          )
    ]

    -- On a manager whose index is whole a second `unbind` for the same number returns NULL and
    -- changes no lookup.
    pub unbind_twice :
        (u : ℕ)
        → Returns
            (unbind env u s)
            λ r. Returns (unbind env u r.1) (λ r'. (r'.0 ≡ none) × SameLeases r.1 r'.1)
    unbind_twice u =
        let (r, ran, done) = unbind-Unbinds u in (r, ran, unbind_absent r.1 u (gone done))
      where
        gone : {r : Option Ptr × S env} → Unbinds s u r → uid_of env r.1 u ≡ none
        gone (inl (e, _, same)) = rw same.by_uid e
        gone (inr (p, l, _, w)) = rw w.by_uid (ground arith)

    module _ {u : ℕ} {p : Ptr} {l : Lease H} {t : S env} (w : Unbound s u p l t) where
      other_view :
          (v : ℕ) → (u == v) ≡ false → (q : Ptr) → uid_of env s v ≡ some q → (p == q) ≡ false
      other_view v other q e =
          let (k, at, number, _) = inv.numbered v q e in ground (arith, w.at, w.number)

      after_view :
          (v : ℕ)
          → leases env (record t { heap = update t.heap p none }) v
            ≡ (if u == v then none else leases env s v)
      after_view v = elim (Bool-cases (u == v)) [
        | inl same ↦ rw (w.by_uid, same)
        | inr other ↦ elim (Option-cases (uid_of env s v)) [
          | inl e ↦ rw (w.by_uid, other, e)
          | inr (q, e) ↦ rw (w.by_uid, other, e, w.heap, other_view v other q e)
        ]
      ]

      -- On a manager whose index was whole before `unbind`, freeing the lease that `unbind`
      -- returned commits no fault; the index of the other leases is whole, and the view by number
      -- has lost that lease alone.
      pub destroy-Destroyed : Returns (lease_destroy env (some p) t) (Destroyed s u l)
      unfolding lease_destroy
      destroy-Destroyed = (
        record t { heap = update t.heap p none },
        rw (w.heap, w.at),
        record {
          valid = rw (w.heap, w.brk, w.by_uid, w.by_user, ← w.number) (drop-IsLinked inv p l w.at);
          entries = λ v. rw w.by_uid;
          view = after_view;
          names = λ n. rw w.by_user;
        },
      )
