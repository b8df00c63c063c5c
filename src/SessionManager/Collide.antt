-- ===== src/SessionManager/Collide.antt =====
-- `bind_lease` of plugin/src/session_manager.c under the unique id of another user's lease.
use strongswan_plugin_vpn_cu.Base.{
  ℕ, suc, ◌<◌, ◌≡◌, ◌≢◌, refl, inl, inr, Bool, true, false, Option, none, some, arith, ◌==◌,
  if◌then◌else◌, Bool-cases, Name, streq, Returns,
}
use strongswan_plugin_vpn_cu.Env.{Env, Ptr}
use strongswan_plugin_vpn_cu.SessionManager.{Lease, update, bind_lease}
use strongswan_plugin_vpn_cu.SessionManager.Tables.{S, Inv, uid_of, user_of, uids-put, users-put}

module _ (env : Env) where
  open env use {Host as H, uids, users}

  -- The lease is on the heap and under its username, and no number leads to it.
  pub record Stranded (p : Ptr) (l : Lease H) (t : S env) : Type 0 where
    pub at : t.heap p ≡ some l
    pub named : user_of env t l.username ≡ some p
    pub no_number : (v : ℕ) → uid_of env t v ≢ some p

  -- Once the number `u` leads to `b`, no number leads to `p`.
  no_lem :
      (s : S env) (p b : Ptr) (l : Lease H) (u v : ℕ)
      → Inv env s
      → uid_of env s u ≡ some p
      → s.heap p ≡ some l
      → p < b
      → (if u == v then some b else uid_of env s v) ≢ some p
  no_lem s p b l u v inv entry at below e = elim (Bool-cases (u == v)) [
    | inl same ↦ absurd (ground arith)
    | inr differ ↦
        let e' : uid_of env s v ≡ some p = ground arith in
        let (k, here, number, _) = inv.numbered u p entry in
        let (k', here', number', _) = inv.numbered v p e' in absurd (ground arith)
  ]

  -- On a manager whose index is whole, with memory for the lease, `bind_lease` for a user without a
  -- lease under the unique id of another user's lease runs without a fault, and takes that number
  -- from the other lease, which stays on the heap and under its username: no number leads to it any
  -- more, so neither `unbind` nor a sweep finds it.
  pub bind_lease-Stranded :
      (s : S env) (now : ℕ) (n : Name) (u : ℕ) (ip : Option H) (fixed : Bool) (p : Ptr)
      (l : Lease H)
      → Inv env s
      → uid_of env s u ≡ some p
      → s.heap p ≡ some l
      → streq n l.username ≡ false
      → user_of env s n ≡ none
      → Returns
          (bind_lease env true now (some n) u ip fixed s)
          (λ r. (r.0 ≡ some s.brk) × (uid_of env r.1 u ≡ some s.brk) × Stranded p l r.1)
  unfolding bind_lease
  bind_lease-Stranded s now n u ip fixed p l inv entry at other no_user =
      let below : p < s.brk = inv.bounded p l at in
      let mine : Lease H = record {
        username = n;
        unique_id = u;
        ip = ip;
        fixed = fixed;
        acquired = now;
      } in
      let t : S env = record {
        heap = update s.heap s.brk (some mine);
        brk = suc s.brk;
        by_uid = (uids.put s.by_uid u s.brk).1;
        by_user = (users.put s.by_user n s.brk).1;
      } in
      (
        (some s.brk, t),
        rw no_user,
        (
          refl,
          rw (uids-put env s.by_uid u s.brk) (ground arith),
          record {
            at = ground arith;
            named =
                rw (users-put env s.by_user n s.brk, other)
                  (let (k, here, _, user) = inv.numbered u p entry in cc);
            no_number = λ v.
                rw (uids-put env s.by_uid u s.brk)
                  (λ e. no_lem s p s.brk l u v inv entry at below e);
          },
        ),
      )
