-- ===== src/SessionManager/Owner.antt =====
-- A user's lease of plugin/src/session_manager.c, and the number that the user may bind.
use mathlib.Core.Path.{subst}
use strongswan_plugin_vpn_cu.Base.{
  ℕ, ◌≡◌, refl, sym, ap, ◌∙◌, inl, inr, true, false, none, some, arith, ◌==◌, if◌then◌else◌,
  Bool-cases, Option-cases, Name, streq, streq_iff,
}
use strongswan_plugin_vpn_cu.Env.{Env, Ptr}
use strongswan_plugin_vpn_cu.SessionManager.{Lease}
use strongswan_plugin_vpn_cu.SessionManager.ByUser.{strip, lease_iff}
use strongswan_plugin_vpn_cu.SessionManager.Tables.{S, Inv, uid_of, user_of, leases, lease_of_user}

module _ (env : Env) where
  open env use {Host as H}

  module _ (s : S env) (inv : Inv env s) where
    number_of : (v : ℕ) (k : Lease H) → leases env s v ≡ some k → k.unique_id ≡ v
    number_of v k e = elim (Option-cases (uid_of env s v)) [
      | inl nothing ↦ absurd (ground arith)
      | inr (p, found) ↦
          let (l, at, number, _) = inv.numbered v p found in let lk : l ≡ k = ground arith in cc
    ]

    at_number : (v : ℕ) (k : Lease H) → leases env s v ≡ some k → leases env s k.unique_id ≡ some k
    at_number v k e = subst (λ u. leases env s u ≡ some k) (sym (number_of v k e)) e

    of_user :
        (n : Name) (v : ℕ) (k : Lease H)
        → leases env s v ≡ some k
        → streq k.username n ≡ true
        → lease_of_user env s n ≡ some k
    of_user n v k e mine =
        (lease_iff env s inv n k).1 (at_number v k e, (streq_iff k.username n).0 mine)

    pub no_strip :
        (n : Name) → user_of env s n ≡ none → (v : ℕ) → leases env s v ≡ strip n (leases env s v)
    no_strip n nobody v = elim (Option-cases (leases env s v)) [
      | inl e ↦ rw e
      | inr (k, e) ↦ elim (Bool-cases (streq k.username n)) [
        | inl mine ↦ absurd (ground (arith, of_user n v k e mine))
        | inr other ↦ rw (e, other)
      ]
    ]

    theirs :
        (n : Name) (l : Lease H)
        → lease_of_user env s n ≡ some l
        → (v : ℕ) (k : Lease H) → leases env s v ≡ some k
        → streq k.username n ≡ false
        → (l.unique_id == v) ≡ false
    theirs n l has v k e other = elim (Bool-cases (l.unique_id == v)) [
      | inr apart ↦ apart
      | inl same ↦
          let (at, name) = (lease_iff env s inv n l).0 has in
          let lv : l.unique_id ≡ v = ground arith in
          let e' = subst (λ u. leases env s u ≡ some l) lv at in
          let kl : k ≡ l = ground arith in
          let mine = (streq_iff k.username n).1 (ap (λ (x : Lease H). x.username) kl ∙ name) in cc
    ]

    pub one_strip :
        (n : Name) (l : Lease H)
        → lease_of_user env s n ≡ some l
        → (v : ℕ) → (if l.unique_id == v then none else leases env s v) ≡ strip n (leases env s v)
    one_strip n l has v = elim (Option-cases (leases env s v)) [
      | inl e ↦ rw e (ground arith)
      | inr (k, e) ↦ elim (Bool-cases (streq k.username n)) [
        | inl mine ↦
            let here = of_user n v k e mine in
            let lk : k ≡ l = ground arith in
            let same : l.unique_id ≡ v =
              sym (ap (λ (x : Lease H). x.unique_id) lk) ∙ number_of v k e in
            rw (e, mine) (ground arith)
        | inr other ↦ rw (e, other, theirs n l has v k e other)
      ]
    ]

    -- No other user has the lease of the number `u`.
    abbrev pub Own : ℕ → Name → Type 0
    Own u n = (m : Name) (k : Lease H) → lease_of_user env s m ≡ some k → k.unique_id ≡ u → m ≡ n

    pub Own-lease :
        (u : ℕ) (n : Name) → Own u n → (k : Lease H) → leases env s u ≡ some k → k.username ≡ n
    Own-lease u n own k e =
        own k.username k ((lease_iff env s inv k.username k).1 (at_number u k e, refl))
          (number_of u k e)

    Own-entry :
        (u : ℕ) (n : Name)
        → Own u n
        → (q : Ptr) → uid_of env s u ≡ some q
        → user_of env s n ≡ some q
    Own-entry u n own q e =
        let (l, at, number, entry) = inv.numbered u q e in
        let mine : l.username ≡ n = Own-lease u n own l (rw (e, at)) in rw (← mine) entry

    pub no_entry : (u : ℕ) (n : Name) → Own u n → user_of env s n ≡ none → uid_of env s u ≡ none
    no_entry u n own nobody = elim (Option-cases (uid_of env s u)) [
      | inl e ↦ e
      | inr (q, e) ↦ absurd (let e' = Own-entry u n own q e in cc)
    ]

    pub same_entry :
        (u : ℕ) (n : Name) (p : Ptr)
        → Own u n
        → user_of env s n ≡ some p
        → (q : Ptr) → uid_of env s u ≡ some q
        → q ≡ p
    same_entry u n p own found q e = let e' = Own-entry u n own q e in ground arith
