-- ===== src/SessionManager/ByUser.antt =====
-- The leases of plugin/src/session_manager.c by username, against those by unique id.
use mathlib.Core.Path.{subst}
use strongswan_plugin_vpn_cu.Base.{
  ℕ, ◌≡◌, ◌≢◌, ◌↔◌, refl, ap, sym, ◌∙◌, inl, inr, false, Option, none, some, arith, ◌==◌,
  if◌then◌else◌, Bool-cases, Option-cases, Name, streq, streq_iff,
}
use strongswan_plugin_vpn_cu.Env.{Env}
use strongswan_plugin_vpn_cu.SessionManager.{Lease}
use strongswan_plugin_vpn_cu.SessionManager.Tables.{S, Inv, uid_of, user_of, leases, lease_of_user}

-- Two options that are the same value wherever one is a value.
Option-ext : {A : Type 0} (o o' : Option A) → ((a : A) → (o ≡ some a) ↔ (o' ≡ some a)) → o ≡ o'
Option-ext none none h = refl
Option-ext none (some a) h = (h a).1 refl
Option-ext (some a) o' h = sym ((h a).0 refl)

-- A lease that is not the user's.
abbrev pub strip : {H : Type 0} → Name → Option (Lease H) → Option (Lease H)
strip n none = none
strip n (some l) = if streq l.username n then none else some l

-- A lease of another number.
abbrev pub without_number : {H : Type 0} → ℕ → Option (Lease H) → Option (Lease H)
without_number u none = none
without_number u (some l) = if u == l.unique_id then none else some l

not_streq : (a b : Name) → a ≢ b → streq a b ≡ false
not_streq a b ne = ground (arith, streq_iff a b)

differ :
    {H : Type 0} (n m : Name) → streq n m ≡ false → (k : Lease H) → k.username ≡ m → k.username ≢ n
differ n m other k name mine = let same = (streq_iff n m).1 (sym mine ∙ name) in cc

module _ {H : Type 0} where
  strip_out :
      (n : Name) (o : Option (Lease H)) (k : Lease H)
      → strip n o ≡ some k
      → (o ≡ some k) × (k.username ≢ n)
  strip_out n none k e = absurd (cc)
  strip_out n (some l) k e = elim (Bool-cases (streq l.username n)) [
    | inl same ↦ absurd (ground arith)
    | inr other ↦
        let lk : l ≡ k = ground arith in
        (
          ap some lk,
          λ mine.
              let same : l.username ≡ n = cc in
              let yes_same = (streq_iff l.username n).1 same in cc,
        )
  ]

  strip_in :
      (n : Name) (o : Option (Lease H)) (k : Lease H)
      → o ≡ some k
      → k.username ≢ n
      → strip n o ≡ some k
  strip_in n o k e ne = rw (e, not_streq k.username n ne)

  number_out :
      (u : ℕ) (o : Option (Lease H)) (k : Lease H)
      → without_number u o ≡ some k
      → (o ≡ some k) × ((u == k.unique_id) ≡ false)
  number_out u none k e = absurd (cc)
  number_out u (some l) k e = elim (Bool-cases (u == l.unique_id)) [
    | inl same ↦ absurd (ground arith)
    | inr other ↦ let lk : l ≡ k = ground arith in (ap some lk, rw (← lk) other)
  ]

module _ (env : Env) where
  open env use {Host as H}

  -- A user's lease is the one that stands under its own number.
  pub lease_iff :
      (s : S env)
      → Inv env s
      → (m : Name) (k : Lease H)
      → (lease_of_user env s m ≡ some k) ↔ ((leases env s k.unique_id ≡ some k) × (k.username ≡ m))
  lease_iff s inv m k = (
    λ e. elim (Option-cases (user_of env s m)) [
      | inl nobody ↦ absurd (ground arith)
      | inr (p, found) ↦
          let (l, at, name, entry) = inv.named m p found in
          let lk : l ≡ k = ground arith in
          let entry' : uid_of env s k.unique_id ≡ some p = cc in (ground (arith), cc)
    ],
    λ e. elim (Option-cases (uid_of env s k.unique_id)) [
      | inl nobody ↦ absurd (ground (arith, e.0))
      | inr (p, found) ↦
          let (l, at, number, entry) = inv.numbered k.unique_id p found in
          let lk : l ≡ k = ground (arith, e.0) in
          let entry' : user_of env s m ≡ some p = cc in ground (arith)
    ],
  )

  module _ (s t : S env) (inv : Inv env s) (valid : Inv env t) where
    -- A user was served: the new lease stands under its number, and what the user had is gone.
    pub served :
        (n : Name) (new : Lease H)
        → new.username ≡ n
        → ((k : Lease H) → leases env s new.unique_id ≡ some k → k.username ≡ n)
        → ((v : ℕ)
            → leases env t v ≡ (if new.unique_id == v then some new else strip n (leases env s v)))
        → (m : Name)
        → lease_of_user env t m ≡ (if streq n m then some new else lease_of_user env s m)
    served n new mine own view m =
        Option-ext (lease_of_user env t m) (if streq n m then some new else lease_of_user env s m)
          (λ k. (
            λ e.
                let (at, name) = (lease_iff t valid m k).0 e in
                elim (Bool-cases (new.unique_id == k.unique_id)) [
                  | inl same ↦
                      let nk : new ≡ k = ground (arith, view k.unique_id) in
                      let nm : n ≡ m = cc in rw ((streq_iff n m).1 nm) (ap some nk)
                  | inr other ↦
                      let (was, differs) =
                        strip_out n (leases env s k.unique_id) k
                          (ground (arith, view k.unique_id)) in
                      rw (not_streq n m (λ nm. differs (name ∙ sym nm)))
                        ((lease_iff s inv m k).1 (was, name))
                ],
            λ e. elim (Bool-cases (streq n m)) [
              | inl same ↦
                  let nm : n ≡ m = (streq_iff n m).0 same in
                  let nk : new ≡ k = ground arith in
                  let at : leases env t new.unique_id ≡ some new =
                    ground (arith, view new.unique_id) in
                  (lease_iff t valid m k).1
                    (subst (λ x. leases env t x.unique_id ≡ some x) nk at, cc)
              | inr other ↦
                  let (at, name) = (lease_iff s inv m k).0 (ground arith) in
                  let differs = differ n m other k name in
                  (lease_iff t valid m k).1 (
                    elim (Bool-cases (new.unique_id == k.unique_id)) [
                      | inl same ↦
                          let number : new.unique_id ≡ k.unique_id = ground arith in
                          absurd (differs (own k (rw number at)))
                      | inr apart ↦ view k.unique_id ∙ rw apart (strip_in n _ k at differs)
                    ],
                    name,
                  )
            ],
          ))

    -- The lease of a number is gone.
    pub dropped :
        (u : ℕ)
        → ((v : ℕ) → leases env t v ≡ (if u == v then none else leases env s v))
        → (m : Name) → lease_of_user env t m ≡ without_number u (lease_of_user env s m)
    dropped u view m =
        Option-ext (lease_of_user env t m) (without_number u (lease_of_user env s m)) (λ k. (
          λ e.
              let (at, name) = (lease_iff t valid m k).0 e in
              let apart : (u == k.unique_id) ≡ false = ground (arith, view k.unique_id) in
              let was : leases env s k.unique_id ≡ some k = ground (arith, view k.unique_id) in
              rw ((lease_iff s inv m k).1 (was, name), apart),
          λ e.
              let (was, apart) = number_out u (lease_of_user env s m) k e in
              let (at, name) = (lease_iff s inv m k).0 was in
              (lease_iff t valid m k).1 (view k.unique_id ∙ rw (apart, at), name),
        ))
