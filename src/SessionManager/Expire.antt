-- ===== src/SessionManager/Expire.antt =====
-- `foreach_expiring` of plugin/src/session_manager.c.
use strongswan_plugin_vpn_cu.Base.{
  ℕ, suc, ◌-◌, ◌≡◌, refl, ◌∙◌, inl, inr, Bool, true, false, Option, none, some, List, [], ◌∷◌,
  arith, ltb, ◌==◌, if◌then◌else◌, Bool-cases, All, Run, Returns,
}
use strongswan_plugin_vpn_cu.Env.{Env, Ptr}
use strongswan_plugin_vpn_cu.Hashtable.{find, Distinct, u32_key, u32_key-IsLawful, cupp_u32_eq}
use strongswan_plugin_vpn_cu.Hashtable.Entries.{find-All}
use strongswan_plugin_vpn_cu.SessionManager.{Lease, expired, foreach_expiring, call_all, lease_cb}
use strongswan_plugin_vpn_cu.SessionManager.Tables.{S, Inv, uid_of, load_at}

-- How often the pointer stands in the list.
abbrev pub times : Ptr → List Ptr → ℕ
times p [] = 0
times p (q ∷ rest) = let n = times p rest in if q == p then suc n else n

abbrev pub found : Option Ptr → ℕ
found none = 0
found (some p) = 1

-- `now - l->acquired > timeout`
abbrev pub is_old : {H : Type 0} → ℕ → ℕ → Lease H → Bool
is_old now timeout l = ltb timeout (now - l.acquired)

module _ (env : Env) where
  open env use {Host as H, uids}

  -- Every pair is an entry of the table, and no key stands twice.
  abbrev pub Listed : S env → List (ℕ × Ptr) → Type 0
  Listed s es = All (λ e. uid_of env s e.0 ≡ some e.1) es × Distinct u32_key es

  pub entries-Listed : (s : S env) → Listed s (uids.entries s.by_uid)
  entries-Listed s = (
    find-All u32_key u32_key-IsLawful (uids.entries s.by_uid) (uid_of env s)
        (λ k v e. uids.get-entries u32_key-IsLawful s.by_uid k ∙ e)
        (uids.entries-distinct u32_key-IsLawful s.by_uid),
    uids.entries-distinct u32_key-IsLawful s.by_uid,
  )

  module _ (s : S env) (inv : Inv env s) (now timeout : ℕ) where
    -- The pointers of the list are those of the old leases among the entries, each once.
    pub record Old (es : List (ℕ × Ptr)) (ps : List Ptr) : Type 0 where
      pub once :
          (p : Ptr) (l : Lease H)
          → s.heap p ≡ some l
          → times p ps ≡ (if is_old now timeout l then found (find u32_key l.unique_id es) else 0)
      pub no_other : (p : Ptr) → s.heap p ≡ none → times p ps ≡ 0

    skip :
        (k : ℕ) (q : Ptr) (es : List (ℕ × Ptr)) (ps : List Ptr) (j : Lease H)
        → s.heap q ≡ some j
        → j.unique_id ≡ k
        → is_old now timeout j ≡ false
        → uid_of env s k ≡ some q
        → find u32_key k es ≡ none
        → Old es ps
        → Old ((k, q) ∷ es) ps
    unfolding cupp_u32_eq
    skip k q es ps j at number young entry absent old = record {
      once = λ p l here. elim (Bool-cases (k == l.unique_id)) [
        | inl same ↦ ground (arith, inv.kept p l here, old.once p l here)
        | inr other ↦ ground (arith, old.once p l here)
      ];
      no_other = old.no_other;
    }

    take :
        (k : ℕ) (q : Ptr) (es : List (ℕ × Ptr)) (ps : List Ptr) (j : Lease H)
        → s.heap q ≡ some j
        → j.unique_id ≡ k
        → is_old now timeout j ≡ true
        → uid_of env s k ≡ some q
        → find u32_key k es ≡ none
        → Old es ps
        → Old ((k, q) ∷ es) (q ∷ ps)
    unfolding cupp_u32_eq
    take k q es ps j at number aged entry absent old = record {
      once = λ p l here. elim (Bool-cases (k == l.unique_id)) [
        | inl same ↦ ground (arith, inv.kept p l here, old.once p l here)
        | inr other ↦ ground (arith, old.once p l here)
      ];
      no_other = λ p e. ground (arith, old.no_other p e);
    }

    pub expired-Old :
        (es : List (ℕ × Ptr)) → Listed s es → Returns (expired env now timeout es s) (Old es)
    unfolding expired
    expired-Old [] listed =
        ([], refl, record { once = λ p l here. ground arith; no_other = λ p e. refl })
    expired-Old ((k, q) ∷ es) ((entry, all), (absent, distinct)) =
        let (j, at, number, _) = inv.numbered k q entry in
        let (ps, ran, old) = expired-Old es (all, distinct) in
        elim (Bool-cases (is_old now timeout j)) [
          | inl aged ↦ (
            q ∷ ps,
            rw (load_at env s q j at, ran, aged),
            take k q es ps j at number aged entry absent old,
          )
          | inr young ↦ (
            ps,
            rw (load_at env s q j at, ran, young),
            skip k q es ps j at number young entry absent old,
          )
        ]

    -- On a manager whose index is whole, `foreach_expiring` commits no fault of its own: it runs
    -- its callback over a list of pointers, in which each lease that was acquired longer ago than
    -- the timeout stands once, and no other pointer stands.
    pub foreach_expiring-call_all :
        (ps : List Ptr) × ((X : Type 0) (cb : Ptr → X → Run X) (x : X)
          → foreach_expiring env now timeout (some cb) s x ≡ call_all cb ps x)
        × ((p : Ptr) (l : Lease H)
            → s.heap p ≡ some l
            → times p ps ≡ (if is_old now timeout l then 1 else 0))
        × ((p : Ptr) → s.heap p ≡ none → times p ps ≡ 0)
    unfolding foreach_expiring lease_cb
    foreach_expiring-call_all =
        let (ps, ran, old) = expired-Old (uids.entries s.by_uid) (entries-Listed s) in
        (
          ps,
          λ X cb x. rw ran,
          λ p l here.
              old.once p l here
              ∙ rw (← uids.get-entries u32_key-IsLawful s.by_uid l.unique_id, inv.kept p l here),
          old.no_other,
        )
