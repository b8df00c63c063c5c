-- ===== src/SessionManager/Destroy.antt =====
-- `session_manager_destroy` of plugin/src/session_manager.c.
use strongswan_plugin_vpn_cu.Base.{
  ℕ, ◌≡◌, ◌≢◌, refl, sym, ◌∙◌, inl, inr, Option, none, some, List, [], ◌∷◌, arith, ◌==◌, Bool-cases,
  Option-cases, All, Returns,
}
use strongswan_plugin_vpn_cu.Env.{Env, Ptr}
use strongswan_plugin_vpn_cu.Hashtable.{find, Distinct, u32_key, u32_key-IsLawful, cupp_u32_eq}
use strongswan_plugin_vpn_cu.SessionManager.{
  Lease, update, lease_destroy, destroy_all, session_manager_destroy,
}
use strongswan_plugin_vpn_cu.SessionManager.Expire.{entries-Listed}
use strongswan_plugin_vpn_cu.SessionManager.Tables.{S, Inv, uid_of, load_at}

module _ (env : Env) where
  open env use {Host as H, uids}

  -- The leases of the entries are on the heap, each under its own number.
  abbrev Stored : (Ptr → Option (Lease H)) → List (ℕ × Ptr) → Type 0
  Stored heap es = All (λ e. (l : Lease H) × (heap e.1 ≡ some l) × (l.unique_id ≡ e.0)) es

  -- What is left on the heap once the leases of the entries are freed.
  Left : (Ptr → Option (Lease H)) → List (ℕ × Ptr) → (Ptr → Option (Lease H)) → Type 0
  Left heap es after =
      (p : Ptr) (l : Lease H)
      → after p ≡ some l
      → (heap p ≡ some l) × (find u32_key l.unique_id es ≢ some p)

  still-Stored :
      (heap : Ptr → Option (Lease H)) (k : ℕ) (q : Ptr) (j : Lease H) (es : List (ℕ × Ptr))
      → heap q ≡ some j
      → j.unique_id ≡ k
      → find u32_key k es ≡ none
      → Stored heap es
      → Stored (update heap q none) es
  unfolding cupp_u32_eq
  still-Stored heap k q j [] at number absent all = tt
  still-Stored heap k q j ((v, p) ∷ es) at number absent ((l, here, own), all) =
      elim (Bool-cases (v == k)) [
        | inl same ↦ absurd (let e' = absent in ground arith)
        | inr other ↦
            ((l, ground arith, own), still-Stored heap k q j es at number (ground arith) all)
      ]

  stored :
      (s : S env)
      → Inv env s
      → (es : List (ℕ × Ptr)) → All (λ e. uid_of env s e.0 ≡ some e.1) es
      → Stored s.heap es
  stored s inv [] all = tt
  stored s inv ((k, p) ∷ es) (entry, all) =
      let (l, at, number, _) = inv.numbered k p entry in ((l, at, number), stored s inv es all)

  destroy_all-Left :
      (es : List (ℕ × Ptr)) (s : S env)
      → Stored s.heap es
      → Distinct u32_key es
      → Returns (destroy_all env es s) (λ t. Left s.heap es t.heap)
  unfolding destroy_all lease_destroy Left cupp_u32_eq
  destroy_all-Left [] s all distinct = (s, refl, λ p l e. (e, λ f. cc))
  destroy_all-Left ((k, q) ∷ es) s ((j, at, number), all) (absent, distinct) =
      let s' : S env = record s { heap = update s.heap q none } in
      let (t, ran, left) =
        destroy_all-Left es s' (still-Stored s.heap k q j es at number absent all) distinct in
      (
        t,
        rw (load_at env s q j at) ran,
        λ p l e.
            let (here, gone) = left p l e in
            elim (Bool-cases (q == p)) [
              | inl same ↦ absurd (ground arith)
              | inr other ↦ (
                ground arith,
                elim (Bool-cases (k == l.unique_id)) [
                  | inl mine ↦ rw mine (λ f. ground arith)
                  | inr not_mine ↦ rw not_mine gone
                ],
              )
            ],
      )

  -- On a manager whose index is whole `session_manager_destroy` commits no fault, so it frees no
  -- lease twice, and leaves no lease on the heap.
  pub session_manager_destroy-freed :
      (s : S env)
      → Inv env s
      → Returns (session_manager_destroy env s) (λ t. (p : Ptr) → t.heap p ≡ none)
  unfolding session_manager_destroy Left
  session_manager_destroy-freed s inv =
      let (all, distinct) = entries-Listed env s in
      let (t, ran, left) =
        destroy_all-Left (uids.entries s.by_uid) s (stored s inv _ all) distinct in
      (
        t,
        ran,
        λ p. elim (Option-cases (t.heap p)) [
          | inl gone ↦ gone
          | inr (l, e) ↦
              let (here, not_listed) = left p l e in
              absurd (
                not_listed (
                  sym (uids.get-entries u32_key-IsLawful s.by_uid l.unique_id) ∙ inv.kept p l here))
        ],
      )
