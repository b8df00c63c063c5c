-- ===== src/IpAllocator/Rounds.antt =====
-- The calls of `sweep_cb` in a sweep of plugin/src/ip_allocator.c.
use strongswan_plugin_vpn_cu.Base.{
  ℕ, ◌≡◌, refl, sym, ◌∙◌, ap, inl, inr, Bool, true, false, not, ◌&&◌, Option, none, some, List, [],
  ◌∷◌, arith, ◌==◌, if◌then◌else◌, Bool-cases, All, ok, Returns,
}
use strongswan_plugin_vpn_cu.Env.{Env, Ptr}
use strongswan_plugin_vpn_cu.Hashtable.{find, Distinct, u32_key, cupp_u32_eq}
use strongswan_plugin_vpn_cu.IpAllocator.{IpAllocator, sweep_cb, release_by_uid_impl}
use strongswan_plugin_vpn_cu.IpAllocator.Invariant.{IsConsistent, SameConfig}
use strongswan_plugin_vpn_cu.IpAllocator.Release.{release_by_uid_impl-Released, Released}
use strongswan_plugin_vpn_cu.SessionManager.{Lease, expired, call_all, lease_cb}
use strongswan_plugin_vpn_cu.SessionManager.Expire.{is_old}
use strongswan_plugin_vpn_cu.SessionManager.Tables.{S, leases, uid_of, deref, load_at}

-- What a sweep leaves of a lease: a lease that is old goes, unless its IKE_SA is there.
abbrev pub kept : {H : Type 0} → ℕ → ℕ → (ℕ → Bool) → Option (Lease H) → Option (Lease H)
kept now timeout alive none = none
kept now timeout alive (some l) =
    if is_old now timeout l && not (alive l.unique_id) then none else some l

-- One value or the other, as the number is listed or not.
abbrev pub listed : {A : Type 0} → Option Ptr → A → A → A
listed none a b = b
listed (some p) a b = a

module _ (env : Env) where
  open env use {Host as H, uids}

  pub record Swept (a : IpAllocator env) (left : ℕ → Option (Lease H)) (r : IpAllocator env)
      : Type 0 where
    pub consistent : IsConsistent env r
    pub same : SameConfig env a r
    pub view : (v : ℕ) → leases env r.sessions v ≡ left v

  module _ (now timeout : ℕ) (alive : ℕ → Bool) (s : S env) where
    abbrev pub old_at : Option (Lease H) → Bool
    old_at none = false
    old_at (some l) = is_old now timeout l

    -- The pointers that `foreach_expiring` collects.
    abbrev pub olds : List (ℕ × Ptr) → List Ptr
    olds [] = []
    olds ((k, p) ∷ es) = let rest = olds es in if old_at (s.heap p) then p ∷ rest else rest

    -- The entries that are still to come, whose leases are those of the start.
    abbrev pub Ready : IpAllocator env → List (ℕ × Ptr) → Type 0
    Ready a es =
        All
          (λ e.
            (l : Lease H) × (uid_of env a.sessions e.0 ≡ some e.1)
            × (s.heap e.1 ≡ some l)
            × (a.sessions.heap e.1 ≡ some l)
            × (l.unique_id ≡ e.0))
          es

    pub expired-olds :
        (a : IpAllocator env) (es : List (ℕ × Ptr))
        → Ready a es
        → expired env now timeout es s ≡ ok (olds es)
    unfolding expired
    expired-olds a [] all = refl
    expired-olds a ((k, p) ∷ es) ((l, _, at, _, _), all) =
        rw (load_at env s p l at, expired-olds a es all, at)

    -- Releasing another number leaves them so.
    Released-Ready :
        (a : IpAllocator env) (k : ℕ) (r : Bool × IpAllocator env)
        → Released env a k r
        → (es : List (ℕ × Ptr)) → find u32_key k es ≡ none
        → Ready a es
        → Ready r.1 es
    unfolding cupp_u32_eq
    Released-Ready a k r d [] absent all = tt
    Released-Ready a k r d ((v, p) ∷ es) absent ((l, entry, at, here, number), all) =
        elim (Bool-cases (v == k)) [
          | inl same ↦ absurd (let e' = absent in ground arith)
          | inr other ↦
              let still : uid_of env r.1.sessions v ≡ some p = ground (arith, d.entries v) in
              let view : leases env r.1.sessions v ≡ some l = ground (arith, d.view v) in
              (
                (l, still, at, sym (ap (deref r.1.sessions.heap) still) ∙ view, number),
                Released-Ready a k r d es (ground arith) all,
              )
        ]

    sweep_cb_alive :
        (a : IpAllocator env) (p : Ptr) (l : Lease H)
        → a.sessions.heap p ≡ some l
        → alive l.unique_id ≡ true
        → sweep_cb env alive p a ≡ ok a
    unfolding sweep_cb
    sweep_cb_alive a p l here there = rw (load_at env a.sessions p l here, there)

    sweep_cb_gone :
        (a : IpAllocator env) (p : Ptr) (l : Lease H) (r : Bool × IpAllocator env)
        → a.sessions.heap p ≡ some l
        → alive l.unique_id ≡ false
        → release_by_uid_impl env l.unique_id a ≡ ok r
        → sweep_cb env alive p a ≡ ok r.1
    unfolding sweep_cb
    sweep_cb_gone a p l r here gone freed = rw (load_at env a.sessions p l here, gone, freed)

    abbrev pub remains : IpAllocator env → List (ℕ × Ptr) → ℕ → Option (Lease H)
    remains a es v =
        let old = leases env a.sessions v in
        listed (find u32_key v es) (kept now timeout alive old) old

    -- A lease that stays.
    remains_stay :
        (a : IpAllocator env) (k : ℕ) (p : Ptr) (es : List (ℕ × Ptr)) (l : Lease H)
        → leases env a.sessions k ≡ some l
        → kept now timeout alive (some l) ≡ some l
        → find u32_key k es ≡ none
        → (v : ℕ) → remains a es v ≡ remains a ((k, p) ∷ es) v
    unfolding cupp_u32_eq
    remains_stay a k p es l view stays absent v = elim (Bool-cases (k == v)) [
      | inl same ↦
          let kv : k ≡ v = ground arith in
          let here : leases env a.sessions v ≡ some l = rw (← kv) view in
          let gone : find u32_key v es ≡ none = rw (← kv) absent in
          rw (same, gone, here) (sym stays)
      | inr other ↦ rw other
    ]

    -- A lease that goes.
    remains_gone :
        (a b : IpAllocator env) (k : ℕ) (p : Ptr) (es : List (ℕ × Ptr)) (l : Lease H)
        → leases env a.sessions k ≡ some l
        → kept now timeout alive (some l) ≡ none
        → find u32_key k es ≡ none
        → ((v : ℕ) → leases env b.sessions v ≡ (if k == v then none else leases env a.sessions v))
        → (v : ℕ) → remains b es v ≡ remains a ((k, p) ∷ es) v
    unfolding cupp_u32_eq
    remains_gone a b k p es l view goes absent less v = elim (Bool-cases (k == v)) [
      | inl same ↦
          let kv : k ≡ v = ground arith in
          let here : leases env a.sessions v ≡ some l = rw (← kv) view in
          let gone : find u32_key v es ≡ none = rw (← kv) absent in
          rw (less v, same, gone, here) (sym goes)
      | inr other ↦ rw (less v, other)
    ]

    pub call_all-Swept :
        (es : List (ℕ × Ptr)) (a : IpAllocator env)
        → IsConsistent env a
        → Ready a es
        → Distinct u32_key es
        → Returns
            (call_all (lease_cb (some (sweep_cb env alive))) (olds es) a)
            (Swept a (remains a es))
    unfolding call_all lease_cb cupp_u32_eq
    call_all-Swept [] a c all distinct = (
      a,
      refl,
      record {
        consistent = c;
        same = record { policy = refl; pool_name = refl; lease_timeout = refl };
        view = λ v. refl;
      },
    )
    call_all-Swept ((k, p) ∷ es) a c ((l, entry, at, here, number), all) (absent, distinct) =
        let view : leases env a.sessions k ≡ some l = rw entry here in
        elim (Bool-cases (is_old now timeout l)) [
          | inr young ↦
              let (r, ran, w) = call_all-Swept es a c all distinct in
              (
                r,
                rw (at, young) ran,
                record {
                  consistent = w.consistent;
                  same = w.same;
                  view = λ v. w.view v ∙ remains_stay a k p es l view (rw young) absent v;
                },
              )
          | inl aged ↦ elim (Bool-cases (alive l.unique_id)) [
            | inl there ↦
                let (r, ran, w) = call_all-Swept es a c all distinct in
                (
                  r,
                  rw (at, aged, sweep_cb_alive a p l here there) ran,
                  record {
                    consistent = w.consistent;
                    same = w.same;
                    view = λ v. w.view v ∙ remains_stay a k p es l view (rw (aged, there)) absent v;
                  },
                )
            | inr gone ↦
                let (r1, freed, d) = release_by_uid_impl-Released env a c k in
                let own = ap (λ (u : ℕ). release_by_uid_impl env u a) number ∙ freed in
                let (r, ran, w) =
                  call_all-Swept es r1.1 d.consistent (Released-Ready a k r1 d es absent all)
                    distinct in
                (
                  r,
                  rw (at, aged, sweep_cb_gone a p l r1 here gone own) ran,
                  record {
                    consistent = w.consistent;
                    same = record {
                      policy = w.same.policy ∙ d.same.policy;
                      pool_name = w.same.pool_name ∙ d.same.pool_name;
                      lease_timeout = w.same.lease_timeout ∙ d.same.lease_timeout;
                    };
                    view = λ v.
                        w.view v
                        ∙ remains_gone a r1.1 k p es l view (rw (aged, gone)) absent d.view v;
                  },
                )
          ]
        ]
