-- ===== src/SessionManager/Links.antt =====
-- The two tables of plugin/src/session_manager.c and the leases they point to, as functions: what
-- makes them one index, and the three changes that the operations make.
use strongswan_plugin_vpn_cu.Base.{
  ℕ, suc, ◌<◌, ◌≡◌, inl, inr, false, Option, none, some, arith, ◌==◌, if◌then◌else◌, Bool-cases,
  Name, streq, streq_refl, streq-eq,
}
use strongswan_plugin_vpn_cu.Env.{Ptr}
use strongswan_plugin_vpn_cu.SessionManager.{Lease, update}

module _ {H : Type 0} where
  -- Every entry of a table points to a lease of that key which the other table has too; every lease
  -- on the heap is in the tables and below the next free address.
  pub record IsLinked (heap : Ptr → Option (Lease H)) (brk : Ptr) (by_uid : ℕ → Option Ptr)
      (by_user : Name → Option Ptr) : Type 0 where
    pub named :
        (n : Name) (p : Ptr)
        → by_user n ≡ some p
        → (l : Lease H) × (heap p ≡ some l) × (l.username ≡ n) × (by_uid l.unique_id ≡ some p)
    pub numbered :
        (u : ℕ) (p : Ptr)
        → by_uid u ≡ some p
        → (l : Lease H) × (heap p ≡ some l) × (l.unique_id ≡ u) × (by_user l.username ≡ some p)
    pub bounded : (p : Ptr) (l : Lease H) → heap p ≡ some l → p < brk
    pub kept : (p : Ptr) (l : Lease H) → heap p ≡ some l → by_uid l.unique_id ≡ some p

  module _ {heap : Ptr → Option (Lease H)} {brk : Ptr} {by_uid : ℕ → Option Ptr}
      {by_user : Name → Option Ptr} (linked : IsLinked heap brk by_uid by_user) where
    open linked use {named, numbered, bounded, kept}

    -- A new lease under a number and a name that are free.
    module _ (l : Lease H) (new_uid : by_uid l.unique_id ≡ none)
        (new_name : by_user l.username ≡ none) where
      pub add-IsLinked :
          IsLinked
            (update heap brk (some l))
            (suc brk)
            (λ v. if l.unique_id == v then some brk else by_uid v)
            (λ m. if streq l.username m then some brk else by_user m)
      add-IsLinked = record {
        named = λ n p e. elim (Bool-cases (streq l.username n)) [
          | inl same ↦ (l, ground arith, streq-eq _ _ same, ground arith)
          | inr other ↦
              let (k, at, name, uid) = named n p (rw other at e) in
              (k, ground (arith, bounded p k at), name, ground arith)
        ];
        numbered = λ u p e. elim (Bool-cases (l.unique_id == u)) [
          | inl same ↦ (l, ground arith, ground arith, ground (arith, streq_refl l.username))
          | inr other ↦
              let (k, at, uid, name) = numbered u p (rw other at e) in
              (
                k,
                ground (arith, bounded p k at),
                uid,
                ground (arith, streq-eq l.username k.username),
              )
        ];
        bounded = λ p k e. ground (arith, bounded p k);
        kept = λ p k e. ground (arith, bounded p k, kept p k);
      }

    module _ (p : Ptr) (l : Lease H) (at : heap p ≡ some l) where
      named_at : by_user l.username ≡ some p
      named_at = let (k, here, _, name) = numbered l.unique_id p (kept p l at) in ground arith

      -- A lease that leaves the tables and is freed.
      pub drop-IsLinked :
          IsLinked
            (update heap p none)
            brk
            (λ v. if l.unique_id == v then none else by_uid v)
            (λ m. if streq l.username m then none else by_user m)
      drop-IsLinked = record {
        named = λ n q e. elim (Bool-cases (streq l.username n)) [
          | inl same ↦ absurd (let e' = rw same at e in cc)
          | inr other ↦
              let (k, here, name, uid) = named n q (rw other at e) in
              let apart : (p == q) ≡ false = ground (arith, streq_refl n) in
              (k, rw apart here, name, ground (arith, kept p l at))
        ];
        numbered = λ u q e. elim (Bool-cases (l.unique_id == u)) [
          | inl same ↦ absurd (let e' = rw same at e in cc)
          | inr other ↦
              let (k, here, uid, name) = numbered u q (rw other at e) in
              let apart : (p == q) ≡ false = ground arith in
              (k, rw apart here, uid, ground (arith, streq-eq l.username k.username, named_at))
        ];
        bounded = λ q k e. ground (arith, bounded q k);
        kept = λ q k e. ground (arith, kept q k, kept p l at);
      }

      -- A lease that gets another number, which is free or its own.
      pub move-IsLinked :
          (new now : ℕ)
          → ((q : Ptr) → by_uid new ≡ some q → q ≡ p)
          → IsLinked
              (update heap p (some (record l { unique_id = new; acquired = now })))
              brk
              (λ v. if new == v then some p else (if l.unique_id == v then none else by_uid v))
              by_user
      move-IsLinked new now free = record {
        named = λ n q e. elim (Bool-cases (p == q)) [
          | inl same ↦
              let (k, here, name, uid) = named n q e in
              (record l { unique_id = new; acquired = now }, rw same, ground arith, ground arith)
          | inr other ↦
              let (k, here, name, uid) = named n q e in
              (k, rw other here, name, ground (arith, free q, kept p l at))
        ];
        numbered = λ u q e. elim (Bool-cases (new == u)) [
          | inl same ↦ (
            record l { unique_id = new; acquired = now },
            ground arith,
            ground arith,
            ground (arith, named_at),
          )
          | inr other ↦
              let (k, here, uid, name) = numbered u q (ground arith) in (k, ground arith, uid, name)
        ];
        bounded = λ q k e. ground (arith, bounded q k, bounded p l);
        kept = λ q k e. ground (arith, kept q k, kept p l at, free q);
      }
