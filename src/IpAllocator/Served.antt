-- ===== src/IpAllocator/Served.antt =====
-- What `acquire_address` of plugin/src/ip_allocator.c leaves behind, and a user who has a lease.
use mathlib.Core.Option.{some-injective}
use strongswan_plugin_vpn_cu.Base.{
  ℕ, ◌≡◌, ◌≢◌, refl, sym, ◌∙◌, ap, ◌⊎◌, inl, inr, Bool, true, false, Option, none, some, arith,
  ◌==◌, Bool-cases, Option-cases, Returns, Name,
}
use strongswan_plugin_vpn_cu.DynamicPool.{DynamicPool}
use strongswan_plugin_vpn_cu.Env.{Env, Ptr}
use strongswan_plugin_vpn_cu.IpAllocator.{IpAllocator, Memory, reuse, clone_if}
use strongswan_plugin_vpn_cu.IpAllocator.Invariant.{IsConsistent, SameConfig, PoolMatches}
use strongswan_plugin_vpn_cu.IpAllocator.Match.{View}
use strongswan_plugin_vpn_cu.IpAllocator.Moving.{move_lease}
use strongswan_plugin_vpn_cu.SessionManager.{Lease}
use strongswan_plugin_vpn_cu.SessionManager.Migrate.{Migrated, migrate-Migrated}
use strongswan_plugin_vpn_cu.SessionManager.Tables.{S, leases, uid_of, user_of, load_at}

module _ (env : Env) where
  open env use {Host as H, lib, clone}

  -- The number `uid` has a lease already only if that is the lease of the user `name`.
  abbrev pub IsOwn : IpAllocator env → Name → ℕ → Type 0
  IsOwn a name uid =
      (q : Ptr) → uid_of env a.sessions uid ≡ some q → user_of env a.sessions name ≡ some q

  -- The host `h` is a copy of the address that the user `name` now has leased under `uid`.
  pub record Leased (a : IpAllocator env) (name : Name) (uid : ℕ) (h : H) : Type 0 where
    pub lease : Lease H
    pub host : H
    pub at : leases env a.sessions uid ≡ some lease
    pub user : lease.username ≡ name
    pub ip : lease.ip ≡ some host
    pub copy : h ≡ clone host

  pub record Served (a : IpAllocator env) (name : Name) (uid : ℕ) (r : Option H × IpAllocator env)
      : Type 0 where
    pub consistent : IsConsistent env r.1
    pub same : SameConfig env a r.1
    pub leased : (h : H) → r.0 ≡ some h → Leased r.1 name uid h
    pub others :
        (v : ℕ) (k : Lease H)
        → leases env a.sessions v ≡ some k
        → k.username ≢ name
        → leases env r.1.sessions v ≡ some k
    pub source :
        (v : ℕ) (k : Lease H)
        → leases env r.1.sessions v ≡ some k
        → (leases env a.sessions v ≡ some k) ⊎ ((v ≡ uid) × (k.username ≡ name))

  pub clone_if-some : (b : Bool) (host h : H) → clone_if env b host ≡ some h → h ≡ clone host
  clone_if-some true host h e = ground arith
  clone_if-some false host h e = cc

  module _ (a : IpAllocator env) (c : IsConsistent env a) (mem : Memory) (now : ℕ) (name : Name)
      (uid : ℕ) (own : IsOwn a name uid) (p : Ptr) (l : Lease H)
      (found : user_of env a.sessions name ≡ some p) (at : a.sessions.heap p ≡ some l)
      (named : l.username ≡ name) (entry : uid_of env a.sessions l.unique_id ≡ some p) where
    abbrev L : View lib
    L = leases env a.sessions

    old_view : L l.unique_id ≡ some l
    old_view = rw entry at

    own_number : (q : Ptr) → uid_of env a.sessions uid ≡ some q → q ≡ p
    own_number q e = let f = own q e in ground arith

    -- A lease under the number `uid` is that of the user.
    own_lease : (k : Lease H) → L uid ≡ some k → (k ≡ l) × (uid ≡ l.unique_id)
    own_lease k e = elim (Option-cases (uid_of env a.sessions uid)) [
      | inl none_there ↦ absurd (let e' = rw none_there at e in cc)
      | inr (q, there) ↦
          let qp = own_number q there in
          let (j, here, number, _) = c.index.numbered uid q there in
          let e' = rw there at e in
          let jl : j ≡ l = cc in (cc, sym number ∙ ap (λ (x : Lease H). x.unique_id) jl)
    ]

    kept_pool :
        (t : S env)
        → Migrated env a.sessions l uid now p t
        → (dyn : Option (DynamicPool H)) → PoolMatches env dyn L
        → PoolMatches env dyn (leases env t)
    kept_pool t mg none all =
        λ v k e. ground (arith, mg.view v, all l.unique_id l old_view, all v k)
    kept_pool t mg (some pool) m =
        move_lease lib pool L m l.unique_id uid l (record l { unique_id = uid; acquired = now }) _
          old_view refl refl (λ k e. (own_lease k e).1) mg.view

    kept_address :
        (t : S env)
        → Migrated env a.sessions l uid now p t
        → (v : ℕ) (k : Lease H) → leases env t v ≡ some k
        → (h : H) × (k.ip ≡ some h)
    kept_address t mg v k e = elim (Bool-cases (uid == v)) [
      | inl same ↦
          let kl : k ≡ record l { unique_id = uid; acquired = now } = ground (arith, mg.view v) in
          let (host, ip) = c.addressed l.unique_id l old_view in (host, rw kl ip)
      | inr other ↦ c.addressed v k (ground (arith, mg.view v))
    ]

    kept_others :
        (t : S env)
        → Migrated env a.sessions l uid now p t
        → (v : ℕ) (k : Lease H) → L v ≡ some k
        → k.username ≢ name
        → leases env t v ≡ some k
    kept_others t mg v k e ne = elim (Bool-cases (uid == v)) [
      | inl same ↦
          let uv : uid ≡ v = ground arith in
          let kl = (own_lease k (rw (← uv) at e)).0 in
          absurd (ne (ap (λ (x : Lease H). x.username) kl ∙ named))
      | inr other ↦ elim (Bool-cases (l.unique_id == v)) [
        | inl old ↦
            let uv : l.unique_id ≡ v = ground arith in
            let kl : k ≡ l = some-injective k l (sym (rw (← uv) at e) ∙ old_view) in
            absurd (ne (ap (λ (x : Lease H). x.username) kl ∙ named))
        | inr rest ↦ mg.view v ∙ rw (other, rest) e
      ]
    ]

    kept_source :
        (t : S env)
        → Migrated env a.sessions l uid now p t
        → (v : ℕ) (k : Lease H) → leases env t v ≡ some k
        → (L v ≡ some k) ⊎ ((v ≡ uid) × (k.username ≡ name))
    kept_source t mg v k e = elim (Bool-cases (uid == v)) [
      | inl same ↦
          let kl : k ≡ record l { unique_id = uid; acquired = now } = ground (arith, mg.view v) in
          inr (ground arith, ap (λ (x : Lease H). x.username) kl ∙ named)
      | inr other ↦ inl (ground (arith, mg.view v))
    ]

    -- The address of a user who has a lease is handed out again, and the lease moves to `uid`.
    pub reuse-Served : Returns (reuse env mem now name uid p a) λ r.
        Served a name uid r
        × ((host : H) → l.ip ≡ some host → r.0 ≡ clone_if env mem.result_ok host)
        × (r.1.dyn ≡ a.dyn)
    unfolding reuse
    reuse-Served =
        let (r, moved, res) =
          migrate-Migrated env a.sessions c.index now name uid p l found at own_number in
        let mg = res.1 in
        let (host, ip) = c.addressed l.unique_id l old_view in
        (
          (clone_if env mem.result_ok host, record a { sessions = r.1 }),
          rw (moved, load_at env r.1 p _ mg.at, ip),
          (
            record {
              consistent = record {
                index = mg.valid;
                addressed = kept_address r.1 mg;
                pool = kept_pool r.1 mg a.dyn c.pool;
              };
              same = record { policy = refl; pool_name = refl; lease_timeout = refl };
              leased = λ h e. record {
                lease = record l { unique_id = uid; acquired = now };
                host = host;
                at = ground (arith, mg.view uid);
                user = named;
                ip = ip;
                copy = clone_if-some mem.result_ok host h e;
              };
              others = kept_others r.1 mg;
              source = kept_source r.1 mg;
            },
            λ other e. ap (clone_if env mem.result_ok) (some-injective host other (sym ip ∙ e)),
            refl,
          ),
        )
