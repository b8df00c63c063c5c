-- ===== src/IpAllocator/Acquire.antt =====
-- `acquire_address` of plugin/src/ip_allocator.c for a user without a lease.
use mathlib.Core.Option.{some-injective}
use strongswan_plugin_vpn_cu.Base.{
  ℕ, ◌≡◌, refl, sym, ◌∙◌, ap, ◌⊎◌, inl, inr, Bool, true, false, Option, none, some, arith, ◌==◌,
  if◌then◌else◌, Bool-cases, Option-cases, ok, ◌>>=◌, Returns, Name,
}
use strongswan_plugin_vpn_cu.DynamicPool.{DynamicPool}
use strongswan_plugin_vpn_cu.DynamicPool.Acquire.{acquire-Acquired, IsFull, Grants}
use strongswan_plugin_vpn_cu.Env.{Env, Ptr}
use strongswan_plugin_vpn_cu.IpAllocator.{IpAllocator, Memory, clone_if, choose_ip, bind_new}
use strongswan_plugin_vpn_cu.IpAllocator.Invariant.{IsConsistent, PoolMatches}
use strongswan_plugin_vpn_cu.IpAllocator.Match.{View, add_fixed}
use strongswan_plugin_vpn_cu.IpAllocator.Release.{release_by_uid_impl-Released}
use strongswan_plugin_vpn_cu.IpAllocator.Served.{IsOwn, Served}
use strongswan_plugin_vpn_cu.IpAllocator.Traffic.{add_dynamic}
use strongswan_plugin_vpn_cu.SessionManager.{Lease}
use strongswan_plugin_vpn_cu.SessionManager.Bind.{Bound, bind_lease-Bound}
use strongswan_plugin_vpn_cu.SessionManager.Tables.{load_at, S, leases, uid_of, user_of}

module _ (env : Env) where
  open env use {Host as H, lib, clone}

  -- There is no pool, or all of it is taken.
  abbrev pub Exhausted : Option (DynamicPool H) → Type 0
  Exhausted none = Unit
  Exhausted (some pool) = IsFull lib pool

  -- If a lease is left under the number, it has the flag.
  abbrev pub Flagged : S env → ℕ → Bool → Type 0
  Flagged t uid fixed = (l : Lease H) → leases env t uid ≡ some l → l.fixed ≡ fixed

  -- The result is a copy of the lowest free address of the pool.
  abbrev pub FromPool : Option (DynamicPool H) → Bool → Option H → Type 0
  FromPool dyn copied result =
      (pool : DynamicPool H) × (q : DynamicPool H) × (ip : H) × (dyn ≡ some pool)
      × Grants lib pool ip q
      × (result ≡ clone_if env copied ip)

  module _ (a : IpAllocator env) (c : IsConsistent env a) (now : ℕ) (name : Name) (uid : ℕ)
      (own : IsOwn env a name uid) (new : user_of env a.sessions name ≡ none) where
    abbrev L : View lib
    L = leases env a.sessions

    no_uid : uid_of env a.sessions uid ≡ none
    no_uid = elim (Option-cases (uid_of env a.sessions uid)) [
      | inl e ↦ e
      | inr (q, e) ↦ absurd (let e' = own q e in cc)
    ]

    no_lease : L uid ≡ none
    no_lease = rw no_uid

    -- The lease that is made.
    abbrev made : H → Bool → Lease H
    made ip fixed = record {
      username = name;
      unique_id = uid;
      ip = some ip;
      fixed = fixed;
      acquired = now;
    }

    module _ (ip : H) (fixed : Bool) (dyn : Option (DynamicPool H)) where
      abbrev bound_state : S env → IpAllocator env
      bound_state t = record a { dyn = dyn; sessions = t }

      made_state-IsConsistent :
          (t : S env)
          → Bound env a.sessions (made ip fixed) a.sessions.brk t
          → PoolMatches env dyn (leases env t)
          → IsConsistent env (bound_state t)
      made_state-IsConsistent t b pool = record {
        index = b.valid;
        addressed = λ v k e. elim (Bool-cases (uid == v)) [
          | inl same ↦ let kl : k ≡ made ip fixed = ground (arith, b.view v) in (ip, rw kl)
          | inr other ↦ c.addressed v k (ground (arith, b.view v))
        ];
        pool = pool;
      }

      older :
          (t : S env)
          → Bound env a.sessions (made ip fixed) a.sessions.brk t
          → (v : ℕ) (k : Lease H) → L v ≡ some k
          → (leases env t v ≡ some k) × ((uid == v) ≡ false)
      older t b v k e = elim (Bool-cases (uid == v)) [
        | inl same ↦
            let uv : uid ≡ v = ground arith in
            absurd (let e' = rw (← uv) at e in let e'' = no_lease in cc)
        | inr other ↦ (b.view v ∙ rw other e, other)
      ]

      newer :
          (t : S env)
          → Bound env a.sessions (made ip fixed) a.sessions.brk t
          → (v : ℕ) (k : Lease H) → leases env t v ≡ some k
          → (L v ≡ some k) ⊎ ((v ≡ uid) × (k.username ≡ name))
      newer t b v k e = elim (Bool-cases (uid == v)) [
        | inl same ↦
            let kl : k ≡ made ip fixed = ground (arith, b.view v) in
            inr (ground arith, ap (λ (x : Lease H). x.username) kl)
        | inr other ↦ inl (ground (arith, b.view v))
      ]

      new_flag :
          (t : S env) → Bound env a.sessions (made ip fixed) a.sessions.brk t → Flagged t uid fixed
      new_flag t b l e =
          let kl : l ≡ made ip fixed = ground (arith, b.view uid) in
          ap (λ (x : Lease H). x.fixed) kl

      bind_new-Served :
          (mem : Memory)
          → mem.lease_ok ≡ true
          → ((L' : View lib)
              → ((v : ℕ) → L' v ≡ (if uid == v then some (made ip fixed) else L v))
              → PoolMatches env dyn L')
          → Returns (bind_new env mem now name uid (some ip, fixed, dyn) a) λ r.
            Served env a name uid r
            × (r.0 ≡ clone_if env mem.result_ok ip)
            × Flagged r.1.sessions uid fixed
      unfolding bind_new
      bind_new-Served mem memory matches =
          let (r, ran, res) =
            bind_lease-Bound env a.sessions c.index now name uid (some ip) fixed no_uid new in
          let b = res.1 in
          let t = r.1 in
          let loaded = load_at env t a.sessions.brk (made ip fixed) b.at in
          let bound = ran ∙ ap (λ (x : Option Ptr). ok (x, t)) res.0 in
          let good = made_state-IsConsistent t b (matches (leases env t) b.view) in
          elim (Bool-cases mem.result_ok) [
            | inl copied ↦ (
              (some (clone ip), bound_state t),
              rw (memory, bound, loaded, copied),
              (
                record {
                  consistent = good;
                  same = record { policy = refl; pool_name = refl; lease_timeout = refl };
                  leased = λ h e. record {
                    lease = made ip fixed;
                    host = ip;
                    at = ground (arith, b.view uid);
                    user = refl;
                    ip = refl;
                    copy = sym (some-injective (clone ip) h e);
                  };
                  others = λ v k e ne. (older t b v k e).0;
                  source = newer t b;
                },
                rw copied,
                λ l e. new_flag t b l e,
              ),
            )
            | inr failed ↦
                let (r', gone, d) = release_by_uid_impl-Released env (bound_state t) good uid in
                (
                  (none, r'.1),
                  rw (memory, bound, loaded, failed, gone),
                  (
                    record {
                      consistent = d.consistent;
                      same = record {
                        policy = d.same.policy;
                        pool_name = d.same.pool_name;
                        lease_timeout = d.same.lease_timeout;
                      };
                      leased = λ h e. absurd (cc);
                      others =
                          λ v k e ne. let (kept, ne') = older t b v k e in d.view v ∙ rw ne' kept;
                      source = λ v k e. newer t b v k (ground (arith, d.view v));
                    },
                    rw failed,
                    λ l e. absurd (let e' = d.view uid in ground arith),
                  ),
                )
          ]

    -- The user has a fixed address.
    pub take_fixed :
        (mem : Memory)
        → mem.lease_ok ≡ true
        → (ip : H) (dyn : Option (DynamicPool H)) → PoolMatches env dyn L
        → Returns
            (choose_ip env (some ip) dyn >>= λ chosen. bind_new env mem now name uid chosen a)
            (λ r.
              Served env a name uid r
              × (r.0 ≡ clone_if env mem.result_ok ip)
              × Flagged r.1.sessions uid true)
    unfolding choose_ip
    take_fixed mem memory ip none all =
        bind_new-Served ip true none mem memory (λ L' e v k h. ground (arith, e v, all v k))
    take_fixed mem memory ip (some p) m =
        bind_new-Served ip true (some p) mem memory
          (λ L' e. add_fixed lib p L m uid (made ip true) L' no_lease refl e)

    no_flag : Flagged a.sessions uid false
    no_flag l e = absurd (let e' = no_lease in cc)

    no_address :
        (dyn : Option (DynamicPool H))
        → PoolMatches env dyn L
        → Served env a name uid (none, record a { dyn = dyn })
    no_address dyn pool = record {
      consistent = record { index = c.index; addressed = c.addressed; pool = pool };
      same = record { policy = refl; pool_name = refl; lease_timeout = refl };
      leased = λ h e. absurd (cc);
      others = λ v k e ne. e;
      source = λ v k e. inl e;
    }

    pub take_dynamic :
        (mem : Memory)
        → mem.lease_ok ≡ true
        → (dyn : Option (DynamicPool H)) → PoolMatches env dyn L
        → Returns
            (choose_ip env none dyn >>= λ chosen. bind_new env mem now name uid chosen a)
            (λ r.
              Served env a name uid r
              × (((r.0 ≡ none) × Exhausted dyn) ⊎ FromPool dyn mem.result_ok r.0)
              × Flagged r.1.sessions uid false)
    unfolding choose_ip bind_new
    take_dynamic mem memory none all = (_, refl, (no_address none all, inl (refl, tt), no_flag))
    take_dynamic mem memory (some p) m =
        let (r, ran, res) = acquire-Acquired lib p m.valid in
        elim res [
          | inl (full, e, same) ↦
              (_, rw (ran, e), (no_address (some r.1) (rw same m), inl (refl, full), no_flag))
          | inr (h, e, g) ↦
              let (r', bound, (served, copy, flag)) =
                bind_new-Served h false (some r.1) mem memory (λ L' f.
                  add_dynamic lib p L m uid (made h false) L' refl h r.1 no_lease refl g f) in
              (r', rw (ran, e) bound, (served, inr (p, r.1, h, refl, g, copy), flag))
        ]
