-- ===== src/IpAllocator/Answer.antt =====
-- `acquire_address` of plugin/src/ip_allocator.c as a whole.
use mathlib.Core.Option.{some-injective}
use strongswan_plugin_vpn_cu.Base.{
  ℕ, ◌≡◌, sym, ◌∙◌, ap, ◌⊎◌, inl, inr, true, false, Option, none, some, arith, Option-cases,
  Returns, Name, List,
}
use strongswan_plugin_vpn_cu.Env.{Env, Ptr}
use strongswan_plugin_vpn_cu.IdentityManager.{IkeSa}
use strongswan_plugin_vpn_cu.IpAllocator.{
  IpAllocator, Memory, clone_if, fixed_ip, acquire_locked, acquire_as, acquire_address, lease_name,
  pools_include,
}
use strongswan_plugin_vpn_cu.IpAllocator.Acquire.{
  take_fixed, take_dynamic, Exhausted, Flagged, FromPool,
}
use strongswan_plugin_vpn_cu.IpAllocator.Fixed.{
  IsAnon, Unfixed, fixed_ip-some, fixed_ip-none, fixed_ip-Unfixed,
}
use strongswan_plugin_vpn_cu.PolicyEngine.{lookup_fixed}
use strongswan_plugin_vpn_cu.IpAllocator.Invariant.{IsConsistent}
use strongswan_plugin_vpn_cu.IpAllocator.Served.{IsOwn, Served, reuse-Served}
use strongswan_plugin_vpn_cu.SessionManager.{Lease, lookup_by_user}
use strongswan_plugin_vpn_cu.SessionManager.Tables.{user_of}

module _ (env : Env) where
  open env use {Host as H, lib, clone}

  -- Which address it is.
  pub record Answered (a : IpAllocator env) (mem : Memory) (name : Name) (uid : ℕ)
      (r : Option H × IpAllocator env) : Type 0 where
    pub again :
        (p : Ptr) (l : Lease H) (host : H)
        → user_of env a.sessions name ≡ some p
        → a.sessions.heap p ≡ some l
        → l.ip ≡ some host
        → (r.0 ≡ clone_if env mem.result_ok host) × (r.1.dyn ≡ a.dyn)
    pub fixed :
        (source : H)
        → user_of env a.sessions name ≡ none
        → ¬ IsAnon name
        → lookup_fixed env a.policy (some name) ≡ some source
        → mem.fixed_ok ≡ true
        → (r.0 ≡ clone_if env mem.result_ok (clone source)) × Flagged env r.1.sessions uid true
    pub pooled :
        user_of env a.sessions name ≡ none
        → Unfixed env mem name a.policy
        → (((r.0 ≡ none) × Exhausted env a.dyn) ⊎ FromPool env a.dyn mem.result_ok r.0)
          × Flagged env r.1.sessions uid false
    pub refused :
        mem.result_ok ≡ true
        → r.0 ≡ none
        → (user_of env a.sessions name ≡ none) × Unfixed env mem name a.policy × Exhausted env a.dyn

  module _ (a : IpAllocator env) (c : IsConsistent env a) (now : ℕ) (name : Name) (uid : ℕ)
      (own : IsOwn env a name uid) (mem : Memory) (memory : mem.lease_ok ≡ true) where
    again-Served :
        (p : Ptr)
        → user_of env a.sessions name ≡ some p
        → Returns
            (acquire_locked env mem now name uid (some p) a)
            λ r. Served env a name uid r × Answered a mem name uid r
    unfolding acquire_locked
    again-Served p found =
        let (l, at, named, entry) = c.index.named name p found in
        let (r, ran, (served, copy, same_pool)) =
          reuse-Served env a c mem now name uid own p l found at named entry in
        (
          r,
          ran,
          (
            served,
            record {
              again = λ q k host e f ip.
                  let pq : p ≡ q = ground arith in
                  let lk : l ≡ k = ground arith in
                  (copy host (ap (λ (x : Lease H). x.ip) lk ∙ ip), same_pool);
              fixed = λ source e named' f copied. absurd (cc);
              pooled = λ e without. absurd (cc);
              refused = λ copied e.
                  let (host, ip) = c.addressed l.unique_id l (rw entry at) in
                  absurd (let e' = copy host ip in let e'' = rw copied at e' in cc);
            },
          ),
        )

    -- A copy is there if there was memory for it.
    no_copy :
        (result : Option H) (ip : H)
        → mem.result_ok ≡ true
        → result ≡ none
        → result ≡ clone_if env mem.result_ok ip
        → ⊥
    no_copy result ip copied e copy = let e' = rw copied at copy in cc

    new-Served :
        user_of env a.sessions name ≡ none
        → Returns
            (acquire_locked env mem now name uid none a)
            λ r. Served env a name uid r × Answered a mem name uid r
    unfolding acquire_locked
    new-Served new = elim (Option-cases (fixed_ip env mem name a.policy)) [
      | inl without ↦
          let (r, ran, (served, why, flag)) =
            take_dynamic env a c now name uid own new mem memory a.dyn c.pool in
          (
            r,
            rw without ran,
            (
              served,
              record {
                again = λ q k host e f ip. absurd (cc);
                fixed = λ source e named found copied.
                    absurd (
                      let has = fixed_ip-some env mem name a.policy source named found copied in
                      cc);
                pooled = λ e unfixed. (why, flag);
                refused = λ copied e. (
                  new,
                  fixed_ip-Unfixed env mem name a.policy without,
                  elim why [
                    | inl (_, full) ↦ full
                    | inr (_, _, ip, _, _, copy) ↦ absurd (no_copy r.0 ip copied e copy)
                  ],
                );
              },
            ),
          )
      | inr (ip, has) ↦
          let (r, ran, (served, copy, flag)) =
            take_fixed env a c now name uid own new mem memory ip a.dyn c.pool in
          (
            r,
            rw has ran,
            (
              served,
              record {
                again = λ q k host e f ip. absurd (cc);
                fixed = λ source e named found copied. (
                  copy
                      ∙ ap (clone_if env mem.result_ok) (
                          some-injective ip (clone source) (
                            sym has
                            ∙ fixed_ip-some env mem name a.policy source named found copied)),
                  flag,
                );
                pooled = λ e unfixed.
                    absurd (let none_there = fixed_ip-none env mem name a.policy unfixed in cc);
                refused = λ copied e. absurd (no_copy r.0 ip copied e copy);
              },
            ),
          )
    ]

    -- For a consistent allocator, a list that has its pool, an IKE_SA that gives a name, memory
    -- for a new lease, and a unique id that is free or that of the user's own lease,
    -- `acquire_address` returns without a memory fault, and the allocator stays consistent. Every
    -- other user's lease is as it was. An address that it returns is a copy of the one now leased
    -- to the user under that id. For a user with a lease it is the address of that lease, and the
    -- pool is as it was. For a
    -- user without one whose name does not begin with "anon-", for whom the policy has an address,
    -- and with memory for its clone, it is that address, and the lease is marked as fixed. For any
    -- other user it is the lowest free address of the pool, and the lease is marked as not fixed,
    -- or NULL if there is no pool or every address of it is taken. With memory for the copy it
    -- returns NULL in that last case only.
    pub acquire_address-Served :
        (sa : IkeSa) (pools : Option (List (Option Name))) (requested : Option H)
        → sa.unique_id ≡ uid
        → pools_include a.pool_name pools ≡ true
        → lease_name env mem sa ≡ some name
        → Returns
            (acquire_address env mem now pools (some sa) requested a)
            λ r. Served env a name uid r × Answered a mem name uid r
    unfolding acquire_address acquire_as lookup_by_user
    acquire_address-Served sa pools requested number listed called =
        elim (Option-cases (user_of env a.sessions name)) [
          | inl new ↦ rw (listed, called, number, new) (new-Served new)
          | inr (p, found) ↦ rw (listed, called, number, found) (again-Served p found)
        ]
