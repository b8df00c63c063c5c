-- ===== src/IpAllocator/Fixed.antt =====
-- Which users of plugin/src/ip_allocator.c get the address that the policy has for them.
use strongswan_plugin_vpn_cu.Base.{
  ◌≡◌, ◌⊎◌, inl, inr, refl, true, false, none, some, arith, ◌++◌, ◌∷◌, [], Bool-cases, Option-cases,
  Name, starts_with,
}
use strongswan_plugin_vpn_cu.Env.{Env}
use strongswan_plugin_vpn_cu.IpAllocator.{Memory, anon_prefix, fixed_ip}
use strongswan_plugin_vpn_cu.PolicyEngine
use strongswan_plugin_vpn_cu.PolicyEngine.{PolicyEngine}

-- The name begins as the names that the allocator gives to peers without one.
abbrev pub IsAnon : Name → Type 0
IsAnon name = (rest : Name) × (name ≡ anon_prefix ++ rest)

starts_with-split : (s p : Name) → starts_with s p ≡ true → (rest : Name) × (s ≡ p ++ rest)
unfolding starts_with
starts_with-split s [] h = (s, refl)
starts_with-split [] (c ∷ cs) h = absurd (cc)
starts_with-split (x ∷ xs) (c ∷ cs) h =
    let (rest, e) = starts_with-split xs cs (ground arith) in (rest, ground arith)

starts_with-append : (p rest : Name) → starts_with (p ++ rest) p ≡ true
unfolding starts_with
starts_with-append [] rest = refl
starts_with-append (c ∷ cs) rest = ground (arith, starts_with-append cs rest)

starts_with_not : (name : Name) → ¬ IsAnon name → starts_with name anon_prefix ≡ false
starts_with_not name named = elim (Bool-cases (starts_with name anon_prefix)) [
  | inl e ↦ absurd (named (starts_with-split name anon_prefix e))
  | inr e ↦ e
]

module _ (env : Env) where
  open env use {Host as H, clone}

  -- The user gets no fixed address: the name begins with "anon-", the policy has no address for it,
  -- or there is no memory for the copy of that address.
  abbrev pub Unfixed : Memory → Name → PolicyEngine env → Type 0
  Unfixed mem name policy =
      IsAnon name
      ⊎ ((PolicyEngine.lookup_fixed env policy (some name) ≡ none) ⊎ (mem.fixed_ok ≡ false))

  module _ (mem : Memory) (name : Name) (policy : PolicyEngine env) where
    pub fixed_ip-some :
        (source : H)
        → ¬ IsAnon name
        → PolicyEngine.lookup_fixed env policy (some name) ≡ some source
        → mem.fixed_ok ≡ true
        → fixed_ip env mem name policy ≡ some (clone source)
    fixed_ip-some source named found copied = rw (starts_with_not name named, found, copied)

    pub fixed_ip-none : Unfixed mem name policy → fixed_ip env mem name policy ≡ none
    fixed_ip-none (inl (rest, e)) = rw (e, starts_with-append anon_prefix rest)
    fixed_ip-none (inr (inl e)) = elim (Bool-cases (starts_with name anon_prefix)) [
      | inl anon ↦ rw anon
      | inr named ↦ rw (named, e)
    ]
    fixed_ip-none (inr (inr e)) = elim (Bool-cases (starts_with name anon_prefix)) [
      | inl anon ↦ rw anon
      | inr named ↦ elim (Option-cases (PolicyEngine.lookup_fixed env policy (some name))) [
        | inl without ↦ rw (named, without)
        | inr (source, found) ↦ rw (named, found, e)
      ]
    ]

    -- Without a fixed address it is for one of the three reasons.
    pub fixed_ip-Unfixed : fixed_ip env mem name policy ≡ none → Unfixed mem name policy
    fixed_ip-Unfixed without = elim (Bool-cases (starts_with name anon_prefix)) [
      | inl anon ↦ inl (starts_with-split name anon_prefix anon)
      | inr named ↦ elim (Option-cases (PolicyEngine.lookup_fixed env policy (some name))) [
        | inl e ↦ inr (inl e)
        | inr (source, found) ↦ elim (Bool-cases mem.fixed_ok) [
          | inr broke ↦ inr (inr broke)
          | inl copied ↦ absurd (let e = rw (named, found, copied) at without in cc)
        ]
      ]
    ]
