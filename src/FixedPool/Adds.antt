-- ===== src/FixedPool/Adds.antt =====
-- A table of plugin/src/fixed_pool.c that a sequence of `add` has filled.
use strongswan_plugin_vpn_cu.Base.{
  ℕ, ◌+◌, ◌≡◌, refl, ap, ◌↔◌, ◌∙◌, inl, inr, Bool, true, false, Option, none, some, List, [], ◌∷◌,
  arith, if◌then◌else◌, Bool-cases, Option-cases, Name, streq,
}
use strongswan_plugin_vpn_cu.Env.{Env}
use strongswan_plugin_vpn_cu.FixedPool.{
  FixedPool, lookup, grown, add, count, fixed_pool_create, lookup-create, lookup-add, count-add,
}

abbrev pub mentioned : Name → List Name → Bool
mentioned n [] = false
mentioned n (x ∷ seen) = if streq x n then true else mentioned n seen

module _ (env : Env) where
  open env use {Host as H, clone}

  abbrev pub adds : List (Name × H) → FixedPool env → FixedPool env
  adds [] p = p
  adds ((user, ip) ∷ rest) p = adds rest (add env (some user) (some ip) p).1

  -- A clone of the last address that the list has for the user, or `before` if it has none.
  abbrev pub last_of : Name → List (Name × H) → Option H → Option H
  last_of n [] before = before
  last_of n ((user, ip) ∷ rest) before =
      last_of n rest (if streq user n then some (clone ip) else before)

  -- How many names of the list are not in `seen`, each counted once.
  abbrev pub distinct_names : List Name → List (Name × H) → ℕ
  distinct_names seen [] = 0
  distinct_names seen ((user, ip) ∷ rest) =
      let more = distinct_names (user ∷ seen) rest in if mentioned user seen then more else more + 1

  -- The names of the table are those of the list `seen`.
  abbrev Knows : List Name → FixedPool env → Type 0
  Knows seen p = (n : Name) → (lookup env (some n) p ≡ none) ↔ (mentioned n seen ≡ false)

  add-Knows :
      (seen : List Name) (p : FixedPool env) (user : Name) (ip : H)
      → Knows seen p
      → Knows (user ∷ seen) (add env (some user) (some ip) p).1
  add-Knows seen p user ip k n = ground (arith, lookup-add env user n ip p, k n)

  lookup-adds :
      (xs : List (Name × H)) (p : FixedPool env) (n : Name)
      → lookup env (some n) (adds xs p) ≡ last_of n xs (lookup env (some n) p)
  lookup-adds [] p n = refl
  lookup-adds ((user, ip) ∷ rest) p n =
      rw (lookup-adds rest (add env (some user) (some ip) p).1 n, lookup-add env user n ip p)

  count-adds :
      (seen : List Name) (xs : List (Name × H)) (p : FixedPool env)
      → Knows seen p
      → count env (adds xs p) ≡ count env p + distinct_names seen xs
  unfolding grown
  count-adds seen [] p k = omega arith
  count-adds seen ((user, ip) ∷ rest) p k =
      let q = (add env (some user) (some ip) p).1 in
      count-adds (user ∷ seen) rest q (add-Knows seen p user ip k)
      ∙ rw (count-add env user ip p) (elim (Option-cases (lookup env (some user) p)) [
        | inl e ↦ rw (e, (k user).0 e) (omega arith)
        | inr (old, e) ↦ elim (Bool-cases (mentioned user seen)) [
          | inl known ↦ rw (e, known)
          | inr new ↦ absurd (let e' = (k user).1 new in cc)
        ]
      ])

  -- After any sequence of `add` on a new table, with repetitions or not, `lookup` finds for each user
  -- a clone of the last address that was added for them, and nothing for a user who was not added;
  -- `count` is the number of distinct users.
  pub adds-last_of :
      (xs : List (Name × H))
      → ((n : Name) → lookup env (some n) (adds xs (fixed_pool_create env)) ≡ last_of n xs none)
        × (count env (adds xs (fixed_pool_create env)) ≡ distinct_names [] xs)
  adds-last_of xs = (
    λ n. lookup-adds xs (fixed_pool_create env) n ∙ ap (last_of n xs) (lookup-create env n),
    count-adds [] xs (fixed_pool_create env) (λ n. (λ e. refl, λ e. lookup-create env n))
        ∙ (unfold count fixed_pool_create in omega arith),
  )
