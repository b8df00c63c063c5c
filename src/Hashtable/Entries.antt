-- ===== src/Hashtable/Entries.antt =====
-- What an enumeration of a hash table yields.
use strongswan_plugin_vpn_cu.Base.{
  ◌≡◌, inl, inr, Option, some, List, [], ◌∷◌, arith, Bool-cases, All,
}
use strongswan_plugin_vpn_cu.Hashtable.{KeyOps, IsLawful, find, Distinct}

module _ {K V : Type 0} (ops : KeyOps K) (lawful : IsLawful ops) where
  -- Every pair of a list without a key twice is found under its key.
  pub find-All :
      (t : List (K × V)) (f : K → Option V)
      → ((k : K) (v : V) → find ops k t ≡ some v → f k ≡ some v)
      → Distinct ops t
      → All (λ e. f e.0 ≡ some e.1) t
  find-All [] f agrees d = tt
  find-All ((k, v) ∷ rest) f agrees d = (
    agrees k v (ground (arith, lawful k k)),
    find-All rest f
        (λ j w e. elim (Bool-cases (ops.equals k j)) [
          | inl same ↦ absurd (ground (arith, lawful k j, d.0))
          | inr other ↦ agrees j w (rw other e)
        ])
        d.1,
  )
