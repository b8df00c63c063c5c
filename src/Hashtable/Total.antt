-- ===== src/Hashtable/Total.antt =====
-- Sums over the entries of a hash table, and what `put` does to them.
use strongswan_plugin_vpn_cu.Base.{
  ℕ, ◌+◌, ◌≤◌, ◌≡◌, refl, sym, ap, ◌∙◌, inl, inr, Option, none, some, List, [], ◌∷◌, arith,
  Bool-cases,
}
use strongswan_plugin_vpn_cu.Hashtable.{KeyOps, IsLawful, Hashtable, find, Distinct}
use strongswan_plugin_vpn_cu.Hashtable.Assoc.{assoc_remove, find-remove, remove-Distinct}

-- The sum of the weights of the values.
unfoldable pub total : {K V : Type 0} → (V → ℕ) → List (K × V) → ℕ
total w [] = 0
total w ((k, v) ∷ rest) = w v + total w rest

abbrev pub weight_of : {V : Type 0} → (V → ℕ) → Option V → ℕ
weight_of w none = 0
weight_of w (some v) = w v

module _ {K V : Type 0} (ops : KeyOps K) (lawful : IsLawful ops) (w : V → ℕ) where
  -- What stands under a key, and the rest.
  total-remove :
      (t : List (K × V)) (k : K)
      → Distinct ops t
      → total w t ≡ weight_of w (find ops k t) + total w (assoc_remove V ops t k)
  unfolding total assoc_remove
  total-remove [] k d = refl
  total-remove ((j, v) ∷ rest) k (absent, d) =
      let ih = total-remove rest k d in
      elim (Bool-cases (ops.equals j k)) [
        | inl same ↦
            let gone : find ops k rest ≡ none = ground (arith, lawful j k, absent) in
            rw same (ground (arith, ih, gone))
        | inr other ↦ rw other (omega (arith, ih))
      ]

  -- The sum depends on the lookups alone.
  total-find :
      (t u : List (K × V))
      → Distinct ops t
      → Distinct ops u
      → ((k : K) → find ops k t ≡ find ops k u)
      → total w t ≡ total w u
  unfolding total
  total-find [] [] d e same = refl
  total-find [] ((k, v) ∷ rest) d e same = absurd (ground (arith, same k, lawful k k))
  total-find ((k, v) ∷ rest) u (absent, d) e same =
      let there : find ops k u ≡ some v = ground (arith, same k, lawful k k) in
      let ih =
        total-find rest (assoc_remove V ops u k) d (remove-Distinct V ops lawful u k e)
          (λ j. ground (arith, find-remove V ops lawful u k j, same j, lawful k j, absent)) in
      let cut = total-remove u k e in omega (arith, ih, cut, ap (weight_of w) there)

  module _ (T : Hashtable ops V) where
    -- `put` takes the old value off the sum and adds the new one.
    pub total-put :
        (t : T.Table) (k : K) (v : V)
        → total w (T.entries (T.put t k v).1) + weight_of w (T.get t k)
          ≡ total w (T.entries t) + w v
    total-put t k v =
        let before = T.entries t in
        let after = T.entries (T.put t k v).1 in
        let db = T.entries-distinct lawful t in
        let da = T.entries-distinct lawful (T.put t k v).1 in
        let look =
          λ (j : K). sym (T.get-entries lawful (T.put t k v).1 j) ∙ T.get-put lawful t k v j in
        let rest =
          total-find (assoc_remove V ops before k) (assoc_remove V ops after k)
            (remove-Distinct V ops lawful before k db) (remove-Distinct V ops lawful after k da)
            (λ j. ground (
              arith,
              find-remove V ops lawful before k j,
              find-remove V ops lawful after k j,
              look j,
              T.get-entries lawful t j,
            )) in
        let b = total-remove before k db in
        let a = total-remove after k da in
        let new : find ops k after ≡ some v = ground (arith, look k, lawful k k) in
        omega (arith, rest, a, b, ap (weight_of w) new, ap (weight_of w) (T.get-entries lawful t k))

    pub total-create : (n : ℕ) → total w (T.entries (T.hashtable_create n)) ≡ 0
    unfolding total
    total-create n =
        total-find (T.entries (T.hashtable_create n)) [] (T.entries-distinct lawful _) tt
          (λ j. sym (T.get-entries lawful _ j) ∙ T.get-create lawful n j)

    -- The value under a key is part of the sum.
    pub total-get : (t : T.Table) (k : K) → weight_of w (T.get t k) ≤ total w (T.entries t)
    total-get t k = omega (
      arith,
      total-remove (T.entries t) k (T.entries-distinct lawful t),
      ap (weight_of w) (T.get-entries lawful t k),
    )
