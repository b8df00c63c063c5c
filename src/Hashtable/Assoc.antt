-- ===== src/Hashtable/Assoc.antt =====
-- A table that meets the interface: a list of pairs.
use strongswan_plugin_vpn_cu.Base.{
  ◌≡◌, refl, Option, none, some, List, [], ◌∷◌, arith, if◌then◌else◌,
}
use strongswan_plugin_vpn_cu.Hashtable.{KeyOps, IsLawful, find, Distinct, Hashtable}

module _ {K : Type 0} (V : Type 0) (ops : KeyOps K) where
  unfoldable pub assoc_remove : List (K × V) → K → List (K × V)
  assoc_remove [] k = []
  assoc_remove ((j, v) ∷ rest) k =
      if ops.equals j k then assoc_remove rest k else (j, v) ∷ assoc_remove rest k

  module _ (lawful : IsLawful ops) where
    pub find-remove :
        (t : List (K × V)) (k j : K)
        → find ops j (assoc_remove t k) ≡ (if ops.equals k j then none else find ops j t)
    unfolding assoc_remove
    find-remove [] k j = ground arith
    find-remove ((i, v) ∷ rest) k j =
        ground (arith, find-remove rest k j, lawful i k, lawful i j, lawful k j)

    pub find-put :
        (t : List (K × V)) (k : K) (v : V) (j : K)
        → find ops j ((k, v) ∷ assoc_remove t k) ≡ (if ops.equals k j then some v else find ops j t)
    find-put t k v j = ground (arith, find-remove t k j)

    pub remove-Distinct :
        (t : List (K × V)) (k : K) → Distinct ops t → Distinct ops (assoc_remove t k)
    unfolding assoc_remove
    remove-Distinct [] k d = tt
    remove-Distinct ((i, v) ∷ rest) k d =
        ground (arith, remove-Distinct rest k d.1, find-remove rest k i, d.0)

  -- A list in which a key stands once, if the keys may be compared.
  abbrev pub Assoc : Type 0
  Assoc = (t : List (K × V)) × (IsLawful ops → Distinct ops t)

  assoc_empty : Assoc
  assoc_empty = ([], λ lawful. tt)

  pub put-Distinct :
      (t : Assoc) (k : K) (v : V) → IsLawful ops → Distinct ops ((k, v) ∷ assoc_remove t.0 k)
  put-Distinct t k v lawful = (
    ground (arith, find-remove lawful t.0 k k, lawful k k),
    remove-Distinct lawful t.0 k (t.1 lawful),
  )

  assoc_put : Assoc → K → V → Option V × Assoc
  assoc_put t k v = (find ops k t.0, ((k, v) ∷ assoc_remove t.0 k, put-Distinct t k v))

  assoc_take : Assoc → K → Option V × Assoc
  assoc_take t k =
      (find ops k t.0, (assoc_remove t.0 k, λ lawful. remove-Distinct lawful t.0 k (t.1 lawful)))

  -- The interface holds of association lists.
  unfoldable pub assoc_table : Hashtable ops V
  unfolding assoc_empty assoc_put assoc_take
  assoc_table = record {
    Table = Assoc;
    hashtable_create = λ n. assoc_empty;
    get = λ t k. find ops k t.0;
    put = assoc_put;
    remove = assoc_take;
    entries = λ t. t.0;
    get-create = λ lawful n k. refl;
    put_old = λ lawful t k v. refl;
    get-put = λ lawful t k v j. find-put lawful t.0 k v j;
    remove_old = λ lawful t k. refl;
    get-remove = λ lawful t k j. find-remove lawful t.0 k j;
    get-entries = λ lawful t k. refl;
    entries-distinct = λ lawful t. t.1 lawful;
  }
