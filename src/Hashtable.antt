-- ===== src/Hashtable.antt =====
-- strongSwan's `hashtable_t`, which the plugin only calls, as an interface, and the key functions
-- that plugin/src/fixed_pool.c and plugin/src/session_manager.c give it.
pub mod Assoc
pub mod Entries
pub mod Total
use strongswan_plugin_vpn_cu.Base.{
  ℕ, ◌+◌, ◌*◌, ◌%◌, ◌^◌, ◌≡◌, ◌↔◌, Bool, true, Option, none, some, List, [], ◌∷◌, ◌==◌, ==_iff,
  if◌then◌else◌, Name, streq, streq_iff,
}

-- The two functions that `hashtable_create` takes.
pub record KeyOps (K : Type 0) : Type 0 where
  pub hash : K → ℕ
  pub equals : K → K → Bool

-- The table may be relied on if `equals` decides equality of keys; keys that are the same value
-- then have the same hash.
abbrev pub IsLawful : {K : Type 0} → KeyOps K → Type 0
IsLawful {K} ops = (a b : K) → (ops.equals a b ≡ true) ↔ (a ≡ b)

-- The value that stands under a key in the pairs of an enumeration.
abbrev pub find : {K V : Type 0} → KeyOps K → K → List (K × V) → Option V
find ops k [] = none
find ops k ((j, v) ∷ rest) = if ops.equals j k then some v else find ops k rest

abbrev pub Distinct : {K V : Type 0} → KeyOps K → List (K × V) → Type 0
Distinct ops [] = Unit {0}
Distinct ops ((k, v) ∷ rest) = (find ops k rest ≡ none) × Distinct ops rest

-- `put` and `remove` return the value that they displace; an enumeration yields each key once.
pub record Hashtable {K : Type 0} (ops : KeyOps K) (V : Type 0) : Type 1 where
  pub Table : Type 0
  pub hashtable_create : ℕ → Table
  pub get : Table → K → Option V
  pub put : Table → K → V → Option V × Table
  pub remove : Table → K → Option V × Table
  pub entries : Table → List (K × V)
  pub get-create : IsLawful ops → (n : ℕ) (k : K) → get (hashtable_create n) k ≡ none
  pub put_old : IsLawful ops → (t : Table) (k : K) (v : V) → (put t k v).0 ≡ get t k
  pub get-put :
      IsLawful ops
      → (t : Table) (k : K) (v : V) (j : K)
      → get (put t k v).1 j ≡ (if ops.equals k j then some v else get t j)
  pub remove_old : IsLawful ops → (t : Table) (k : K) → (remove t k).0 ≡ get t k
  pub get-remove :
      IsLawful ops
      → (t : Table) (k j : K) → get (remove t k).1 j ≡ (if ops.equals k j then none else get t j)
  pub get-entries : IsLawful ops → (t : Table) (k : K) → get t k ≡ find ops k (entries t)
  pub entries-distinct : IsLawful ops → (t : Table) → Distinct ops (entries t)

-- `h = 5381; while (*s) h = h * 33 + *s++` on 32-bit words, from the value `h` on.
pub str_hash_from : ℕ → Name → ℕ
str_hash_from h [] = h
str_hash_from h (c ∷ s) = str_hash_from ((h * 33 + c) % 2 ^ 32) s

unfoldable pub cupp_str_hash : Name → ℕ
unfolding str_hash_from
cupp_str_hash s = str_hash_from 5381 s

unfoldable pub cupp_str_eq : Name → Name → Bool
cupp_str_eq a b = streq a b

-- The key is the number itself, in a pointer.
unfoldable pub cupp_u32_hash : ℕ → ℕ
cupp_u32_hash key = key % 2 ^ 32

unfoldable pub cupp_u32_eq : ℕ → ℕ → Bool
cupp_u32_eq a b = a == b

abbrev pub str_key : KeyOps Name
str_key = record { hash = cupp_str_hash; equals = cupp_str_eq }

abbrev pub u32_key : KeyOps ℕ
u32_key = record { hash = cupp_u32_hash; equals = cupp_u32_eq }

pub str_key-IsLawful : IsLawful str_key
unfolding cupp_str_eq
str_key-IsLawful a b = streq_iff a b

pub u32_key-IsLawful : IsLawful u32_key
unfolding cupp_u32_eq
u32_key-IsLawful a b = ==_iff a b
