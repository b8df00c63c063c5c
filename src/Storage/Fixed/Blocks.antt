-- ===== src/Storage/Fixed/Blocks.antt =====
-- The blocks of a pool of plugin/src/fixed_pool.c, and how its operations change them.
use strongswan_plugin_vpn_cu.Base.{
  ℕ, ◌+◌, ◌≤◌, ◌≡◌, refl, ap, ◌⊎◌, inl, inr, Option-cases, true, false, Option, none, some, List,
  [], ◌∷◌, arith, Returns, Name, streq, if◌then◌else◌, Bool,
}
use strongswan_plugin_vpn_cu.Env.{Ptr}
use strongswan_plugin_vpn_cu.Hashtable.{str_key, str_key-IsLawful, cupp_str_eq}
use strongswan_plugin_vpn_cu.Hashtable.Total.{total, weight_of, total-put, total-get, total-create}
use strongswan_plugin_vpn_cu.Storage.{Storage, malloc}
use strongswan_plugin_vpn_cu.Storage.Balance.{
  one, Balanced, Balanced-eq, malloc-Balanced, free-Balanced,
}
use strongswan_plugin_vpn_cu.Storage.Fixed.{
  KeyTable, FixedPool, Entry, fixed_pool_create, pair_of, discard, add, destroy_entries,
  fixed_pool_destroy, lookup,
}

abbrev pub present : Option Entry → ℕ
present none = 0
present (some e) = 1

present_if :
    (b : Bool) (e : Entry) (o : Option Entry)
    → present (if b then some e else o) ≤ (if b then 1 else 0) + present o
present_if true e o = omega arith
present_if false e o = omega arith

module _ (lib : KeyTable) where
  open lib use {table, put_replaces_key}

  abbrev entry_blocks : Ptr → Entry → ℕ
  entry_blocks q e = one e.host q + one e.key q

  -- The blocks of a pool.
  unfoldable pub blocks : FixedPool lib → Ptr → ℕ
  blocks this q =
      one this.self q + one this.users_block q + total (entry_blocks q) (table.entries this.users)

  -- Whether the pool has an address for the user.
  abbrev pub has : FixedPool lib → Name → ℕ
  has this n = present (table.get this.users n)

  pub has-create : (m : Storage) (n : Name) → has (fixed_pool_create lib m).0 n ≡ 0
  unfolding fixed_pool_create
  has-create m n = ap present (table.get-create str_key-IsLawful 0 n)

  -- The library keeps the key of a pair that it finds, or there is no pair to find.
  abbrev pub Keeps : Option Entry → Type 0
  Keeps o = (put_replaces_key ≡ false) ⊎ (o ≡ none)

  has-put :
      (this : FixedPool lib) (user : Name) (e : Entry) (n : Name)
      → has (record this { users = (table.put this.users user e).1 }) n
        ≤ (if streq user n then 1 else 0) + has this n
  unfolding cupp_str_eq
  has-put this user e n = omega (
    arith,
    ap present (table.get-put str_key-IsLawful this.users user e n),
    present_if (streq user n) e (table.get this.users n),
  )

  pub fixed_pool_create-Balanced :
      (own : Ptr → ℕ) (m : Storage)
      → Balanced own m
      → Balanced (λ q. own q + blocks (fixed_pool_create lib m).0 q) (fixed_pool_create lib m).1
  unfolding fixed_pool_create blocks
  fixed_pool_create-Balanced own m b =
      let b1 = malloc-Balanced own m b in
      let b2 = malloc-Balanced _ (malloc m).1 b1 in
      Balanced-eq _ _ _ b2
        (λ q. omega (arith, total-create str_key str_key-IsLawful (entry_blocks q) table 0))

  -- The table after `put`, with what was replaced: its blocks against those from before.
  added :
      (this : FixedPool lib) (user : Name) (key host : Ptr) (o : Option Entry)
      → table.get this.users user ≡ o
      → (q : Ptr)
      → total
            (entry_blocks q)
            (table.entries (table.put this.users user (pair_of lib o key host)).1)
          + weight_of (entry_blocks q) o
        ≡ total (entry_blocks q) (table.entries this.users)
          + entry_blocks q (pair_of lib o key host)
  added this user key host o e q =
      let law =
        total-put str_key str_key-IsLawful (entry_blocks q) table this.users user
          (pair_of lib o key host) in
      omega (arith, law, ap (weight_of (entry_blocks q)) e)

  kept_key :
      (old : Entry) (key host : Ptr)
      → put_replaces_key ≡ false
      → (q : Ptr) → entry_blocks q (pair_of lib (some old) key host) ≡ one host q + one old.key q
  unfolding pair_of
  kept_key old key host keeps q = rw keeps

  -- Adding a user takes the blocks that the table then needs, and no others: nothing is freed twice
  -- and nothing is lost, if `put` keeps the key of a pair that it finds or finds none.
  pub add-Balanced :
      (own : Ptr → ℕ) (user : Name) (ip : Ptr) (this : FixedPool lib) (m : Storage)
      → Keeps (table.get this.users user)
      → Balanced (λ q. own q + blocks this q) m
      → Returns (add lib (some user) (some ip) this m) (λ r.
        Balanced (λ q. own q + blocks r.1 q) r.2
        × ((n : Name) → has r.1 n ≤ (if streq user n then 1 else 0) + has this n))
  unfolding add discard blocks
  add-Balanced own user ip this m keeps b =
      let key = (malloc m).0 in
      let m1 = (malloc m).1 in
      let host = (malloc m1).0 in
      let m2 = (malloc m1).1 in
      let b1 = malloc-Balanced _ m b in
      let b2 = malloc-Balanced _ m1 b1 in
      elim (Option-cases (table.get this.users user)) [
        | inl new ↦
            let law = added this user key host none new in
            (
              (
                true,
                record this { users = (table.put this.users user (pair_of lib none key host)).1 },
                m2,
              ),
              rw new,
              (
                Balanced-eq _ _ m2 b2 (λ q. unfold pair_of in omega (arith, law q)),
                has-put this user (pair_of lib none key host),
              ),
            )
        | inr (old, there) ↦
            let law = added this user key host (some old) there in
            let this' : FixedPool lib = record this {
              users = (table.put this.users user (pair_of lib (some old) key host)).1;
            } in
            let kept_old : put_replaces_key ≡ false = elim keeps [
              | inl e ↦ e
              | inr nobody ↦ absurd (cc)
            ] in
            let kept = λ (q : Ptr). own q + blocks this' q in
            let (m3, ran3, b3) =
              free-Balanced (λ q. kept q + one key q) old.host m2
                (Balanced-eq _ _ m2 b2
                  (λ q. omega (arith, law q, kept_key old key host kept_old q))) in
            let (m4, ran4, b4) = free-Balanced kept key m3 b3 in
            (
              (true, this', m4),
              rw (there, ran3, ran4),
              (b4, has-put this user (pair_of lib (some old) key host)),
            )
      ]

  destroy_entries-Balanced :
      (own : Ptr → ℕ) (es : List (Name × Entry)) (m : Storage)
      → Balanced (λ q. own q + total (entry_blocks q) es) m
      → Returns (destroy_entries lib es m) (Balanced own)
  unfolding destroy_entries total
  destroy_entries-Balanced own [] m b = (m, refl, Balanced-eq _ own m b (λ q. omega arith))
  destroy_entries-Balanced own ((k, e) ∷ es) m b =
      let rest = λ (q : Ptr). own q + total (entry_blocks q) es in
      let (m1, ran1, b1) =
        free-Balanced (λ q. rest q + one e.key q) e.host m
          (Balanced-eq _ _ m b (λ q. omega arith)) in
      let (m2, ran2, b2) = free-Balanced rest e.key m1 b1 in
      let (m3, ran3, b3) = destroy_entries-Balanced own es m2 b2 in (m3, rw (ran1, ran2) ran3, b3)

  -- Destroying a pool frees its blocks, each once, and no others.
  pub fixed_pool_destroy-Balanced :
      (own : Ptr → ℕ) (this : FixedPool lib) (m : Storage)
      → Balanced (λ q. own q + blocks this q) m
      → Returns (fixed_pool_destroy lib this m) (Balanced own)
  unfolding fixed_pool_destroy blocks
  fixed_pool_destroy-Balanced own this m b =
      let e = (malloc m).0 in
      let m0 = (malloc m).1 in
      let b0 = malloc-Balanced _ m b in
      let own1 = λ (q : Ptr). own q + one this.self q in
      let own2 = λ (q : Ptr). own1 q + one this.users_block q in
      let own3 = λ (q : Ptr). own2 q + one e q in
      let (m1, ran1, b1) =
        destroy_entries-Balanced own3 (table.entries this.users) m0
          (Balanced-eq _ _ m0 b0 (λ q. omega arith)) in
      let (m2, ran2, b2) = free-Balanced own2 e m1 b1 in
      let (m3, ran3, b3) = free-Balanced own1 this.users_block m2 b2 in
      let (m4, ran4, b4) = free-Balanced own this.self m3 b3 in (m4, rw (ran1, ran2, ran3) ran4, b4)

  -- What `lookup` lends is a block of the pool.
  pub lookup-blocks :
      (user : Option Name) (this : FixedPool lib) (p : Ptr)
      → lookup lib user this ≡ some p
      → 1 ≤ blocks this p
  unfolding lookup blocks
  lookup-blocks none this p e = absurd (cc)
  lookup-blocks (some user) this p e = elim (Option-cases (table.get this.users user)) [
    | inl nobody ↦ absurd (ground arith)
    | inr (entry, there) ↦
        let law = total-get str_key str_key-IsLawful (entry_blocks p) table this.users user in
        let host : entry.host ≡ p = ground arith in ground (arith, law)
  ]
