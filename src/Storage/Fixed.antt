-- ===== src/Storage/Fixed.antt =====
-- The memory of plugin/src/fixed_pool.c: the pool, its table, and the key and the host of each user.
pub mod Blocks
use strongswan_plugin_vpn_cu.Base.{
  ℕ, ◌+◌, ◌≤◌, ◌≡◌, refl, ap, inl, inr, Option-cases, Bool, true, false, Option, none, some, List,
  [], ◌∷◌, arith, Run, ok, ◌>>=◌, Returns, Name, if◌then◌else◌,
}
use strongswan_plugin_vpn_cu.Env.{Ptr}
use strongswan_plugin_vpn_cu.Hashtable.{Hashtable, str_key, str_key-IsLawful}
use strongswan_plugin_vpn_cu.Hashtable.Total.{total, weight_of, total-put, total-get, total-create}
use strongswan_plugin_vpn_cu.Storage.{Storage, malloc, free}
use strongswan_plugin_vpn_cu.Storage.Balance.{
  one, Balanced, Balanced-eq, malloc-Balanced, free-Balanced,
}

-- What the table holds for a user: the key of the pair and the host.
pub record Entry : Type 0 where
  pub key : Ptr
  pub host : Ptr

-- The library's table, and whether `put` makes the new key that of a pair that it finds. The code
-- expects that it keeps the old one.
pub record KeyTable : Type 1 where
  pub table : Hashtable str_key Entry
  pub put_replaces_key : Bool

module _ (lib : KeyTable) where
  open lib use {table, put_replaces_key}

  -- `self` and `users_block` are the blocks of the pool and of the table.
  pub record FixedPool : Type 0 where
    pub self : Ptr
    pub users_block : Ptr
    pub users : table.Table

  unfoldable pub fixed_pool_create : Storage → FixedPool × Storage
  fixed_pool_create m =
      let (self, m) = malloc m in
      let (users_block, m) = malloc m in
      (record { self = self; users_block = users_block; users = table.hashtable_create 0 }, m)

  host_of : Option Entry → Option Ptr
  host_of none = none
  host_of (some e) = some e.host

  -- The host that `lookup` lends.
  unfoldable pub lookup : Option Name → FixedPool → Option Ptr
  unfolding host_of
  lookup none this = none
  lookup (some user) this = host_of (table.get this.users user)

  -- The same where there may be no pool.
  unfoldable pub lookup_option : Option Name → Option FixedPool → Option Ptr
  unfolding lookup
  lookup_option user none = none
  lookup_option user (some this) = lookup user this

  -- The pair that `put` leaves.
  pub pair_of : Option Entry → Ptr → Ptr → Entry
  pair_of none key host = record { key = key; host = host }
  pair_of (some old) key host = record {
    key = (if put_replaces_key then key else old.key);
    host = host;
  }

  -- `add` destroys the old host and frees the new key, if there was an old host.
  pub discard : Option Entry → Ptr → Storage → Run Storage
  discard none key m = ok m
  discard (some old) key m = free old.host m >>= free key

  -- The `host_t` behind `ip` is only read.
  unfoldable pub add :
      Option Name → Option Ptr → FixedPool → Storage → Run (Bool × FixedPool × Storage)
  unfolding pair_of discard
  add none ip this m = ok (false, this, m)
  add (some user) none this m = ok (false, this, m)
  add (some user) (some ip) this m =
      let (key, m) = malloc m in
      let (host, m) = malloc m in
      let old = table.get this.users user in
      let users = (table.put this.users user (pair_of old key host)).1 in
      discard old key m >>= λ m. ok (true, record this { users = users }, m)

  pub destroy_entries : List (Name × Entry) → Storage → Run Storage
  destroy_entries [] m = ok m
  destroy_entries ((k, e) ∷ rest) m = do m ← free e.host m; m ← free e.key m; destroy_entries rest m

  -- The enumerator is a block of its own.
  unfoldable pub fixed_pool_destroy : FixedPool → Storage → Run Storage
  unfolding destroy_entries
  fixed_pool_destroy this m =
      let (e, m) = malloc m in
      do
        m ← destroy_entries (table.entries this.users) m
        m ← free e m
        m ← free this.users_block m
        free this.self m
