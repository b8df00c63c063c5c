-- ===== src/FixedPool.antt =====
-- plugin/src/fixed_pool.c: the fixed address of each user, in a hash table.
pub mod Adds
use strongswan_plugin_vpn_cu.Base.{
  ℕ, ◌+◌, ◌≡◌, Bool, true, false, Option, none, some, if◌then◌else◌, Name, streq,
}
use strongswan_plugin_vpn_cu.Hashtable.{str_key-IsLawful, cupp_str_eq}
use strongswan_plugin_vpn_cu.Env.{Env}

pub record FixedPool (env : Env) : Type 0 where
  pub users : env.hosts.Table
  pub entries : ℕ

module _ (env : Env) where
  open env use {Host as H, hosts, clone}

  unfoldable pub lookup : Option Name → FixedPool env → Option H
  lookup none this = none
  lookup (some user) this = hosts.get this.users user

  -- The counter grows if no value was replaced.
  pub grown : Option H → ℕ → ℕ
  grown none n = n + 1
  grown (some old) n = n

  unfoldable pub add : Option Name → Option H → FixedPool env → Bool × FixedPool env
  unfolding grown
  add none ip this = (false, this)
  add (some user) none this = (false, this)
  add (some user) (some ip) this =
      let (old, users) = hosts.put this.users user (clone ip) in
      (true, record { users = users; entries = grown old this.entries })

  unfoldable pub count : FixedPool env → ℕ
  count this = this.entries

  unfoldable pub fixed_pool_create : FixedPool env
  fixed_pool_create = record { users = hosts.hashtable_create 0; entries = 0 }

  pub lookup-create : (n : Name) → lookup (some n) fixed_pool_create ≡ none
  unfolding lookup fixed_pool_create
  lookup-create n = hosts.get-create str_key-IsLawful 0 n

  -- After `add` the user has a clone of the address, and every other user what they had.
  pub lookup-add :
      (user n : Name) (ip : H) (this : FixedPool env)
      → lookup (some n) (add (some user) (some ip) this).1
        ≡ (if streq user n then some (clone ip) else lookup (some n) this)
  unfolding lookup add cupp_str_eq
  lookup-add user n ip this = hosts.get-put str_key-IsLawful this.users user (clone ip) n

  -- `count` after `add` has grown by one if the user had no address before, and is as it was
  -- otherwise.
  pub count-add :
      (user : Name) (ip : H) (this : FixedPool env)
      → count (add (some user) (some ip) this).1 ≡ grown (lookup (some user) this) (count this)
  unfolding lookup add count
  count-add user ip this = rw (hosts.put_old str_key-IsLawful this.users user (clone ip))
