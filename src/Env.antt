-- ===== src/Env.antt =====
-- The code that the plugin calls and that is not in the repository: strongSwan's hosts, and its hash
-- tables at the three types of keys and values that the plugin uses.
use strongswan_plugin_vpn_cu.Base.{ℕ}
use strongswan_plugin_vpn_cu.Host.{HostLib}
use strongswan_plugin_vpn_cu.Hashtable.{Hashtable, str_key, u32_key}

-- A pointer to a lease.
abbrev pub Ptr : Type 0
Ptr = ℕ

pub record Env : Type 1 where
  pub lib : HostLib
  pub open lib use *
  pub uids : Hashtable u32_key Ptr
  pub users : Hashtable str_key Ptr
  pub hosts : Hashtable str_key lib.Host
