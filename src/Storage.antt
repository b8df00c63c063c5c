-- ===== src/Storage.antt =====
-- The memory of the C program, as far as the policy of plugin/src/policy_engine.c and the pools of
-- plugin/src/fixed_pool.c and plugin/src/dynamic_pool.c take and free it: which blocks are allocated.
pub mod Balance
pub mod Engine
pub mod Fixed
pub mod Loader
pub mod Pool
use strongswan_plugin_vpn_cu.Base.{
  ℕ, suc, Bool, true, false, Option, none, some, Run, ok, fault, dangling, ◌==◌, if◌then◌else◌,
}
use strongswan_plugin_vpn_cu.Env.{Ptr}

-- `brk` is the next address that `malloc` gives out.
pub record Storage : Type 0 where
  pub live : Ptr → Bool
  pub brk : Ptr

unfoldable pub malloc : Storage → Ptr × Storage
malloc m = (m.brk, record { live = λ q. if m.brk == q then true else m.live q; brk = suc m.brk })

-- To free a block that is not allocated is a fault.
unfoldable pub free : Ptr → Storage → Run Storage
free p m =
    if m.live p
    then ok (record m { live = λ q. if p == q then false else m.live q })
    else fault dangling

-- A pointer that may be NULL.
unfoldable pub free_option : Option Ptr → Storage → Run Storage
free_option none m = ok m
free_option (some p) m = free p m
