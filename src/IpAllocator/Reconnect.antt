-- ===== src/IpAllocator/Reconnect.antt =====
-- A user who comes back to `acquire_address` of plugin/src/ip_allocator.c with another IKE_SA, as
-- after a rekey.
use strongswan_plugin_vpn_cu.Base.{Option}
use strongswan_plugin_vpn_cu.Env.{Env}
use strongswan_plugin_vpn_cu.IpAllocator.{IpAllocator}
use strongswan_plugin_vpn_cu.IpAllocator.Served.{Served}
