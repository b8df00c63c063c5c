-- ===== src/Plugin/Create.antt =====
-- `user_policy_plugin_create` of plugin/src/plugin.c.
use strongswan_plugin_vpn_cu.Base.{
  ◌+◌, ◌-◌, ◌^◌, ◌<◌, ◌≡◌, refl, sym, ap, ◌⊎◌, inl, inr, Bool, true, false, Option, none, some,
  Option-cases, Bool-cases, Returns,
}
use strongswan_plugin_vpn_cu.Env.{Env}
use strongswan_plugin_vpn_cu.EventListener.{event_listener_create}
use strongswan_plugin_vpn_cu.Host.{host_to_u32}
use strongswan_plugin_vpn_cu.IpAllocator.Lifecycle.{
  ip_allocator_destroy, create-IsConsistent, create_no_memory,
}
use strongswan_plugin_vpn_cu.Plugin.{
  Plugin, Settings, initial, user_policy_plugin_create, plugin_destroy_internal,
}
use strongswan_plugin_vpn_cu.Plugin.Life.{IsWhole}
use strongswan_plugin_vpn_cu.PolicyEngine.{PolicyEngine, policy_engine_create, get_pool}
use strongswan_plugin_vpn_cu.SessionManager.Destroy.{session_manager_destroy-freed}
use strongswan_plugin_vpn_cu.YamlLoader.{Source}

module _ (env : Env) where
  open env use {Host as H, lib}

  -- What the plugin loader gets.
  abbrev pub Outcome : Option (PolicyEngine env) → Bool → Bool → Option (Plugin env) → Type 0
  Outcome policy allocator_ok listener_ok none =
      (policy ≡ none) ⊎ ((allocator_ok ≡ false) ⊎ (listener_ok ≡ false))
  Outcome policy allocator_ok listener_ok (some this) =
      (policy ≡ this.policy)
      × (this.refcnt ≡ 1)
      × (this.terminating ≡ false)
      × (allocator_ok ≡ true)
      × (listener_ok ≡ true)
      × IsWhole env this

  -- If a policy that is loaded has a range at least eight addresses short of the whole address
  -- space, `user_policy_plugin_create` commits no fault. It returns NULL only if the policy
  -- engine could not be created or there is no memory for the allocator or the listener; a plugin
  -- that it returns has one reference, is not unregistered, and has that policy and a consistent
  -- allocator which uses it.
  pub create-Outcome :
      (snapshot_ok engine_ok allocator_ok bits_ok listener_ok : Bool) (settings : Settings)
      (source : Source)
      → ((policy : PolicyEngine env) (start end : H)
          → policy_engine_create env snapshot_ok engine_ok
              (some (initial env settings).policy_path)
              source
            ≡ some policy
          → get_pool env policy ≡ some (start, end)
          → host_to_u32 lib end < host_to_u32 lib start + (2 ^ 32 - 8))
      → Returns
          (user_policy_plugin_create env snapshot_ok engine_ok allocator_ok bits_ok listener_ok
            settings source)
          (Outcome
            (policy_engine_create env snapshot_ok engine_ok
              (some (initial env settings).policy_path)
              source)
            allocator_ok
            listener_ok)
  unfolding user_policy_plugin_create ip_allocator_destroy plugin_destroy_internal
      event_listener_create
  create-Outcome snapshot_ok engine_ok allocator_ok bits_ok listener_ok settings source narrow =
      elim (Option-cases (
        policy_engine_create env snapshot_ok engine_ok (some (initial env settings).policy_path)
          source)) [
            | inl failed ↦ (none, rw failed, inl failed)
            | inr (policy, loaded) ↦ elim (Bool-cases allocator_ok) [
              | inr failed ↦ (
                none,
                rw (
                  loaded,
                  failed,
                  create_no_memory env bits_ok policy (some (initial env settings).pool_name)
                      (initial env settings).lease_timeout,
                ),
                inr (inl failed),
              )
              | inl made ↦
                  let (a, built, c, _, _, borrowed) =
                    create-IsConsistent env bits_ok policy (some (initial env settings).pool_name)
                      (initial env settings).lease_timeout
                      (λ start end e. narrow policy start end loaded e) in
                  elim (Bool-cases listener_ok) [
                    | inr failed ↦
                        let (left, ran, _) = session_manager_destroy-freed env a.sessions c.index in
                        (none, rw (loaded, made, built, failed, ran), inr (inr failed))
                    | inl heard ↦ (
                      some (record (initial env settings) {
                        policy = some policy;
                        allocator = some a;
                        listener = some (record { allocator = tt });
                      }),
                      rw (loaded, made, built, heard),
                      (
                        loaded,
                        refl,
                        refl,
                        made,
                        heard,
                        record {
                          a = a;
                          allocator = refl;
                          policy = ap some (sym borrowed);
                          consistent = c;
                        },
                      ),
                    )
                  ]
            ]
          ]
