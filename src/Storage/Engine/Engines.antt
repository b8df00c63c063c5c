-- ===== src/Storage/Engine/Engines.antt =====
-- What the engine of plugin/src/policy_engine.c allocates and frees.
use strongswan_plugin_vpn_cu.Base.{
  ℕ, ◌+◌, refl, Bool, true, false, Option, none, some, arith, Name, Returns,
}
use strongswan_plugin_vpn_cu.Env.{Ptr}
use strongswan_plugin_vpn_cu.Host.{HostLib}
use strongswan_plugin_vpn_cu.Storage.{Storage, malloc}
use strongswan_plugin_vpn_cu.Storage.Balance.{
  one, Balanced, Balanced-eq, malloc-Balanced, free-Balanced,
}
use strongswan_plugin_vpn_cu.Storage.Engine.{
  Snapshot, PolicyEngine, swap, engine_of, reload, policy_engine_destroy,
}
use strongswan_plugin_vpn_cu.Storage.Engine.Snapshots.{
  Settled, Tidy, snapshot_blocks, snapshot_destroy-Balanced, snapshot_load-Settled,
}
use strongswan_plugin_vpn_cu.Storage.Fixed.{KeyTable}
use strongswan_plugin_vpn_cu.Storage.Loader.Given.{Once}
use strongswan_plugin_vpn_cu.YamlLoader.{Source}

module _ (lib : KeyTable) where
  abbrev pub engine_blocks : Option (PolicyEngine lib) → Ptr → ℕ
  engine_blocks none q = 0
  engine_blocks (some this) q =
      one this.self q + one this.path_block q + snapshot_blocks lib this.active q

  pub destroy-Balanced :
      (own : Ptr → ℕ) (o : Option (PolicyEngine lib)) (m : Storage)
      → Balanced (λ q. own q + engine_blocks o q) m
      → Returns (policy_engine_destroy lib o m) (Balanced own)
  unfolding policy_engine_destroy
  destroy-Balanced own none m b = (m, refl, Balanced-eq _ own m b (λ q. omega arith))
  destroy-Balanced own (some this) m b =
      let own1 = λ (q : Ptr). own q + one this.self q in
      let own2 = λ (q : Ptr). own1 q + one this.path_block q in
      let (m1, ran1, b1) =
        snapshot_destroy-Balanced lib own2 this.active m (Balanced-eq _ _ m b (λ q. omega arith)) in
      let (m2, ran2, b2) = free-Balanced own1 this.path_block m1 b1 in
      let (m3, ran3, b3) = free-Balanced own this.self m2 b2 in (m3, rw (ran1, ran2) ran3, b3)

  pub swap-Balanced :
      (own : Ptr → ℕ) (this : PolicyEngine lib) (o : Option (Snapshot lib)) (m : Storage)
      → Balanced (λ q. own q + engine_blocks (some this) q + snapshot_blocks lib o q) m
      → Returns (swap lib this o m) (λ r. Balanced (λ q. own q + engine_blocks (some r.1) q) r.2)
  unfolding swap
  swap-Balanced own this none m b = ((false, this, m), refl, Balanced-eq _ _ m b (λ q. omega arith))
  swap-Balanced own this (some fresh) m b =
      let this' : PolicyEngine lib = record this { active = some fresh } in
      let (m1, ran1, b1) =
        snapshot_destroy-Balanced lib (λ q. own q + engine_blocks (some this') q) this.active m
          (Balanced-eq _ _ m b (λ q. omega arith)) in
      ((true, this', m1), rw ran1, b1)

  pub engine_of-Balanced :
      (own : Ptr → ℕ) (calloc_ok : Bool) (path : Name) (o : Option (Snapshot lib)) (m : Storage)
      → Balanced (λ q. own q + snapshot_blocks lib o q) m
      → Returns
          (engine_of lib calloc_ok path o m)
          (λ r. Balanced (λ q. own q + engine_blocks r.0 q) r.1)
  unfolding engine_of
  engine_of-Balanced own calloc_ok path none m b =
      ((none, m), refl, Balanced-eq _ _ m b (λ q. omega arith))
  engine_of-Balanced own true path (some s) m b =
      let b2 = malloc-Balanced _ (malloc m).1 (malloc-Balanced _ m b) in
      (_, refl, Balanced-eq _ _ _ b2 (λ q. omega arith))
  engine_of-Balanced own false path (some s) m b =
      let (m1, ran1, b1) = snapshot_destroy-Balanced lib own (some s) m b in
      ((none, m1), rw ran1, Balanced-eq _ _ m1 b1 (λ q. omega arith))

module _ (lib : KeyTable) (hosts : HostLib) where
  pub reload-Settled :
      (own : Ptr → ℕ) (calloc_ok : Bool) (source : Source) (this : PolicyEngine lib) (m : Storage)
      → Tidy lib source.feed
      → Balanced (λ q. own q + engine_blocks lib (some this) q) m
      → Returns
          (reload lib hosts calloc_ok source this m)
          (λ r. Settled (λ q. own q + engine_blocks lib (some r.1) q) (Once source.feed) r.2)
  unfolding reload
  reload-Settled own calloc_ok source this m tidy b =
      let ((fresh, m1), ran1, w) =
        snapshot_load-Settled lib hosts _ calloc_ok (some this.path) source m tidy b in
      let (r, ran2, b2) =
        swap-Balanced lib (λ q. own q + w.lost q) this fresh m1
          (Balanced-eq _ _ m1 w.balanced (λ q. omega arith)) in
      (
        r,
        rw ran1 ran2,
        record {
          lost = w.lost;
          balanced = Balanced-eq _ _ r.2 b2 (λ q. omega arith);
          none_lost = w.none_lost;
        },
      )
