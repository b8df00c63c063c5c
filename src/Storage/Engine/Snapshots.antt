-- ===== src/Storage/Engine/Snapshots.antt =====
-- What the snapshots of plugin/src/policy_engine.c allocate and free.
use strongswan_plugin_vpn_cu.Base.{
  ℕ, ◌+◌, ◌≡◌, refl, ◌⊎◌, inl, inr, Bool, true, false, Option, none, some, arith, Bool-cases, Name,
  Returns,
}
use strongswan_plugin_vpn_cu.Env.{Ptr}
use strongswan_plugin_vpn_cu.Host.{HostLib}
use strongswan_plugin_vpn_cu.Storage.{Storage, malloc}
use strongswan_plugin_vpn_cu.Storage.Balance.{
  one, maybe_one, Balanced, Balanced-eq, malloc-Balanced, free-Balanced, free_option-Balanced,
}
use strongswan_plugin_vpn_cu.Storage.Engine.{
  Snapshot, destroy_fixed, snapshot_destroy, snapshot_of, snapshot_load,
}
use strongswan_plugin_vpn_cu.Storage.Fixed.{KeyTable, FixedPool, fixed_pool_create}
use strongswan_plugin_vpn_cu.Storage.Fixed.Blocks.{
  blocks, has-create, fixed_pool_create-Balanced, fixed_pool_destroy-Balanced,
}
use strongswan_plugin_vpn_cu.Storage.Loader.{Loader}
use strongswan_plugin_vpn_cu.Storage.Loader.Given.{Once, OneEach}
use strongswan_plugin_vpn_cu.Storage.Loader.Loop.{own_held}
use strongswan_plugin_vpn_cu.Storage.Loader.Whole.{SafeFile, yaml_load_policy-Finished}
use strongswan_plugin_vpn_cu.YamlLoader.{Feed, Source}

-- Everything allocated is owned, but for what is lost, and nothing is lost on a condition.
pub record Settled (own : Ptr → ℕ) (clean : Type 0) (m : Storage) : Type 0 where
  pub lost : Ptr → ℕ
  pub balanced : Balanced (λ q. own q + lost q) m
  pub none_lost : clean → (q : Ptr) → lost q ≡ 0

-- The library's `put` keeps the key of a pair that it finds, or the file gives no user two addresses.
abbrev pub Tidy : KeyTable → Feed → Type 0
Tidy lib feed = (lib.put_replaces_key ≡ false) ⊎ OneEach feed

module _ (lib : KeyTable) where
  abbrev pub fixed_blocks : Option (FixedPool lib) → Ptr → ℕ
  fixed_blocks none q = 0
  fixed_blocks (some fixed) q = blocks lib fixed q

  abbrev pub snapshot_blocks : Option (Snapshot lib) → Ptr → ℕ
  snapshot_blocks none q = 0
  snapshot_blocks (some s) q =
      one s.self q + fixed_blocks s.fixed q + maybe_one s.pool_start q + maybe_one s.pool_end q

  destroy_fixed-Balanced :
      (own : Ptr → ℕ) (o : Option (FixedPool lib)) (m : Storage)
      → Balanced (λ q. own q + fixed_blocks o q) m
      → Returns (destroy_fixed lib o m) (Balanced own)
  unfolding destroy_fixed
  destroy_fixed-Balanced own none m b = (m, refl, Balanced-eq _ own m b (λ q. omega arith))
  destroy_fixed-Balanced own (some fixed) m b = fixed_pool_destroy-Balanced lib own fixed m b

  pub snapshot_destroy-Balanced :
      (own : Ptr → ℕ) (o : Option (Snapshot lib)) (m : Storage)
      → Balanced (λ q. own q + snapshot_blocks o q) m
      → Returns (snapshot_destroy lib o m) (Balanced own)
  unfolding snapshot_destroy
  snapshot_destroy-Balanced own none m b = (m, refl, Balanced-eq _ own m b (λ q. omega arith))
  snapshot_destroy-Balanced own (some s) m b =
      let own1 = λ (q : Ptr). own q + one s.self q in
      let own2 = λ (q : Ptr). own1 q + maybe_one s.pool_end q in
      let own3 = λ (q : Ptr). own2 q + maybe_one s.pool_start q in
      let (m1, ran1, b1) =
        destroy_fixed-Balanced own3 s.fixed m (Balanced-eq _ _ m b (λ q. omega arith)) in
      let (m2, ran2, b2) = free_option-Balanced own2 s.pool_start m1 b1 in
      let (m3, ran3, b3) = free_option-Balanced own1 s.pool_end m2 b2 in
      let (m4, ran4, b4) = free-Balanced own s.self m3 b3 in (m4, rw (ran1, ran2, ran3) ran4, b4)

  module _ (hosts : HostLib) where
    snapshot_of-Balanced :
        (own : Ptr → ℕ) (self : Ptr) (rc : Bool) (l : Loader lib) (m : Storage)
        → Balanced (λ q. own q + one self q + own_held lib hosts l q) m
        → Returns
            (snapshot_of lib self (rc, l, m))
            (λ r. Balanced (λ q. own q + snapshot_blocks r.0 q) r.1)
    unfolding snapshot_of
    snapshot_of-Balanced own self true l m b = (_, refl, Balanced-eq _ _ m b (λ q. omega arith))
    snapshot_of-Balanced own self false l m b =
        let s : Snapshot lib = record {
          self = self;
          fixed = some l.fixed;
          pool_start = none;
          pool_end = none;
        } in
        let own1 = λ (q : Ptr). own q + maybe_one l.pool_end q in
        let own2 = λ (q : Ptr). own1 q + maybe_one l.pool_start q in
        let (m1, ran1, b1) =
          snapshot_destroy-Balanced own2 (some s) m (Balanced-eq _ _ m b (λ q. omega arith)) in
        let (m2, ran2, b2) = free_option-Balanced own1 l.pool_start m1 b1 in
        let (m3, ran3, b3) = free_option-Balanced own l.pool_end m2 b2 in
        ((none, m3), rw (ran1, ran2, ran3), Balanced-eq _ _ m3 b3 (λ q. omega arith))

    fresh-SafeFile :
        (feed : Feed) (m : Storage)
        → Tidy lib feed
        → SafeFile lib hosts feed (fixed_pool_create lib m).0
    fresh-SafeFile feed m (inl keeps) = inl keeps
    fresh-SafeFile feed m (inr once) = inr (λ n. omega (arith, once n, has-create lib m n))

    -- Loading a snapshot takes the blocks of the snapshot, and but for an end point that the file
    -- gives twice no others.
    pub snapshot_load-Settled :
        (own : Ptr → ℕ) (calloc_ok : Bool) (path : Option Name) (source : Source) (m : Storage)
        → Tidy lib source.feed
        → Balanced own m
        → Returns
            (snapshot_load lib hosts calloc_ok path source m)
            (λ r. Settled (λ q. own q + snapshot_blocks r.0 q) (Once source.feed) r.1)
    unfolding snapshot_load
    snapshot_load-Settled own calloc_ok path source m tidy b = elim (Bool-cases calloc_ok) [
      | inr no_memory ↦ (
        (none, m),
        rw no_memory,
        record {
          lost = λ q. 0;
          balanced = Balanced-eq _ _ m b (λ q. omega arith);
          none_lost = λ _ q. refl;
        },
      )
      | inl memory ↦
          let self = (malloc m).0 in
          let m1 = (malloc m).1 in
          let fixed = (fixed_pool_create lib m1).0 in
          let m2 = (fixed_pool_create lib m1).1 in
          let b2 = fixed_pool_create-Balanced lib _ m1 (malloc-Balanced own m b) in
          let ((rc, l, m3), ran3, w) =
            yaml_load_policy-Finished lib hosts (λ q. own q + one self q) path source fixed m2
              (fresh-SafeFile source.feed m1 tidy) b2 in
          let (r, ran4, b4) =
            snapshot_of-Balanced (λ q. own q + w.lost q) self rc l m3
              (Balanced-eq _ _ m3 w.balanced (λ q. omega arith)) in
          (
            r,
            rw (memory, ran3) ran4,
            record {
              lost = w.lost;
              balanced = Balanced-eq _ _ r.1 b4 (λ q. omega arith);
              none_lost = w.none_lost;
            },
          )
    ]
