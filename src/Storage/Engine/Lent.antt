-- ===== src/Storage/Engine/Lent.antt =====
-- The hosts that `lookup_fixed` of plugin/src/policy_engine.c lends, across a reload.
use strongswan_plugin_vpn_cu.Base.{
  ℕ, ◌+◌, ◌≤◌, ◌≡◌, refl, Bool, true, false, not, Option, none, some, arith, Name, Returns,
}
use strongswan_plugin_vpn_cu.Env.{Ptr}
use strongswan_plugin_vpn_cu.Host.{HostLib}
use strongswan_plugin_vpn_cu.Storage.{Storage}
use strongswan_plugin_vpn_cu.Storage.Balance.{one, counted, Balanced, Balanced-eq}
use strongswan_plugin_vpn_cu.Storage.Engine.{
  Snapshot, PolicyEngine, lookup_in, lookup_fixed, swap, reload,
}
use strongswan_plugin_vpn_cu.Storage.Engine.Engines.{engine_blocks}
use strongswan_plugin_vpn_cu.Storage.Engine.Snapshots.{
  Tidy, fixed_blocks, snapshot_blocks, snapshot_destroy-Balanced, snapshot_load-Settled,
}
use strongswan_plugin_vpn_cu.Storage.Fixed.{KeyTable, FixedPool, lookup_option}
use strongswan_plugin_vpn_cu.Storage.Fixed.Blocks.{lookup-blocks}
use strongswan_plugin_vpn_cu.YamlLoader.{Source}

counted-le : (b : Bool) → counted b ≤ 1
counted-le true = omega arith
counted-le false = omega arith

gone_lem : (b : Bool) → counted b ≡ 0 → b ≡ false
gone_lem true e = absurd (omega arith)
gone_lem false e = refl

module _ (lib : KeyTable) where
  lent_option :
      (user : Option Name) (o : Option (FixedPool lib)) (p : Ptr)
      → lookup_option lib user o ≡ some p
      → 1 ≤ fixed_blocks lib o p
  unfolding lookup_option
  lent_option user none p e = absurd (cc)
  lent_option user (some fixed) p e = lookup-blocks lib user fixed p e

  lent :
      (user : Option Name) (o : Option (Snapshot lib)) (p : Ptr)
      → lookup_in lib o user ≡ some p
      → 1 ≤ snapshot_blocks lib o p
  unfolding lookup_in
  lent user none p e = absurd (cc)
  lent none (some s) p e = absurd (cc)
  lent (some user) (some s) p e = omega (arith, lent_option (some user) s.fixed p e)

  -- A block of the old snapshot, once the new one, if there is one, is in force.
  swap-lent :
      (own lost : Ptr → ℕ) (this : PolicyEngine lib) (o : Option (Snapshot lib)) (m m' : Storage)
      (p : Ptr)
      → Balanced (λ q. own q + engine_blocks lib (some this) q) m
      → Balanced (λ q. counted (m.live q) + snapshot_blocks lib o q + lost q) m'
      → 1 ≤ snapshot_blocks lib this.active p
      → Returns (swap lib this o m') (λ r. r.2.live p ≡ not r.0)
  unfolding swap
  swap-lent own lost this none m m' p b b' lent =
      ((false, this, m'), refl, ground (arith, b.exact p, b'.exact p))
  swap-lent own lost this (some fresh) m m' p b b' lent =
      let rest = λ (q : Ptr).
        own q
        + one this.self q
        + one this.path_block q
        + snapshot_blocks lib (some fresh) q
        + lost q in
      let (m2, ran, b2) =
        snapshot_destroy-Balanced lib rest this.active m'
          (Balanced-eq _ _ m' b' (λ q. omega (arith, b.exact q))) in
      (
        (true, record this { active = some fresh }, m2),
        rw ran,
        gone_lem (m2.live p)
            (omega (arith, b2.exact p, b.exact p, b'.exact p, counted-le (m'.live p))),
      )

  -- In a memory in which each allocated block is owned once, by the engine or by others, a host
  -- that `lookup_fixed` has lent is freed by a reload that returns TRUE, and is still allocated
  -- after one that returns FALSE. The file that is loaded gives no user two addresses, or else the
  -- library's `put` keeps the key of a pair that it finds.
  pub reload-lent :
      (hosts : HostLib) (own : Ptr → ℕ) (calloc_ok : Bool) (source : Source)
      (this : PolicyEngine lib) (user : Option Name) (p : Ptr) (m : Storage)
      → Tidy lib source.feed
      → Balanced (λ q. own q + engine_blocks lib (some this) q) m
      → lookup_fixed lib user this ≡ some p
      → Returns (reload lib hosts calloc_ok source this m) (λ r. r.2.live p ≡ not r.0)
  unfolding reload lookup_fixed
  reload-lent hosts own calloc_ok source this user p m tidy b e =
      let ((fresh, m1), ran1, w) =
        snapshot_load-Settled lib hosts (λ q. counted (m.live q)) calloc_ok (some this.path) source
          m tidy (record { exact = λ q. refl; ahead = b.ahead }) in
      let (r, ran2, gone) =
        swap-lent own w.lost this fresh m m1 p b w.balanced (lent user this.active p e) in
      (r, rw ran1 ran2, gone)
