-- ===== src/Storage/Engine/Lifetime.antt =====
-- A policy engine of plugin/src/policy_engine.c from its creation to its end.
use strongswan_plugin_vpn_cu.Base.{
  ℕ, ◌+◌, ◌≡◌, refl, Bool, true, Option, none, some, List, [], ◌∷◌, arith, All, Name, Run, ok,
  ◌>>=◌, Returns,
}
use strongswan_plugin_vpn_cu.Env.{Ptr}
use strongswan_plugin_vpn_cu.Host.{HostLib}
use strongswan_plugin_vpn_cu.Storage.{Storage}
use strongswan_plugin_vpn_cu.Storage.Balance.{IsFresh, as_it_is, Balanced, Balanced-eq}
use strongswan_plugin_vpn_cu.Storage.Engine.{
  PolicyEngine, reload, policy_engine_create, policy_engine_destroy,
}
use strongswan_plugin_vpn_cu.Storage.Engine.Snapshots.{Settled, Tidy, snapshot_load-Settled}
use strongswan_plugin_vpn_cu.Storage.Engine.Engines.{
  engine_blocks, destroy-Balanced, engine_of-Balanced, reload-Settled,
}
use strongswan_plugin_vpn_cu.Storage.Fixed.{KeyTable}
use strongswan_plugin_vpn_cu.Storage.Loader.Given.{Once}
use strongswan_plugin_vpn_cu.YamlLoader.{Source}

module _ (lib : KeyTable) (hosts : HostLib) where
  -- Reloads one after the other.
  pub reloads : List (Bool × Source) → PolicyEngine lib → Storage → Run (PolicyEngine lib × Storage)
  reloads [] this m = ok (this, m)
  reloads ((calloc_ok, source) ∷ rest) this m = do
    (rc, this, m) ← reload lib hosts calloc_ok source this m
    reloads rest this m

  -- An engine that was created is reloaded and destroyed.
  pub serve : List (Bool × Source) → Option (PolicyEngine lib) × Storage → Run Storage
  unfolding reloads
  serve rs (none, m) = policy_engine_destroy lib none m
  serve rs (some this, m) = do
    (this, m) ← reloads rs this m
    policy_engine_destroy lib (some this) m

  unfoldable pub lifetime :
      Bool → Bool → Option Name → Source → List (Bool × Source) → Storage → Run Storage
  unfolding serve
  lifetime snapshot_ok calloc_ok path source rs m =
      policy_engine_create lib hosts snapshot_ok calloc_ok path source m >>= serve rs

module _ (lib : KeyTable) (hosts : HostLib) where
  -- No policy that is read gives an end point twice.
  abbrev pub AllOnce : List (Bool × Source) → Type 0
  AllOnce rs = All (λ r. Once r.1.feed) rs

  -- Of each file that is read: it gives no user two addresses, or the library keeps the key.
  abbrev pub AllTidy : List (Bool × Source) → Type 0
  AllTidy rs = All (λ r. Tidy lib r.1.feed) rs

  reloads-Settled :
      (own : Ptr → ℕ) (rs : List (Bool × Source)) (this : PolicyEngine lib) (m : Storage)
      → AllTidy rs
      → Balanced (λ q. own q + engine_blocks lib (some this) q) m
      → Returns
          (reloads lib hosts rs this m)
          (λ r. Settled (λ q. own q + engine_blocks lib (some r.0) q) (AllOnce rs) r.1)
  unfolding reloads
  reloads-Settled own [] this m tidy b = (
    (this, m),
    refl,
    record {
      lost = λ q. 0;
      balanced = Balanced-eq _ _ m b (λ q. omega arith);
      none_lost = λ _ q. refl;
    },
  )
  reloads-Settled own ((calloc_ok, source) ∷ rest) this m tidy b =
      let ((rc, this1, m1), ran1, w) =
        reload-Settled lib hosts own calloc_ok source this m tidy.0 b in
      let (r, ran2, v) =
        reloads-Settled (λ q. own q + w.lost q) rest this1 m1 tidy.1
          (Balanced-eq _ _ m1 w.balanced (λ q. omega arith)) in
      (
        r,
        rw ran1 ran2,
        record {
          lost = λ q. w.lost q + v.lost q;
          balanced = Balanced-eq _ _ r.1 v.balanced (λ q. omega arith);
          none_lost = λ once q. omega (arith, w.none_lost once.0 q, v.none_lost once.1 q);
        },
      )

  serve-Settled :
      (own : Ptr → ℕ) (rs : List (Bool × Source)) (o : Option (PolicyEngine lib)) (m : Storage)
      → AllTidy rs
      → Balanced (λ q. own q + engine_blocks lib o q) m
      → Returns (serve lib hosts rs (o, m)) (Settled own (AllOnce rs))
  unfolding serve
  serve-Settled own rs none m tidy b =
      let (m1, ran1, b1) = destroy-Balanced lib own none m b in
      (
        m1,
        ran1,
        record {
          lost = λ q. 0;
          balanced = Balanced-eq _ _ m1 b1 (λ q. omega arith);
          none_lost = λ _ q. refl;
        },
      )
  serve-Settled own rs (some this) m tidy b =
      let ((this1, m1), ran1, w) = reloads-Settled own rs this m tidy b in
      let (m2, ran2, b2) =
        destroy-Balanced lib (λ q. own q + w.lost q) (some this1) m1
          (Balanced-eq _ _ m1 w.balanced (λ q. omega arith)) in
      (m2, rw ran1 ran2, record { lost = w.lost; balanced = b2; none_lost = w.none_lost })

  lifetime-Settled :
      (own : Ptr → ℕ) (snapshot_ok calloc_ok : Bool) (path : Option Name) (source : Source)
      (rs : List (Bool × Source)) (m : Storage)
      → Tidy lib source.feed
      → AllTidy rs
      → Balanced own m
      → Returns
          (lifetime lib hosts snapshot_ok calloc_ok path source rs m)
          (Settled own (Once source.feed × AllOnce rs))
  unfolding lifetime policy_engine_create
  lifetime-Settled own snapshot_ok calloc_ok none source rs m first later b =
      let (m1, ran1, w) =
        serve-Settled own rs none m later (Balanced-eq _ _ m b (λ q. omega arith)) in
      (
        m1,
        ran1,
        record { lost = w.lost; balanced = w.balanced; none_lost = λ once. w.none_lost once.1 },
      )
  lifetime-Settled own snapshot_ok calloc_ok (some path) source rs m first later b =
      let ((s, m1), ran1, w) =
        snapshot_load-Settled lib hosts own snapshot_ok (some path) source m first b in
      let ((o, m2), ran2, b2) =
        engine_of-Balanced lib (λ q. own q + w.lost q) calloc_ok path s m1
          (Balanced-eq _ _ m1 w.balanced (λ q. omega arith)) in
      let (m3, ran3, v) = serve-Settled (λ q. own q + w.lost q) rs o m2 later b2 in
      (
        m3,
        rw (ran1, ran2) ran3,
        record {
          lost = λ q. w.lost q + v.lost q;
          balanced = Balanced-eq _ _ m3 v.balanced (λ q. omega arith);
          none_lost = λ once q. omega (arith, w.none_lost once.0 q, v.none_lost once.1 q);
        },
      )

  -- If each policy file gives no user two addresses, or else the library's `put` keeps the key of
  -- a pair that it finds, and no block ahead of `malloc` is allocated: an engine that is created,
  -- reloaded any number of times and destroyed frees no block that is not allocated, and none
  -- that was allocated before it was created. The files may otherwise say anything, and end where
  -- the parser fails, and the allocations of the snapshots and of the engine may fail.
  pub lifetime-kept :
      (snapshot_ok calloc_ok : Bool) (path : Option Name) (source : Source)
      (rs : List (Bool × Source)) (m : Storage)
      → IsFresh m
      → Tidy lib source.feed
      → AllTidy rs
      → Returns
          (lifetime lib hosts snapshot_ok calloc_ok path source rs m)
          (λ m'. (q : Ptr) → m.live q ≡ true → m'.live q ≡ true)
  lifetime-kept snapshot_ok calloc_ok path source rs m fresh first later =
      let (m1, ran, w) =
        lifetime-Settled _ snapshot_ok calloc_ok path source rs m first later (as_it_is m fresh) in
      (m1, ran, λ q e. ground (arith, w.balanced.exact q))

  -- If each policy file gives no end point of the pool twice, and gives no user two addresses, or
  -- else the library's `put` keeps the key of a pair that it finds, and no block ahead of `malloc`
  -- is allocated: an engine that is created, reloaded any number of times and destroyed frees no
  -- block that is not allocated, and the memory is then as it was before. Nothing is lost on any
  -- path, failed allocations of the snapshots or the engine and failed loads included.
  pub lifetime-freed :
      (snapshot_ok calloc_ok : Bool) (path : Option Name) (source : Source)
      (rs : List (Bool × Source)) (m : Storage)
      → IsFresh m
      → Tidy lib source.feed
      → AllTidy rs
      → Once source.feed
      → AllOnce rs
      → Returns
          (lifetime lib hosts snapshot_ok calloc_ok path source rs m)
          (λ m'. (q : Ptr) → m'.live q ≡ m.live q)
  lifetime-freed snapshot_ok calloc_ok path source rs m fresh first later once all =
      let (m1, ran, w) =
        lifetime-Settled _ snapshot_ok calloc_ok path source rs m first later (as_it_is m fresh) in
      (m1, ran, λ q. ground (arith, w.balanced.exact q, w.none_lost (once, all) q))
