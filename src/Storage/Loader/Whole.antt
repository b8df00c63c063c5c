-- ===== src/Storage/Loader/Whole.antt =====
-- What a call of `yaml_load_policy` of plugin/src/yaml_loader.c allocates and frees.
use strongswan_plugin_vpn_cu.Base.{
  ℕ, ◌+◌, ◌≡◌, refl, Bool, true, false, Option, none, some, arith, Bool-cases, inl, inr, Name,
  Returns,
}
use strongswan_plugin_vpn_cu.Env.{Ptr}
use strongswan_plugin_vpn_cu.Host.{HostLib}
use strongswan_plugin_vpn_cu.Storage.{Storage, malloc}
use strongswan_plugin_vpn_cu.Storage.Balance.{
  one, Balanced, Balanced-eq, malloc-Balanced, free-Balanced, free_option-Balanced,
}
use strongswan_plugin_vpn_cu.Storage.Fixed.{KeyTable, FixedPool}
use strongswan_plugin_vpn_cu.Storage.Fixed.Blocks.{blocks}
use strongswan_plugin_vpn_cu.Storage.Loader.{
  Loader, pending_block, initial, cleanup, parse, yaml_load_policy,
}
use strongswan_plugin_vpn_cu.Storage.Loader.Given.{Once}
use strongswan_plugin_vpn_cu.Storage.Loader.Loop.{own_all, own_held, SafeFeed, load_events-Loaded}
use strongswan_plugin_vpn_cu.YamlLoader.{Feed, Source}

module _ (lib : KeyTable) (hosts : HostLib) where
  -- What `yaml_load_policy` leaves: the table and the end points, and what was lost.
  pub record Finished (own : Ptr → ℕ) (feed : Feed) (r : Bool × Loader lib × Storage) : Type 0 where
    pub lost : Ptr → ℕ
    pub balanced : Balanced (λ q. own q + own_held lib hosts r.1 q + lost q) r.2
    pub none_lost : Once feed → (q : Ptr) → lost q ≡ 0

  -- No user of the file is given two addresses, unless the library's `put` keeps the key of a pair
  -- that it finds; the pool that is filled is a new one.
  abbrev pub SafeFile : Feed → FixedPool lib → Type 0
  SafeFile feed fixed = SafeFeed lib hosts feed (initial lib hosts fixed)

  cleanup-Balanced :
      (own : Ptr → ℕ) (fp parser : Ptr) (rc : Bool) (l : Loader lib) (m : Storage)
      → Balanced (λ q. own q + own_all lib hosts l q + one fp q + one parser q) m
      → Returns
          (cleanup lib hosts fp parser (rc, l, m))
          (λ r. Balanced (λ q. own q + own_held lib hosts r.1 q) r.2)
  unfolding cleanup
  cleanup-Balanced own fp parser rc l m b =
      let own1 = λ (q : Ptr). own q + own_held lib hosts l q in
      let own2 = λ (q : Ptr). own1 q + one fp q in
      let (m1, ran1, b1) =
        free_option-Balanced (λ q. own2 q + one parser q) (pending_block l.pending) m
          (Balanced-eq _ _ m b (λ q. omega arith)) in
      let (m2, ran2, b2) = free-Balanced own2 parser m1 b1 in
      let (m3, ran3, b3) = free-Balanced own1 fp m2 b2 in
      ((rc, record l { pending = none }, m3), rw (ran1, ran2, ran3), b3)

  untouched :
      (own : Ptr → ℕ) (feed : Feed) (fixed : FixedPool lib) (m : Storage)
      → Balanced (λ q. own q + blocks lib fixed q) m
      → Finished own feed (false, initial lib hosts fixed, m)
  untouched own feed fixed m b = record {
    lost = λ q. 0;
    balanced = Balanced-eq _ _ m b (λ q. omega arith);
    none_lost = λ _ q. refl;
  }

  parse-Finished :
      (own : Ptr → ℕ) (initialises : Bool) (fp : Ptr) (feed : Feed) (fixed : FixedPool lib)
      (m : Storage)
      → SafeFile feed fixed
      → Balanced (λ q. own q + blocks lib fixed q + one fp q) m
      → Returns (parse lib hosts initialises fp feed fixed m) (Finished own feed)
  unfolding parse
  parse-Finished own false fp feed fixed m safe b =
      let (m1, ran, b1) = free-Balanced _ fp m b in
      ((false, initial lib hosts fixed, m1), rw ran, untouched own feed fixed m1 b1)
  parse-Finished own true fp feed fixed m safe b =
      let parser = (malloc m).0 in
      let ((rc, l1, m1), ran1, w) =
        load_events-Loaded lib hosts (λ q. own q + one fp q + one parser q) feed
          (initial lib hosts fixed) (malloc m).1 safe
          (Balanced-eq _ _ _ (malloc-Balanced _ m b) (λ q. unfold pending_block in omega arith)) in
      let (r, ran2, b2) =
        cleanup-Balanced (λ q. own q + w.lost q) fp parser rc l1 m1
          (Balanced-eq _ _ m1 w.balanced (λ q. omega arith)) in
      (
        r,
        rw ran1 ran2,
        record {
          lost = w.lost;
          balanced = Balanced-eq _ _ r.2 b2 (λ q. omega arith);
          none_lost = λ once q. w.none_lost (omega arith) (omega arith) q;
        },
      )

  -- Whatever the parser returns, a call commits no fault and frees what it takes but for the table and
  -- the end points, and but for an end point that the file gives twice.
  pub yaml_load_policy-Finished :
      (own : Ptr → ℕ) (path : Option Name) (source : Source) (fixed : FixedPool lib) (m : Storage)
      → SafeFile source.feed fixed
      → Balanced (λ q. own q + blocks lib fixed q) m
      → Returns (yaml_load_policy lib hosts path source fixed m) (Finished own source.feed)
  unfolding yaml_load_policy
  yaml_load_policy-Finished own none source fixed m safe b =
      (_, refl, untouched own source.feed fixed m b)
  yaml_load_policy-Finished own (some path) source fixed m safe b = elim (Bool-cases source.opens) [
    | inr closed ↦
        ((false, initial lib hosts fixed, m), rw closed, untouched own source.feed fixed m b)
    | inl opened ↦ rw opened (
        parse-Finished own source.initialises (malloc m).0 source.feed fixed (malloc m).1 safe
          (malloc-Balanced _ m b))
  ]
