-- ===== src/Examples/Memory.antt =====
-- What the policy and the pools allocate and free, at concrete inputs.
use strongswan_plugin_vpn_cu.Base.{
  ℕ, zero, suc, if◌then◌else◌, ◌≡◌, refl, Bool, true, false, not, ltb, ◌+◌, ◌≤◌, inr, none, some,
  List, [], ◌∷◌, ◌++◌, arith, Run, ok, fault, streq, ◌>>=◌, dangling, Returns,
}
use strongswan_plugin_vpn_cu.Env.{Ptr}
use strongswan_plugin_vpn_cu.Examples.World.{hosts, ip, ab, cd}
use strongswan_plugin_vpn_cu.Hashtable.{str_key, cupp_str_eq}
use strongswan_plugin_vpn_cu.Hashtable.Assoc.{assoc_table, assoc_remove}
use strongswan_plugin_vpn_cu.Storage.{Storage, malloc, free, free_option}
use strongswan_plugin_vpn_cu.Storage.Balance.{Balanced}
use strongswan_plugin_vpn_cu.Storage.Engine.Lifetime.{
  lifetime, lifetime-kept, lifetime-freed, AllTidy,
}
use strongswan_plugin_vpn_cu.Hashtable.Total.{total}
use strongswan_plugin_vpn_cu.Storage.Engine.Engines.{engine_blocks}
use strongswan_plugin_vpn_cu.Storage.Engine.Lent.{reload-lent}
use strongswan_plugin_vpn_cu.Storage.Engine.{
  PolicyEngine, lookup_fixed, reload, policy_engine_create, snapshot_load, snapshot_destroy,
  policy_engine_destroy,
}
use strongswan_plugin_vpn_cu.Storage.Loader.{yaml_load_policy}
use strongswan_plugin_vpn_cu.Storage.Loader.Given.{OneEach}
use strongswan_plugin_vpn_cu.Storage.Fixed
use strongswan_plugin_vpn_cu.Storage.Fixed.Blocks.{blocks}
use strongswan_plugin_vpn_cu.Storage.Fixed.{KeyTable, Entry}
use strongswan_plugin_vpn_cu.Storage.Pool.{dynamic_pool_create, end_pool, create-destroy}
use strongswan_plugin_vpn_cu.YamlLoader.{
  Source, Event, Feed, event, scalar, failed, stream_end, mapping_start, mapping_end, users_key,
  pool_key, ip_key, start_key,
}

abbrev keeping : KeyTable
keeping = record { table = assoc_table Entry str_key; put_replaces_key = false }

abbrev replacing : KeyTable
replacing = record keeping { put_replaces_key = true }

abbrev empty : Storage
empty = record { live = λ q. false; brk = 0 }

-- The events, and then the end of the stream.
abbrev feed_of : List Event → Feed
feed_of [] = event stream_end failed
feed_of (e ∷ es) = event e (feed_of es)

-- The user "ab" with an address.
abbrev user_ab : List Event
user_ab = scalar ab ∷ mapping_start ∷ scalar ip_key ∷ scalar cd ∷ mapping_end ∷ []

-- That user twice.
abbrev twice : Feed
twice = feed_of (scalar users_key ∷ mapping_start ∷ (user_ab ++ user_ab))

-- The start of the pool twice.
abbrev two_starts : Feed
two_starts = feed_of (
    scalar pool_key
    ∷ mapping_start
    ∷ scalar start_key
    ∷ scalar ab
    ∷ scalar start_key
    ∷ scalar cd
    ∷ [])

abbrev source : Feed → Source
source feed = record { opens = true; initialises = true; feed = feed }

-- The user "ab" once, and a pool.
abbrev once : Feed
once = feed_of (
    scalar users_key
    ∷ mapping_start
    ∷ (user_ab
        ++ (mapping_end ∷ scalar pool_key ∷ mapping_start ∷ scalar start_key ∷ scalar ab ∷ [])))

-- Two reloads, of which the second fails.
abbrev later : List (Bool × Source)
later = (true, source once) ∷ (true, source (event (scalar ab) failed)) ∷ []

if-le : (b : Bool) → (if b then 1 else 0) ≤ 1
if-le true = omega arith
if-le false = omega arith

once-OneEach : OneEach once
unfolding streq
once-OneEach n = omega (arith, if-le (streq ab n))

later-AllTidy : AllTidy replacing hosts later
later-AllTidy = (inr once-OneEach, (inr (λ n. omega arith), tt))

lifetime-freed_example :
    Returns
      (lifetime replacing hosts true true (some ab) (source once) later empty)
      (λ m'. (q : Ptr) → m'.live q ≡ false)
unfolding streq
lifetime-freed_example =
    lifetime-freed replacing hosts true true (some ab) (source once) later empty (λ q le. refl)
      (inr once-OneEach) later-AllTidy (omega arith, omega arith)
      ((omega arith, omega arith), ((omega arith, omega arith), tt))

two_starts-OneEach : OneEach two_starts
unfolding streq
two_starts-OneEach n = omega arith

lifetime-kept_example :
    Returns
      (lifetime replacing hosts true true (some ab) (source two_starts) later empty)
      (λ m'. (q : Ptr) → false ≡ true → m'.live q ≡ true)
lifetime-kept_example =
    lifetime-kept replacing hosts true true (some ab) (source two_starts) later empty (λ q le. refl)
      (inr two_starts-OneEach) later-AllTidy

create-destroy_example :
    Returns
      (dynamic_pool_create hosts false (some (ip 1)) (some (ip 3)) empty >>= end_pool)
      (λ m'. (q : Ptr) → m'.live q ≡ false)
create-destroy_example = create-destroy hosts false (some (ip 1)) (some (ip 3)) empty (λ q le. refl)

-- The blocks below a number that are allocated.
abbrev left : ℕ → Run Storage → List Ptr
left zero r = []
left (suc n) (fault f) = []
left (suc n) (ok m) = let rest = left n (ok m) in if m.live n then n ∷ rest else rest

-- A start that is given twice leaves a host behind.
start_lost :
    left 20 (lifetime keeping hosts true true (some ab) (source two_starts) [] empty) ≡ 11 ∷ []
unfolding lifetime policy_engine_create snapshot_load malloc Fixed.fixed_pool_create assoc_table
    yaml_load_policy free streq free_option snapshot_destroy Fixed.fixed_pool_destroy
    policy_engine_destroy assoc_remove cupp_str_eq Fixed.add
start_lost = refl

-- If `put` replaced the key, the key of a user who stands twice in the file would be freed twice.
key_freed_twice :
    lifetime replacing hosts true true (some ab) (source twice) [] empty ≡ fault dangling
unfolding lifetime policy_engine_create snapshot_load malloc Fixed.fixed_pool_create assoc_table
    yaml_load_policy free streq free_option snapshot_destroy Fixed.fixed_pool_destroy
    policy_engine_destroy assoc_remove cupp_str_eq Fixed.add
key_freed_twice = refl

-- An engine whose policy is the user "ab" with the host at 6.
abbrev engine : PolicyEngine keeping
engine = record {
  self = 0;
  active = some (record {
    self = 2;
    fixed = some (record {
      self = 3;
      users_block = 4;
      users =
          (keeping.table.put (keeping.table.hashtable_create 0) ab
            (record { key = 5; host = 6 })).1;
    });
    pool_start = none;
    pool_end = none;
  });
  path_block = 1;
  path = ab;
}

-- The memory with its seven blocks.
abbrev seven : Storage
seven = record { live = λ q. ltb q 7; brk = 7 }

seven-Balanced : Balanced (λ q. 0 + engine_blocks keeping (some engine) q) seven
unfolding blocks total assoc_table assoc_remove
seven-Balanced = record { exact = λ q. ground arith; ahead = λ q le. ground arith }

ab_lent : lookup_fixed keeping (some ab) engine ≡ some 6
unfolding lookup_fixed assoc_table assoc_remove Fixed.lookup Fixed.lookup_option cupp_str_eq streq
ab_lent = refl

reload-lent_example :
    Returns (reload keeping hosts true (source once) engine seven) (λ r. r.2.live 6 ≡ not r.0)
reload-lent_example =
    reload-lent keeping hosts (λ q. 0) true (source once) engine (some ab) 6 seven
      (inr once-OneEach) seven-Balanced ab_lent
