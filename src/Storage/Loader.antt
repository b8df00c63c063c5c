-- ===== src/Storage/Loader.antt =====
-- The memory of plugin/src/yaml_loader.c: the file, the parser and its events, the pending key, and
-- the hosts that it makes.
pub mod Given
pub mod Pairs
pub mod Rounds
pub mod Loop
pub mod Whole
use strongswan_plugin_vpn_cu.Base.{
  ℕ, Bool, true, false, Option, none, some, [], if◌then◌else◌, Name, streq, take, Run, ok, ◌>>=◌,
}
use strongswan_plugin_vpn_cu.Env.{Ptr}
use strongswan_plugin_vpn_cu.Host.{HostLib}
use strongswan_plugin_vpn_cu.Storage.{Storage, malloc, free, free_option}
use strongswan_plugin_vpn_cu.Storage.Fixed
use strongswan_plugin_vpn_cu.Storage.Fixed.{KeyTable, FixedPool}
use strongswan_plugin_vpn_cu.YamlLoader.{
  Event, stream_end, mapping_start, mapping_end, other, scalar, Feed, failed, event, State, top,
  in_users, in_user, in_pool, Source, users_key, ip_key, pool_key, start_key, end_key,
}

-- The local variables of `yaml_load_policy`; `pending` is the block of the key and its text.
pub record Loader (lib : KeyTable) : Type 0 where
  pub st : State
  pub pending : Option (Ptr × Name)
  pub cur_user : Name
  pub fixed : FixedPool lib
  pub pool_start : Option Ptr
  pub pool_end : Option Ptr

-- What `host_create_from_string` returns.
pub made {ℓ} : {H : Type ℓ} → Option H → Storage → Option Ptr × Storage
made none m = (none, m)
made (some h) m = let (p, m) = malloc m in (some p, m)

pub pending_block : Option (Ptr × Name) → Option Ptr
pending_block none = none
pending_block (some (p, key)) = some p

module _ (lib : KeyTable) (hosts : HostLib) where
  open hosts use {host_create_from_string}

  abbrev pub L : Type 0
  L = Loader lib

  -- `YAML_MAPPING_START_EVENT`
  pub enter : State → Option (Ptr × Name) → L → Storage → Run (L × Storage)
  enter top (some (p, key)) l m = do
    m ← free p m
    ok (
      record l {
        st =
            (if streq key users_key
              then in_users
              else (if streq key pool_key then in_pool else top));
        pending = none;
      },
      m,
    )
  enter in_users (some (p, key)) l m = do
    m ← free p m
    ok (record l { cur_user = take 255 key; st = in_user; pending = none }, m)
  enter _ _ l m = ok (l, m)

  -- `YAML_MAPPING_END_EVENT`
  pub leave : State → L → L
  leave in_user l = record l { st = in_users; cur_user = [] }
  leave in_users l = record l { st = top }
  leave in_pool l = record l { st = top }
  leave top l = l

  -- The table takes a clone of the host.
  pub add_parsed : Name → Option Ptr → FixedPool lib → Storage → Run (FixedPool lib × Storage)
  add_parsed user none fixed m = ok (fixed, m)
  add_parsed user (some ip) fixed m = do
    (_, fixed, m) ← Fixed.add lib (some user) (some ip) fixed m
    m ← free ip m
    ok (fixed, m)

  -- A key and its value. The host that an end point pointed to before is not destroyed.
  pub pair : State → Name → Name → L → Storage → Run (L × Storage)
  unfolding add_parsed made
  pair in_user key val l m =
      if streq key ip_key
      then (let (ip, m) = made (host_create_from_string val 0) m in
          do (fixed, m) ← add_parsed l.cur_user ip l.fixed m; ok (record l { fixed = fixed }, m))
      else ok (l, m)
  pair in_pool key val l m =
      let (host, m') = made (host_create_from_string val 0) m in
      if streq key start_key
      then ok (record l { pool_start = host }, m')
      else (if streq key end_key then ok (record l { pool_end = host }, m') else ok (l, m))
  pair _ key val l m = ok (l, m)

  -- `YAML_SCALAR_EVENT`
  pub read_scalar : Option (Ptr × Name) → Name → L → Storage → Run (L × Storage)
  unfolding pair
  read_scalar none val l m = let (p, m) = malloc m in ok (record l { pending = some (p, val) }, m)
  read_scalar (some (p, key)) val l m = do
    (l, m) ← pair l.st key val l m
    m ← free p m
    ok (record l { pending = none }, m)

  pub step : Event → L → Storage → Run (L × Storage)
  unfolding enter leave read_scalar
  step mapping_start l m = enter l.st l.pending l m
  step mapping_end l m = ok (leave l.st l, m)
  step (scalar val) l m = read_scalar l.pending val l m
  step other l m = ok (l, m)
  step stream_end l m = ok (l, m)

  -- One round of the loop: the parser makes the event, and `yaml_event_delete` frees it.
  pub round : Event → L → Storage → Run (L × Storage)
  unfolding step
  round e l m = let (block, m) = malloc m in do (l, m) ← step e l m; m ← free block m; ok (l, m)

  -- The loop; the Boolean is whether the return code is 0.
  pub load_events : Feed → L → Storage → Run (Bool × L × Storage)
  unfolding round
  load_events failed l m = ok (false, l, m)
  load_events (event stream_end rest) l m = do (l, m) ← round stream_end l m; ok (true, l, m)
  load_events (event mapping_start rest) l m = do
    (l, m) ← round mapping_start l m
    load_events rest l m
  load_events (event mapping_end rest) l m = do (l, m) ← round mapping_end l m; load_events rest l m
  load_events (event other rest) l m = do (l, m) ← round other l m; load_events rest l m
  load_events (event (scalar val) rest) l m = do
    (l, m) ← round (scalar val) l m
    load_events rest l m

  abbrev pub initial : FixedPool lib → L
  initial fixed = record {
    st = top;
    pending = none;
    cur_user = [];
    fixed = fixed;
    pool_start = none;
    pool_end = none;
  }

  -- The label `cleanup`.
  pub cleanup : Ptr → Ptr → Bool × L × Storage → Run (Bool × L × Storage)
  unfolding pending_block
  cleanup fp parser (rc, l, m) = do
    m ← free_option (pending_block l.pending) m
    m ← free parser m
    m ← free fp m
    ok (rc, record l { pending = none }, m)

  -- With the file open.
  pub parse : Bool → Ptr → Feed → FixedPool lib → Storage → Run (Bool × L × Storage)
  unfolding load_events cleanup
  parse false fp feed fixed m = do m ← free fp m; ok (false, initial fixed, m)
  parse true fp feed fixed m =
      let (parser, m) = malloc m in load_events feed (initial fixed) m >>= cleanup fp parser

  unfoldable pub yaml_load_policy :
      Option Name → Source → FixedPool lib → Storage → Run (Bool × L × Storage)
  unfolding parse
  yaml_load_policy none source fixed m = ok (false, initial fixed, m)
  yaml_load_policy (some path) source fixed m =
      if source.opens
      then (let (fp, m) = malloc m in parse source.initialises fp source.feed fixed m)
      else ok (false, initial fixed, m)
