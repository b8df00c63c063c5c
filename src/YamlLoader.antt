-- ===== src/YamlLoader.antt =====
-- plugin/src/yaml_loader.c: the state machine over the events of libyaml. libyaml and the file
-- system are parameters: what the calls return, in order.
pub mod Document
pub mod Bounds
use strongswan_plugin_vpn_cu.Base.{
  Bool, true, false, Option, none, some, [], ◌∷◌, if◌then◌else◌, Name, streq, take,
}
use strongswan_plugin_vpn_cu.Env.{Env}
use strongswan_plugin_vpn_cu.FixedPool
use strongswan_plugin_vpn_cu.FixedPool.{FixedPool}

-- The events that the code tells apart; `other` is every event that its `switch` ignores.
pub data Event : Type 0 where
  stream_end mapping_start mapping_end other : Event
  scalar : Name → Event

-- The results of the successive calls of `yaml_parser_parse`: events, and then a failure.
pub data Feed : Type 0 where
  failed : Feed
  event : Event → Feed → Feed

pub data State : Type 0 where
  top in_users in_user in_pool : State

-- "users", "ip", "pool", "start" and "end".
abbrev pub users_key : Name
users_key = b'u' ∷ b's' ∷ b'e' ∷ b'r' ∷ b's' ∷ []

abbrev pub ip_key : Name
ip_key = b'i' ∷ b'p' ∷ []

abbrev pub pool_key : Name
pool_key = b'p' ∷ b'o' ∷ b'o' ∷ b'l' ∷ []

abbrev pub start_key : Name
start_key = b's' ∷ b't' ∷ b'a' ∷ b'r' ∷ b't' ∷ []

abbrev pub end_key : Name
end_key = b'e' ∷ b'n' ∷ b'd' ∷ []

-- The local variables of `yaml_load_policy`, the table it fills and the end points it returns.
pub record Loader (env : Env) : Type 0 where
  pub st : State
  pub pending : Option Name
  pub cur_user : Name
  pub fixed : FixedPool env
  pub pool_start : Option env.Host
  pub pool_end : Option env.Host

module _ (env : Env) where
  open env use {Host as H, host_create_from_string}

  -- `YAML_MAPPING_START_EVENT`
  pub enter : State → Option Name → Loader env → Loader env
  enter top (some key) l = record l {
    st = (if streq key users_key then in_users else (if streq key pool_key then in_pool else top));
    pending = none;
  }
  enter in_users (some key) l = record l { cur_user = take 255 key; st = in_user; pending = none }
  enter _ _ l = l

  -- `YAML_MAPPING_END_EVENT`
  pub leave : State → Loader env → Loader env
  leave in_user l = record l { st = in_users; cur_user = [] }
  leave in_users l = record l { st = top }
  leave in_pool l = record l { st = top }
  leave top l = l

  -- An address that does not parse is skipped.
  pub add_parsed : Name → Option H → FixedPool env → FixedPool env
  add_parsed user none fixed = fixed
  add_parsed user (some ip) fixed = (FixedPool.add env (some user) (some ip) fixed).1

  -- A key and its value.
  pub pair : State → Name → Name → Loader env → Loader env
  pair in_user key val l =
      if streq key ip_key
      then record l { fixed = add_parsed l.cur_user (host_create_from_string val 0) l.fixed }
      else l
  pair in_pool key val l =
      if streq key start_key
      then record l { pool_start = host_create_from_string val 0 }
      else (if streq key end_key then record l { pool_end = host_create_from_string val 0 } else l)
  pair _ key val l = l

  -- `YAML_SCALAR_EVENT`
  pub read_scalar : Option Name → Name → Loader env → Loader env
  unfolding pair
  read_scalar none val l = record l { pending = some val }
  read_scalar (some key) val l = record (pair l.st key val l) { pending = none }

  -- One round of the loop, for an event that does not end it.
  unfoldable pub step : Event → Loader env → Loader env
  unfolding enter leave read_scalar add_parsed
  step mapping_start l = enter l.st l.pending l
  step mapping_end l = leave l.st l
  step (scalar val) l = read_scalar l.pending val l
  step other l = l
  step stream_end l = l

  -- The loop; the Boolean is whether the return code is 0.
  unfoldable pub load_events : Feed → Loader env → Bool × Loader env
  load_events failed l = (false, l)
  load_events (event stream_end rest) l = (true, l)
  load_events (event mapping_start rest) l = load_events rest (step mapping_start l)
  load_events (event mapping_end rest) l = load_events rest (step mapping_end l)
  load_events (event other rest) l = load_events rest (step other l)
  load_events (event (scalar val) rest) l = load_events rest (step (scalar val) l)

  abbrev pub initial : FixedPool env → Loader env
  initial fixed = record {
    st = top;
    pending = none;
    cur_user = [];
    fixed = fixed;
    pool_start = none;
    pool_end = none;
  }

-- What the outside gives one call: whether the file opens, whether the parser can be initialised, and
-- the results of the parser.
pub record Source : Type 0 where
  pub opens : Bool
  pub initialises : Bool
  pub feed : Feed

module _ (env : Env) where
  -- `path` may be NULL; `fixed` and the two output pointers are not, as in its one call.
  unfoldable pub yaml_load_policy : Option Name → Source → FixedPool env → Bool × Loader env
  yaml_load_policy none source fixed = (false, initial env fixed)
  yaml_load_policy (some path) source fixed =
      if source.opens
      then (if source.initialises
          then load_events env source.feed (initial env fixed)
          else (false, initial env fixed))
      else (false, initial env fixed)
