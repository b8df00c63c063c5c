-- ===== src/Storage/Loader/Given.antt =====
-- What a policy file gives, read off its events alone as `yaml_load_policy` of
-- plugin/src/yaml_loader.c reads them: how often an address to a user, and how often an end point.
use strongswan_plugin_vpn_cu.Base.{
  ℕ, ◌+◌, ◌≤◌, Option, none, some, [], if◌then◌else◌, Name, streq, take,
}
use strongswan_plugin_vpn_cu.YamlLoader.{
  Event, stream_end, mapping_start, mapping_end, other, scalar, Feed, failed, event, State, top,
  in_users, in_user, in_pool, users_key, ip_key, pool_key, start_key, end_key,
}

-- Where the loader is: its state, the key that waits for a value, and the user.
pub record Cursor : Type 0 where
  pub st : State
  pub key : Option Name
  pub user : Name

-- What an event gives, to each user and as the start and the end of the pool, and where the loader
-- is then.
pub record Gain : Type 0 where
  pub users : Name → ℕ
  pub start : ℕ
  pub end : ℕ
  pub next : Cursor

abbrev pub is_text : Name → Name → ℕ
is_text key val = if streq val key then 1 else 0

-- The event gives nothing.
abbrev pub moved : Cursor → Gain
moved c = record { users = λ n. 0; start = 0; end = 0; next = c }

abbrev pub enter_gain : State → Option Name → Cursor → Gain
enter_gain top none c = moved c
enter_gain top (some key) c = moved (record c {
  st = (if streq key users_key then in_users else (if streq key pool_key then in_pool else top));
  key = none;
})
enter_gain in_users none c = moved c
enter_gain in_users (some key) c =
    moved (record c { st = in_user; key = none; user = take 255 key })
enter_gain in_user key c = moved c
enter_gain in_pool key c = moved c

abbrev pub leave_gain : State → Cursor → Gain
leave_gain in_user c = moved (record c { st = in_users; user = [] })
leave_gain in_users c = moved (record c { st = top })
leave_gain in_pool c = moved (record c { st = top })
leave_gain top c = moved c

-- An `ip` gives the user an address, whether it can be parsed or not.
abbrev pub pair_users : State → Name → Name → Name → ℕ
pair_users in_user key user n = if streq key ip_key then is_text n user else 0
pair_users in_users key user n = 0
pair_users in_pool key user n = 0
pair_users top key user n = 0

abbrev pub pair_end : Name → State → Name → ℕ
pair_end which in_pool key = is_text which key
pair_end which in_user key = 0
pair_end which in_users key = 0
pair_end which top key = 0

abbrev pub scalar_gain : Option Name → Name → Cursor → Gain
scalar_gain none val c = moved (record c { key = some val })
scalar_gain (some key) val c = record {
  users = pair_users c.st key c.user;
  start = pair_end start_key c.st key;
  end = pair_end end_key c.st key;
  next = record c { key = none };
}

abbrev pub gain : Event → Cursor → Gain
gain mapping_start c = enter_gain c.st c.key c
gain mapping_end c = leave_gain c.st c
gain (scalar val) c = scalar_gain c.key val c
gain other c = moved c
gain stream_end c = moved c

-- What the whole file gives from a place on.
abbrev pub total_gain : (Gain → ℕ) → Feed → Cursor → ℕ
total_gain of failed c = 0
total_gain of (event stream_end rest) c = 0
total_gain of (event mapping_start rest) c =
    of (gain mapping_start c) + total_gain of rest (gain mapping_start c).next
total_gain of (event mapping_end rest) c =
    of (gain mapping_end c) + total_gain of rest (gain mapping_end c).next
total_gain of (event other rest) c = of (gain other c) + total_gain of rest (gain other c).next
total_gain of (event (scalar val) rest) c =
    of (gain (scalar val) c) + total_gain of rest (gain (scalar val) c).next

abbrev pub outset : Cursor
outset = record { st = top; key = none; user = [] }

-- Neither end point is given twice.
abbrev pub Once : Feed → Type 0
Once feed = (total_gain (λ g. g.start) feed outset ≤ 1) × (total_gain (λ g. g.end) feed outset ≤ 1)

-- No user is given two addresses.
abbrev pub OneEach : Feed → Type 0
OneEach feed = (n : Name) → total_gain (λ g. g.users n) feed outset ≤ 1
