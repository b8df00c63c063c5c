-- ===== src/YamlLoader/Bounds.antt =====
-- The buffer `cur_user` of plugin/src/yaml_loader.c has 256 bytes.
use strongswan_plugin_vpn_cu.Base.{
  ◌+◌, ◌≤◌, Option, none, some, arith, Bool-cases, inl, inr, Name, streq, length, length-take,
}
use strongswan_plugin_vpn_cu.Env.{Env}
use strongswan_plugin_vpn_cu.FixedPool.{FixedPool}
use strongswan_plugin_vpn_cu.YamlLoader.{
  Feed, State, Loader, Source, event, failed, other, mapping_start, mapping_end, scalar, stream_end,
  top, in_users, in_user, in_pool, enter, leave, pair, read_scalar, step, load_events, initial,
  yaml_load_policy, ip_key, start_key, end_key,
}

module _ (env : Env) where
  -- The name and the zero after it are in the buffer.
  abbrev pub Fits : Loader env → Type 0
  Fits l = length l.cur_user + 1 ≤ 256

  enter-Fits :
      (st : State) (pending : Option Name) (l : Loader env) → Fits l → Fits (enter env st pending l)
  unfolding enter
  enter-Fits top (some key) l h = h
  enter-Fits in_users (some key) l h = omega (arith, length-take 255 key)
  enter-Fits in_user (some key) l h = h
  enter-Fits in_pool (some key) l h = h
  enter-Fits top none l h = h
  enter-Fits in_users none l h = h
  enter-Fits in_user none l h = h
  enter-Fits in_pool none l h = h

  leave-Fits : (st : State) (l : Loader env) → Fits l → Fits (leave env st l)
  unfolding leave
  leave-Fits in_user l h = omega arith
  leave-Fits in_users l h = h
  leave-Fits in_pool l h = h
  leave-Fits top l h = h

  pair-Fits : (st : State) (key val : Name) (l : Loader env) → Fits l → Fits (pair env st key val l)
  unfolding pair
  pair-Fits in_user key val l h = elim (Bool-cases (streq key ip_key)) [
    | inl e ↦ rw e h
    | inr e ↦ rw e h
  ]
  pair-Fits in_pool key val l h = elim (Bool-cases (streq key start_key)) [
    | inl e ↦ rw e h
    | inr e ↦ elim (Bool-cases (streq key end_key)) [ inl f ↦ rw (e, f) h | inr f ↦ rw (e, f) h ]
  ]
  pair-Fits top key val l h = h
  pair-Fits in_users key val l h = h

  read_scalar-Fits :
      (pending : Option Name) (val : Name) (l : Loader env)
      → Fits l
      → Fits (read_scalar env pending val l)
  unfolding read_scalar
  read_scalar-Fits none val l h = h
  read_scalar-Fits (some key) val l h = pair-Fits l.st key val l h

  load_events-Fits : (feed : Feed) (l : Loader env) → Fits l → Fits (load_events env feed l).1
  unfolding load_events step
  load_events-Fits failed l h = h
  load_events-Fits (event stream_end rest) l h = h
  load_events-Fits (event mapping_start rest) l h =
      load_events-Fits rest _ (enter-Fits l.st l.pending l h)
  load_events-Fits (event mapping_end rest) l h = load_events-Fits rest _ (leave-Fits l.st l h)
  load_events-Fits (event other rest) l h = load_events-Fits rest l h
  load_events-Fits (event (scalar val) rest) l h =
      load_events-Fits rest _ (read_scalar-Fits l.pending val l h)

  -- Whatever the parser returns, and wherever it fails: the current user name, with the zero
  -- after it, fits in its buffer of 256 bytes, also where the key in the file is longer.
  pub yaml_load_policy-Fits :
      (path : Option Name) (source : Source) (fixed : FixedPool env)
      → Fits (yaml_load_policy env path source fixed).1
  unfolding yaml_load_policy
  yaml_load_policy-Fits none source fixed = omega arith
  yaml_load_policy-Fits (some path) source fixed = elim (Bool-cases source.opens) [
    | inr e ↦ rw e (omega arith)
    | inl e ↦ elim (Bool-cases source.initialises) [
      | inr f ↦ rw (e, f) (omega arith)
      | inl f ↦ rw (e, f) (load_events-Fits source.feed (initial env fixed) (omega arith))
    ]
  ]
