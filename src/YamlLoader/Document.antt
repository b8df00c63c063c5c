-- ===== src/YamlLoader/Document.antt =====
-- The policy files of plugin/src/yaml_loader.c: the events of a document, and what they load.
use strongswan_plugin_vpn_cu.Base.{
  ◌≤◌, ◌≡◌, refl, ap, ◌∙◌, Bool, true, Option, none, some, List, [], ◌∷◌, if◌then◌else◌, Name,
  streq, length, take_all, All,
}
use strongswan_plugin_vpn_cu.Env.{Env}
use strongswan_plugin_vpn_cu.FixedPool
use strongswan_plugin_vpn_cu.FixedPool.{FixedPool}
use strongswan_plugin_vpn_cu.YamlLoader.{
  Feed, Loader, event, failed, other, mapping_start, mapping_end, scalar, stream_end, in_users,
  users_key, ip_key, pool_key, start_key, end_key, load_events, step, add_parsed, yaml_load_policy,
}

-- A policy: an address for each user, as text, and the two ends of the pool.
pub record Document : Type 0 where
  pub users : List (Name × Name)
  pub start : Name
  pub end : Name

-- `name: { ip: address }`, for each user.
pub users_feed : List (Name × Name) → Feed → Feed
users_feed [] rest = rest
users_feed ((user, address) ∷ users) rest = event (scalar user) (
    event mapping_start
      (event (scalar ip_key) (event (scalar address) (event mapping_end (users_feed users rest)))))

-- The block `pool`, and the end of the document.
pub pool_feed : Name → Name → Feed
pool_feed start end = event (scalar pool_key) (
    event mapping_start (
      event (scalar start_key) (
        event (scalar start) (
          event (scalar end_key) (
            event (scalar end)
              (event mapping_end (event mapping_end (event other (event stream_end failed)))))))))

-- What the parser gives for the document; the first two events start the stream and the document.
pub document_feed : Document → Feed
unfolding users_feed pool_feed
document_feed d = event other (
    event other (
      event mapping_start (
        event (scalar users_key) (
          event mapping_start (users_feed d.users (event mapping_end (pool_feed d.start d.end)))))))

module _ (env : Env) where
  open env use {Host as H, host_create_from_string, clone}

  -- The users whose addresses can be parsed, in the order of the file.
  abbrev pub add_all : List (Name × Name) → FixedPool env → FixedPool env
  add_all [] fixed = fixed
  add_all ((user, address) ∷ users) fixed =
      add_all users (add_parsed env user (host_create_from_string address 0) fixed)

  -- The address that the last line for the user gives that can be parsed.
  abbrev pub assigned : Name → List (Name × Name) → Option H → Option H
  assigned name [] old = old
  assigned name ((user, address) ∷ users) old =
      assigned name users (elim (host_create_from_string address 0) [
        | none ↦ old
        | some ip ↦ if streq user name then some (clone ip) else old
      ])

  abbrev pub Short : List (Name × Name) → Type 0
  Short users = All (λ e. length e.0 ≤ 255) users

  abbrev at_users : FixedPool env → Loader env
  at_users fixed = record {
    st = in_users;
    pending = none;
    cur_user = [];
    fixed = fixed;
    pool_start = none;
    pool_end = none;
  }

  load_events-users_feed :
      (users : List (Name × Name)) (rest : Feed) (fixed : FixedPool env)
      → Short users
      → load_events env (users_feed users rest) (at_users fixed)
        ≡ load_events env rest (at_users (add_all users fixed))
  unfolding load_events users_feed step streq
  load_events-users_feed [] rest fixed short = refl
  load_events-users_feed ((user, address) ∷ users) rest fixed (fits, short) =
      ap
        (λ (name : Name).
          load_events env (users_feed users rest)
            (at_users (add_parsed env name (host_create_from_string address 0) fixed)))
        (take_all 255 user fits)
      ∙ load_events-users_feed users rest
          (add_parsed env user (host_create_from_string address 0) fixed) short

  lookup-add_parsed :
      (user name : Name) (parsed : Option H) (fixed : FixedPool env)
      → FixedPool.lookup env (some name) (add_parsed env user parsed fixed) ≡ (elim parsed [
        | none ↦ FixedPool.lookup env (some name) fixed
        | some ip ↦
            if streq user name then some (clone ip) else FixedPool.lookup env (some name) fixed
      ])
  unfolding add_parsed
  lookup-add_parsed user name none fixed = refl
  lookup-add_parsed user name (some ip) fixed = FixedPool.lookup-add env user name ip fixed

  lookup-add_all :
      (users : List (Name × Name)) (fixed : FixedPool env) (name : Name)
      → FixedPool.lookup env (some name) (add_all users fixed)
        ≡ assigned name users (FixedPool.lookup env (some name) fixed)
  lookup-add_all [] fixed name = refl
  lookup-add_all ((user, address) ∷ users) fixed name =
      lookup-add_all users (add_parsed env user (host_create_from_string address 0) fixed) name
      ∙ ap (assigned name users)
          (lookup-add_parsed user name (host_create_from_string address 0) fixed)

  -- What the loader returns for a document.
  pub record Loaded (d : Document) (r : Bool × Loader env) : Type 0 where
    pub succeeds : r.0 ≡ true
    pub pool_start : r.1.pool_start ≡ host_create_from_string d.start 0
    pub pool_end : r.1.pool_end ≡ host_create_from_string d.end 0
    pub fixed :
        (name : Name) → FixedPool.lookup env (some name) r.1.fixed ≡ assigned name d.users none

  -- A policy file that can be opened and parsed and has the documented shape, a block of users, in
  -- which each has an `ip` and nothing else, and then a block of the pool with `start` and `end`,
  -- and whose user names have at most 255 bytes, loads with success to what it says: the two ends
  -- of the pool, NULL for an end that cannot be parsed, and for each user a clone of the address
  -- in the last entry for that user whose address can be parsed; the other entries are skipped.
  pub yaml_load_policy-document_feed :
      (path : Name) (d : Document)
      → Short d.users
      → Loaded d (
          yaml_load_policy env
            (some path)
            (record { opens = true; initialises = true; feed = document_feed d })
            (FixedPool.fixed_pool_create env))
  unfolding yaml_load_policy load_events document_feed pool_feed step streq
  yaml_load_policy-document_feed path d short =
      rw
        (load_events-users_feed d.users (event mapping_end (pool_feed d.start d.end))
          (FixedPool.fixed_pool_create env) short)
        (record {
          succeeds = refl;
          pool_start = refl;
          pool_end = refl;
          fixed = λ name.
              lookup-add_all d.users (FixedPool.fixed_pool_create env) name
              ∙ ap (assigned name d.users) (FixedPool.lookup-create env name);
        })
