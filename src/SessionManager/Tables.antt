-- ===== src/SessionManager/Tables.antt =====
-- The tables of a session manager as functions, its invariant, and the leases by unique id: the view
-- in which the operations of plugin/src/session_manager.c are specified.
use mathlib.Core.Path.{fun_ext}
use strongswan_plugin_vpn_cu.Base.{ℕ, ◌≡◌, Option, none, some, ◌==◌, if◌then◌else◌, Name, streq, ok}
use strongswan_plugin_vpn_cu.Hashtable.{
  str_key-IsLawful, u32_key-IsLawful, cupp_str_eq, cupp_u32_eq,
}
use strongswan_plugin_vpn_cu.Env.{Env, Ptr}
use strongswan_plugin_vpn_cu.SessionManager.{SessionManager, Lease, load, session_manager_create}
use strongswan_plugin_vpn_cu.SessionManager.Links.{IsLinked}

-- What a pointer that may be NULL points to.
abbrev pub deref : {A : Type 0} → (Ptr → Option A) → Option Ptr → Option A
deref heap none = none
deref heap (some p) = heap p

module _ (env : Env) where
  open env use {Host as H, uids, users}

  pub uids-put :
      (t : uids.Table) (k : ℕ) (p : Ptr)
      → uids.get (uids.put t k p).1 ≡ (λ j. if k == j then some p else uids.get t j)
  unfolding cupp_u32_eq
  uids-put t k p = fun_ext (uids.get-put u32_key-IsLawful t k p)

  pub uids-remove :
      (t : uids.Table) (k : ℕ)
      → uids.get (uids.remove t k).1 ≡ (λ j. if k == j then none else uids.get t j)
  unfolding cupp_u32_eq
  uids-remove t k = fun_ext (uids.get-remove u32_key-IsLawful t k)

  pub uids-removed : (t : uids.Table) (k : ℕ) → (uids.remove t k).0 ≡ uids.get t k
  uids-removed = uids.remove_old u32_key-IsLawful

  pub users-put :
      (t : users.Table) (k : Name) (p : Ptr)
      → users.get (users.put t k p).1 ≡ (λ j. if streq k j then some p else users.get t j)
  unfolding cupp_str_eq
  users-put t k p = fun_ext (users.get-put str_key-IsLawful t k p)

  pub users-remove :
      (t : users.Table) (k : Name)
      → users.get (users.remove t k).1 ≡ (λ j. if streq k j then none else users.get t j)
  unfolding cupp_str_eq
  users-remove t k = fun_ext (users.get-remove str_key-IsLawful t k)

  abbrev pub S : Type 0
  S = SessionManager env

  abbrev pub uid_of : S → ℕ → Option Ptr
  uid_of s = uids.get s.by_uid

  abbrev pub user_of : S → Name → Option Ptr
  user_of s = users.get s.by_user

  -- The two tables are one index of the leases on the heap.
  abbrev pub Inv : S → Type 0
  Inv s = IsLinked s.heap s.brk (uid_of s) (user_of s)

  -- The lease with the unique id `u`.
  abbrev pub leases : S → ℕ → Option (Lease H)
  leases s u = deref s.heap (uid_of s u)

  -- The lease with the username `n`.
  abbrev pub lease_of_user : S → Name → Option (Lease H)
  lease_of_user s n = deref s.heap (user_of s n)

  pub load_at : (s : S) (p : Ptr) (l : Lease H) → s.heap p ≡ some l → load env p s ≡ ok l
  unfolding load
  load_at s p l at = rw (load, at)

  pub create-Inv : Inv (session_manager_create env)
  unfolding session_manager_create
  create-Inv =
      rw
        (
          fun_ext (uids.get-create u32_key-IsLawful 0),
          fun_ext (users.get-create str_key-IsLawful 0),
        )
        (record {
          named = λ n p e. absurd (cc);
          numbered = λ u p e. absurd (cc);
          bounded = λ p l e. absurd (cc);
          kept = λ p l e. absurd (cc);
        })
