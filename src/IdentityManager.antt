-- ===== src/IdentityManager.antt =====
-- plugin/src/identity_manager.c: the username of a peer. strongSwan's IKE_SA is a parameter: what its
-- methods return during the call.
pub mod Order
use strongswan_plugin_vpn_cu.Base.{
  ℕ, Bool, true, false, Option, none, some, List, [], ◌∷◌, if◌then◌else◌, Name, strndup,
}

pub data IdType : Type 0 where
  fqdn rfc822_addr key_id : IdType
  -- `ID_IPV4_ADDR`, `ID_ASN1_DN` and all the others
  other_type : ℕ → IdType

-- `encoding` is `none` where the chunk's pointer is NULL.
pub record Identification : Type 0 where
  pub id_type : IdType
  pub encoding : Option (List ℕ)

pub record AuthCfg : Type 0 where
  pub eap_identity : Option Identification
  pub identity : Option Identification

pub record IkeSa : Type 0 where
  pub unique_id : ℕ
  pub auth_cfg : Option AuthCfg
  pub other_eap_id : Option Identification
  pub other_id : Option Identification

-- `if (!id) id = e;`
pub or_else : {A : Type 0} → Option A → Option A → Option A
or_else none e = e
or_else (some a) e = some a

pub rule : (AuthCfg → Option Identification) → Option AuthCfg → Option Identification
rule get none = none
rule get (some ac) = get ac

-- The four places in which the identity is looked for.
unfoldable pub pick : IkeSa → Option Identification
unfolding or_else rule
pick sa =
    or_else
      (or_else (or_else (rule (λ ac. ac.eap_identity) sa.auth_cfg) sa.other_eap_id)
        (rule (λ ac. ac.identity) sa.auth_cfg))
      sa.other_id

abbrev pub is_text : IdType → Bool
is_text (other_type n) = false
is_text _ = true

-- `strdup_ok` says whether there is memory for the copy.
decode : Bool → IdType → Option (List ℕ) → Option Name
decode strdup_ok t none = none
decode strdup_ok t (some []) = none
decode strdup_ok t (some (b ∷ bs)) =
    if is_text t then (if strdup_ok then some (strndup (b ∷ bs)) else none) else none

pub username_of : Bool → Option Identification → Option Name
unfolding decode
username_of strdup_ok none = none
username_of strdup_ok (some id) = decode strdup_ok id.id_type id.encoding

-- `ike_sa` may be NULL.
unfoldable pub identity_get_username : Bool → Option IkeSa → Option Name
unfolding username_of pick
identity_get_username strdup_ok none = none
identity_get_username strdup_ok (some sa) = username_of strdup_ok (pick sa)
