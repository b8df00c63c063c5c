-- ===== src/IdentityManager/Order.antt =====
-- The choice of the username in plugin/src/identity_manager.c.
use strongswan_plugin_vpn_cu.Base.{
  ℕ, ◌≡◌, refl, ap, ◌∙◌, true, Option, none, some, List, [], ◌∷◌, if◌then◌else◌, Name, strndup,
}
use strongswan_plugin_vpn_cu.IdentityManager.{
  IdType, Identification, IkeSa, is_text, or_else, rule, pick, username_of, identity_get_username,
}

-- The identities of an IKE_SA, the most telling first: the EAP identity of the authentication, that
-- of the IKE_SA, the identity of the authentication, and the peer's IKE identity.
abbrev pub identities : IkeSa → List (Option Identification)
identities sa =
    elim sa.auth_cfg [ none ↦ none | some ac ↦ ac.eap_identity ]
    ∷ sa.other_eap_id
    ∷ elim sa.auth_cfg [ none ↦ none | some ac ↦ ac.identity ]
    ∷ sa.other_id
    ∷ []

abbrev pub first_there {ℓ} : {A : Type ℓ} → List (Option A) → Option A
first_there [] = none
first_there (none ∷ rest) = first_there rest
first_there (some a ∷ rest) = some a

-- The text of an identity, if it is one that is text and not empty.
abbrev pub text_of : Option Identification → Option Name
text_of none = none
text_of (some id) = elim id.encoding [
  | none ↦ none
  | some bytes ↦ elim bytes [
    | [] ↦ none
    | b ∷ bs ↦ if is_text id.id_type then some (strndup (b ∷ bs)) else none
  ]
]

username_of-text_of : (id : Option Identification) → username_of true id ≡ text_of id
unfolding username_of
username_of-text_of none = refl
username_of-text_of (some id) = decode-text (id.id_type) (id.encoding)
  where
    decode-text :
        (t : IdType) (bytes : Option (List ℕ))
        → username_of true (some (record { id_type = t; encoding = bytes }))
          ≡ text_of (some (record { id_type = t; encoding = bytes }))
    decode-text t none = refl
    decode-text t (some []) = refl
    decode-text t (some (b ∷ bs)) = refl

or_else-first_there :
    (a b c d : Option Identification)
    → or_else (or_else (or_else a b) c) d ≡ first_there (a ∷ b ∷ c ∷ d ∷ [])
unfolding or_else
or_else-first_there (some a) b c d = refl
or_else-first_there none (some b) c d = refl
or_else-first_there none none (some c) d = refl
or_else-first_there none none none (some d) = refl
or_else-first_there none none none none = refl

pick-first_there : (sa : IkeSa) → pick sa ≡ first_there (identities sa)
unfolding pick rule
pick-first_there sa =
    or_else-first_there (rule (λ ac. ac.eap_identity) sa.auth_cfg) sa.other_eap_id
      (rule (λ ac. ac.identity) sa.auth_cfg) sa.other_id

-- With memory for the copy, the username of an IKE_SA is the text of the first identity that it
-- has, of the EAP identity of the authentication, that of the IKE_SA, the identity of the
-- authentication and the peer's IKE identity, so that there is none if that one is empty or no
-- text, whatever the later ones are. This is the order of README.deploy.md 9.1, and not that of
-- identity_manager.h, which leaves the second out; and it stops at the first identity, where
-- README.deploy.md 9.1 goes on to the next.
pub identity_get_username-first_there :
    (sa : IkeSa) → identity_get_username true (some sa) ≡ text_of (first_there (identities sa))
unfolding identity_get_username
identity_get_username-first_there sa =
    username_of-text_of (pick sa) ∙ ap text_of (pick-first_there sa)
