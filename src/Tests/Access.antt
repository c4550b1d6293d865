-- ===== src/Tests/Access.antt =====
-- Requests with a token and without one.
use sprintframework.Common.{
  false, none, some, [], ◌∷◌, ◌≡◌, refl, ap, sym, ◌∙◌, arith, Bytes, codes, ok, err, IsErr, ◌==◌,
  bytes_eq, nat_eq, ==_of_ne, inl, inr, Bool-cases,
}
use sprintframework.Common.Dict
use sprintframework.Common.Dict.{Dict}
use sprintframework.Strings.{has_prefix}
use sprintframework.App.Property.{is_hidden_property}
use sprintframework.Core.Store.Memory.{memory_store, memory_store-IsLawful, under}
use sprintframework.Core.ConfigRepository.{Repository, get, raw_key, enumerate_all}
use sprintframework.Core.ConfigRepository.Keys.{eq-raw_key}
use sprintframework.Core.ConfigRepository.Enumeration.{config_entries}
use sprintframework.Server.Authorization.{
  authenticate_by_header, invalidate_token, get_user, has_user_role,
}
use sprintframework.Server.Authorization.Tokens.{authenticate_by_header-invalidate_token}
use sprintframework.Server.Control.{
  Command, admin_required, node, config, service_command, certificate,
}
use sprintframework.Server.Control.Gate.{refused_without_admin}
use sprintframework.Server.Control.Secrecy.{SameVisible, config_keeps_secrets, mask_all}
use sprintframework.Tests.Samples.{
  one_token, middleware, bearing_alice, as_guest, restart_command, accepting, repository,
}

authenticate_by_header-invalidate_token_example :
    authenticate_by_header one_token (invalidate_token (codes "t") middleware) (codes "Bearer  t ")
    ≡ none
unfolding bytes_eq sprintframework.Strings.trim_space sprintframework.Strings.trim_prefix
authenticate_by_header-invalidate_token_example =
    authenticate_by_header-invalidate_token one_token (codes "t") (codes "Bearer  t ") middleware

refused_without_admin_example :
    (IsErr (node one_token {E = accepting.Error} middleware as_guest restart_command).0
      × ((node one_token {E = accepting.Error} middleware as_guest restart_command).1 ≡ none))
    × (IsErr (config one_token memory_store middleware as_guest restart_command (repository [])).0
        × ((config one_token memory_store middleware as_guest restart_command (repository [])).1
            ≡ repository []))
    × (service_command one_token accepting middleware as_guest restart_command 7
        ≡ (err admin_required, 7))
    × (IsErr (certificate one_token accepting middleware as_guest restart_command (some 7) none).0
        × ((certificate one_token accepting middleware as_guest restart_command (some 7) none).1
            ≡ some 7)
        × ((certificate one_token accepting middleware as_guest restart_command (some 7) none).2
            ≡ none))
unfolding has_user_role get_user bytes_eq
refused_without_admin_example =
    refused_without_admin one_token memory_store accepting middleware as_guest restart_command
      (repository []) 7 (some 7) none refl

-- A configuration whose only property is a hidden one.
abbrev secret : Bytes → Repository memory_store
secret value = repository ((raw_key (codes ".s"), value) ∷ [])

get_secret :
    (key value : Bytes)
    → (raw_key key == raw_key (codes ".s")) ≡ false
    → get memory_store (secret value) key ≡ ok []
unfolding get Dict.lookup
get_secret key value ne = rw ne refl

ne_of_shown :
    (key : Bytes) → is_hidden_property key ≡ false → (raw_key key == raw_key (codes ".s")) ≡ false
unfolding is_hidden_property has_prefix nat_eq
ne_of_shown key h =
    eq-raw_key key (codes ".s")
    ∙ ==_of_ne key (codes ".s") (λ e. absurd (ground (arith, sym (ap is_hidden_property e) ∙ h)))

secret_visible :
    (key : Bytes)
    → is_hidden_property key ≡ false
    → get memory_store (secret (codes "1")) key ≡ get memory_store (secret (codes "2")) key
secret_visible key h =
    get_secret key (codes "1") (ne_of_shown key h)
    ∙ sym (get_secret key (codes "2") (ne_of_shown key h))

secret_entries :
    (prefix : Bytes)
    → mask_all (config_entries memory_store memory_store-IsLawful (secret (codes "1")) prefix)
      ≡ mask_all (config_entries memory_store memory_store-IsLawful (secret (codes "2")) prefix)
unfolding config_entries memory_store-IsLawful under Dict.lookup bytes_eq raw_key
    sprintframework.Server.Control.masked is_hidden_property has_prefix
secret_entries prefix = elim (Bool-cases (has_prefix (raw_key (codes ".s")) (raw_key prefix))) [
  | inl e ↦ rw (e, under, config_entries) refl
  | inr e ↦ rw (e, under, config_entries) refl
]

secret_same :
    SameVisible one_token memory_store memory_store-IsLawful
      (secret (codes "1"))
      (secret (codes "2"))
unfolding get enumerate_all
secret_same = record {
  visible = secret_visible;
  hidden = λ key h. refl;
  entries = secret_entries;
  failures = λ prefix visit. refl;
}

config_keeps_secrets_example :
    let req : Command = record { command = codes "dump"; args = [] } in
    (config one_token memory_store middleware bearing_alice req (secret (codes "1"))).0
    ≡ (config one_token memory_store middleware bearing_alice req (secret (codes "2"))).0
config_keeps_secrets_example =
    config_keeps_secrets one_token memory_store memory_store-IsLawful middleware bearing_alice
      (record { command = codes "dump"; args = [] }) (secret (codes "1")) (secret (codes "2"))
      (λ e. absurd (ground arith)) secret_same
