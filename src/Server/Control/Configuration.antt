-- ===== src/Server/Control/Configuration.antt =====
-- What an administrator sets is what is read back.
use sprintframework.Common.{none, List, [], ◌∷◌, ◌≡◌, ◌≢◌, arith}
use sprintframework.Common.{Bytes, codes, if◌then◌else◌, ok}
use sprintframework.Utils.Tokens.{Jwt}
use sprintframework.App.Property.{is_hidden_property}
use sprintframework.Core.Store.{Store, IsLawful}
use sprintframework.Core.ConfigRepository.{Repository, set}
use sprintframework.Core.ConfigRepository.Properties.{get-set}
use sprintframework.Server.Control.{stars, masked, config_get, config_set, shown_value}

module _ (J : Jwt) (S : Store) (L : IsLawful S) where
  config_set-ok :
      (t : Repository S) (key value : Bytes) (rest : List Bytes)
      → (config_set J S t (key ∷ value ∷ rest)).0 ≡ ok (codes "OK")
      → ((set S t key value).0 ≡ none)
        × ((config_set J S t (key ∷ value ∷ rest)).1 ≡ (set S t key value).1)
  unfolding config_set
  config_set-ok t key value rest h = ground arith

  -- After `set` has replied OK to a value that is not empty, `get` replies that value, or stars
  -- if the key is hidden; further arguments of either command change nothing.
  pub config_get-config_set :
      (t : Repository S) (key value : Bytes) (rest more : List Bytes)
      → value ≢ []
      → (config_set J S t (key ∷ value ∷ rest)).0 ≡ ok (codes "OK")
      → config_get J S (config_set J S t (key ∷ value ∷ rest)).1 (key ∷ more)
        ≡ ok (if is_hidden_property key then stars else value)
  unfolding config_get masked
  config_get-config_set t key value rest more ne h =
      let (e, u) = config_set-ok t key value rest h in
      rw u (rw (get-set S L t key value ne e, shown_value))
