-- ===== src/Cmd/RoundTrip.antt =====
-- The command 'config' while no node runs.
use sprintframework.Common.{ℕ, ◌≡◌, ◌≢◌, refl, ap, ◌∙◌, arith}
use sprintframework.Common.{false, Option, none, some, List, [], ◌∷◌}
use sprintframework.Common.{Bytes, codes, nat_eq, bytes_eq, if◌then◌else◌, ok, err, ◌>>=◌}
use sprintframework.Strings.{has_prefix}
use sprintframework.Core.Store.{Store, IsLawful}
use sprintframework.Core.ConfigRepository.{Repository, Fault, set}
use sprintframework.Core.ConfigRepository.Properties.{get-set}
use sprintframework.Server.Control.{Command}
use sprintframework.Client.{Method, config, Connection, command, wrapped, wrap_error}
use sprintframework.Cmd.{Runner, do_in_core, in_core, or_local}
use sprintframework.Cmd.Config.{
  Input, given_value, loaded, set_value, told, get_config, set_config, get_from_storage,
  set_in_storage,
}
use sprintframework.Cmd.Fallback.{
  Connects, only, get_config-reply, reply_or-err, get_from_storage-only,
}

-- Every call of the connection fails and leaves all as it is.
abbrev pub IsDown : {W : Type 0} → Connection W → Type 0
IsDown {W} c =
    (method : Method) (req : Command) (w : W) → (e : c.Error) × (c.call method req w ≡ (err e, w))

module _ (S : Store) (print : Fault S.Error → Bytes) where
  told-none :
      (p : Option (Fault S.Error) × Repository S × List ℕ)
      → p.0 ≡ none
      → told S print p ≡ (ok (codes "SUCCESS"), p.1)
  unfolding told
  told-none (none, t, handles) h = refl
  told-none (some e, t, handles) h = absurd (ground (arith, h))

module _ (S : Store) (print : Fault S.Error → Bytes) {W : Type 0} where
  set_in_storage-only :
      (run : Runner W) (t : Repository S) (key value : Bytes)
      → (set S t key value).0 ≡ none
      → set_in_storage S print run (only t) key value
        ≡ (ok (codes "SUCCESS"), some (set S t key value).1)
  unfolding set_in_storage do_in_core in_core told
  set_in_storage-only run t key value h =
      ap (λ r. (r.0, some r.1)) (told-none S print (set S t key value) h)

  set_value-down :
      (run : Runner W) (c : Connection W) (t : Repository S) (key value : Bytes) (w : W)
      → Connects run c
      → IsDown c
      → (set S t key value).0 ≡ none
      → set_value S print run (only t) key (ok value) w
        ≡ (ok (codes "SUCCESS"), w, some (set S t key value).1)
  unfolding set_value or_local command wrapped wrap_error
  set_value-down run c t key value w h down q =
      let (e, refused) =
        down config (record { command = codes "set"; args = key ∷ value ∷ [] }) w in
      let local = set_in_storage S print run (only t) key value in
      ap (λ r. or_local r local) (h Bytes _ w)
      ∙ ap
          (λ r.
            or_local ((wrapped c r).0 >>= (λ content. ok (codes "SUCCESS")), (wrapped c r).1) local)
          refused
      ∙ ap (λ r. (r.0, w, r.1)) (set_in_storage-only run t key value q)

  get_config-down :
      (run : Runner W) (c : Connection W) (t : Repository S) (key value : Bytes) (rest : List Bytes)
      (w : W)
      → Connects run c
      → IsDown c
      → sprintframework.Core.ConfigRepository.get S t key ≡ ok value
      → get_config S print run (only t) (key ∷ rest) w ≡ (ok value, w, some t)
  get_config-down run c t key value rest w h down g =
      let (e, refused) = down config (record { command = codes "get"; args = key ∷ [] }) w in
      get_config-reply S print run (only t) c key rest w h
      ∙ reply_or-err c config (codes "get") (key ∷ []) w w e
          (get_from_storage S print run (only t) key) refused
      ∙ ap (λ r. (r.0, w, r.1)) (get_from_storage-only S print run t key value g)

  -- While no node answers, 'config set' with a value that is not empty and not the name of a file
  -- reports success and writes the only core's repository, and 'config get' on that repository
  -- prints the value, if the store sets it. The client that is found is a connection whose calls
  -- all fail.
  pub get_config-set_config :
      (L : IsLawful S) (i : Input) (run : Runner W) (c : Connection W) (t : Repository S)
      (key value : Bytes) (rest more : List Bytes) (w : W)
      → Connects run c
      → IsDown c
      → value ≢ []
      → has_prefix value (codes "@") ≡ false
      → (set S t key value).0 ≡ none
      → let u = (set S t key value).1 in
        (set_config S print run (only t) i (key ∷ value ∷ rest) w
          ≡ (ok (codes "SUCCESS"), w, some u))
        × (get_config S print run (only u) (key ∷ more) w ≡ (ok value, w, some u))
  unfolding set_config given_value loaded
  get_config-set_config L i run c t key value rest more w h down ne at q =
      let u = (set S t key value).1 in
      (
        rw (at, if◌then◌else◌) (set_value-down run c t key value w h down q),
        get_config-down run c u key value more w h down (get-set S L t key value ne q),
      )
