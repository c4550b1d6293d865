-- ===== src/Cmd/Child.antt =====
-- The flags of the process that a start launches.
use sprintframework.Common.{◌≡◌, ◌≢◌, refl, sym, ap, ◌∙◌, arith}
use sprintframework.Common.{Option, none, some, [], ◌∷◌, ◌++◌, append_assoc}
use sprintframework.Common.{Bytes, codes, ◌==◌, nat_eq, bytes_eq, if◌then◌else◌, ok}
use sprintframework.Common.{==_of_ne, ==_self}
use sprintframework.Common.Dict
use sprintframework.Common.Dict.{Dict}
use sprintframework.Strconv.{ℤ, IsInt, is_positive, itoa}
use sprintframework.App.Flags.{
  ApplicationFlags, entries, node, verbose, get_property, property_args, register_server_args,
}
use sprintframework.App.Flags.Parse.{parse_flags}
use sprintframework.App.Flags.WellFormed.{KeysLackEq, IsWellFormed}
use sprintframework.App.Flags.RoundTrip.{
  received, written, command_words, parse-written, fresh_flags, child_flags,
  get_property-child_flags, get_property-lookup,
}
use sprintframework.Cmd.Node.{start_args, update_args}

abbrev pub update_key : Bytes
update_key = codes "autoupdate.file"

property_args-append :
    (p : Dict Bytes Bytes) (path : Bytes)
    → property_args (p ++ ((update_key, path) ∷ [])) ≡ property_args p ++ update_args (some path)
unfolding property_args update_args bytes_eq
property_args-append [] path = refl
property_args-append ((k, v) ∷ p) path = ground (arith, property_args-append p path)

received-append :
    (f : Option (Dict Bytes Bytes)) (p : Dict Bytes Bytes) (path : Bytes)
    → received f (p ++ ((update_key, path) ∷ []))
      ≡ some (Dict.insert update_key path (entries (received f p)))
unfolding bytes_eq
received-append f [] path = refl
received-append f ((k, v) ∷ p) path =
    received-append (if k == [] then f else some (Dict.insert k v (entries f))) p path

KeysLackEq-append :
    (p : Dict Bytes Bytes) (path : Bytes)
    → KeysLackEq p
    → KeysLackEq (p ++ ((update_key, path) ∷ []))
KeysLackEq-append [] path h = ground arith
KeysLackEq-append ((k, v) ∷ p) path (l, h) = (l, KeysLackEq-append p path h)

-- The flags of the child, with the file that it was copied from.
pub updated_flags : ApplicationFlags → ℤ → Bytes → ApplicationFlags
updated_flags t priority path = record (child_flags t priority) {
  properties = some (Dict.insert update_key path (entries (child_flags t priority).properties));
}

start_args-written :
    (t : ApplicationFlags) (path : Bytes)
    → start_args t (some path)
      ≡ written (verbose t) (node t) (entries t.properties ++ ((update_key, path) ∷ []))
unfolding start_args register_server_args
start_args-written t path =
    let args1 = if verbose t then codes "-d" ∷ codes "-v" ∷ [] else codes "-d" ∷ [] in
    let args2 =
      if is_positive (node t) then args1 ++ (codes "-n" ∷ itoa (node t) ∷ []) else args1 in
    let p = entries t.properties in
    ap (λ a. a ++ command_words)
      (append_assoc args2 (property_args p) (update_args (some path))
        ∙ ap (λ a. args2 ++ a) (sym (property_args-append p path)))

updated_flags-eq :
    (t : ApplicationFlags) (priority : ℤ) (path : Bytes)
    → record (child_flags t priority) {
      properties = received (some []) (entries t.properties ++ ((update_key, path) ∷ []));
    }
      ≡ updated_flags t priority path
unfolding child_flags updated_flags
updated_flags-eq t priority path =
    ap (λ f. record (child_flags t priority) { properties = f })
      (received-append (some []) (entries t.properties) path)

start_args-parsed :
    (t : ApplicationFlags) (priority : ℤ) (path : Bytes)
    → IsInt (node t)
    → IsWellFormed t.properties
    → parse_flags (start_args t (some path)) none (fresh_flags priority)
      ≡ ok (updated_flags t priority path, command_words)
unfolding child_flags updated_flags
start_args-parsed t priority path fits w = rw (start_args-written t path) (
    parse-written (verbose t) (node t) (entries t.properties ++ ((update_key, path) ∷ [])) priority
      fits (KeysLackEq-append (entries t.properties) path w.lack)
    ∙ ap (λ f. ok (f, command_words)) (updated_flags-eq t priority path))

get_property-updated :
    (t : ApplicationFlags) (priority : ℤ) (path key : Bytes)
    → get_property (updated_flags t priority path) key
      ≡ (if key == update_key then some path else get_property (child_flags t priority) key)
unfolding updated_flags
get_property-updated t priority path key =
    get_property-lookup (updated_flags t priority path) key
    ∙ Dict.lookup-insert key update_key path (entries (child_flags t priority).properties)
    ∙ ap (λ o. if key == update_key then some path else o)
        (sym (get_property-lookup (child_flags t priority) key))

pub child_of_update :
    (t : ApplicationFlags) (priority : ℤ) (path : Bytes)
    → IsInt (node t)
    → IsWellFormed t.properties
    → (parse_flags (start_args t (some path)) none (fresh_flags priority)
        ≡ ok (updated_flags t priority path, codes "node" ∷ codes "run" ∷ []))
      × (get_property (updated_flags t priority path) update_key ≡ some path)
      × ((key v : Bytes)
          → key ≢ []
          → key ≢ update_key
          → get_property t key ≡ some v
          → get_property (updated_flags t priority path) key ≡ some v)
child_of_update t priority path fits w = (
  start_args-parsed t priority path fits w,
  get_property-updated t priority path update_key ∙ rw (==_self update_key) refl,
  (λ key v n u e.
      get_property-updated t priority path key
      ∙ rw (==_of_ne key update_key u) (get_property-child_flags t priority key w n ∙ e)),
)
