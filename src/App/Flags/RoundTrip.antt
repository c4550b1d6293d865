-- ===== src/App/Flags/RoundTrip.antt =====
-- The properties of a process reach its child: what `RegisterServerArgs` writes is read back.
use sprintframework.App.Flags.WellFormed.{KeysLackEq, IsWellFormed}
use sprintframework.Common.{zero, suc, Bool, true, false, Option, none, some, List, [], ◌∷◌, ◌++◌}
use sprintframework.Common.{Bytes, codes, ◌==◌, bytes_eq, if◌then◌else◌, ◌≡◌, ◌≢◌}
use sprintframework.Common.{ok, arith, refl, sym, ◌∙◌, inl, inr, Option-cases}
use sprintframework.Common.{take-append, drop-append_cons}
use sprintframework.Common.Dict
use sprintframework.Common.Dict.{Dict, NodupKeys}
use sprintframework.Strings.Laws.{Lacks, index_byte-append}
use sprintframework.Strconv.{ℤ, pos, negsuc, itoa, atoi, atoi-itoa, IsInt, is_positive}
use sprintframework.App.Flags.{
  KeyValueFlags, entries, set_key_value, ApplicationFlags, verbose, node, property_args,
  register_server_args, get_property, register_flags, new_flags,
}
use sprintframework.App.Flags.Parse.{parse_flags}

-- `key=value` is cut at its first equals sign.
pub set_key_value_pair :
    (k v : Bytes) (f : KeyValueFlags)
    → Lacks b'=' k
    → set_key_value (k ++ (b'=' ∷ v)) f ≡ some (Dict.insert k v (entries f))
unfolding set_key_value
set_key_value_pair k v f h =
    rw (index_byte-append k v b'=' h, set_key_value) (rw (take-append, drop-append_cons k b'=' v))

-- The properties as the child has them: those with a key, set in turn.
abbrev pub received : KeyValueFlags → Dict Bytes Bytes → KeyValueFlags
received f [] = f
received f ((k, v) ∷ p) = received (if k == [] then f else some (Dict.insert k v (entries f))) p

lookup-received_absent :
    (p : Dict Bytes Bytes) (f : KeyValueFlags) (j : Bytes)
    → Dict.lookup j p ≡ none
    → Dict.lookup j (entries (received f p)) ≡ Dict.lookup j (entries f)
lookup-received_absent [] f j h = refl
lookup-received_absent ((k, v) ∷ p) f j h = ground (
  arith,
  Dict.lookup-cons j k v p,
  lookup-received_absent p f j,
  lookup-received_absent p (some (Dict.insert k v (entries f))) j,
  Dict.lookup-insert j k v (entries f),
)

lookup-received :
    (p : Dict Bytes Bytes) (f : KeyValueFlags) (j v : Bytes)
    → NodupKeys p
    → j ≢ []
    → Dict.lookup j p ≡ some v
    → Dict.lookup j (entries (received f p)) ≡ some v
lookup-received [] f j v u h e = let e' : none ≡ some v = rw Dict.lookup-nil at e in cc
lookup-received ((k, w) ∷ p) f j v (fresh, u) h e = ground (
  arith,
  Dict.lookup-cons j k w p,
  lookup-received p f j v u,
  lookup-received p (some (Dict.insert k w (entries f))) j v u,
  lookup-received_absent p (some (Dict.insert k w (entries f))) k,
  Dict.lookup-insert j k w (entries f),
)

parse_p :
    (value : Bytes) (rest : List Bytes) (t : ApplicationFlags)
    → parse_flags (codes "-p" ∷ value ∷ rest) none t
      ≡ parse_flags rest none (record t { properties = set_key_value value t.properties })
unfolding parse_flags
parse_p value rest t = refl

parse_n :
    (value : Bytes) (z : ℤ) (rest : List Bytes) (t : ApplicationFlags)
    → atoi value ≡ some z
    → parse_flags (codes "-n" ∷ value ∷ rest) none t
      ≡ parse_flags rest none (record t { node = some z })
unfolding parse_flags
parse_n value z rest t h = rw (h, parse_flags)

parse_v :
    (rest : List Bytes) (t : ApplicationFlags)
    → parse_flags (codes "-v" ∷ rest) none t
      ≡ parse_flags rest none (record t { verbose = some true })
unfolding parse_flags
parse_v rest t = refl

parse_d :
    (rest : List Bytes) (t : ApplicationFlags)
    → parse_flags (codes "-d" ∷ rest) none t
      ≡ parse_flags rest none (record t { daemon = some true })
unfolding parse_flags
parse_d rest t = refl

parse-property_args :
    (p : Dict Bytes Bytes) (rest : List Bytes) (t : ApplicationFlags)
    → KeysLackEq p
    → parse_flags (property_args p ++ rest) none t
      ≡ parse_flags rest none (record t { properties = received t.properties p })
unfolding property_args
parse-property_args [] rest t _ = refl
parse-property_args ((k, v) ∷ p) rest t (h, hp) = ground (
  arith,
  parse-property_args p rest t hp,
  parse_p (k ++ (b'=' ∷ v)) (property_args p ++ rest) t,
  set_key_value_pair k v t.properties h,
  parse-property_args p rest
      (record t { properties = some (Dict.insert k v (entries t.properties)) }) hp,
)

-- The command line that the start of a node gives its child.
abbrev pub child_args : ApplicationFlags → List Bytes
child_args t = register_server_args t (codes "-d" ∷ []) ++ (codes "node" ∷ codes "run" ∷ [])

abbrev pub fresh_flags : ℤ → ApplicationFlags
fresh_flags priority = register_flags (new_flags priority)

-- The flags that the child ends up with.
unfoldable pub child_flags : ApplicationFlags → ℤ → ApplicationFlags
child_flags t priority = record {
  daemon = some true;
  verbose = some (verbose t);
  node = some (if is_positive (node t) then node t else pos 0);
  priority = priority;
  properties = received (some []) (entries t.properties);
}

abbrev pub command_words : List Bytes
command_words = codes "node" ∷ codes "run" ∷ []

parse-command_words :
    (t : ApplicationFlags) → parse_flags command_words none t ≡ ok (t, command_words)
unfolding parse_flags
parse-command_words t = refl

-- The arguments as `RegisterServerArgs` writes them, from the values that it reads.
abbrev pub written : Bool → ℤ → Dict Bytes Bytes → List Bytes
written v z p =
    let args1 = if v then codes "-d" ∷ codes "-v" ∷ [] else codes "-d" ∷ [] in
    let args2 = if is_positive z then args1 ++ (codes "-n" ∷ itoa z ∷ []) else args1 in
    (args2 ++ property_args p) ++ command_words

pub parse-written :
    (v : Bool) (z : ℤ) (p : Dict Bytes Bytes) (priority : ℤ)
    → IsInt z
    → KeysLackEq p
    → parse_flags (written v z p) none (fresh_flags priority)
      ≡ ok (
        record {
          daemon = some true;
          verbose = some v;
          node = some (if is_positive z then z else pos 0);
          priority = priority;
          properties = received (some []) p;
        },
        command_words,
      )
unfolding register_flags new_flags
parse-written true (pos zero) p priority fits h =
    rw (parse_d, parse_v, parse-property_args p _ _ h) (parse-command_words _)
parse-written false (pos zero) p priority fits h =
    rw (parse_d, parse-property_args p _ _ h) (parse-command_words _)
parse-written true (negsuc n) p priority fits h =
    rw (parse_d, parse_v, parse-property_args p _ _ h) (parse-command_words _)
parse-written false (negsuc n) p priority fits h =
    rw (parse_d, parse-property_args p _ _ h) (parse-command_words _)
parse-written true (pos (suc n)) p priority fits h =
    rw (parse_d, parse_v, parse_n _ _ _ _ (atoi-itoa (pos (suc n)) fits))
      (rw (parse-property_args p _ _ h) (parse-command_words _))
parse-written false (pos (suc n)) p priority fits h =
    rw (parse_d, parse_n _ _ _ _ (atoi-itoa (pos (suc n)) fits))
      (rw (parse-property_args p _ _ h) (parse-command_words _))

-- The child of a process reads the command line that `RegisterServerArgs` wrote for it, if the
-- node number is an int and the map of properties has no key twice and no equals sign in a key:
-- the child is a daemon, it has the same verbosity, the same positive node number and the
-- properties in turn, and the words `node run` are left for it.
pub parse-child_args :
    (t : ApplicationFlags) (priority : ℤ)
    → IsInt (node t)
    → IsWellFormed t.properties
    → parse_flags (child_args t) none (fresh_flags priority)
      ≡ ok (child_flags t priority, codes "node" ∷ codes "run" ∷ [])
unfolding register_server_args child_flags
parse-child_args t priority fits w =
    parse-written (verbose t) (node t) (entries t.properties) priority fits w.lack

pub lookup-entries :
    (f : KeyValueFlags) (key : Bytes)
    → (elim f as (λ _. Option Bytes) [ none ↦ none | some m ↦ Dict.lookup key m ])
      ≡ Dict.lookup key (entries f)
lookup-entries none key = sym (Dict.lookup-nil key)
lookup-entries (some m) key = refl

pub get_property-lookup :
    (t : ApplicationFlags) (key : Bytes)
    → get_property t key ≡ Dict.lookup key (entries t.properties)
unfolding get_property
get_property-lookup t key = lookup-entries t.properties key

lookup-child_flags :
    (t : ApplicationFlags) (priority : ℤ) (key : Bytes)
    → IsWellFormed t.properties
    → key ≢ []
    → Dict.lookup key (entries (child_flags t priority).properties)
      ≡ Dict.lookup key (entries t.properties)
unfolding child_flags
lookup-child_flags t priority key w h =
    elim (Option-cases (Dict.lookup key (entries t.properties))) [
      | inl e ↦
          lookup-received_absent (entries t.properties) (some []) key e
          ∙ Dict.lookup-nil key
          ∙ sym e
      | inr (v, e) ↦ lookup-received (entries t.properties) (some []) key v w.nodup h e ∙ sym e
    ]

pub get_property-child_flags :
    (t : ApplicationFlags) (priority : ℤ) (key : Bytes)
    → IsWellFormed t.properties
    → key ≢ []
    → get_property (child_flags t priority) key ≡ get_property t key
get_property-child_flags t priority key w h =
    get_property-lookup (child_flags t priority) key
    ∙ lookup-child_flags t priority key w h
    ∙ sym (get_property-lookup t key)

-- The child of a process parses the command line that `RegisterServerArgs` wrote for it, and what
-- it has parsed resolves every key but the empty one as the parent's flags do, to the same value
-- or to none. The node number is an int, and no key of the parent's map of properties stands twice
-- or holds an equals sign.
pub get_property-parse :
    (t : ApplicationFlags) (priority : ℤ)
    → IsInt (node t)
    → IsWellFormed t.properties
    → (child : ApplicationFlags) × (parse_flags (child_args t) none (fresh_flags priority)
        ≡ ok (child, command_words))
      × ((key : Bytes) → key ≢ [] → get_property child key ≡ get_property t key)
get_property-parse t priority fits w = (
  child_flags t priority,
  parse-child_args t priority fits w,
  (λ key. get_property-child_flags t priority key w),
)
