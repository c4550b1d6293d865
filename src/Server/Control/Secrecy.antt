-- ===== src/Server/Control/Secrecy.antt =====
-- The values of hidden properties do not reach the replies of the control service.
use sprintframework.Common.{
  true, false, Option, none, some, List, [], ◌∷◌, ◌≡◌, ◌≢◌, refl, sym, ◌∙◌, ap, arith, inl, inr,
}
use sprintframework.Common.{Bytes, codes, bytes_eq, Result, ok, err, Bool-cases}
use mathlib.Core.Path.{Σ_path}
use sprintframework.Strconv.{ℤ, pos, atoi}
use sprintframework.Utils.Tokens.{Jwt}
use sprintframework.App.Property.{is_hidden_property}
use sprintframework.Core.Store.{Store, IsLawful, Visitor, walk}
use sprintframework.Core.ConfigRepository.{Repository, Fault, get, enumerate_all}
use sprintframework.Core.ConfigRepository.Enumeration.{config_entries, enumerate_all_lem}
use sprintframework.Server.Authorization.{Middleware, Context}
use sprintframework.Server.Control.{
  Command, Output, written, panicked, masked, dump_visitor, list_visitor, list_entry, shown_value,
  output, limited, config_get, config_dump, config_list, config,
}

masked_idem : (key value : Bytes) → masked key (masked key value) ≡ masked key value
unfolding masked
masked_idem key value = ground arith

abbrev pub mask_all : List (Bytes × Bytes) → List (Bytes × Bytes)
mask_all [] = []
mask_all ((key, value) ∷ es) = (key, masked key value) ∷ mask_all es

-- A callback that looks at no more than the masked value.
abbrev IsMasking : Visitor Output → Type 0
IsMasking visit =
    (c : Output) (key value : Bytes) → visit c (key, value) ≡ visit c (key, masked key value)

dump_visitor-IsMasking : IsMasking dump_visitor
unfolding dump_visitor
dump_visitor-IsMasking panicked key value = refl
dump_visitor-IsMasking (written out) key value = rw (masked_idem key value)

list_visitor-IsMasking : (limit : ℤ) → IsMasking (list_visitor limit)
unfolding list_visitor
list_visitor-IsMasking limit panicked key value = refl
list_visitor-IsMasking limit (written out) key value =
    ap (list_entry limit out key) (sym (masked_idem key value))

walk-mask_all :
    (visit : Visitor Output) (c : Output) (es : List (Bytes × Bytes))
    → IsMasking visit
    → walk Output visit c es ≡ walk Output visit c (mask_all es)
walk-mask_all visit c [] h = refl
walk-mask_all visit c ((key, value) ∷ es) h =
    rw (h c key value) (rw (walk-mask_all visit (visit c (key, masked key value)).0 es h))

-- The reading of a key with its value left out.
abbrev pub presence : {E : Type 0} → Result E Bytes → Result E (Unit {0})
presence (ok value) = ok tt
presence (err e) = err e

module _ (J : Jwt) (S : Store) (L : IsLawful S) where
  -- Two configurations that differ in the values of hidden properties alone, and fail alike.
  pub record SameVisible (t u : Repository S) : Type 0 where
    pub visible : (key : Bytes) → is_hidden_property key ≡ false → get S t key ≡ get S u key
    pub hidden :
        (key : Bytes)
        → is_hidden_property key ≡ true
        → presence (get S t key) ≡ presence (get S u key)
    pub entries :
        (prefix : Bytes)
        → mask_all (config_entries S L t prefix) ≡ mask_all (config_entries S L u prefix)
    pub failures :
        (prefix : Bytes) (visit : Visitor Output)
        → (enumerate_all S t prefix Output visit (written [])).1
          ≡ (enumerate_all S u prefix Output visit (written [])).1

  enumerated_masked :
      (t : Repository S) (prefix : Bytes) (visit : Visitor Output)
      → IsMasking visit
      → (enumerate_all S t prefix Output visit (written [])).0
        ≡ walk Output visit (written []) (mask_all (config_entries S L t prefix))
  enumerated_masked t prefix visit h =
      (enumerate_all_lem S L t prefix).0 Output visit (written [])
      ∙ walk-mask_all visit (written []) (config_entries S L t prefix) h

  shown_value_hidden :
      (key : Bytes) (r r' : Result (Fault S.Error) Bytes)
      → is_hidden_property key ≡ true
      → presence r ≡ presence r'
      → shown_value J S key r ≡ shown_value J S key r'
  unfolding shown_value masked
  shown_value_hidden key (ok a) (ok b) h e = rw h
  shown_value_hidden key (err a) (err b) h e = ground arith
  shown_value_hidden key (ok a) (err b) h e = absurd (cc)
  shown_value_hidden key (err a) (ok b) h e = absurd (cc)

  enumerate_alike :
      (t u : Repository S) (prefix : Bytes) (visit : Visitor Output)
      → SameVisible t u
      → IsMasking visit
      → enumerate_all S t prefix Output visit (written [])
        ≡ enumerate_all S u prefix Output visit (written [])
  enumerate_alike t u prefix visit v h =
      Σ_path
        (enumerated_masked t prefix visit h
          ∙ ap (walk Output visit (written [])) (v.entries prefix)
          ∙ sym (enumerated_masked u prefix visit h))
        (v.failures prefix visit)

  config_get_alike :
      (t u : Repository S) (args : List Bytes)
      → SameVisible t u
      → config_get J S t args ≡ config_get J S u args
  unfolding config_get
  config_get_alike t u [] v = refl
  config_get_alike t u (key ∷ rest) v = elim (Bool-cases (is_hidden_property key)) [
    | inl h ↦ shown_value_hidden key _ _ h (v.hidden key h)
    | inr h ↦ ap (shown_value J S key) (v.visible key h)
  ]

  config_dump_alike :
      (t u : Repository S) (args : List Bytes)
      → SameVisible t u
      → config_dump J S t args ≡ config_dump J S u args
  unfolding config_dump
  config_dump_alike t u args v = ap (output J S) (enumerate_alike t u _ _ v dump_visitor-IsMasking)

  limited_alike :
      (t u : Repository S) (prefix : Bytes) (limit : Option ℤ)
      → SameVisible t u
      → limited J S t prefix limit ≡ limited J S u prefix limit
  unfolding limited
  limited_alike t u prefix none v = refl
  limited_alike t u prefix (some limit) v =
      ap (output J S) (enumerate_alike t u _ _ v (list_visitor-IsMasking limit))

  config_list_alike :
      (t u : Repository S) (args : List Bytes)
      → SameVisible t u
      → config_list J S t args ≡ config_list J S u args
  unfolding config_list
  config_list_alike t u [] v = limited_alike t u [] (some (pos 80)) v
  config_list_alike t u (p ∷ []) v = limited_alike t u p (some (pos 80)) v
  config_list_alike t u (p ∷ l ∷ rest) v = limited_alike t u p (atoi l) v

  -- The reply to a request on the configuration, `set` excepted, is the same for two
  -- configurations that differ in the values of hidden properties alone and fail alike: it tells
  -- nobody, an administrator included, anything of such a value.
  pub config_keeps_secrets :
      (m : Middleware) (ctx : Context) (req : Command) (t u : Repository S)
      → req.command ≢ codes "set"
      → SameVisible t u
      → (config J S m ctx req t).0 ≡ (config J S m ctx req u).0
  unfolding config
  config_keeps_secrets m ctx req t u ne v = ground (
    arith,
    config_get_alike t u req.args v,
    config_dump_alike t u req.args v,
    config_list_alike t u req.args v,
  )
