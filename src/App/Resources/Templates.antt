-- ===== src/App/Resources/Templates.antt =====
-- The caches of templates are transparent: as long as the resources stay, a cached answer is the
-- one that reading and parsing would give.
use sprintframework.Common.{some, ◌≡◌, refl, sym, arith, inl, inr, Option-cases, bytes_eq}
use sprintframework.Common.{Bytes, Result, ok, ◌>>=◌, Result-cases}
use sprintframework.Common.Dict
use sprintframework.Common.Dict.{Dict}
use sprintframework.App.Resources.{template, parse_into}

module _ {E T : Type 0} (get : Bytes → Result E Bytes) (parse : Bytes → Bytes → Result E T) where
  -- The template with no cache.
  abbrev pub fetched : Bytes → Result E T
  fetched name = get name >>= parse name

  -- Every cached template is what its resource parses to.
  pub record IsCoherent (templates : Dict Bytes T) : Type 0 where
    pub fresh :
        (name : Bytes) (tpl : T) → Dict.lookup name templates ≡ some tpl → fetched name ≡ ok tpl

  insert-IsCoherent :
      (templates : Dict Bytes T) (name : Bytes) (tpl : T)
      → fetched name ≡ ok tpl
      → IsCoherent templates
      → IsCoherent (Dict.insert name tpl templates)
  insert-IsCoherent templates name tpl e c = record {
    fresh = λ j tpl' h. ground (arith, Dict.lookup-insert j name tpl templates, c.fresh j tpl');
  }

  -- Reading and parsing give the template, and add it to the cache if both succeed.
  parse_into_lem :
      (templates : Dict Bytes T) (name : Bytes)
      → IsCoherent templates
      → ((parse_into get parse templates name (get name)).0 ≡ fetched name)
        × IsCoherent (parse_into get parse templates name (get name)).1
  unfolding parse_into
  parse_into_lem templates name c = elim (Result-cases (get name)) [
    | inr (x, e) ↦ rw (e, parse_into) (refl, c)
    | inl (content, e) ↦ elim (Result-cases (parse name content)) [
      | inr (x, e') ↦ rw (e, parse_into) (rw (e', parse_into) (refl, c))
      | inl (tpl, e') ↦
          rw (e, parse_into)
            (rw (e', parse_into) (refl, insert-IsCoherent templates name tpl (rw e e') c))
    ]
  ]

  -- With or without a cached copy, the template is the one that is fetched, an error included,
  -- and the cache stays coherent.
  pub template-fetched :
      (templates : Dict Bytes T) (name : Bytes)
      → IsCoherent templates
      → ((template get parse templates name).0 ≡ fetched name)
        × IsCoherent (template get parse templates name).1
  unfolding template
  template-fetched templates name c = elim (Option-cases (Dict.lookup name templates)) [
    | inl e ↦ rw (e, template) (parse_into_lem templates name c)
    | inr (tpl, e) ↦ rw (e, template) (sym (c.fresh name tpl e), c)
  ]
