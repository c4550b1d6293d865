-- ===== src/Core/StorageService/Console.antt =====
-- The console answers every request.
use sprintframework.Common.{
  ℕ, ◌+◌, Bool, true, none, some, List, [], ◌∷◌, ◌++◌, ◌≡◌, refl, ◌∙◌, arith, length,
}
use sprintframework.Common.{Bytes, codes, bytes_eq, inl, inr, Bool-cases, Option-cases}
use sprintframework.Common.Dict
use sprintframework.Strings.{has_prefix, trim_space}
use sprintframework.Common.{drop}
use sprintframework.Core.Store.{Store, IsLawful}
use sprintframework.Core.StorageService.{
  Codec, Failure, Storage, Response, content, no_such_storage, selected, internal_error, send_error,
  finished, execute_query, parse_query, send_content, use_storage, error_response, answer_query,
  send_failure, console,
}
use sprintframework.Core.StorageService.Queries.{query_store_keeps}

module _ (S : Store) (L : IsLawful S) (K : Codec) where
  -- A stream that never fails, which keeps what was sent.
  abbrev pub recorded : List (Response S K) → Response S K → List (Response S K) × Bool
  recorded w r = (w ++ (r ∷ []), true)

  -- How many answers are complete.
  abbrev pub answers : List (Response S K) → ℕ
  answers [] = 0
  answers (finished ∷ w) = answers w + 1
  answers (content _ ∷ w) = answers w
  answers (no_such_storage _ ∷ w) = answers w
  answers (selected _ ∷ w) = answers w
  answers (internal_error _ ∷ w) = answers w
  answers (send_error ∷ w) = answers w

  pub answers-append : (v w : List (Response S K)) → answers (v ++ w) ≡ answers v + answers w
  answers-append [] w = omega arith
  answers-append (finished ∷ v) w = let rest = answers-append v w in omega arith
  answers-append (content _ ∷ v) w = answers-append v w
  answers-append (no_such_storage _ ∷ v) w = answers-append v w
  answers-append (selected _ ∷ v) w = answers-append v w
  answers-append (internal_error _ ∷ v) w = answers-append v w
  answers-append (send_error ∷ v) w = answers-append v w

  execute_query-answers :
      (n : ℕ) (current query : Bytes) (t : Storage S K) (w : List (Response S K))
      → answers w ≡ n
      → answers (execute_query S K (send_content S K recorded) w current query t).2 ≡ n
  unfolding send_content execute_query
  execute_query-answers n current query t w h =
      elim (Option-cases (Dict.lookup current t.store_map)) [
        | inl e ↦ rw (e, execute_query) h
        | inr (s, e) ↦
            rw (e, execute_query)
              (query_store_keeps S L K (send_content S K recorded) (λ v. answers v ≡ n)
                (λ v text p. answers-append v (content text ∷ []) ∙ omega arith) w
                t.available_stores (parse_query query).0 (parse_query query).1 s h)
      ]

  error_response-answers :
      (e : Failure S K) (v : List (Response S K))
      → answers (send_failure S K recorded v (error_response S K recorded e)) ≡ answers v
  unfolding send_failure error_response
  error_response-answers none v = refl
  error_response-answers (some e) v = answers-append v (internal_error e ∷ []) ∙ omega arith

  use_storage-answers :
      (current name : Bytes) (t : Storage S K) (w : List (Response S K))
      → let (r, _, v) = use_storage S K recorded current name t w in
        answers (send_failure S K recorded v r) ≡ answers w
  unfolding use_storage send_failure
  use_storage-answers current name t w = elim (Option-cases (Dict.lookup name t.store_map)) [
    | inl e ↦ rw (e, use_storage) (answers-append w (no_such_storage name ∷ []) ∙ omega arith)
    | inr (s, e) ↦ rw (e, use_storage) (answers-append w (selected name ∷ []) ∙ omega arith)
  ]

  pub answer_query-answers :
      (current query : Bytes) (t : Storage S K) (w : List (Response S K))
      → let (r, name, u, v) = answer_query S K recorded current query t w in
        answers (send_failure S K recorded v r) ≡ answers w
  unfolding answer_query
  answer_query-answers current query t w = elim (Bool-cases (has_prefix query (codes "use "))) [
    | inl h ↦ rw (h, answer_query) (use_storage-answers current (trim_space (drop 4 query)) t w)
    | inr h ↦
        rw (h, answer_query)
          (error_response-answers
              (execute_query S K (send_content S K recorded) w current query t).0
              (execute_query S K (send_content S K recorded) w current query t).2
            ∙ execute_query-answers (answers w) current query t w refl)
  ]

  -- On a stream that does not fail, the console returns without an error when the requests end,
  -- and has then completed one answer for each of them, whatever they ask.
  pub console-answers :
      (current : Bytes) (queries : List Bytes) (t : Storage S K) (w : List (Response S K))
      → let (returned, u, v) = console S K recorded current queries t w in
        (returned ≡ true) × (answers v ≡ answers w + length queries)
  unfolding console
  console-answers current [] t w = (refl, omega arith)
  console-answers current (query ∷ more) t w =
      let (r, name, u, v) = answer_query S K recorded current query t w in
      let x = send_failure S K recorded v r in
      let rest = console-answers name more u (x ++ (finished ∷ [])) in
      let grown = answers-append x (finished ∷ []) in
      let same = answer_query-answers current query t w in (rest.0, omega arith)
