-- ===== src/Client/Console/Session.antt =====
-- A session of the client's console with the console of the storage service.
use sprintframework.Common.{◌≡◌, refl, sym, ap, ◌∙◌, arith, append_assoc, append-nil}
use sprintframework.Common.{
  none, some, Option-cases, Bool-cases, inl, inr, List, [], ◌∷◌, ◌++◌, map, length, drop,
  drop-append, Result, ok,
}
use sprintframework.Common.{Bytes, codes, ◌==◌, nat_eq, bytes_eq, if◌then◌else◌}
use sprintframework.Common.Dict
use sprintframework.Strings.{has_prefix, trim_space}
use sprintframework.Core.Store.{Store, IsLawful}
use sprintframework.Core.StorageService.{
  Codec, Failure, Storage, Response, content, no_such_storage, selected, internal_error, send_error,
  finished, execute_query, parse_query, send_content, use_storage, error_response, answer_query,
  send_failure, console,
}
use sprintframework.Core.StorageService.Queries.{query_store_keeps}
use sprintframework.Core.StorageService.Console.{recorded, answers, answers-append}
use sprintframework.Client.Console.{
  Event, got, Line, answer, complaint, passed, receive, End, asking, left, session,
}

module _ (S : Store) (L : IsLawful S) (K : Codec) where
  -- More was sent, but no end of an answer.
  abbrev Grows : List (Response S K) → List (Response S K) → Type 0
  Grows w v = (z : List (Response S K)) × (v ≡ w ++ z) × (answers S L K z ≡ 0)

  append_one-Grows :
      (w v : List (Response S K)) (r : Response S K)
      → answers S L K (r ∷ []) ≡ 0
      → Grows w v
      → Grows w (v ++ (r ∷ []))
  append_one-Grows w v r e (z, same, h) = (
    z ++ (r ∷ []),
    ap (λ x. x ++ (r ∷ [])) same ∙ append_assoc w z (r ∷ []),
    answers-append S L K z (r ∷ []) ∙ omega (arith, e, h),
  )

  no_growth : (w : List (Response S K)) → Grows w w
  no_growth w = ([], sym (append-nil w), refl)

  execute_query-Grows :
      (current query : Bytes) (t : Storage S K) (w : List (Response S K))
      → Grows w (execute_query S K (send_content S K (recorded S L K)) w current query t).2
  unfolding send_content execute_query
  execute_query-Grows current query t w = elim (Option-cases (Dict.lookup current t.store_map)) [
    | inl e ↦ rw (e, execute_query) (no_growth w)
    | inr (s, e) ↦
        rw (e, execute_query)
          (query_store_keeps S L K (send_content S K (recorded S L K)) (Grows w)
            (λ v text. append_one-Grows w v (content text) refl) w t.available_stores
            (parse_query query).0 (parse_query query).1 s (no_growth w))
  ]

  error_response-Grows :
      (w : List (Response S K)) (e : Failure S K) (v : List (Response S K))
      → Grows w v
      → Grows w (send_failure S K (recorded S L K) v (error_response S K (recorded S L K) e))
  unfolding send_failure error_response
  error_response-Grows w none v h = h
  error_response-Grows w (some e) v h = append_one-Grows w v (internal_error e) refl h

  use_storage-Grows :
      (current name : Bytes) (t : Storage S K) (w : List (Response S K))
      → let (r, _, v) = use_storage S K (recorded S L K) current name t w in
        Grows w (send_failure S K (recorded S L K) v r)
  unfolding use_storage send_failure
  use_storage-Grows current name t w = elim (Option-cases (Dict.lookup name t.store_map)) [
    | inl e ↦ rw (e, use_storage) (append_one-Grows w w (no_such_storage name) refl (no_growth w))
    | inr (s, e) ↦ rw (e, use_storage) (append_one-Grows w w (selected name) refl (no_growth w))
  ]

  answer_query-Grows :
      (current query : Bytes) (t : Storage S K) (w : List (Response S K))
      → let (r, name, u, v) = answer_query S K (recorded S L K) current query t w in
        Grows w (send_failure S K (recorded S L K) v r)
  unfolding answer_query
  answer_query-Grows current query t w = elim (Bool-cases (has_prefix query (codes "use "))) [
    | inl h ↦ rw (h, answer_query) (use_storage-Grows current (trim_space (drop 4 query)) t w)
    | inr h ↦
        rw (h, answer_query)
          (error_response-Grows w
            (execute_query S K (send_content S K (recorded S L K)) w current query t).0
            (execute_query S K (send_content S K (recorded S L K)) w current query t).2
            (execute_query-Grows current query t w))
  ]

  -- All that the console has sent for these queries.
  abbrev pub sent : Bytes → Storage S K → List Bytes → List (Response S K) → List (Response S K)
  sent current t queries w = (console S K (recorded S L K) current queries t w).2

  -- One more query adds an answer to what the console has sent, and one end of an answer.
  sent-snoc :
      (queries : List Bytes) (query current : Bytes) (t : Storage S K) (w : List (Response S K))
      → (z : List (Response S K)) × (sent current t (queries ++ (query ∷ [])) w
          ≡ sent current t queries w ++ (z ++ (finished ∷ [])))
        × (answers S L K z ≡ 0)
  unfolding console
  sent-snoc [] query current t w =
      let (z, same, h) = answer_query-Grows current query t w in
      (z, ap (λ v. v ++ (finished ∷ [])) same ∙ append_assoc w z (finished ∷ []), h)
  sent-snoc (first ∷ queries) query current t w =
      let (r, name, u, v) = answer_query S K (recorded S L K) current first t w in
      sent-snoc queries query name u (send_failure S K (recorded S L K) v r ++ (finished ∷ []))

  module _ (tell : Response S K → Bytes) (current : Bytes) (t : Storage S K) where
    -- What the console sends for a query behind these.
    abbrev pub sent_for : Bytes → List Bytes → List (Response S K)
    sent_for query queries =
        drop (length (sent current t queries [])) (sent current t (queries ++ (query ∷ [])) [])

    -- A response on the wire; `tell` gives the text of one that tells an event.
    abbrev pub on_wire : Response S K → Event
    on_wire (content text) = got (record { status = 200; content = text })
    on_wire (no_such_storage name) =
        got (record { status = 200; content = tell (no_such_storage name) })
    on_wire (selected name) = got (record { status = 200; content = tell (selected name) })
    on_wire (internal_error e) = got (record { status = 501; content = tell (internal_error e) })
    on_wire send_error = got (record { status = 501; content = tell send_error })
    on_wire finished = got (record { status = 100; content = [] })

    -- The console on the other side of a stream that does not fail, over the queries that it has
    -- received.
    abbrev pub serving : Bytes → List Bytes → Result Bytes (List Event × List Bytes)
    serving query queries = ok (map on_wire (sent_for query queries), queries ++ (query ∷ []))

    -- What the client writes for a response.
    abbrev pub shown : List (Response S K) → List Line
    shown [] = []
    shown (content text ∷ v) = answer text ∷ shown v
    shown (no_such_storage name ∷ v) = answer (tell (no_such_storage name)) ∷ shown v
    shown (selected name ∷ v) = answer (tell (selected name)) ∷ shown v
    shown (internal_error e ∷ v) = complaint 501 (tell (internal_error e)) ∷ shown v
    shown (send_error ∷ v) = complaint 501 (tell send_error) ∷ shown v
    shown (finished ∷ v) = shown v

    receive-answer :
        (v : List (Response S K))
        → answers S L K v ≡ 0
        → receive (map on_wire (v ++ (finished ∷ []))) ≡ (shown (v ++ (finished ∷ [])), passed [])
    unfolding receive nat_eq
    receive-answer [] h = refl
    receive-answer (content text ∷ v) h = ap (λ p. (answer text ∷ p.0, p.1)) (receive-answer v h)
    receive-answer (no_such_storage name ∷ v) h =
        ap (λ p. (answer (tell (no_such_storage name)) ∷ p.0, p.1)) (receive-answer v h)
    receive-answer (selected name ∷ v) h =
        ap (λ p. (answer (tell (selected name)) ∷ p.0, p.1)) (receive-answer v h)
    receive-answer (internal_error e ∷ v) h =
        ap (λ p. (complaint 501 (tell (internal_error e)) ∷ p.0, p.1)) (receive-answer v h)
    receive-answer (send_error ∷ v) h =
        ap (λ p. (complaint 501 (tell send_error) ∷ p.0, p.1)) (receive-answer v h)
    receive-answer (finished ∷ v) h = absurd (omega (arith, h))

    receive-sent_for :
        (query : Bytes) (queries : List Bytes)
        → receive (map on_wire (sent_for query queries))
          ≡ (shown (sent_for query queries), passed [])
    receive-sent_for query queries =
        let (z, same, h) = sent-snoc queries query current t [] in
        let e : sent_for query queries ≡ z ++ (finished ∷ []) =
          ap (drop (length (sent current t queries []))) same
          ∙ drop-append (sent current t queries []) (z ++ (finished ∷ [])) in
        ap (λ v. receive (map on_wire v)) e
        ∙ receive-answer z h
        ∙ ap (λ v. (shown v, passed [])) (sym e)

    -- The session as it should be: all that the console sends for a query is written before the
    -- next one is typed.
    abbrev pub dialogue : List Bytes → List Bytes → List Line × End × List Event × List Bytes
    dialogue [] queries = ([], asking, [], queries)
    dialogue (query ∷ typed) queries =
        let skipped = dialogue typed queries in
        let (more, end, rest, last) = dialogue typed (queries ++ (query ∷ [])) in
        if query == []
        then skipped
        else if query == codes "exit"
        then ([], left, [], queries)
        else (shown (sent_for query queries) ++ more, end, rest, last)

    session_after :
        (typed queries : List Bytes) → session serving typed [] queries ≡ dialogue typed queries
    unfolding session
    session_after [] queries = refl
    session_after (query ∷ typed) queries = ground (
      arith,
      receive-sent_for query queries,
      session_after typed queries,
      session_after typed (queries ++ (query ∷ [])),
    )

    -- A session with the console of a node, over a stream that does not fail, never ends with the
    -- stream or waits for ever at the barrier: for each query that is typed in front of exit and
    -- is not empty, the client writes all that the console sends for it behind those before,
    -- and asks again with no response left over.
    pub session_lem : (typed : List Bytes) → session serving typed [] [] ≡ dialogue typed []
    session_lem typed = session_after typed []
