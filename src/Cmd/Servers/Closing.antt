-- ===== src/Cmd/Servers/Closing.antt =====
-- Every context that is created for the servers is closed, and what is reported.
use sprintframework.Common.{ℕ, ◌≡◌, ◌≢◌, inl, inr, refl, sym, ap, ◌∙◌, arith}
use sprintframework.Common.{Option, none, some, List, [], ◌∷◌, map}
use sprintframework.Common.{Bytes, nat_eq, bytes_eq, All, Result, ok, err}
use sprintframework.Common.{Option-cases}
use sprintframework.Cmd.Servers.{
  ServerContext, Ending, returned, panicked, create_all, server_list, called, body, close_all,
  final_error, do_with_servers, bound_servers, first_error, run_bound, run_servers,
}

final_error-none :
    (ending : Ending) (errors : List Bytes)
    → final_error ending errors ≡ []
    → (ending ≡ returned none) × (errors ≡ [])
unfolding final_error
final_error-none (panicked text) errors e = absurd (ground (arith, e))
final_error-none (returned none) errors e = (refl, e)
final_error-none (returned (some x)) [] e = absurd (ground (arith, e))
final_error-none (returned (some x)) (y ∷ errors) e = absurd (ground (arith, e))

module _ {V : Type 0} where
  -- The contexts in front of the first child that cannot be created.
  abbrev pub created : List (Result Bytes (ServerContext V)) → List ℕ
  created [] = []
  created (err e ∷ children) = []
  created (ok ctx ∷ children) = ctx.id ∷ created children

  create_all-created :
      (children : List (Result Bytes (ServerContext V)))
      → map (λ (c : ServerContext V). c.id) (create_all children).0 ≡ created children
  unfolding create_all
  create_all-created [] = refl
  create_all-created (err e ∷ children) = refl
  create_all-created (ok ctx ∷ children) = ap (λ ids. ctx.id ∷ ids) (create_all-created children)

  body-created :
      (children : List (Result Bytes (ServerContext V))) (cb : List V → Ending)
      → map (λ (c : ServerContext V). c.id) (body children cb).1 ≡ created children
  unfolding body
  body-created [] cb = refl
  body-created (child ∷ children) cb = create_all-created (child ∷ children)

  -- What was done where the body ended without an error.
  abbrev pub Served : List (Result Bytes (ServerContext V)) → (List V → Ending) → Type 0
  Served children cb =
      (ctxs : List (ServerContext V)) × (servers : List V) × (create_all children ≡ (ctxs, none))
      × (server_list ctxs ≡ ok servers)
      × (cb servers ≡ returned none)
      × (close_all ctxs ≡ [])

  called-none :
      (cb : List V → Ending) (r : Result Bytes (List V))
      → called cb r ≡ returned none
      → (servers : List V) × (r ≡ ok servers) × (cb servers ≡ returned none)
  unfolding called
  called-none cb (err e) h = absurd (ground (arith, h))
  called-none cb (ok servers) h = (servers, refl, h)

  body-none :
      (children : List (Result Bytes (ServerContext V))) (cb : List V → Ending)
      → (body children cb).0 ≡ returned none
      → close_all (body children cb).1 ≡ []
      → Served children cb
  unfolding body
  body-none [] cb h c = absurd (ground (arith, h))
  body-none (child ∷ children) cb h c =
      let (list, e) = create_all (child ∷ children) in
      elim (Option-cases e) [
        | inr (x, q) ↦ absurd (ground (arith, h, q))
        | inl q ↦
            let (servers, s, r) = called-none cb (server_list list) (ground (arith, h, q)) in
            (list, servers, ap (λ x. (list, x)) q, s, r, c)
      ]

  -- Every context that was created in front of the first failure is closed, whatever the callback
  -- does, a panic too. If no error is reported, then every context was created, every bean was a
  -- server, the callback returned no error for them, and every context closed without one.
  pub do_with_servers_lem :
      (children : List (Result Bytes (ServerContext V))) (cb : List V → Ending)
      → ((do_with_servers children cb).1 ≡ created children)
        × ((do_with_servers children cb).0 ≡ [] → Served children cb)
  unfolding do_with_servers
  do_with_servers_lem children cb = (
    body-created children cb,
    (λ h.
        let (ended, closed) =
          final_error-none (body children cb).0 (close_all (body children cb).1) h in
        body-none children cb ended closed),
  )

  bound_servers-none :
      (bind : V → Option Bytes) (servers : List V)
      → All (λ s. bind s ≢ none) servers
      → bound_servers bind servers ≡ []
  unfolding bound_servers
  bound_servers-none bind [] h = refl
  bound_servers-none bind (s ∷ servers) (n, h) = elim (Option-cases (bind s)) [
    | inl e ↦ absurd (n e)
    | inr (x, e) ↦ rw (e, bound_servers) (bound_servers-none bind servers h)
  ]

  run_bound-unbound :
      (bind serve : V → Option Bytes) (s : V) (servers : List V)
      → All (λ t. bind t ≢ none) (s ∷ servers)
      → run_bound bind serve (s ∷ servers) ≡ returned none
  unfolding run_bound first_error
  run_bound-unbound bind serve s servers h =
      ap (λ ts. returned (first_error serve ts)) (bound_servers-none bind (s ∷ servers) h)

  body-called :
      (children : List (Result Bytes (ServerContext V))) (ctxs : List (ServerContext V)) (s : V)
      (servers : List V) (cb : List V → Ending)
      → create_all children ≡ (ctxs, none)
      → server_list ctxs ≡ ok (s ∷ servers)
      → body children cb ≡ (cb (s ∷ servers), ctxs)
  unfolding body create_all server_list called
  body-called [] ctxs s servers cb e l =
      let none_left : ok [] ≡ ok (s ∷ servers) = ap (λ p. server_list p.0) e ∙ l in
      absurd (ground (arith, none_left))
  body-called (child ∷ children) ctxs s servers cb e l =
      ap
        (λ p. (
          elim p.1 as (λ _. Ending) [
            | some x ↦ returned (some x)
            | none ↦ called cb (server_list p.0)
          ],
          p.0,
        ))
        e
      ∙ ap (λ r. (called cb r, ctxs)) l

  -- If every context is created, they hold servers, and none of these can be bound, then
  -- `runServers` serves none of them and reports nothing of it: it closes the contexts and reports
  -- the errors of closing alone, so it ends without an error if they close without one.
  pub run_servers-unbound :
      (bind serve : V → Option Bytes) (children : List (Result Bytes (ServerContext V)))
      (ctxs : List (ServerContext V)) (s : V) (servers : List V)
      → create_all children ≡ (ctxs, none)
      → server_list ctxs ≡ ok (s ∷ servers)
      → All (λ t. bind t ≢ none) (s ∷ servers)
      → run_servers bind serve children ≡ (close_all ctxs, created children)
  unfolding run_servers do_with_servers final_error
  run_servers-unbound bind serve children ctxs s servers e l h =
      let b = body-called children ctxs s servers (run_bound bind serve) e l in
      let r = run_bound-unbound bind serve s servers h in
      ap (λ p. (final_error p.0 (close_all p.1), map (λ (c : ServerContext V). c.id) p.1)) b
      ∙ ap (λ x. (final_error x (close_all ctxs), map (λ (c : ServerContext V). c.id) ctxs)) r
      ∙ ap (λ ids. (close_all ctxs, ids))
          (ap (λ p. map (λ (c : ServerContext V). c.id) p.0) (sym e) ∙ create_all-created children)
