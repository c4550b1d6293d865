-- ===== src/Cmd/Servers.antt =====
-- `doWithServers` and `runServers` of sprintcmd/utils.go, without the signals and the application.
-- A context is made by glue and holds beans: what matters of it is what each bean turns out to be
-- and how the context closes.
pub mod Closing
use sprintframework.Common.{ℕ, ◌+◌, arith}
use sprintframework.Common.{not, Option, none, some, List, [], ◌∷◌, ◌++◌, map}
use sprintframework.Common.{Bytes, codes, nat_eq, bytes_eq, Result, ok, err, ◌>>=◌}
use sprintframework.Common.Dict

-- A bean is a server `V`, made of it where need be, or an error.
pub record ServerContext (V : Type 0) : Type 0 where
  pub id : ℕ
  pub beans : List (Result Bytes V)
  pub close_error : Option Bytes

-- How the callback ends.
pub data Ending : Type 0 where
  returned : Option Bytes → Ending
  panicked : Bytes → Ending

-- The list of errors of the deferred function, which replaces the error of the body.
unfoldable pub final_error : Ending → List Bytes → List Bytes
final_error (panicked text) errors = text ∷ errors
final_error (returned none) errors = errors
final_error (returned (some e)) [] = e ∷ []
final_error (returned (some e)) (x ∷ errors) = x ∷ errors

module _ {V : Type 0} where
  -- The loop over the children: the contexts that were created, and the error of the first that
  -- was not.
  unfoldable pub create_all :
      List (Result Bytes (ServerContext V)) → List (ServerContext V) × Option Bytes
  create_all [] = ([], none)
  create_all (err e ∷ children) = ([], some e)
  create_all (ok ctx ∷ children) = let (list, e) = create_all children in (ctx ∷ list, e)

  bean_list : List (Result Bytes V) → Result Bytes (List V)
  bean_list [] = ok []
  bean_list (err e ∷ beans) = err e
  bean_list (ok v ∷ beans) = bean_list beans >>= (λ vs. ok (v ∷ vs))

  -- The loop over the contexts.
  unfoldable pub server_list : List (ServerContext V) → Result Bytes (List V)
  unfolding bean_list
  server_list [] = ok []
  server_list (ctx ∷ list) =
      bean_list ctx.beans >>= (λ vs. server_list list >>= (λ ws. ok (vs ++ ws)))

  unfoldable pub called : (List V → Ending) → Result Bytes (List V) → Ending
  called cb (err e) = returned (some e)
  called cb (ok servers) = cb servers

  -- The body of `doWithServers` in front of its deferred function.
  unfoldable pub body :
      List (Result Bytes (ServerContext V)) → (List V → Ending) → Ending × List (ServerContext V)
  unfolding called
  body [] cb = (returned (some (codes "no one server child context found in core context")), [])
  body (child ∷ children) cb =
      let (list, e) = create_all (child ∷ children) in
      (elim e [ some x ↦ returned (some x) | none ↦ called cb (server_list list) ], list)

  -- The errors of closing, in the order of the contexts.
  unfoldable pub close_all : List (ServerContext V) → List Bytes
  close_all [] = []
  close_all (ctx ∷ list) =
      let rest = close_all list in elim ctx.close_error [ none ↦ rest | some e ↦ e ∷ rest ]

  -- `doWithServers`: the errors that it reports, and the contexts that it closed.
  unfoldable pub do_with_servers :
      List (Result Bytes (ServerContext V)) → (List V → Ending) → List Bytes × List ℕ
  unfolding final_error
  do_with_servers children cb =
      let (ending, list) = body children cb in
      (final_error ending (close_all list), map (λ (c : ServerContext V). c.id) list)

-- The loop over the servers of `runServers`: a server that does not bind is left out.
unfoldable pub bound_servers : {V : Type 0} → (V → Option Bytes) → List V → List V
bound_servers bind [] = []
bound_servers bind (s ∷ servers) =
    let rest = bound_servers bind servers in elim (bind s) [ some e ↦ rest | none ↦ s ∷ rest ]

-- The first error of the servers in the order in which they end, as the group waits for it.
unfoldable pub first_error : {V : Type 0} → (V → Option Bytes) → List V → Option Bytes
first_error serve [] = none
first_error serve (s ∷ servers) =
    let rest = first_error serve servers in elim (serve s) [ some e ↦ some e | none ↦ rest ]

-- The callback of `runServers`, where the servers end in their order.
unfoldable pub run_bound : {V : Type 0} → (V → Option Bytes) → (V → Option Bytes) → List V → Ending
run_bound bind serve [] =
    returned (some (codes "sprint.Server instances are not found in server context"))
run_bound bind serve (s ∷ servers) = returned (first_error serve (bound_servers bind (s ∷ servers)))

-- `runServers`: the errors that it reports, and the contexts that it closed.
unfoldable pub run_servers :
    {V : Type 0}
    → (V → Option Bytes)
    → (V → Option Bytes)
    → List (Result Bytes (ServerContext V))
    → List Bytes × List ℕ
unfolding run_bound
run_servers bind serve children = do_with_servers children (run_bound bind serve)
