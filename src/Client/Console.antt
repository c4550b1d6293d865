-- ===== src/Client/Console.antt =====
-- `StorageConsole` of sprintclient/control_client.go. The goroutine that receives and the loop that
-- sends take turns through the barrier: the loop waits for it behind each query. What the receiver
-- finds behind the end of an answer it takes up in front of what comes next.
pub mod Session
use sprintframework.Common.{ℕ, ◌+◌, arith}
use sprintframework.Common.{List, [], ◌∷◌, ◌++◌, Result, ok, err}
use sprintframework.Common.{Bytes, codes, ◌==◌, nat_eq, bytes_eq, if◌then◌else◌}
use sprintframework.Common.Dict

-- `StorageConsoleResponse`
pub record Reply : Type 0 where
  pub status : ℕ
  pub content : Bytes

-- What `Recv` gives: a response, the end of the stream, or another error.
pub data Event : Type 0 where
  got : Reply → Event
  end_of_stream : Event
  broken : Bytes → Event

-- What is written to the two writers.
pub data Line : Type 0 where
  answer : Bytes → Line
  complaint : ℕ → Bytes → Line
  not_received not_sent : Bytes → Line

-- How the wait at the barrier ends: with an answer, and what the receiver has not taken up yet;
-- with the -1 of its end; or not at all, for want of a further event.
pub data Turn : Type 0 where
  passed : List Event → Turn
  over waiting : Turn

-- What the receiver writes until the loop passes the barrier.
unfoldable pub receive : List Event → List Line × Turn
receive [] = ([], waiting)
receive (end_of_stream ∷ events) = ([], over)
receive (broken text ∷ events) = (not_received text ∷ [], over)
receive (got r ∷ events) =
    let (lines, turn) = receive events in
    if r.status == 100
    then ([], passed events)
    else if r.status == 200
    then (answer r.content ∷ lines, turn)
    else (complaint r.status r.content ∷ lines, turn)

-- Where the loop over the prompt stands: at the prompt, or it has ended by the query exit, by the
-- barrier or by an error of sending, or it waits at the barrier.
pub data End : Type 0 where
  asking left closed unsent stuck : End

-- The loop of the sender over what is typed, what the receiver has not taken up, and the stream's
-- other side: the error of sending it a query, or what it sends for it, and its state.
unfoldable pub session :
    {T : Type 0}
    → (Bytes → T → Result Bytes (List Event × T))
    → List Bytes
    → List Event
    → T
    → List Line × End × List Event × T
session serve [] left_over t = ([], asking, left_over, t)
session serve (query ∷ typed) left_over t =
    let skipped = session serve typed left_over t in
    if query == []
    then skipped
    else if query == codes "exit"
    then ([], left, left_over, t)
    else elim (serve query t) [
      | err text ↦ (not_sent text ∷ [], unsent, left_over, t)
      | ok (events, u) ↦
          (let (lines, turn) = receive (left_over ++ events) in
            elim turn [
              | waiting ↦ (lines, stuck, [], u)
              | over ↦ (lines, closed, [], u)
              | passed rest ↦
                  (let (more, end, last, v) = session serve typed rest u in
                    (lines ++ more, end, last, v))
            ])
    ]
