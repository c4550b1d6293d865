-- ===== src/Core/ConfigRepository/Race.antt =====
-- A `Set` and the goroutine of a watcher that it has found, as steps of the two in any order. The
-- channel has no buffer, so a send waits until the goroutine receives, or panics once the channel
-- is closed.
use sprintframework.Common.{Bool, true, false, ◌≡◌, ◌≢◌, refl, arith, ◌⊎◌, inl}

-- The goroutine waits in its select, has left the loop, has unregistered, or has closed its
-- channel.
pub data Watcher : Type 0 where
  waiting left unregistered closed : Watcher

-- `Set` ranges over the watchers, sends to the one that it found, has returned, or has panicked.
pub data Setter : Type 0 where
  ranging sending returned panicked : Setter

pub record Pair : Type 0 where
  pub watcher : Watcher
  pub setter : Setter

-- Whether the watcher stands in the map.
abbrev registered : Watcher → Bool
registered waiting = true
registered left = true
registered _ = false

pub data Step : Pair → Pair → Type 0 where
  -- the range loads the watcher
  find :
      (p : Pair)
      → p.setter ≡ ranging
      → registered p.watcher ≡ true
      → Step p (record p { setter = sending })
  -- the range ends with no watcher
  miss :
      (p : Pair)
      → p.setter ≡ ranging
      → registered p.watcher ≡ false
      → Step p (record p { setter = returned })
  -- the goroutine receives, and its callback wants more
  receive :
      (p : Pair)
      → p.setter ≡ sending
      → p.watcher ≡ waiting
      → Step p (record p { setter = returned })
  -- the goroutine receives, and its callback ends the watch
  receive_last :
      (p : Pair)
      → p.setter ≡ sending
      → p.watcher ≡ waiting
      → Step p (record { watcher = left; setter = returned })
  -- the context of the watch is done
  cancel : (p : Pair) → p.watcher ≡ waiting → Step p (record p { watcher = left })
  -- the deferred calls
  unregister : (p : Pair) → p.watcher ≡ left → Step p (record p { watcher = unregistered })
  close : (p : Pair) → p.watcher ≡ unregistered → Step p (record p { watcher = closed })
  -- a send on the closed channel
  send_closed :
      (p : Pair) → p.setter ≡ sending → p.watcher ≡ closed → Step p (record p { setter = panicked })

pub data Reach (p : Pair) : Pair → Type 0 where
  here : Reach p p
  next : {q r : Pair} → Reach p q → Step q r → Reach p r

-- The send is under way and its receiver has left, or it has panicked.
abbrev IsDoomed : Pair → Type 0
IsDoomed p =
    (p.watcher ≢ waiting) × ((p.setter ≡ sending) ⊎ ((p.setter ≡ panicked) × (p.watcher ≡ closed)))

Step-IsDoomed : {p q : Pair} → Step p q → IsDoomed p → IsDoomed q
Step-IsDoomed (find p s r) d = ground arith
Step-IsDoomed (miss p s r) d = ground arith
Step-IsDoomed (receive p s w) d = ground arith
Step-IsDoomed (receive_last p s w) d = ground arith
Step-IsDoomed (cancel p w) d = ground arith
Step-IsDoomed (unregister p w) d = ground arith
Step-IsDoomed (close p w) d = ground arith
Step-IsDoomed (send_closed p s w) d = ground arith

Reach-IsDoomed : {p q : Pair} → IsDoomed p → Reach p q → IsDoomed q
Reach-IsDoomed d here = d
Reach-IsDoomed d (next r s) = Step-IsDoomed s (Reach-IsDoomed d r)

abbrev pub stuck_state : Pair
stuck_state = record { watcher = closed; setter = panicked }

doomed_panics :
    (w : Watcher) (s : Setter)
    → IsDoomed (record { watcher = w; setter = s })
    → Reach (record { watcher = w; setter = s }) stuck_state
doomed_panics waiting s d = absurd (d.0 refl)
doomed_panics left sending d =
    next (next (next here (unregister _ refl)) (close _ refl)) (send_closed _ refl refl)
doomed_panics unregistered sending d = next (next here (close _ refl)) (send_closed _ refl refl)
doomed_panics closed sending d = next here (send_closed _ refl refl)
doomed_panics closed panicked d = here
doomed_panics w s d = absurd (ground arith)

-- Once a watcher that `Set` has found ends its watch before it receives, `Set` never returns: in
-- every state that follows it is still sending, or it has panicked; and it can come to panic from
-- each of them.
pub set_never_returns :
    {p q : Pair}
    → p.setter ≡ sending
    → p.watcher ≢ waiting
    → Reach p q
    → (q.setter ≢ returned) × Reach q stuck_state
set_never_returns {q} s w r =
    let d = Reach-IsDoomed (w, inl s) r in (ground arith, doomed_panics q.watcher q.setter d)
