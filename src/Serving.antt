-- ===== src/Serving.antt =====
-- How requests reach the event loop and how the loop is stopped (handler.go: DoTCP, DoUDP, DoHTTP
-- and `do`; server.go: Stop). An operation is any type. The goroutines of the handlers, of `do`, of
-- the error group and of `Stop` take steps in an order that is an argument, and a step that cannot
-- be taken now is `none`. What a reader or a writer does under the lock `muActive` is one step, but
-- for a send that waits for its receiver, which keeps the lock.
pub mod Counting
pub mod Validity
pub mod Settling
pub mod Progress
use leng.Prelude.{
  ℕ, Bool, true, false, ◌&&◌, Option, none, some, List, [], ◌∷◌, ◌++◌, ltb, nat_beq, if◌then◌else◌,
  length, take_out, comparable_text,
}

-- `Stop`: not called, waiting for the lock, or done.
pub data Stopping : Type 0 where
  not_called lock_awaited stopped : Stopping

-- The goroutine `do`: at the receive, at the error group with an operation, or at its end.
pub data Dispatcher (A : Type 0) : Type 0 where
  receiving ended : Dispatcher A
  holding : A → Dispatcher A

-- `entering`: handlers before the lock; `sending`: handlers that hold the lock for reading, at the
-- send; `running`: the goroutines of the error group. A request that finds the loop inactive is
-- dropped. `panicked`: a send on a closed channel, or a close of one.
pub record Serving (A : Type 0) : Type 0 where
  pub active : Bool
  pub closed : Bool
  pub stopping : Stopping
  pub dispatcher : Dispatcher A
  pub entering : List A
  pub sending : List A
  pub running : List A
  pub answered : List A
  pub dropped : List A
  pub panicked : Bool

-- `call` is a new request and `stop` a call of `Stop`; the other steps are those of the goroutines.
pub data Event (A : Type 0) : Type 0 where
  call : A → Event A
  stop lock receive_closed spawn : Event A
  enter receive finish : ℕ → Event A

-- errGroup.SetLimit(100)
abbrev pub group_limit : ℕ
group_limit = 100

abbrev pub is_waiting : Stopping → Bool
is_waiting lock_awaited = true
is_waiting _ = false

module _ {A : Type 0} where
  -- `NewEventLoop`
  unfoldable pub new_serving : Serving A
  new_serving = record {
    active = true;
    closed = false;
    stopping = not_called;
    dispatcher = receiving;
    entering = [];
    sending = [];
    running = [];
    answered = [];
    dropped = [];
    panicked = false;
  }

  -- h.requestChannel <- ...
  unfoldable pub send : A → Serving A → Serving A
  send a s =
      if s.closed then record s { panicked = true } else record s { sending = s.sending ++ a ∷ [] }

  -- `DoTCP`, `DoUDP` and `DoHTTP` under the lock
  unfoldable pub do_query : A → Serving A → Serving A
  do_query a s = if s.active then send a s else record s { dropped = a ∷ s.dropped }

  -- A writer that waits keeps new readers out.
  unfoldable pub enter_one : Option (A × List A) → Serving A → Option (Serving A)
  enter_one none s = none
  enter_one (some (a, rest)) s =
      if is_waiting s.stopping then none else some (do_query a (record s { entering = rest }))

  -- data, ok := <-h.requestChannel
  unfoldable pub receive_one : Dispatcher A → Option (A × List A) → Serving A → Option (Serving A)
  receive_one receiving (some (a, rest)) s =
      some (record s { dispatcher = holding a; sending = rest })
  receive_one _ _ s = none

  -- if !ok { break }
  unfoldable pub break_loop : Dispatcher A → Serving A → Option (Serving A)
  break_loop receiving s =
      if s.closed && nat_beq (length s.sending) 0
      then some (record s { dispatcher = ended })
      else none
  break_loop _ s = none

  -- errGroup.Go, which waits while the group is at its limit
  unfoldable pub go : Dispatcher A → Serving A → Option (Serving A)
  go (holding a) s =
      if ltb (length s.running) group_limit
      then some (record s { dispatcher = receiving; running = s.running ++ a ∷ [] })
      else none
  go _ s = none

  unfoldable pub finish_one : Option (A × List A) → Serving A → Option (Serving A)
  finish_one none s = none
  finish_one (some (a, rest)) s = some (record s { running = rest; answered = a ∷ s.answered })

  -- `Stop` under the lock; a second close panics.
  unfoldable pub close_channel : Serving A → Serving A
  close_channel s =
      if s.closed
      then record s { active = false; panicked = true }
      else record s { active = false; closed = true; stopping = stopped }

  -- The lock is free of readers, and `Stop` waits for it.
  unfoldable pub take_lock : Serving A → Option (Serving A)
  take_lock s =
      if is_waiting s.stopping && nat_beq (length s.sending) 0 then some (close_channel s) else none

  unfoldable pub take_step : Event A → Serving A → Option (Serving A)
  take_step (call a) s = some (record s { entering = s.entering ++ a ∷ [] })
  take_step stop s =
      if is_waiting s.stopping then none else some (record s { stopping = lock_awaited })
  take_step lock s = take_lock s
  take_step receive_closed s = break_loop s.dispatcher s
  take_step spawn s = go s.dispatcher s
  take_step (enter n) s = enter_one (take_out n s.entering) s
  take_step (receive n) s = receive_one s.dispatcher (take_out n s.sending) s
  take_step (finish n) s = finish_one (take_out n s.running) s

  -- A panic ends the process.
  unfoldable pub step : Event A → Serving A → Option (Serving A)
  step e s = if s.panicked then none else take_step e s

  unfoldable pub steps_from :
      Option (Serving A) → (Serving A → Option (Serving A)) → Option (Serving A)
  steps_from none f = none
  steps_from (some s) f = f s

  -- One step after another, each of which can be taken.
  unfoldable pub steps : List (Event A) → Serving A → Option (Serving A)
  steps [] s = some s
  steps (e ∷ es) s = steps_from (step e s) (steps es)
