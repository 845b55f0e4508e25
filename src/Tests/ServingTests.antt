-- ===== src/Tests/ServingTests.antt =====
-- The way of requests through the event loop, at concrete schedules.
use leng.Prelude.{
  ℕ, ◌+◌, ◌≤◌, ◌≡◌, refl, true, false, some, List, [], ◌∷◌, arith, ltb, length, take_out, count,
  comparable_text,
}
use leng.Serving
use leng.Serving.{
  Serving, Event, call, stop, lock, receive_closed, spawn, enter, receive, finish, receiving,
  stopped, group_limit, new_serving, steps,
}
use leng.Serving.Counting.{present, all_called}
use leng.Serving.Validity.{is_ended, steps_safe}
use leng.Serving.Settling.{work, Internal, steps_bounded}
use leng.Serving.Progress.{serving_settles}

program : Unit {0}
unfolding new_serving steps Serving.steps_from Serving.step Serving.take_step Serving.enter_one
    Serving.do_query Serving.send Serving.receive_one Serving.break_loop Serving.go
    Serving.finish_one Serving.take_lock Serving.close_channel take_out
program = tt

-- Two requests, of which one is answered; the loop is stopped, and a third comes too late.
abbrev history : List (Event ℕ)
history =
    call 1
    ∷ call 2
    ∷ enter 0
    ∷ enter 0
    ∷ receive 1
    ∷ spawn
    ∷ stop
    ∷ receive 0
    ∷ lock
    ∷ finish 0
    ∷ call 3
    ∷ enter 0
    ∷ []

abbrev reached : Serving ℕ
reached = record {
  active = false;
  closed = true;
  stopping = stopped;
  dispatcher = Serving.holding 1;
  entering = [];
  sending = [];
  running = [];
  answered = 2 ∷ [];
  dropped = 3 ∷ [];
  panicked = false;
}

steps_safe_example :
    (reached.panicked ≡ false)
    × (length reached.running ≤ group_limit)
    × (present (λ n. ltb 1 n) reached ≡ all_called (λ n. ltb 1 n) history)
unfolding program
steps_safe_example = steps_safe (λ n. ltb 1 n) history reached (omega arith) refl

serving_settles_example :
    (fs : List (Event ℕ)) × (t : Serving ℕ) × Internal fs
    × (steps fs reached ≡ some t)
    × (count (λ n. true) t.answered + count (λ n. true) t.dropped ≡ all_called (λ n. true) history)
    × (is_ended t.dispatcher ≡ true)
unfolding program
serving_settles_example = serving_settles (λ n. true) history reached (omega arith) refl

abbrev called_twice : Serving ℕ
called_twice = record {
  active = true;
  closed = false;
  stopping = Serving.not_called;
  dispatcher = receiving;
  entering = 1 ∷ 2 ∷ [];
  sending = [];
  running = [];
  answered = [];
  dropped = [];
  panicked = false;
}

abbrev half_way : Serving ℕ
half_way = record called_twice { entering = 2 ∷ []; running = 1 ∷ [] }

steps_bounded_example : 3 + work half_way ≤ work called_twice
unfolding program
steps_bounded_example =
    steps_bounded (enter 0 ∷ receive 0 ∷ spawn ∷ []) called_twice half_way (ground arith)
      (refl, (refl, (refl, tt))) refl

-- A second call of `Stop` closes a closed channel.
second_stop_panics :
    (s : Serving ℕ) × (steps (stop ∷ lock ∷ stop ∷ lock ∷ []) new_serving ≡ some s)
    × (s.panicked ≡ true)
unfolding program
second_stop_panics = (_, refl, refl)
