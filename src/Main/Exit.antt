-- ===== src/Main/Exit.antt =====
-- The goroutine of activation.go beside `main`, from its start to the end of the process. A send on a
-- channel without a buffer and its receipt are one step. What `main` does in between, Main says.
use leng.Prelude.{◌≡◌, refl, ap, Bool, true, false, comparable_text}

-- Where `main` is: at `<-actChannel`, before the loop, at the select of the loop, in a turn of it, at
-- `quitActivation <- true`, at `cancelMetrics()`, at `<-quitActivation`, or at its end. It has died
-- after logger.Fatal or a panic, which end the process.
pub data MainAt : Type 0 where
  launching loading selecting turning quitting cancelling awaiting exited died : MainAt

-- Where `startActivation` is: at `actChannel <- a`, at its select, at `quit <- true`, or at its end.
pub data ActivationAt : Type 0 where
  offering waiting answering ended : ActivationAt

pub record Threads : Type 0 where
  pub main_at : MainAt
  pub activation_at : ActivationAt
  pub metrics_cancelled : Bool

unfoldable pub new_threads : Threads
new_threads = record { main_at = launching; activation_at = offering; metrics_cancelled = false }

-- `loaded` and `end_turn` are steps that may never come: a load or a turn may also be fatal, panic, or
-- wait for ever. `lost`: the channel `sig` has no buffer, so a signal that comes during a turn is
-- dropped.
pub data Step : Threads → Threads → Type 0 where
  hand_over :
      (c : Bool)
      → Step
          (record { main_at = launching; activation_at = offering; metrics_cancelled = c })
          (record { main_at = loading; activation_at = waiting; metrics_cancelled = c })
  loaded :
      (a : ActivationAt) (c : Bool)
      → Step
          (record { main_at = loading; activation_at = a; metrics_cancelled = c })
          (record { main_at = selecting; activation_at = a; metrics_cancelled = c })
  load_dies :
      (a : ActivationAt) (c : Bool)
      → Step
          (record { main_at = loading; activation_at = a; metrics_cancelled = c })
          (record { main_at = died; activation_at = a; metrics_cancelled = c })
  turn_dies :
      (a : ActivationAt) (c : Bool)
      → Step
          (record { main_at = turning; activation_at = a; metrics_cancelled = c })
          (record { main_at = died; activation_at = a; metrics_cancelled = c })
  take_turn :
      (a : ActivationAt) (c : Bool)
      → Step
          (record { main_at = selecting; activation_at = a; metrics_cancelled = c })
          (record { main_at = turning; activation_at = a; metrics_cancelled = c })
  end_turn :
      (a : ActivationAt) (c : Bool)
      → Step
          (record { main_at = turning; activation_at = a; metrics_cancelled = c })
          (record { main_at = selecting; activation_at = a; metrics_cancelled = c })
  lost :
      (a : ActivationAt) (c : Bool)
      → Step
          (record { main_at = turning; activation_at = a; metrics_cancelled = c })
          (record { main_at = turning; activation_at = a; metrics_cancelled = c })
  interrupt :
      (a : ActivationAt) (c : Bool)
      → Step
          (record { main_at = selecting; activation_at = a; metrics_cancelled = c })
          (record { main_at = quitting; activation_at = a; metrics_cancelled = c })
  quit :
      (c : Bool)
      → Step
          (record { main_at = quitting; activation_at = waiting; metrics_cancelled = c })
          (record { main_at = cancelling; activation_at = answering; metrics_cancelled = c })
  cancel :
      (a : ActivationAt) (c : Bool)
      → Step
          (record { main_at = cancelling; activation_at = a; metrics_cancelled = c })
          (record { main_at = awaiting; activation_at = a; metrics_cancelled = true })
  answer :
      (c : Bool)
      → Step
          (record { main_at = awaiting; activation_at = answering; metrics_cancelled = c })
          (record { main_at = exited; activation_at = ended; metrics_cancelled = c })

pub data Reach (start : Threads) : Threads → Type 0 where
  here : Reach start start
  next : {s t : Threads} → Reach start s → Step s t → Reach start t

-- Where the other goroutine is by then, and whether the metrics are cancelled.
abbrev pub activation_by : MainAt → ActivationAt
activation_by launching = offering
activation_by cancelling = answering
activation_by awaiting = answering
activation_by exited = ended
activation_by _ = waiting

abbrev pub cancelled_by : MainAt → Bool
cancelled_by awaiting = true
cancelled_by exited = true
cancelled_by _ = false

abbrev at : MainAt → Threads
at p = record { main_at = p; activation_at = activation_by p; metrics_cancelled = cancelled_by p }

Step-at : (s t : Threads) → Step s t → s ≡ at s.main_at → t ≡ at t.main_at
Step-at s t (hand_over c) h = cc
Step-at s t (loaded a c) h = cc
Step-at s t (load_dies a c) h = cc
Step-at s t (turn_dies a c) h = cc
Step-at s t (take_turn a c) h = cc
Step-at s t (end_turn a c) h = cc
Step-at s t (lost a c) h = cc
Step-at s t (interrupt a c) h = cc
Step-at s t (quit c) h = cc
Step-at s t (cancel a c) h = cc
Step-at s t (answer c) h = cc

Reach-at : (s : Threads) → Reach new_threads s → s ≡ at s.main_at
unfolding new_threads
Reach-at s here = refl
Reach-at s (next {s = r} x y) = Step-at r s y (Reach-at r x)

Reach_append : (s t u : Threads) → Reach s t → Reach t u → Reach s u
Reach_append s t u x here = x
Reach_append s t u x (next {s = r} y z) = next (Reach_append s t r x y) z

first : {s t u : Threads} → Step s t → Reach t u → Reach s u
first {s = s} {t = t} {u = u} x y = Reach_append s t u (next here x) y

-- The ways to the end.
awaiting_exits : Reach (at awaiting) (at exited)
awaiting_exits = next here (answer true)

quitting_exits : Reach (at quitting) (at exited)
quitting_exits = first (quit false) (first (cancel answering false) awaiting_exits)

-- `main` has taken an interrupt.
abbrev pub is_leaving : MainAt → Bool
is_leaving quitting = true
is_leaving cancelling = true
is_leaving awaiting = true
is_leaving _ = false

leaving_exits : (p : MainAt) → is_leaving p ≡ true → Reach (at p) (at exited)
leaving_exits launching h = cc
leaving_exits loading h = cc
leaving_exits selecting h = cc
leaving_exits turning h = cc
leaving_exits quitting h = quitting_exits
leaving_exits cancelling h = first (cancel answering false) awaiting_exits
leaving_exits awaiting h = awaiting_exits
leaving_exits exited h = cc
leaving_exits died h = cc

-- Once `main` has taken an interrupt, the two goroutines do not lock each other out: they can go on
-- to the end of `main`, by then the activation goroutine has ended and the metrics are cancelled, and
-- where `main` is says how far both are.
pub threads_exit :
    (s : Threads)
    → Reach new_threads s
    → is_leaving s.main_at ≡ true
    → (t : Threads) × Reach s t
      × (t.main_at ≡ exited)
      × (t.activation_at ≡ ended)
      × (t.metrics_cancelled ≡ true)
      × (s.activation_at ≡ activation_by s.main_at)
      × (s.metrics_cancelled ≡ cancelled_by s.main_at)
threads_exit s x l =
    let h = Reach-at s x in
    (
      at exited,
      rw h (leaving_exits s.main_at l),
      refl,
      refl,
      refl,
      ap (λ (t : Threads). t.activation_at) h,
      ap (λ (t : Threads). t.metrics_cancelled) h,
    )
