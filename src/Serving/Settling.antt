-- ===== src/Serving/Settling.antt =====
-- How many steps the goroutines of the event loop can take (handler.go, server.go).
use leng.Prelude.{
  ℕ, ◌+◌, ◌*◌, ◌≤◌, ◌<◌, ◌≡◌, refl, sym, inl, inr, Bool, true, false, Option, some, List, [], ◌∷◌,
  arith, if◌then◌else◌, Option-cases, some-injective, length, All, length-append, take_out,
  length-take_out, comparable_text,
}
use leng.Serving
use leng.Serving.{
  Serving, Dispatcher, Stopping, receiving, ended, holding, Event, call, stop, lock, receive_closed,
  spawn, enter, receive, finish, group_limit, is_waiting, not_called, lock_awaited, stopped,
}
use leng.Serving.Validity.{IsValid, stop_calls, stop_begun, step-Keeps, stops, stops-cons}

-- The steps that are neither new requests nor calls of `Stop`.
abbrev pub is_internal : {A : Type 0} → Event A → Bool
is_internal (call a) = false
is_internal stop = false
is_internal _ = true

-- How many steps are left for `do` where it holds an operation or is to end, and for `Stop`.
abbrev pub dispatcher_work : {A : Type 0} → Dispatcher A → Bool → ℕ
dispatcher_work receiving closed = if closed then 1 else 0
dispatcher_work ended closed = 0
dispatcher_work (holding a) closed = 3

abbrev pub stopping_work : Stopping → ℕ
stopping_work lock_awaited = 2
stopping_work _ = 0

pub stop_begun_le : (p : Stopping) → stop_begun p ≤ 1
stop_begun_le not_called = omega arith
stop_begun_le lock_awaited = omega arith
stop_begun_le stopped = omega arith

module _ {A : Type 0} where
  -- A bound on the steps that the goroutines can still take.
  abbrev pub work : Serving A → ℕ
  work s =
      5 * length s.entering
      + 4 * length s.sending
      + dispatcher_work s.dispatcher s.closed
      + length s.running
      + stopping_work s.stopping

  abbrev pub Lessens : Serving A → Option (Serving A) → Type 0
  Lessens s r = (s' : Serving A) → r ≡ some s' → work s' < work s

  enter_one-Lessens :
      (n : ℕ) (s : Serving A) → IsValid s → Lessens s (Serving.enter_one (take_out n s.entering) s)
  unfolding Serving.enter_one Serving.do_query Serving.send
  enter_one-Lessens n s v s' h = elim (Option-cases (take_out n s.entering)) [
    | inl e ↦ ground (arith, h, e)
    | inr ((a, rest), e) ↦
        ground
          (arith, h, e, length-take_out n s.entering a rest e, length-append s.sending (a ∷ []))
  ]

  receive_one-Lessens :
      (n : ℕ) (d : Dispatcher A) (s : Serving A)
      → s.dispatcher ≡ d
      → Lessens s (Serving.receive_one d (take_out n s.sending) s)
  unfolding Serving.receive_one
  receive_one-Lessens n receiving s q s' h = elim (Option-cases (take_out n s.sending)) [
    | inl e ↦ ground (arith, h, e)
    | inr ((a, rest), e) ↦ ground (arith, h, e, q, length-take_out n s.sending a rest e)
  ]
  receive_one-Lessens n ended s q s' h = cc
  receive_one-Lessens n (holding a) s q s' h = cc

  break_loop-Lessens :
      (d : Dispatcher A) (s : Serving A) → s.dispatcher ≡ d → Lessens s (Serving.break_loop d s)
  unfolding Serving.break_loop
  break_loop-Lessens receiving s q s' h = ground (arith, h, q)
  break_loop-Lessens ended s q s' h = cc
  break_loop-Lessens (holding a) s q s' h = cc

  go-Lessens : (d : Dispatcher A) (s : Serving A) → s.dispatcher ≡ d → Lessens s (Serving.go d s)
  unfolding Serving.go
  go-Lessens receiving s q s' h = cc
  go-Lessens ended s q s' h = cc
  go-Lessens (holding a) s q s' h = ground (arith, h, q, length-append s.running (a ∷ []))

  finish_one-Lessens :
      (n : ℕ) (s : Serving A) → Lessens s (Serving.finish_one (take_out n s.running) s)
  unfolding Serving.finish_one
  finish_one-Lessens n s s' h = elim (Option-cases (take_out n s.running)) [
    | inl e ↦ ground (arith, h, e)
    | inr ((a, rest), e) ↦ ground (arith, h, e, length-take_out n s.running a rest e)
  ]

  take_lock-Lessens : (s : Serving A) → IsValid s → Lessens s (Serving.take_lock s)
  unfolding Serving.take_lock Serving.close_channel
  take_lock-Lessens s v s' h = ground (arith, h)

  take_step-Lessens :
      (e : Event A) (s : Serving A)
      → is_internal e ≡ true
      → IsValid s
      → Lessens s (Serving.take_step e s)
  unfolding Serving.take_step
  take_step-Lessens (call a) s i v s' h = cc
  take_step-Lessens stop s i v s' h = cc
  take_step-Lessens lock s i v s' h = take_lock-Lessens s v s' h
  take_step-Lessens receive_closed s i v s' h = break_loop-Lessens s.dispatcher s refl s' h
  take_step-Lessens spawn s i v s' h = go-Lessens s.dispatcher s refl s' h
  take_step-Lessens (enter n) s i v s' h = enter_one-Lessens n s v s' h
  take_step-Lessens (receive n) s i v s' h = receive_one-Lessens n s.dispatcher s refl s' h
  take_step-Lessens (finish n) s i v s' h = finish_one-Lessens n s s' h

  pub step-Lessens :
      (e : Event A) (s : Serving A)
      → is_internal e ≡ true
      → IsValid s
      → Lessens s (Serving.step e s)
  unfolding Serving.step
  step-Lessens e s i v s' h = take_step-Lessens e s i v s' (rw (sym h, v.quiet) refl)

  pub no_stop : (e : Event A) → is_internal e ≡ true → stop_calls e ≡ 0
  no_stop (call a) i = cc
  no_stop stop i = cc
  no_stop lock i = refl
  no_stop receive_closed i = refl
  no_stop spawn i = refl
  no_stop (enter n) i = refl
  no_stop (receive n) i = refl
  no_stop (finish n) i = refl

  pub step-IsValid :
      (e : Event A) (s s' : Serving A)
      → is_internal e ≡ true
      → IsValid s
      → Serving.step e s ≡ some s'
      → IsValid s'
  step-IsValid e s s' i v h =
      (step-Keeps e s v (omega (arith, no_stop e i, stop_begun_le s.stopping)) s' h).0

  abbrev pub Internal : List (Event A) → Type 0
  Internal = All (λ e. is_internal e ≡ true)

  -- From a valid state the goroutines take at most `work s` steps, unless requests or a stop come in
  -- between.
  pub steps_bounded :
      (es : List (Event A)) (s s' : Serving A)
      → IsValid s
      → Internal es
      → Serving.steps es s ≡ some s'
      → length es + work s' ≤ work s
  unfolding Serving.steps Serving.steps_from
  steps_bounded [] s s' v i h = rw (sym (some-injective h)) (omega arith)
  steps_bounded (e ∷ es) s s' v i h = elim (Option-cases (Serving.step e s)) [
    | inl n ↦ ground (arith, h, n)
    | inr (t, n) ↦
        let rest : Serving.steps es t ≡ some s' = rw (sym h, n, Serving.steps_from) refl in
        omega (
          arith,
          steps_bounded es t s' (step-IsValid e s t i.0 v n) i.1 rest,
          step-Lessens e s i.0 v t n,
        )
  ]

  pub Internal-stops : (es : List (Event A)) → Internal es → stops es ≡ 0
  Internal-stops [] i = refl
  Internal-stops (e ∷ es) i = omega (arith, Internal-stops es i.1, no_stop e i.0, stops-cons e es)
