-- ===== src/Serving/Counting.antt =====
-- No request is lost on its way through the event loop (handler.go, server.go).
use leng.Prelude.{
  ℕ, ◌+◌, ◌≡◌, refl, sym, inl, inr, Bool, false, Option, some, List, [], ◌∷◌, arith, if◌then◌else◌,
  Bool-cases, Option-cases, take_out, count, count-append, count-take_out, comparable_text,
}
use leng.Serving
use leng.Serving.{
  Serving, Dispatcher, receiving, ended, holding, Event, call, stop, lock, receive_closed, spawn,
  enter, receive, finish,
}

module _ {A : Type 0} (p : A → Bool) where
  abbrev pub one_if : A → ℕ
  one_if a = if p a then 1 else 0

  abbrev pub held : Dispatcher A → ℕ
  held (holding a) = one_if a
  held _ = 0

  -- The requests that meet the test, wherever they are: on their way, answered or dropped.
  abbrev pub present : Serving A → ℕ
  present s =
      count p s.entering
      + count p s.sending
      + held s.dispatcher
      + count p s.running
      + count p s.answered
      + count p s.dropped

  abbrev pub called : Event A → ℕ
  called (call a) = one_if a
  called _ = 0

  abbrev pub all_called : List (Event A) → ℕ
  all_called [] = 0
  all_called (e ∷ es) = called e + all_called es

  -- What a step has to show.
  abbrev Counts : ℕ → Serving A → Option (Serving A) → Type 0
  Counts n s r = (s' : Serving A) → r ≡ some s' → s'.panicked ≡ false → present s' ≡ n + present s

  enter_one-Counts :
      (n : ℕ) (s : Serving A)
      → s.panicked ≡ false
      → Counts 0 s (Serving.enter_one (take_out n s.entering) s)
  unfolding Serving.enter_one Serving.do_query Serving.send
  enter_one-Counts n s q s' h z = elim (Option-cases (take_out n s.entering)) [
    | inl e ↦ ground (arith, h, e)
    | inr ((a, rest), e) ↦
        ground (
          arith,
          h,
          e,
          z,
          count-take_out p n s.entering a rest e,
          count-append p s.sending (a ∷ []),
        )
  ]

  receive_one-Counts :
      (n : ℕ) (d : Dispatcher A) (s : Serving A)
      → s.dispatcher ≡ d
      → Counts 0 s (Serving.receive_one d (take_out n s.sending) s)
  unfolding Serving.receive_one
  receive_one-Counts n receiving s q s' h z = elim (Option-cases (take_out n s.sending)) [
    | inl e ↦ ground (arith, h, e)
    | inr ((a, rest), e) ↦ ground (arith, h, e, q, count-take_out p n s.sending a rest e)
  ]
  receive_one-Counts n ended s q s' h z = cc
  receive_one-Counts n (holding a) s q s' h z = cc

  break_loop-Counts :
      (d : Dispatcher A) (s : Serving A) → s.dispatcher ≡ d → Counts 0 s (Serving.break_loop d s)
  unfolding Serving.break_loop
  break_loop-Counts receiving s q s' h z = ground (arith, h, q)
  break_loop-Counts ended s q s' h z = cc
  break_loop-Counts (holding a) s q s' h z = cc

  go-Counts : (d : Dispatcher A) (s : Serving A) → s.dispatcher ≡ d → Counts 0 s (Serving.go d s)
  unfolding Serving.go
  go-Counts receiving s q s' h z = cc
  go-Counts ended s q s' h z = cc
  go-Counts (holding a) s q s' h z = ground (arith, h, q, count-append p s.running (a ∷ []))

  finish_one-Counts :
      (n : ℕ) (s : Serving A) → Counts 0 s (Serving.finish_one (take_out n s.running) s)
  unfolding Serving.finish_one
  finish_one-Counts n s s' h z = elim (Option-cases (take_out n s.running)) [
    | inl e ↦ ground (arith, h, e)
    | inr ((a, rest), e) ↦ ground (arith, h, e, count-take_out p n s.running a rest e)
  ]

  take_lock-Counts : (s : Serving A) → Counts 0 s (Serving.take_lock s)
  unfolding Serving.take_lock Serving.close_channel
  take_lock-Counts s s' h z = ground (arith, h, z)

  take_step-Counts :
      (e : Event A) (s : Serving A)
      → s.panicked ≡ false
      → Counts (called e) s (Serving.take_step e s)
  unfolding Serving.take_step
  take_step-Counts (call a) s q s' h z = ground (arith, h, count-append p s.entering (a ∷ []))
  take_step-Counts stop s q s' h z = ground (arith, h)
  take_step-Counts lock s q s' h z = take_lock-Counts s s' h z
  take_step-Counts receive_closed s q s' h z = break_loop-Counts s.dispatcher s refl s' h z
  take_step-Counts spawn s q s' h z = go-Counts s.dispatcher s refl s' h z
  take_step-Counts (enter n) s q s' h z = enter_one-Counts n s q s' h z
  take_step-Counts (receive n) s q s' h z = receive_one-Counts n s.dispatcher s refl s' h z
  take_step-Counts (finish n) s q s' h z = finish_one-Counts n s s' h z

  step-quiet : (e : Event A) (s s' : Serving A) → Serving.step e s ≡ some s' → s.panicked ≡ false
  unfolding Serving.step
  step-quiet e s s' h = elim (Bool-cases s.panicked) [ inl q ↦ ground (arith, h, q) | inr q ↦ q ]

  step-Counts : (e : Event A) (s : Serving A) → Counts (called e) s (Serving.step e s)
  unfolding Serving.step
  step-Counts e s s' h z =
      let q = step-quiet e s s' h in take_step-Counts e s q s' (rw (sym h, q) refl) z

  steps-quiet :
      (es : List (Event A)) (s s' : Serving A)
      → Serving.steps es s ≡ some s'
      → s'.panicked ≡ false
      → s.panicked ≡ false
  unfolding Serving.steps Serving.steps_from
  steps-quiet [] s s' h z = ground (arith, h, z)
  steps-quiet (e ∷ es) s s' h z = elim (Option-cases (Serving.step e s)) [
    | inl n ↦ ground (arith, h, n)
    | inr (t, n) ↦ step-quiet e s t n
  ]

  pub steps_count :
      (es : List (Event A)) (s s' : Serving A)
      → Serving.steps es s ≡ some s'
      → s'.panicked ≡ false
      → present s' ≡ all_called es + present s
  unfolding Serving.steps Serving.steps_from
  steps_count [] s s' h z = ground (arith, h)
  steps_count (e ∷ es) s s' h z = elim (Option-cases (Serving.step e s)) [
    | inl n ↦ ground (arith, h, n)
    | inr (t, n) ↦
        let rest : Serving.steps es t ≡ some s' = rw (sym h, n, Serving.steps_from) refl in
        omega (arith, steps_count es t s' rest z, step-Counts e s t n (steps-quiet es t s' rest z))
  ]
