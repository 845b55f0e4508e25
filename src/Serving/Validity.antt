-- ===== src/Serving/Validity.antt =====
-- The event loop never sends on a closed channel, and its group keeps its limit (handler.go,
-- server.go).
use leng.Prelude.{
  ℕ, suc, ◌+◌, ◌≤◌, ◌≡◌, refl, sym, ◌∙◌, inl, inr, Bool, true, false, not, Option, none, some, List,
  [], ◌∷◌, arith, Option-cases, some-injective, length, length-append, take_out, length-take_out,
  comparable_text,
}
use leng.Serving
use leng.Serving.Counting.{present, all_called, steps_count}
use leng.Serving.{
  Serving, Dispatcher, Stopping, receiving, ended, holding, Event, call, stop, lock, receive_closed,
  spawn, enter, receive, finish, group_limit, is_waiting, not_called, lock_awaited, stopped,
}

abbrev pub is_stopped : Stopping → Bool
is_stopped stopped = true
is_stopped _ = false

abbrev pub stop_begun : Stopping → ℕ
stop_begun not_called = 0
stop_begun _ = 1

abbrev pub is_ended : {A : Type 0} → Dispatcher A → Bool
is_ended ended = true
is_ended _ = false

module _ {A : Type 0} where
  -- What holds between two steps if `Stop` is called at most once.
  pub record IsValid (s : Serving A) : Type 0 where
    pub quiet : s.panicked ≡ false
    pub open_active : s.active ≡ not s.closed
    pub closed_stopped : s.closed ≡ is_stopped s.stopping
    pub closed_empty : s.closed ≡ true → length s.sending ≡ 0
    pub ended_closed : is_ended s.dispatcher ≡ true → s.closed ≡ true
    pub limited : length s.running ≤ group_limit

  -- How often `Stop` is called.
  abbrev pub stops : List (Event A) → ℕ
  stops [] = 0
  stops (stop ∷ es) = suc (stops es)
  stops (_ ∷ es) = stops es

  -- What a step has to show, where it is `n` calls of `Stop`.
  abbrev pub Keeps : ℕ → Serving A → Option (Serving A) → Type 0
  Keeps n s r =
      (s' : Serving A)
      → r ≡ some s'
      → IsValid s' × (stop_begun s'.stopping ≡ n + stop_begun s.stopping)

  enter_one-Keeps :
      (o : Option (A × List A)) (s : Serving A) → IsValid s → Keeps 0 s (Serving.enter_one o s)
  unfolding Serving.enter_one Serving.do_query Serving.send
  enter_one-Keeps none s v s' h = cc
  enter_one-Keeps (some (a, rest)) s v s' h = ground (arith, h, length-append s.sending (a ∷ []))

  receive_one-Keeps :
      (d : Dispatcher A) (n : ℕ) (s : Serving A)
      → s.dispatcher ≡ d
      → IsValid s
      → Keeps 0 s (Serving.receive_one d (take_out n s.sending) s)
  unfolding Serving.receive_one
  receive_one-Keeps receiving n s q v s' h = elim (Option-cases (take_out n s.sending)) [
    | inl e ↦ ground (arith, h, e)
    | inr ((a, rest), e) ↦ ground (arith, h, e, q, length-take_out n s.sending a rest e)
  ]
  receive_one-Keeps ended n s q v s' h = cc
  receive_one-Keeps (holding a) n s q v s' h = cc

  break_loop-Keeps :
      (d : Dispatcher A) (s : Serving A)
      → s.dispatcher ≡ d
      → IsValid s
      → Keeps 0 s (Serving.break_loop d s)
  unfolding Serving.break_loop
  break_loop-Keeps receiving s q v s' h = ground (arith, h, q)
  break_loop-Keeps ended s q v s' h = cc
  break_loop-Keeps (holding a) s q v s' h = cc

  go-Keeps :
      (d : Dispatcher A) (s : Serving A) → s.dispatcher ≡ d → IsValid s → Keeps 0 s (Serving.go d s)
  unfolding Serving.go
  go-Keeps receiving s q v s' h = cc
  go-Keeps ended s q v s' h = cc
  go-Keeps (holding a) s q v s' h = ground (arith, h, q, length-append s.running (a ∷ []))

  finish_one-Keeps :
      (n : ℕ) (s : Serving A) → IsValid s → Keeps 0 s (Serving.finish_one (take_out n s.running) s)
  unfolding Serving.finish_one
  finish_one-Keeps n s v s' h = elim (Option-cases (take_out n s.running)) [
    | inl e ↦ ground (arith, h, e)
    | inr ((a, rest), e) ↦ ground (arith, h, e, length-take_out n s.running a rest e)
  ]

  take_lock-Keeps : (s : Serving A) → IsValid s → Keeps 0 s (Serving.take_lock s)
  unfolding Serving.take_lock Serving.close_channel
  take_lock-Keeps s v s' h = ground (arith, h)

  abbrev pub stop_calls : Event A → ℕ
  stop_calls stop = 1
  stop_calls _ = 0

  take_step-Keeps :
      (e : Event A) (s : Serving A)
      → IsValid s
      → stop_calls e + stop_begun s.stopping ≤ 1
      → Keeps (stop_calls e) s (Serving.take_step e s)
  unfolding Serving.take_step
  take_step-Keeps (call a) s v b s' h = ground (arith, h)
  take_step-Keeps stop s v b s' h = ground (arith, h)
  take_step-Keeps lock s v b s' h = take_lock-Keeps s v s' h
  take_step-Keeps receive_closed s v b s' h = break_loop-Keeps s.dispatcher s refl v s' h
  take_step-Keeps spawn s v b s' h = go-Keeps s.dispatcher s refl v s' h
  take_step-Keeps (enter n) s v b s' h = enter_one-Keeps (take_out n s.entering) s v s' h
  take_step-Keeps (receive n) s v b s' h = receive_one-Keeps s.dispatcher n s refl v s' h
  take_step-Keeps (finish n) s v b s' h = finish_one-Keeps n s v s' h

  pub stops-cons : (e : Event A) (es : List (Event A)) → stops (e ∷ es) ≡ stop_calls e + stops es
  stops-cons (call a) es = omega arith
  stops-cons stop es = omega arith
  stops-cons lock es = omega arith
  stops-cons receive_closed es = omega arith
  stops-cons spawn es = omega arith
  stops-cons (enter n) es = omega arith
  stops-cons (receive n) es = omega arith
  stops-cons (finish n) es = omega arith

  pub step-Keeps :
      (e : Event A) (s : Serving A)
      → IsValid s
      → stop_calls e + stop_begun s.stopping ≤ 1
      → Keeps (stop_calls e) s (Serving.step e s)
  unfolding Serving.step
  step-Keeps e s v b s' h = take_step-Keeps e s v b s' (rw (sym h, v.quiet) refl)

  pub steps-IsValid :
      (es : List (Event A)) (s s' : Serving A)
      → IsValid s
      → stops es + stop_begun s.stopping ≤ 1
      → Serving.steps es s ≡ some s'
      → IsValid s' × (stop_begun s'.stopping ≡ stops es + stop_begun s.stopping)
  unfolding Serving.steps Serving.steps_from
  steps-IsValid [] s s' v b h = rw (sym (some-injective h)) (v, omega arith)
  steps-IsValid (e ∷ es) s s' v b h = elim (Option-cases (Serving.step e s)) [
    | inl n ↦ ground (arith, h, n)
    | inr (t, n) ↦
        let rest : Serving.steps es t ≡ some s' = rw (sym h, n, Serving.steps_from) refl in
        let (w, k) = step-Keeps e s v (omega (arith, stops-cons e es)) t n in
        let (w', k') = steps-IsValid es t s' w (omega (arith, k, stops-cons e es)) rest in
        (w', omega (arith, k, k', stops-cons e es))
  ]

  pub new_serving-IsValid : IsValid (Serving.new_serving {A = A})
  unfolding Serving.new_serving
  new_serving-IsValid = ground arith

  new_bound :
      (es : List (Event A))
      → stops es ≤ 1
      → stops es + stop_begun (Serving.new_serving {A = A}).stopping ≤ 1
  unfolding Serving.new_serving
  new_bound es b = omega (arith, b)

  pub reached-IsValid :
      (es : List (Event A)) (s : Serving A)
      → stops es ≤ 1
      → Serving.steps es Serving.new_serving ≡ some s
      → IsValid s × (stop_begun s.stopping ≡ stops es)
  unfolding Serving.new_serving
  reached-IsValid es s b h =
      let (v, k) = steps-IsValid es Serving.new_serving s new_serving-IsValid (new_bound es b) h in
      (v, omega (arith, k))

  pub new_present :
      (p : A → Bool) (es : List (Event A))
      → all_called p es + present p Serving.new_serving ≡ all_called p es
  unfolding Serving.new_serving
  new_present p es = omega arith

  -- Whatever steps the goroutines take from a new event loop, if `Stop` is called at most once there
  -- is neither a send on a closed channel nor a second close, the requests that run are at most 100,
  -- and no request is lost: those that meet a test and were called are as many as those on their
  -- way, answered or dropped.
  pub steps_safe :
      (p : A → Bool) (es : List (Event A)) (s : Serving A)
      → stops es ≤ 1
      → Serving.steps es Serving.new_serving ≡ some s
      → (s.panicked ≡ false) × (length s.running ≤ group_limit) × (present p s ≡ all_called p es)
  steps_safe p es s b h =
      let (v, k) = reached-IsValid es s b h in
      (v.quiet, v.limited, steps_count p es Serving.new_serving s h v.quiet ∙ new_present p es)
