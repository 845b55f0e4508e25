-- ===== src/Serving/Progress.antt =====
-- How the goroutines of the event loop go on, one step after another (handler.go, server.go).
use leng.Prelude.{
  ℕ, zero, suc, ◌+◌, ◌≤◌, ◌≡◌, refl, ap, ◌∙◌, ◌⊎◌, inl, inr, Bool, true, false, none, some, List,
  [], ◌∷◌, arith, nat_beq, Bool-cases, Option-cases, length, take_out, count, comparable_text,
}
use leng.Serving
use leng.Serving.{
  Serving, Dispatcher, receiving, ended, holding, Event, call, lock, receive_closed, spawn, enter,
  receive, finish, is_waiting,
}
use leng.Serving.Counting.{present, all_called, steps_count}
use leng.Serving.Validity.{
  IsValid, is_ended, stop_begun, stops, reached-IsValid, steps-IsValid, new_present,
}
use leng.Serving.Settling.{is_internal, work, Internal, step-IsValid, Internal-stops, step-Lessens}

module _ {A : Type 0} where
  -- An internal step can be taken.
  abbrev Goes : Serving A → Type 0
  Goes s = (e : Event A) × (is_internal e ≡ true) × (s' : Serving A) × (Serving.step e s ≡ some s')

  goes :
      (e : Event A) (s : Serving A)
      → is_internal e ≡ true
      → (Serving.step e s ≡ none → false ≡ true)
      → Goes s
  goes e s i f = elim (Option-cases (Serving.step e s)) [
    | inl n ↦ let h = f n in cc
    | inr (s', n) ↦ (e, i, s', n)
  ]

  List-cases : (l : List A) → (l ≡ []) ⊎ ((a : A) × (r : List A) × (l ≡ a ∷ r))
  List-cases [] = inl refl
  List-cases (a ∷ r) = inr (a, r, refl)

  no_sender :
      (s : Serving A)
      → IsValid s
      → s.running ≡ []
      → s.sending ≡ []
      → (s.dispatcher ≡ receiving) ⊎ (s.dispatcher ≡ ended)
      → (work s ≡ 0) ⊎ Goes s
  unfolding Serving.step Serving.take_step Serving.take_lock Serving.close_channel Serving.enter_one
      Serving.break_loop take_out
  no_sender s v r k d = elim (Bool-cases (is_waiting s.stopping)) [
    | inl w ↦ inr (goes lock s refl (λ n. ground (arith, n, w, k, v.quiet)))
    | inr w ↦ elim (List-cases s.entering) [
      | inr (a, l, e) ↦ inr (goes (enter 0) s refl (λ n. ground (arith, n, w, e, v.quiet)))
      | inl e ↦ elim d [
        | inr q ↦ inl (ground (arith, q, e, r, k, w))
        | inl q ↦ elim (Bool-cases s.closed) [
          | inl c ↦ inr (goes receive_closed s refl (λ n. ground (arith, n, q, c, k, v.quiet)))
          | inr c ↦ inl (ground (arith, q, e, r, k, w, c))
        ]
      ]
    ]
  ]

  no_runner :
      (d : Dispatcher A) (s : Serving A)
      → s.dispatcher ≡ d
      → IsValid s
      → s.running ≡ []
      → (work s ≡ 0) ⊎ Goes s
  unfolding Serving.step Serving.take_step Serving.go Serving.receive_one take_out
  no_runner (holding a) s q v r = inr (goes spawn s refl (λ n. ground (arith, n, q, r, v.quiet)))
  no_runner ended s q v r =
      no_sender s v r (ground (arith, v.closed_empty, v.ended_closed, q)) (inr q)
  no_runner receiving s q v r = elim (List-cases s.sending) [
    | inl k ↦ no_sender s v r k (inl q)
    | inr (a, l, k) ↦ inr (goes (receive 0) s refl (λ n. ground (arith, n, q, k, v.quiet)))
  ]

  progress : (s : Serving A) → IsValid s → (work s ≡ 0) ⊎ Goes s
  unfolding Serving.step Serving.take_step Serving.finish_one take_out
  progress s v = elim (List-cases s.running) [
    | inl r ↦ no_runner s.dispatcher s refl v r
    | inr (a, l, r) ↦ inr (goes (finish 0) s refl (λ n. ground (arith, n, r, v.quiet)))
  ]

  -- The goroutines can go on until nothing is left for them to do.
  abbrev Settles : Serving A → Type 0
  Settles s =
      (es : List (Event A)) × (s' : Serving A) × Internal es
      × (Serving.steps es s ≡ some s')
      × IsValid s'
      × (work s' ≡ 0)

  settle_step :
      (e : Event A) (s t : Serving A)
      → is_internal e ≡ true
      → Serving.step e s ≡ some t
      → Settles t
      → Settles s
  unfolding Serving.steps Serving.steps_from
  settle_step e s t i h (es, s', j, r, v, z) = (e ∷ es, s', (i, j), rw h r, v, z)

  settle : (n : ℕ) (s : Serving A) → IsValid s → work s ≤ n → Settles s
  unfolding Serving.steps
  settle zero s v b = ([], s, tt, refl, v, omega (arith, b))
  settle (suc n) s v b = elim (progress s v) [
    | inl z ↦ ([], s, tt, refl, v, z)
    | inr (e, i, t, h) ↦
        settle_step e s t i h
          (settle n t (step-IsValid e s t i v h) (omega (arith, b, step-Lessens e s i v t h)))
  ]

  count_le-length : (p : A → Bool) (l : List A) → count p l ≤ length l
  count_le-length p [] = omega arith
  count_le-length p (x ∷ l) = ground (arith, count_le-length p l)

  Internal-all_called : (p : A → Bool) (es : List (Event A)) → Internal es → all_called p es ≡ 0
  Internal-all_called p [] i = refl
  Internal-all_called p (call a ∷ es) i = cc
  Internal-all_called p (Serving.stop ∷ es) i = cc
  Internal-all_called p (lock ∷ es) i = omega (arith, Internal-all_called p es i.1)
  Internal-all_called p (receive_closed ∷ es) i = omega (arith, Internal-all_called p es i.1)
  Internal-all_called p (spawn ∷ es) i = omega (arith, Internal-all_called p es i.1)
  Internal-all_called p (enter n ∷ es) i = omega (arith, Internal-all_called p es i.1)
  Internal-all_called p (receive n ∷ es) i = omega (arith, Internal-all_called p es i.1)
  Internal-all_called p (finish n ∷ es) i = omega (arith, Internal-all_called p es i.1)

  settled_present :
      (p : A → Bool) (t : Serving A)
      → work t ≡ 0
      → present p t ≡ count p t.answered + count p t.dropped
  settled_present p t z = ground (
    arith,
    z,
    count_le-length p t.entering,
    count_le-length p t.sending,
    count_le-length p t.running,
  )

  settled_ended :
      (t : Serving A)
      → IsValid t
      → work t ≡ 0
      → is_ended t.dispatcher ≡ nat_beq (stop_begun t.stopping) 1
  settled_ended t v z = ground (arith, z, v.closed_stopped, v.ended_closed)

  -- From every state that is reached with at most one call of `Stop` the goroutines can go on, with
  -- neither new requests nor calls of `Stop`, to a state in which every request that was called has
  -- been answered or dropped, and `do` has ended exactly if `Stop` was called.
  pub serving_settles :
      (p : A → Bool) (es : List (Event A)) (s : Serving A)
      → stops es ≤ 1
      → Serving.steps es Serving.new_serving ≡ some s
      → (fs : List (Event A)) × (t : Serving A) × Internal fs
        × (Serving.steps fs s ≡ some t)
        × (count p t.answered + count p t.dropped ≡ all_called p es)
        × (is_ended t.dispatcher ≡ nat_beq (stops es) 1)
  serving_settles p es s b h =
      let (v, k) = reached-IsValid es s b h in
      let (fs, t, i, r, w, z) = settle (work s) s v (omega arith) in
      let n : stops fs ≡ 0 = Internal-stops fs i in
      let k' = (steps-IsValid fs s t v (omega (arith, n, k, b)) r).1 in
      (
        fs,
        t,
        i,
        r,
        omega (
          arith,
          settled_present p t z,
          steps_count p fs s t r w.quiet,
          Internal-all_called p fs i,
          steps_count p es Serving.new_serving s h v.quiet,
          new_present p es,
        ),
        settled_ended t w z ∙ ap (λ m. nat_beq m 1) (omega (arith, k, k', n)),
      )
