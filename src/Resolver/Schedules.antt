-- ===== src/Resolver/Schedules.antt =====
-- Which answers a lookup returns, whatever the order in which the servers finish (resolver.go).
use leng.Prelude.{
  ℕ, ◌≡◌, refl, sym, ap, ◌∙◌, ◌⊎◌, inl, inr, true, false, Option, none, some, List, [], ◌∷◌, arith,
  Bool-cases, returned-injective, ok-injective, some-injective, err-injective, Result, ok, err,
  returned, take_out, is_positive, ℤ, Text, comparable_text,
}
use leng.Dns.{Msg, Question}
use leng.Utils.{holds}
use leng.Resolver
use leng.Resolver.{Network, UpstreamAnswer, ResolvError, Lookup, Event}
use leng.Resolver.Waiting.{
  nothing, useful, Given, Open, Ends, start_one-Open, finish_one-Open, finish_one-outcome,
}

module _ (u : Network) (net : Text) (req : Msg) (servers : List Text) where
  -- What holds of the outcome of a call that has returned.
  abbrev pub Ended : ResolvError → Option (Result ResolvError Msg) → Type 0
  Ended e o = (r : Result ResolvError Msg) × (o ≡ some r) × Ends u net req servers e (some r)

  -- Either the call goes on, or it has ended as it should.
  abbrev pub Proper : ResolvError → Lookup → Type 0
  Proper e s = ((s.outcome ≡ none) × Open u net req servers s) ⊎ Ended e s.outcome

  start_one-Proper :
      (e : ResolvError) (w : List Text) (s : Lookup)
      → s.waiting ≡ w
      → s.outcome ≡ none
      → Open u net req servers s
      → Proper e (Resolver.start_one u w s)
  unfolding Resolver.start_one
  start_one-Proper e [] s p h o = inl (h, o)
  start_one-Proper e (x ∷ w) s p h o = inl (h, start_one-Open u net req servers (x ∷ w) s p o)

  finish_one-Proper :
      (e : ResolvError) (n : ℕ) (s : Lookup)
      → s.outcome ≡ none
      → Open u net req servers s
      → Proper e (Resolver.finish_one u net req (take_out n s.running) s)
  finish_one-Proper e n s h o = inl (
    finish_one-outcome u net req servers (take_out n s.running) s ∙ h,
    finish_one-Open u net req servers n s o,
  )

  receive_one-Proper :
      (e : ResolvError) (res : Option UpstreamAnswer) (s : Lookup)
      → s.res ≡ res
      → s.outcome ≡ none
      → Open u net req servers s
      → Proper e (Resolver.receive_one u res s)
  unfolding Resolver.receive_one
  receive_one-Proper e none s p h o = inl (h, o)
  receive_one-Proper e (some r) s p h o = inr (ok r.answer, refl, (r.nameserver, o.given r p))

  end_empty-Proper :
      (e : ResolvError) (res : Option UpstreamAnswer) (s : Lookup)
      → s.res ≡ res
      → s.outcome ≡ none
      → Resolver.is_done u s ≡ true
      → Open u net req servers s
      → Proper e (Resolver.end_empty u e res s)
  unfolding Resolver.end_empty
  end_empty-Proper e (some r) s p h d o = receive_one-Proper e (some r) s p h o
  end_empty-Proper e none s p h d o = inr (
    err e,
    refl,
    (
      refl,
      λ x g. elim (Bool-cases (useful u net req servers x)) [
        | inl f ↦ ground (arith, o.settled x p g f, nothing x s.waiting, nothing x s.running, d)
        | inr f ↦ f
      ],
    ),
  )

  run_event-Proper :
      (e : ResolvError) (event : Event) (s : Lookup)
      → s.outcome ≡ none
      → Open u net req servers s
      → Proper e (Resolver.run_event u net req e event s)
  unfolding Resolver.run_event
  run_event-Proper e Resolver.start s h o = start_one-Proper e s.waiting s refl h o
  run_event-Proper e Resolver.receive s h o = receive_one-Proper e s.res s refl h o
  run_event-Proper e (Resolver.finish n) s h o = finish_one-Proper e n s h o
  run_event-Proper e Resolver.give_up s h o = elim (Bool-cases (Resolver.is_done u s)) [
    | inl d ↦ rw d (end_empty-Proper e s.res s refl h d o)
    | inr d ↦ rw d (inl (h, o))
  ]

  step-Proper :
      (e : ResolvError) (event : Event) (out : Option (Result ResolvError Msg)) (s : Lookup)
      → s.outcome ≡ out
      → Proper e s
      → Proper e (Resolver.step u net req e event out s)
  unfolding Resolver.step
  step-Proper e event (some r) s p q = q
  step-Proper e event none s p (inl (h, o)) = run_event-Proper e event s h o
  step-Proper e event none s p (inr (r, h, q)) = cc

  pub run_events-Proper :
      (e : ResolvError) (events : List Event) (s : Lookup)
      → Proper e s
      → Proper e (Resolver.run_events u net req e events s)
  unfolding Resolver.run_events
  run_events-Proper e [] s q = q
  run_events-Proper e (event ∷ events) s q =
      run_events-Proper e events (Resolver.step u net req e event s.outcome s)
        (step-Proper e event s.outcome s refl q)

  pub new_lookup-Proper : (e : ResolvError) → Proper e (Resolver.new_lookup u servers)
  new_lookup-Proper e = inl (
    refl,
    record {
      asked = λ x h. ground (arith, h);
      given = λ r h. cc;
      settled = λ x n h f. ground (arith, h);
    },
  )

  Ended-answer :
      (e : ResolvError) (o : Option (Result ResolvError Msg)) (r : Msg)
      → Ended e o
      → o ≡ some (ok r)
      → Given u net req servers r
  Ended-answer e o r (ok a, p, q) h =
      let same = ok-injective (some-injective (sym p ∙ h)) in rw (sym same) q
  Ended-answer e o r (err x, p, q) h = cc

  Ended-error :
      (e : ResolvError) (o : Option (Result ResolvError Msg)) (e' : ResolvError) (x : Text)
      → Ended e o
      → o ≡ some (err e')
      → holds x servers ≡ true
      → (e' ≡ e) × (useful u net req servers x ≡ false)
  Ended-error e o e' x (ok a, p, q) h g = cc
  Ended-error e o e' x (err d, p, q) h g =
      (err-injective (some-injective (sym h ∙ p)) ∙ q.0, q.1 x g)

  run_events_answer :
      (e : ResolvError) (events : List Event) (r : Msg)
      → (Resolver.run_events u net req e events (Resolver.new_lookup u servers)).outcome
        ≡ some (ok r)
      → Given u net req servers r
  run_events_answer e events r h = elim (run_events-Proper e events _ (new_lookup-Proper e)) [
    | inl (n, o) ↦ cc
    | inr (r', p, q) ↦ Ended-answer e _ r (r', p, q) h
  ]

  run_events_error :
      (e e' : ResolvError) (events : List Event) (x : Text)
      → (Resolver.run_events u net req e events (Resolver.new_lookup u servers)).outcome
        ≡ some (err e')
      → holds x servers ≡ true
      → (e' ≡ e) × (useful u net req servers x ≡ false)
  run_events_error e e' events x h g = elim (run_events-Proper e events _ (new_lookup-Proper e)) [
    | inl (n, o) ↦ cc
    | inr (r', p, q) ↦ Ended-error e _ e' x (r', p, q) h g
  ]

  -- An answer of DNS over HTTPS, or of one of the servers where that gives none.
  abbrev pub Answered : Text → Text → Msg → Type 0
  Answered doh qname r =
      (Resolver.try_doh u doh qname req ≡ some r)
      ⊎ ((Resolver.try_doh u doh qname req ≡ none) × Given u net req servers r)

  abbrev pub Failed : Text → Text → ResolvError → Text → Type 0
  Failed doh qname e x =
      (Resolver.try_doh u doh qname req ≡ none)
      × (e ≡ Resolver.all_failed u net qname servers)
      × (useful u net req servers x ≡ false)

  asked-Answered :
      (interval : ℤ) (doh qname : Text) (events : List Event) (o : Option Msg) (r : Msg)
      → Resolver.try_doh u doh qname req ≡ o
      → Resolver.ask_servers u net req interval qname servers events o ≡ returned (some (ok r))
      → Answered doh qname r
  unfolding Resolver.ask_servers
  asked-Answered interval doh qname events (some m) r d h =
      inl (d ∙ ap some (ok-injective (some-injective (returned-injective h))))
  asked-Answered interval doh qname events none r d h = elim (Bool-cases (is_positive interval)) [
    | inl p ↦ inr (
      d,
      run_events_answer (Resolver.all_failed u net qname servers) events r
          (returned-injective (rw (sym h, p) refl)),
    )
    | inr p ↦ ground (arith, h, p)
  ]

  asked-Failed :
      (interval : ℤ) (doh qname : Text) (events : List Event) (o : Option Msg) (e : ResolvError)
      (x : Text)
      → Resolver.try_doh u doh qname req ≡ o
      → Resolver.ask_servers u net req interval qname servers events o ≡ returned (some (err e))
      → holds x servers ≡ true
      → Failed doh qname e x
  unfolding Resolver.ask_servers
  asked-Failed interval doh qname events (some m) e x d h g = cc
  asked-Failed interval doh qname events none e x d h g = elim (Bool-cases (is_positive interval)) [
    | inl p ↦
        let (q, f) =
          run_events_error (Resolver.all_failed u net qname servers) e events x
            (returned-injective (rw (sym h, p) refl)) g in
        (d, q, f)
    | inr p ↦ ground (arith, h, p)
  ]

  -- However the servers finish, an answer that the lookup returns is that of DNS over HTTPS, or,
  -- where that gives none, the answer of one of the servers and not a SERVFAIL.
  pub look_up_answer :
      (interval : ℤ) (doh : Text) (events : List Event) (q : Question) (qs : List Question)
      (r : Msg)
      → req.question ≡ q ∷ qs
      → Resolver.look_up u net req interval servers doh events ≡ returned (some (ok r))
      → Answered doh q.name r
  unfolding Resolver.look_up Resolver.lookup_questions
  look_up_answer interval doh events q qs r s h =
      asked-Answered interval doh q.name events (Resolver.try_doh u doh q.name req) r refl
        (sym (ap (Resolver.lookup_questions u net req interval servers doh events) s) ∙ h)

  -- However the servers finish, the lookup fails only if DNS over HTTPS gives no answer and each
  -- server failed or answered SERVFAIL, and then the error has the name that was asked for, the
  -- network, and all the servers.
  pub look_up_error :
      (interval : ℤ) (doh : Text) (events : List Event) (q : Question) (qs : List Question)
      (e : ResolvError) (x : Text)
      → req.question ≡ q ∷ qs
      → Resolver.look_up u net req interval servers doh events ≡ returned (some (err e))
      → holds x servers ≡ true
      → Failed doh q.name e x
  unfolding Resolver.look_up Resolver.lookup_questions
  look_up_error interval doh events q qs e x s h g =
      asked-Failed interval doh q.name events (Resolver.try_doh u doh q.name req) e x refl
        (sym (ap (Resolver.lookup_questions u net req interval servers doh events) s) ∙ h) g
