-- ===== src/Resolver/Returning.antt =====
-- The ends of a lookup (resolver.go).
use leng.Prelude.{
  ℕ, zero, suc, ◌+◌, ◌*◌, ◌≤◌, ◌≡◌, refl, ap, ◌∙◌, ◌⊎◌, inl, inr, Bool, true, false, Option, none,
  some, List, [], ◌∷◌, ◌++◌, arith, if◌then◌else◌, eq_refl, Result, ok, err, returned, length, any,
  length-append, take_out, is_positive, ℤ, Text, comparable_text,
}
use leng.Dns.{Msg, Question}
use leng.Resolver
use leng.Resolver.{Network, ResolvError, Lookup, Event}
use leng.Utils.{holds}
use leng.Resolver.Waiting.{Given, useful, Ends}
use leng.Resolver.Schedules.{Ended, Proper, run_events-Proper, new_lookup-Proper}

module _ (u : Network) (net : Text) (req : Msg) (e : ResolvError) where
  run_events-append :
      (a b : List Event) (s : Lookup)
      → Resolver.run_events u net req e (a ++ b) s
        ≡ Resolver.run_events u net req e b (Resolver.run_events u net req e a s)
  unfolding Resolver.run_events
  run_events-append [] b s = refl
  run_events-append (x ∷ a) b s = run_events-append a b (Resolver.step u net req e x s.outcome s)

  -- The events that end a lookup.
  abbrev Closes : Lookup → Type 0
  Closes s =
      (fs : List Event) × (r : Result ResolvError Msg) × ((Resolver.run_events u net req e fs
          s).outcome
        ≡ some r)

  -- How many events a lookup can still take.
  abbrev left : Lookup → ℕ
  left s = 2 * length s.waiting + length s.running

  next-Closes :
      (x : Event) (s t : Lookup)
      → s.outcome ≡ none
      → Resolver.run_event u net req e x s ≡ t
      → Closes t
      → Closes s
  unfolding Resolver.run_events Resolver.step
  next-Closes x s t n p (fs, r, h) =
      let q = ap (λ o. Resolver.step u net req e x o s) n ∙ p in
      (x ∷ fs, r, ap (λ l. (Resolver.run_events u net req e fs l).outcome) q ∙ h)

  end_empty-Closes :
      (o : Option Resolver.UpstreamAnswer) (s : Lookup)
      → (r : Result ResolvError Msg) × ((Resolver.end_empty u e o s).outcome ≡ some r)
  unfolding Resolver.end_empty Resolver.receive_one
  end_empty-Closes none s = (err e, refl)
  end_empty-Closes (some a) s = (ok a.answer, refl)

  give_up-Closes : (s : Lookup) → s.outcome ≡ none → s.waiting ≡ [] → s.running ≡ [] → Closes s
  unfolding Resolver.run_events Resolver.step Resolver.run_event
  give_up-Closes s n w k =
      let (r, h) = end_empty-Closes s.res s in
      let d : Resolver.is_done u s ≡ true = ground (arith, w, k) in
      let q : Resolver.step u net req e Resolver.give_up s.outcome s
          ≡ Resolver.end_empty u e s.res s =
        ap (λ o. Resolver.step u net req e Resolver.give_up o s) n
        ∙ ap (λ b. if b then Resolver.end_empty u e s.res s else s) d in
      (Resolver.give_up ∷ [], r, ap (λ l. l.outcome) q ∙ h)

  closes :
      (n : ℕ) (s : Lookup) (w k : List Text)
      → left s ≤ n
      → s.outcome ≡ none
      → s.waiting ≡ w
      → s.running ≡ k
      → Closes s
  unfolding Resolver.run_event Resolver.start_one Resolver.finish_one take_out
  closes n s [] [] b o p q = give_up-Closes s o p q
  closes zero s (x ∷ w) k b o p q = ground (arith, b, p)
  closes zero s [] (x ∷ k) b o p q = ground (arith, b, q)
  closes (suc n) s (x ∷ w) k b o p q =
      let t : Lookup = record s { waiting = w; running = s.running ++ x ∷ [] } in
      next-Closes Resolver.start s t o (ap (λ l. Resolver.start_one u l s) p) (
        closes n t w (s.running ++ x ∷ []) (ground (arith, b, p, length-append s.running (x ∷ [])))
          o refl refl)
  closes (suc n) s [] (x ∷ k) b o p q =
      let t : Lookup = Resolver.finish_one u net req (some (x, k)) s in
      next-Closes (Resolver.finish 0) s t o
        (ap (λ l. Resolver.finish_one u net req (take_out 0 l) s) q)
        (closes n t [] k (ground (arith, b, p, q)) o p refl)

  can_close : (s : Lookup) (o : Option (Result ResolvError Msg)) → s.outcome ≡ o → Closes s
  unfolding Resolver.run_events
  can_close s none h = closes (left s) s s.waiting s.running (omega arith) h refl refl
  can_close s (some r) h = ([], r, h)

  -- No answer that can be used comes from any of the servers.
  any-false :
      (f : Text → Bool) (l : List Text)
      → ((x : Text) → holds x l ≡ true → f x ≡ false)
      → any f l ≡ false
  any-false f [] h = refl
  any-false f (y ∷ l) h =
      ground
        (arith, h y (ground (arith, eq_refl y)), any-false f l (λ x g. h x (ground (arith, g))))

  -- An answer of one of the servers that is not a SERVFAIL, or the error where there is none.
  abbrev pub Fair : List Text → Result ResolvError Msg → Type 0
  Fair servers (ok a) = Given u net req servers a
  Fair servers (err e') = (e' ≡ e) × (any (useful u net req servers) servers ≡ false)

  Ends-Fair :
      (servers : List Text) (r : Result ResolvError Msg)
      → Ends u net req servers e (some r)
      → Fair servers r
  Ends-Fair servers (ok a) q = q
  Ends-Fair servers (err e') q = (q.0, any-false (useful u net req servers) servers q.1)

  Ended-Fair :
      (servers : List Text) (o : Option (Result ResolvError Msg))
      → Ended u net req servers e o
      → (r : Result ResolvError Msg) × (o ≡ some r) × Fair servers r
  Ended-Fair servers o (r, p, q) = (r, p, Ends-Fair servers r q)

  Proper-Fair :
      (servers : List Text) (s : Lookup) (x : Result ResolvError Msg)
      → Proper u net req servers e s
      → s.outcome ≡ some x
      → (r : Result ResolvError Msg) × (s.outcome ≡ some r) × Fair servers r
  Proper-Fair servers s x (inl (n, o)) h = cc
  Proper-Fair servers s x (inr q) h = Ended-Fair servers s.outcome q

  servers_return :
      (servers : List Text) (events : List Event)
      → (fs : List Event) × (r : Result ResolvError Msg) × ((Resolver.run_events u net req e
            (events ++ fs)
            (Resolver.new_lookup u servers)).outcome
          ≡ some r)
        × Fair servers r
  servers_return servers events =
      let s = Resolver.run_events u net req e events (Resolver.new_lookup u servers) in
      let (fs, r, h) = can_close s s.outcome refl in
      let whole =
        ap (λ l. l.outcome) (run_events-append events fs (Resolver.new_lookup u servers)) ∙ h in
      let proper : Proper u net req servers e
          (Resolver.run_events u net req e (events ++ fs) (Resolver.new_lookup u servers)) =
        run_events-Proper u net req servers e (events ++ fs) (Resolver.new_lookup u servers)
          (new_lookup-Proper u net req servers e) in
      let (x, k, f) = Proper-Fair servers _ r proper whole in (fs, x, k, f)

module _ (u : Network) (net : Text) (req : Msg) (servers : List Text) where
  -- What the call returns: the answer of DNS over HTTPS, or else what the servers give.
  abbrev pub Settles : Text → Text → Result ResolvError Msg → Type 0
  Settles doh qname r =
      ((m : Msg) × (Resolver.try_doh u doh qname req ≡ some m) × (r ≡ ok m))
      ⊎ ((Resolver.try_doh u doh qname req ≡ none)
          × Fair u net req (Resolver.all_failed u net qname servers) servers r)

  asked_returns :
      (interval : ℤ) (doh qname : Text) (events : List Event) (o : Option Msg)
      → is_positive interval ≡ true
      → Resolver.try_doh u doh qname req ≡ o
      → (fs : List Event) × (r : Result ResolvError Msg) × (Resolver.ask_servers u net req interval
            qname servers
            (events ++ fs)
            o
          ≡ returned (some r))
        × Settles doh qname r
  unfolding Resolver.ask_servers
  asked_returns interval doh qname events (some m) p d = ([], ok m, refl, inl (m, d, refl))
  asked_returns interval doh qname events none p d =
      let (fs, r, h, f) =
        servers_return u net req (Resolver.all_failed u net qname servers) servers events in
      (fs, r, rw p (ap returned h), inr (d, f))

  -- Whatever has happened in a lookup of a message with a question, by a positive interval, its
  -- servers can go on to finish so that the call returns: the answer of DNS over HTTPS, or, where that
  -- gives none, an answer of one of the servers that is not a SERVFAIL, or, where none of them gives
  -- one, the error with the name that was asked for, the network and all the servers.
  pub lookup_returns :
      (interval : ℤ) (doh : Text) (events : List Event) (q : Question) (qs : List Question)
      → req.question ≡ q ∷ qs
      → is_positive interval ≡ true
      → (fs : List Event) × (r : Result ResolvError Msg) × (Resolver.look_up u net req interval
            servers doh
            (events ++ fs)
          ≡ returned (some r))
        × Settles doh q.name r
  unfolding Resolver.look_up Resolver.lookup_questions
  lookup_returns interval doh events q qs s p =
      let (fs, r, h, f) =
        asked_returns interval doh q.name events (Resolver.try_doh u doh q.name req) p refl in
      (fs, r, ap (Resolver.lookup_questions u net req interval servers doh (events ++ fs)) s ∙ h, f)
