-- ===== src/Metric/Hiding.antt =====
-- What the counters say of clients and of names, where high cardinality is off
-- (internal/metric/metric.go).
use leng.Prelude.{
  ℕ, ◌≡◌, refl, sym, ap, ◌∙◌, Bool, true, false, List, [], ◌∷◌, arith, returned-injective, Run,
  returned, panicked, Text, comparable_text,
}
use leng.Dns.{Msg, Question}
use leng.Metric
use leng.Metric.{Prom, Metrics, Running, Event}
use leng.Metric.Visible.{visible, visible_run, take_event-Shown}

-- The same types of the first questions.
abbrev pub SameAsked : List Question → List Question → Type 0
SameAsked [] [] = Unit
SameAsked (q ∷ qs) (p ∷ ps) = q.qtype ≡ p.qtype
SameAsked _ _ = ⊥

abbrev pub SameKind : Msg → Msg → Type 0
SameKind m n = SameAsked m.question n.question × (m.rcode ≡ n.rcode)

-- Events that may differ in clients and names.
pub data Alike : Event → Event → Type 0 where
  response :
      (a c : Text) (m n : Msg) (b : Bool)
      → SameKind m n
      → Alike (Metric.dns_response a m b) (Metric.dns_response c n b)
  respond :
      (a c : Text) (m n : Msg) (b d : Bool)
      → SameKind m n
      → Alike (Metric.dns_respond a m b d) (Metric.dns_respond c n b d)
  upstream :
      (q p : Question) (m n : Msg) (u v : Text)
      → Alike (Metric.upstream_answer q m u) (Metric.upstream_answer p n v)
  same : (e : Event) → Alike e e

abbrev pub AllAlike : List Event → List Event → Type 0
AllAlike [] [] = Unit
AllAlike (e ∷ es) (f ∷ fs) = Alike e f × AllAlike es fs
AllAlike _ _ = ⊥

module _ {V : Type 0} (prom : Prom V) where
  module _ (period : ℕ) where
    -- Alike events show the same.
    count_response-alike :
        (a c : Text) (qs ps : List Question) (rcode : ℕ) (b : Bool) (m : Metrics V)
        → m.config_high_cardinality ≡ false
        → SameAsked qs ps
        → Metric.count_response prom a qs rcode b m ≡ Metric.count_response prom c ps rcode b m
    unfolding Metric.count_response Metric.response_labels
    count_response-alike a c [] [] rcode b m h k = refl
    count_response-alike a c (q ∷ qs) (p ∷ ps) rcode b m h k = rw (h, k) refl
    count_response-alike a c [] (p ∷ ps) rcode b m h k = elim k [ ]
    count_response-alike a c (q ∷ qs) [] rcode b m h k = elim k [ ]

    take_event-Alike :
        (e f : Event) (r : Running V)
        → r.metrics.config_high_cardinality ≡ false
        → Alike e f
        → visible_run prom (Metric.take_event prom period e r)
          ≡ visible_run prom (Metric.take_event prom period f r)
    unfolding visible_run visible Metric.take_event Metric.with_metrics Metric.report_dns_respond
        Metric.report_dns_response Metric.count_upstream
    take_event-Alike e f r h (response a c m n b k) =
        rw (k.1, count_response-alike a c m.question n.question n.rcode b r.metrics h k.0) refl
    take_event-Alike e f r h (respond a c m n b d k) =
        rw (k.1, count_response-alike a c m.question n.question n.rcode b r.metrics h k.0) refl
    take_event-Alike e f r h (upstream q p m n u v) = refl
    take_event-Alike e f r h (same x) = refl

    abbrev high_of : Running V → Bool
    high_of r = r.metrics.config_high_cardinality

    abbrev KeepsHigh : Running V → Run (Running V) → Type 0
    KeepsHigh r o = (s : Running V) → o ≡ returned s → high_of s ≡ high_of r

    count_response-KeepsHigh :
        (a : Text) (qs : List Question) (rcode : ℕ) (b : Bool) (r : Running V)
        → KeepsHigh r
            (Metric.with_metrics prom period (Metric.count_response prom a qs rcode b r.metrics) r)
    unfolding Metric.with_metrics Metric.count_response
    count_response-KeepsHigh a [] rcode b r s h = cc
    count_response-KeepsHigh a (q ∷ qs) rcode b r s h = ap high_of (sym (returned-injective h))

    count_cached-KeepsHigh :
        (d : Bool) (a : Text) (qs : List Question) (rcode : ℕ) (b : Bool) (r : Running V)
        → KeepsHigh r (
            Metric.with_metrics prom period
              (Metric.count_cached prom d (Metric.count_response prom a qs rcode b r.metrics))
              r)
    unfolding Metric.with_metrics Metric.count_response Metric.count_cached
    count_cached-KeepsHigh d a [] rcode b r s h = cc
    count_cached-KeepsHigh true a (q ∷ qs) rcode b r s h = ap high_of (sym (returned-injective h))
    count_cached-KeepsHigh false a (q ∷ qs) rcode b r s h = ap high_of (sym (returned-injective h))

    take_event-KeepsHigh :
        (e : Event) (r : Running V) → KeepsHigh r (Metric.take_event prom period e r)
    unfolding Metric.take_event Metric.with_metrics Metric.report_dns_response
        Metric.report_dns_respond Metric.report_upstream_resolve Metric.count_upstream
        Metric.count_doh_request Metric.count_doh_response Metric.count_custom Metric.count_reload
        Metric.set_custom_records Metric.reset_turn Metric.reset_all
    take_event-KeepsHigh (Metric.dns_response a m b) r s h =
        count_response-KeepsHigh a m.question m.rcode b r s h
    take_event-KeepsHigh (Metric.dns_respond a m b d) r s h =
        count_cached-KeepsHigh d a m.question m.rcode b r s h
    take_event-KeepsHigh (Metric.upstream_answer q m u) r s h =
        ap high_of (sym (returned-injective h))
    take_event-KeepsHigh (Metric.upstream_time u t) r s h = ground (arith, returned-injective h)
    take_event-KeepsHigh (Metric.doh_outcome f) r s h = ap high_of (sym (returned-injective h))
    take_event-KeepsHigh (Metric.doh_response x) r s h = ap high_of (sym (returned-injective h))
    take_event-KeepsHigh Metric.custom_request r s h = ap high_of (sym (returned-injective h))
    take_event-KeepsHigh Metric.config_reload r s h = ap high_of (sym (returned-injective h))
    take_event-KeepsHigh Metric.cancel r s h = ap high_of (sym (returned-injective h))
    take_event-KeepsHigh Metric.done r s h = ground (arith, returned-injective h)
    take_event-KeepsHigh (Metric.custom_records n) r s h = ap high_of (sym (returned-injective h))
    take_event-KeepsHigh (Metric.wake now later) r s h = ground (arith, returned-injective h)

    step-Alike :
        (e f : Event) (r s : Running V)
        → high_of r ≡ false
        → Alike e f
        → visible prom r ≡ visible prom s
        → visible_run prom (Metric.take_event prom period e r)
          ≡ visible_run prom (Metric.take_event prom period f s)
    step-Alike e f r s h a v =
        take_event-Alike e f r h a
        ∙ take_event-Shown prom period f r
        ∙ ap (λ x. visible_run prom (Metric.take_event prom period f x)) v
        ∙ sym (take_event-Shown prom period f s)

    then_events-alike :
        (o u : Run (Running V)) (f g : Running V → Run (Running V))
        → visible_run prom o ≡ visible_run prom u
        → ((r s : Running V)
            → o ≡ returned r
            → visible prom r ≡ visible prom s
            → visible_run prom (f r) ≡ visible_run prom (g s))
        → visible_run prom (Metric.then_events o f) ≡ visible_run prom (Metric.then_events u g)
    unfolding visible_run Metric.then_events
    then_events-alike panicked panicked f g v k = refl
    then_events-alike (returned r) (returned s) f g v k = k r s refl (returned-injective v)
    then_events-alike panicked (returned s) f g v k = cc
    then_events-alike (returned r) panicked f g v k = cc

    alike_from :
        (es fs : List Event) (r s : Running V)
        → high_of r ≡ false
        → AllAlike es fs
        → visible prom r ≡ visible prom s
        → visible_run prom (Metric.report_all prom period es r)
          ≡ visible_run prom (Metric.report_all prom period fs s)
    unfolding visible_run Metric.report_all
    alike_from [] [] r s h a v = ap returned v
    alike_from (e ∷ es) (f ∷ fs) r s h a v =
        then_events-alike (Metric.take_event prom period e r) (Metric.take_event prom period f s) _
          _ (step-Alike e f r s h a.0 v)
          (λ x y p w. alike_from es fs x y (take_event-KeepsHigh e r x p ∙ h) a.1 w)
    alike_from [] (f ∷ fs) r s h a v = elim a [ ]
    alike_from (e ∷ es) [] r s h a v = elim a [ ]

    -- With high cardinality off, two sequences of events leave the same metrics but for the counter of
    -- upstream requests, or both end in a panic, if they differ only in this: the addresses and the
    -- messages of responses, where the types of the first questions and the codes are the same, and
    -- what is reported of the upstream servers' answers.
    pub report_all_hides :
        (es fs : List Event) (r : Running V)
        → r.metrics.config_high_cardinality ≡ false
        → AllAlike es fs
        → visible_run prom (Metric.report_all prom period es r)
          ≡ visible_run prom (Metric.report_all prom period fs r)
    report_all_hides es fs r h a = alike_from es fs r r h a refl
