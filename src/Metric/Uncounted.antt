-- ===== src/Metric/Uncounted.antt =====
-- The counter of DNS-over-HTTPS requests to an upstream (resolver.go, internal/metric/metric.go).
use leng.Prelude.{
  ℕ, ◌≡◌, refl, sym, ap, ◌∙◌, Bool, true, false, List, [], ◌∷◌, arith, returned-injective, Run,
  returned, panicked, Text, comparable_text,
}
use leng.Dns.{Question}
use leng.Metric
use leng.Metric.{Labels, Prom, Metrics, Running, Event}
use leng.Metric.Counting.{PromLaws}

module _ {V : Type 0} (prom : Prom V) where
  -- The state after `Start` returns at a time.
  unfoldable pub started : ℕ → Metrics V → Running V
  started now m = record { metrics = m; last_reset = now; cancelled = false; ended = false }

  module _ (laws : PromLaws prom) (period : ℕ) (l : Labels) where
    abbrev doh_value : Running V → ℕ
    doh_value r = prom.value l r.metrics.request_upstream_doh_request

    abbrev Uncounted : Run (Running V) → Type 0
    Uncounted o = (s : Running V) → o ≡ returned s → doh_value s ≡ 0

    moved : (r s : Running V) → doh_value r ≡ 0 → returned r ≡ returned s → doh_value s ≡ 0
    moved r s z h = ap doh_value (sym (returned-injective h)) ∙ z

    count_response-Uncounted :
        (a : Text) (qs : List Question) (rcode : ℕ) (b : Bool) (r : Running V)
        → doh_value r ≡ 0
        → Uncounted
            (Metric.with_metrics prom period (Metric.count_response prom a qs rcode b r.metrics) r)
    unfolding Metric.with_metrics Metric.count_response
    count_response-Uncounted a [] rcode b r z s h = cc
    count_response-Uncounted a (q ∷ qs) rcode b r z s h = moved _ s z h

    count_cached-Uncounted :
        (d : Bool) (a : Text) (qs : List Question) (rcode : ℕ) (b : Bool) (r : Running V)
        → doh_value r ≡ 0
        → Uncounted (
            Metric.with_metrics prom period
              (Metric.count_cached prom d (Metric.count_response prom a qs rcode b r.metrics))
              r)
    unfolding Metric.with_metrics Metric.count_response Metric.count_cached
    count_cached-Uncounted d a [] rcode b r z s h = cc
    count_cached-Uncounted true a (q ∷ qs) rcode b r z s h = moved _ s z h
    count_cached-Uncounted false a (q ∷ qs) rcode b r z s h = moved _ s z h

    turn-Uncounted :
        (now later : ℕ) (r : Running V)
        → doh_value r ≡ 0
        → doh_value (Metric.reset_turn prom period now later r) ≡ 0
    unfolding Metric.reset_turn Metric.reset_all
    turn-Uncounted now later r z =
        ground (arith, z, laws.value_reset l r.metrics.request_upstream_doh_request)

    take_event-Uncounted :
        (e : Event) (r : Running V)
        → doh_value r ≡ 0
        → Uncounted (Metric.take_event prom period e r)
    unfolding Metric.take_event Metric.with_metrics Metric.report_dns_response
        Metric.report_dns_respond Metric.report_upstream_resolve Metric.count_upstream
        Metric.count_doh_request Metric.count_doh_response Metric.count_custom Metric.count_reload
        Metric.set_custom_records
    take_event-Uncounted (Metric.dns_response a m b) r z s h =
        count_response-Uncounted a m.question m.rcode b r z s h
    take_event-Uncounted (Metric.dns_respond a m b d) r z s h =
        count_cached-Uncounted d a m.question m.rcode b r z s h
    take_event-Uncounted (Metric.upstream_answer q m u) r z s h = moved _ s z h
    take_event-Uncounted (Metric.upstream_time u t) r z s h =
        ground (arith, z, returned-injective h)
    take_event-Uncounted (Metric.doh_outcome f) r z s h =
        moved _ s (laws.value-with_labels _ l _ ∙ z) h
    take_event-Uncounted (Metric.doh_response x) r z s h = moved _ s z h
    take_event-Uncounted Metric.custom_request r z s h = moved _ s z h
    take_event-Uncounted Metric.config_reload r z s h = moved _ s z h
    take_event-Uncounted Metric.cancel r z s h = moved _ s z h
    take_event-Uncounted Metric.done r z s h = ground (arith, z, returned-injective h)
    take_event-Uncounted (Metric.custom_records n) r z s h = moved _ s z h
    take_event-Uncounted (Metric.wake now later) r z s h =
        ground (arith, z, turn-Uncounted now later r z, returned-injective h)

    then_events_from :
        (o : Run (Running V)) (f : Running V → Run (Running V)) (s : Running V)
        → Metric.then_events o f ≡ returned s
        → (t : Running V) × (o ≡ returned t) × (f t ≡ returned s)
    unfolding Metric.then_events
    then_events_from panicked f s h = cc
    then_events_from (returned t) f s h = (t, refl, h)

    run_from-Uncounted :
        (es : List Event) (r : Running V)
        → doh_value r ≡ 0
        → Uncounted (Metric.report_all prom period es r)
    unfolding Metric.report_all
    run_from-Uncounted [] r z s h = moved r s z h
    run_from-Uncounted (e ∷ es) r z s h =
        let (t, n, k) = then_events_from (Metric.take_event prom period e r) _ s h in
        run_from-Uncounted es t (take_event-Uncounted e r z t n) s k

    start-Uncounted :
        (high histograms : Bool) (m : Metrics V)
        → Metric.start prom high histograms (Metric.new_metrics prom) ≡ returned m
        → prom.value l m.request_upstream_doh_request ≡ 0
    unfolding Metric.start Metric.new_metrics
    start-Uncounted high true m h = rw (sym (returned-injective h)) (laws.value_empty l)
    start-Uncounted high false m h = rw (sym (returned-injective h)) (laws.value_empty l)

    -- After `Start` on the initial metrics and any events, as long as the program does not panic, the
    -- counter of DNS-over-HTTPS requests to the upstream shows 0 for all labels, though each request
    -- reports to it.
    pub doh_requests_uncounted :
        (high histograms : Bool) (now : ℕ) (m : Metrics V) (es : List Event) (s : Running V)
        → Metric.start prom high histograms (Metric.new_metrics prom) ≡ returned m
        → Metric.report_all prom period es (started now m) ≡ returned s
        → prom.value l s.metrics.request_upstream_doh_request ≡ 0
    unfolding started
    doh_requests_uncounted high histograms now m es s a h =
        run_from-Uncounted es (started now m) (start-Uncounted high histograms m a) s h
