-- ===== src/Metric/Visible.antt =====
-- The metrics without the counter of upstream requests (internal/metric/metric.go).
use leng.Prelude.{
  ℕ, ◌-◌, ◌≡◌, refl, Bool, true, false, List, [], ◌∷◌, ltb, Run, returned, panicked, Text,
  comparable_text,
}
use leng.Dns.{Msg, Question}
use leng.Metric
use leng.Metric.{Prom, Metrics, Running, Event}

module _ {V : Type 0} (prom : Prom V) where
  -- All but the counter of upstream requests.
  unfoldable pub visible : Running V → Running V
  visible r = record r {
    metrics = record r.metrics { request_upstream_resolve_counter = prom.empty };
  }

  unfoldable pub visible_run : Run (Running V) → Run (Running V)
  visible_run panicked = panicked
  visible_run (returned r) = returned (visible r)

  module _ (period : ℕ) where
    -- What is visible afterwards rests on what is visible before.
    abbrev pub Shown : Event → Running V → Type 0
    Shown e r =
        visible_run (Metric.take_event prom period e r)
        ≡ visible_run (Metric.take_event prom period e (visible r))

    response-Shown :
        (a : Text) (m : Msg) (qs : List Question) (b : Bool) (r : Running V)
        → m.question ≡ qs
        → Shown (Metric.dns_response a m b) r
    unfolding visible_run visible Metric.take_event Metric.with_metrics Metric.report_dns_response
        Metric.count_response
    response-Shown a m [] b r h = rw h refl
    response-Shown a m (q ∷ qs) b r h = rw h refl

    respond-Shown :
        (a : Text) (m : Msg) (qs : List Question) (b d : Bool) (r : Running V)
        → m.question ≡ qs
        → Shown (Metric.dns_respond a m b d) r
    unfolding visible_run visible Metric.take_event Metric.with_metrics Metric.report_dns_respond
        Metric.count_cached Metric.count_response
    respond-Shown a m [] b d r h = rw h refl
    respond-Shown a m (q ∷ qs) b true r h = rw h refl
    respond-Shown a m (q ∷ qs) b false r h = rw h refl

    time-Shown :
        (u : Text) (t : ℕ) (b : Bool) (r : Running V)
        → r.metrics.config_histograms ≡ b
        → Shown (Metric.upstream_time u t) r
    unfolding visible_run visible Metric.take_event Metric.with_metrics
        Metric.report_upstream_resolve
    time-Shown u t true r h = rw h refl
    time-Shown u t false r h = rw h refl

    done-Shown : (b : Bool) (r : Running V) → r.cancelled ≡ b → Shown Metric.done r
    unfolding visible_run visible Metric.take_event
    done-Shown true r h = rw h refl
    done-Shown false r h = rw h refl

    turn-Shown :
        (now later : ℕ) (b c : Bool) (r : Running V)
        → r.ended ≡ b
        → ltb period (now - r.last_reset) ≡ c
        → Shown (Metric.wake now later) r
    unfolding visible_run visible Metric.take_event Metric.reset_turn Metric.reset_all
    turn-Shown now later true c r h k = rw h refl
    turn-Shown now later false true r h k = rw (h, k) refl
    turn-Shown now later false false r h k = rw (h, k) refl

    pub take_event-Shown : (e : Event) (r : Running V) → Shown e r
    unfolding visible_run visible Metric.take_event Metric.with_metrics Metric.count_upstream
        Metric.count_doh_request Metric.count_doh_response Metric.count_custom Metric.count_reload
        Metric.set_custom_records
    take_event-Shown (Metric.dns_response a m b) r = response-Shown a m m.question b r refl
    take_event-Shown (Metric.dns_respond a m b d) r = respond-Shown a m m.question b d r refl
    take_event-Shown (Metric.upstream_answer q m u) r = refl
    take_event-Shown (Metric.upstream_time u t) r = time-Shown u t _ r refl
    take_event-Shown (Metric.doh_outcome f) r = refl
    take_event-Shown (Metric.doh_response s) r = refl
    take_event-Shown Metric.custom_request r = refl
    take_event-Shown Metric.config_reload r = refl
    take_event-Shown Metric.cancel r = refl
    take_event-Shown Metric.done r = done-Shown _ r refl
    take_event-Shown (Metric.custom_records n) r = refl
    take_event-Shown (Metric.wake now later) r = turn-Shown now later _ _ r refl refl
