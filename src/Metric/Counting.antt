-- ===== src/Metric/Counting.antt =====
-- What the counters of internal/metric/metric.go show. The laws are what package prometheus says of a
-- vector of counters.
use leng.Prelude.{
  ℕ, suc, ◌+◌, ◌-◌, ◌<◌, ◌≡◌, refl, ap, ◌∙◌, ◌↔◌, Bool, true, false, ◌&&◌, List, [], ◌∷◌, arith,
  ltb, if◌then◌else◌, ◌==◌, eq_iff, Comparable, Run, returned, length, All, count, Text,
  comparable_text,
}
use leng.Dns.{Question}
use leng.Metric
use leng.Metric.{Labels, Prom, Metrics, Running, Event}

unfoldable pub labels_beq : Labels → Labels → Bool
labels_beq [] [] = true
labels_beq (a ∷ k) (b ∷ l) = a == b && labels_beq k l
labels_beq _ _ = false

pub labels_beq_iff : (k l : Labels) → (labels_beq k l ≡ true) ↔ (k ≡ l)
unfolding labels_beq
labels_beq_iff [] [] = ground arith
labels_beq_iff (a ∷ k) (b ∷ l) = ground (arith, eq_iff a b, labels_beq_iff k l)
labels_beq_iff [] (b ∷ l) = ground arith
labels_beq_iff (a ∷ k) [] = ground arith

instance abbrev pub comparable_labels : Comparable Labels
comparable_labels = record { same = labels_beq; same_iff = labels_beq_iff }

pub record PromLaws {V : Type 0} (prom : Prom V) : Type 0 where
  pub value_empty : (l : Labels) → prom.value l prom.empty ≡ 0
  pub value_reset : (l : Labels) (v : V) → prom.value l (prom.reset v) ≡ 0
  pub value-with_labels :
      (k l : Labels) (v : V) → prom.value l (prom.with_labels k v) ≡ prom.value l v
  pub value-inc :
      (k l : Labels) (v : V)
      → prom.value l (prom.inc k v) ≡ (if k == l then suc (prom.value l v) else prom.value l v)

-- Not a turn of the goroutine, and not about a message without a question.
abbrev pub is_report : Event → Bool
is_report (Metric.wake now later) = false
is_report (Metric.dns_response remote m b) = ltb 0 (length m.question)
is_report (Metric.dns_respond remote m b c) = ltb 0 (length m.question)
is_report _ = true

abbrev pub Reports : List Event → Type 0
Reports = All (λ e. is_report e ≡ true)

if-false : {A : Type 0} {b : Bool} (x y : A) → b ≡ false → (if b then x else y) ≡ y
if-false x y h = rw h refl

module _ {V : Type 0} (prom : Prom V) where
  abbrev pub asked : Bool → Labels → Text → List Question → ℕ → Bool → Bool
  asked high l remote [] rcode b = false
  asked high l remote (q ∷ qs) rcode b = Metric.response_labels prom high remote q rcode b == l

  -- Whether an event is a response with these labels.
  abbrev pub responds : Bool → Labels → Event → Bool
  responds high l (Metric.dns_response remote m b) = asked high l remote m.question m.rcode b
  responds high l (Metric.dns_respond remote m b c) = asked high l remote m.question m.rcode b
  responds high l _ = false

  abbrev value_of : Labels → Running V → ℕ
  value_of l r = prom.value l r.metrics.response_counter

  abbrev high_of : Running V → Bool
  high_of r = r.metrics.config_high_cardinality

  module _ (laws : PromLaws prom) (period : ℕ) (l : Labels) where
    -- One event more, counted if `b`.
    abbrev Counts : Bool → Running V → Run (Running V) → Type 0
    Counts b r o =
        (s : Running V) × (o ≡ returned s)
        × (high_of s ≡ high_of r)
        × (value_of l s ≡ (if b then suc (value_of l r) else value_of l r))

    count_response-Counts :
        (remote : Text) (qs : List Question) (rcode : ℕ) (b : Bool) (r : Running V)
        → ltb 0 (length qs) ≡ true
        → Counts (asked (high_of r) l remote qs rcode b) r (
            Metric.with_metrics prom period
              (Metric.count_response prom remote qs rcode b r.metrics)
              r)
    unfolding Metric.count_response Metric.with_metrics
    count_response-Counts remote [] rcode b r h = cc
    count_response-Counts remote (q ∷ qs) rcode b r h = (_, refl, refl, laws.value-inc _ l _)

    count_cached-Counts :
        (c : Bool) (remote : Text) (qs : List Question) (rcode : ℕ) (b : Bool) (r : Running V)
        → ltb 0 (length qs) ≡ true
        → Counts (asked (high_of r) l remote qs rcode b) r (
            Metric.with_metrics prom period
              (Metric.count_cached prom c (Metric.count_response prom remote qs rcode b r.metrics))
              r)
    unfolding Metric.count_response Metric.count_cached Metric.with_metrics
    count_cached-Counts c remote [] rcode b r h = cc
    count_cached-Counts true remote (q ∷ qs) rcode b r h = (_, refl, refl, laws.value-inc _ l _)
    count_cached-Counts false remote (q ∷ qs) rcode b r h = (_, refl, refl, laws.value-inc _ l _)

    upstream_time-Counts :
        (histograms : Bool) (u : Text) (t : ℕ) (r : Running V)
        → r.metrics.config_histograms ≡ histograms
        → Counts false r (Metric.take_event prom period (Metric.upstream_time u t) r)
    unfolding Metric.take_event Metric.with_metrics Metric.report_upstream_resolve
    upstream_time-Counts true u t r h = (_, refl, rw h refl, rw h refl)
    upstream_time-Counts false u t r h = (_, refl, rw h refl, rw h refl)

    done-Counts :
        (cancelled : Bool) (r : Running V)
        → r.cancelled ≡ cancelled
        → Counts false r (Metric.take_event prom period Metric.done r)
    unfolding Metric.take_event
    done-Counts true r h = (_, refl, rw h refl, rw h refl)
    done-Counts false r h = (_, refl, rw h refl, rw h refl)

    take_event-Counts :
        (e : Event) (r : Running V)
        → is_report e ≡ true
        → Counts (responds (high_of r) l e) r (Metric.take_event prom period e r)
    unfolding Metric.take_event Metric.with_metrics Metric.report_dns_response
        Metric.report_dns_respond Metric.count_upstream Metric.count_doh_request
        Metric.count_doh_response Metric.count_custom Metric.count_reload Metric.set_custom_records
    take_event-Counts (Metric.dns_response remote m b) r h =
        count_response-Counts remote m.question m.rcode b r h
    take_event-Counts (Metric.dns_respond remote m b c) r h =
        count_cached-Counts c remote m.question m.rcode b r h
    take_event-Counts (Metric.upstream_answer q m u) r h = (_, refl, refl, refl)
    take_event-Counts (Metric.upstream_time u t) r h = upstream_time-Counts _ u t r refl
    take_event-Counts (Metric.doh_outcome f) r h = (_, refl, refl, refl)
    take_event-Counts (Metric.doh_response s) r h = (_, refl, refl, refl)
    take_event-Counts Metric.custom_request r h = (_, refl, refl, refl)
    take_event-Counts Metric.config_reload r h = (_, refl, refl, refl)
    take_event-Counts Metric.cancel r h = (_, refl, refl, refl)
    take_event-Counts Metric.done r h = done-Counts _ r refl
    take_event-Counts (Metric.custom_records n) r h = (_, refl, refl, refl)
    take_event-Counts (Metric.wake now later) r h = cc

    report_all-Counts :
        (es : List Event) (r : Running V)
        → Reports es
        → (s : Running V) × (Metric.report_all prom period es r ≡ returned s)
          × (value_of l s ≡ value_of l r + count (responds (high_of r) l) es)
    unfolding Metric.report_all Metric.then_events
    report_all-Counts [] r h = (r, refl, omega arith)
    report_all-Counts (e ∷ es) r h =
        let (s, p, k, v) = take_event-Counts e r h.0 in
        let (t, q, w) = report_all-Counts es s h.1 in
        (t, rw (p, q) refl, ground (arith, v, w, ap (λ b. count (responds b l) es) k))

    unfoldable after_reset : ℕ → Running V → Running V
    after_reset later r = record r { metrics = Metric.reset_all prom r.metrics; last_reset = later }

    turn_resets :
        (now later : ℕ) (r : Running V)
        → r.ended ≡ false
        → ltb period (now - r.last_reset) ≡ true
        → Metric.take_event prom period (Metric.wake now later) r ≡ returned (after_reset later r)
    unfolding Metric.take_event Metric.reset_turn after_reset
    turn_resets now later r e t =
        let b : Metric.reset_turn prom period now later r ≡ after_reset later r = rw t refl in
        ap returned (if-false r (Metric.reset_turn prom period now later r) e ∙ b)

    -- After a turn that is later than the mark by more than the reset period, and then any reports, in
    -- which every message has a question, the counter of responses shows for each series how many
    -- reports since that turn had its labels.
    pub count_since_reset :
        (now later : ℕ) (es : List Event) (r : Running V)
        → r.ended ≡ false
        → period + r.last_reset < now
        → Reports es
        → (s : Running V) × (Metric.report_all prom period (Metric.wake now later ∷ es) r
            ≡ returned s)
          × (prom.value l s.metrics.response_counter
              ≡ count (responds r.metrics.config_high_cardinality l) es)
    unfolding Metric.report_all Metric.then_events Metric.reset_all after_reset
    count_since_reset now later es r e b h =
        let p = turn_resets now later r e (ground (arith, b)) in
        let (s, q, w) = report_all-Counts es (after_reset later r) h in
        (s, rw (p, q) refl, omega (arith, w, laws.value_reset l r.metrics.response_counter))
