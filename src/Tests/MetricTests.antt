-- ===== src/Tests/MetricTests.antt =====
-- The metrics at concrete inputs, over vectors of counters that are the lists of what was counted.
use leng.Prelude.{
  ◌≡◌, refl, true, false, List, [], ◌∷◌, arith, ◌==◌, returned, count, Text, bytes, text_beq,
  comparable_text,
}
use leng.Dns.{Msg, Question, new_msg}
use leng.Metric
use leng.Metric.{Labels, Prom, Metrics, Running, Event}
use leng.Metric.Counting
use leng.Metric.Counting.{PromLaws, comparable_labels, count_since_reset, responds}
use leng.Metric.Hiding.{Alike, report_all_hides}
use leng.Metric.Visible.{visible, visible_run}
use leng.Metric.Uncounted.{started, doh_requests_uncounted}

program : Unit {0}
unfolding Metric.new_metrics Metric.start Metric.reset_all Metric.response_labels
    Metric.count_response Metric.report_dns_response Metric.count_cached Metric.report_dns_respond
    Metric.report_upstream_resolve Metric.count_upstream Metric.count_doh_request
    Metric.count_doh_response Metric.reset_turn Metric.with_metrics Metric.take_event
    Metric.then_events Metric.report_all Counting.labels_beq text_beq visible visible_run started
program = tt

abbrev prom : Prom (List Labels)
prom = record {
  empty = [];
  with_labels = λ l v. v;
  inc = λ l v. l ∷ v;
  reset = λ v. [];
  value = λ l v. count (λ k. k == l) v;
  type_to_string = λ n. n ∷ [];
  rcode_to_string = λ n. n ∷ [];
}

prom_laws : PromLaws prom
prom_laws = record {
  value_empty = λ l. refl;
  value_reset = λ l v. refl;
  value-with_labels = λ k l v. refl;
  value-inc = λ k l v. refl;
}

abbrev asks : Text → Msg
asks name = record new_msg { question = record { name = name; qtype = 1; qclass = 1 } ∷ [] }

abbrev first : Metrics (List Labels)
first = record (Metric.new_metrics prom) { response_counter = ([] ∷ []) ∷ [] }

abbrev running : Running (List Labels)
running = record { metrics = first; last_reset = 10; cancelled = false; ended = false }

abbrev events : List Event
events =
    Metric.dns_respond (bytes "10.0.0.1") (asks (bytes "a.test")) true false
    ∷ Metric.doh_outcome false
    ∷ Metric.dns_response (bytes "10.0.0.2") (asks (bytes "b.test")) false
    ∷ []

abbrev other_events : List Event
other_events =
    Metric.dns_respond (bytes "10.0.0.3") (asks (bytes "c.test")) true false
    ∷ Metric.doh_outcome false
    ∷ Metric.dns_response (bytes "10.0.0.2") (asks (bytes "d.test")) false
    ∷ []

abbrev blocked_labels : Labels
blocked_labels = (1 ∷ []) ∷ [] ∷ [] ∷ (0 ∷ []) ∷ bytes "true" ∷ []

count_since_reset_example :
    (s : Running (List Labels)) × (Metric.report_all prom 60 (Metric.wake 100 101 ∷ events) running
      ≡ returned s)
    × (prom.value blocked_labels s.metrics.response_counter
        ≡ count (responds prom false blocked_labels) events)
unfolding program
count_since_reset_example =
    count_since_reset prom prom_laws 60 blocked_labels 100 101 events running refl (omega arith)
      (refl, (refl, (refl, tt)))

blocked_once : count (responds prom false blocked_labels) events ≡ 1
unfolding program
blocked_once = refl

report_all_hides_example :
    visible_run prom (Metric.report_all prom 60 events running)
    ≡ visible_run prom (Metric.report_all prom 60 other_events running)
unfolding program
report_all_hides_example = report_all_hides prom 60 events other_events running refl (
  Alike.respond (bytes "10.0.0.1") (bytes "10.0.0.3") (asks (bytes "a.test"))
      (asks (bytes "c.test")) true false (refl, refl),
  (
    Alike.same (Metric.doh_outcome false),
    (
      Alike.response (bytes "10.0.0.2") (bytes "10.0.0.2") (asks (bytes "b.test"))
          (asks (bytes "d.test")) false (refl, refl),
      tt,
    ),
  ),
)

-- The counter of upstream requests has the name also with high cardinality off.
abbrev upstream_labels : Text → Labels
upstream_labels name = (1 ∷ []) ∷ name ∷ (0 ∷ []) ∷ bytes "one.test" ∷ []

abbrev asked_question : Question
asked_question = record { name = bytes "a.test"; qtype = 1; qclass = 1 }

upstream_name_shown :
    (Metric.count_upstream prom asked_question new_msg
      (bytes "one.test")
      first).request_upstream_resolve_counter
    ≡ upstream_labels (bytes "a.test") ∷ []
unfolding program
upstream_name_shown = refl

abbrev beginning : Metrics (List Labels)
beginning = Metric.new_metrics prom

abbrev after_doh : Running (List Labels)
after_doh = record { metrics = beginning; last_reset = 5; cancelled = false; ended = false }

doh_requests_uncounted_example :
    prom.value (bytes "false" ∷ []) after_doh.metrics.request_upstream_doh_request ≡ 0
unfolding program
doh_requests_uncounted_example =
    doh_requests_uncounted prom prom_laws 60 (bytes "false" ∷ []) false false 5 beginning
      (Metric.doh_outcome false ∷ Metric.doh_outcome true ∷ []) after_doh refl refl
