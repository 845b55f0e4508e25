-- ===== src/Metric.antt =====
-- internal/metric/metric.go, and the calls of its counters in resolver.go, doh.go, records.go and
-- server.go. The vectors of counters of package prometheus are a parameter: the labels of a series
-- are the values of its label names, in the order in which the vector declares them. The clock is an
-- argument, in nanoseconds, and the reset period does not overflow.
pub mod Counting
pub mod Visible
pub mod Hiding
pub mod Uncounted
use leng.Prelude.{
  ℕ, ◌+◌, ◌-◌, Bool, true, false, List, [], ◌∷◌, ◌++◌, ltb, if◌then◌else◌, Run, returned, panicked,
  Text, bytes, comparable_text,
}
use leng.Dns.{Msg, Question}

abbrev pub Labels : Type 0
Labels = List Text

-- CounterVec: `with_labels` is `With`, which makes the series, and `inc` is `With` and `Inc`. `value`
-- is the value that a series is exported with, 0 where there is no series.
pub record Prom (V : Type 0) : Type 0 where
  pub empty : V
  pub with_labels : Labels → V → V
  pub inc : Labels → V → V
  pub reset : V → V
  pub value : Labels → V → ℕ
  -- dns.Type.String and dns.RcodeToString
  pub type_to_string : ℕ → Text
  pub rcode_to_string : ℕ → Text

-- The variables of the package.
pub record Metrics (V : Type 0) : Type 0 where
  pub custom_record_count : ℕ
  pub request_custom_counter : ℕ
  pub response_counter : V
  pub cached_response_counter : ℕ
  pub request_upstream_resolve_counter : V
  pub request_upstream_doh_request : V
  -- what the histogram observed: the kind of the upstream and the time
  pub request_upstream_resolve_duration : List (Text × ℕ)
  pub custom_dns_config_reload : ℕ
  pub doh_response_count : V
  pub config_high_cardinality : Bool
  pub config_histograms : Bool
  -- whether the histogram is registered
  pub duration_registered : Bool

-- strconv.FormatBool
abbrev pub format_bool : Bool → Text
format_bool true = bytes "true"
format_bool false = bytes "false"

module _ {V : Type 0} (prom : Prom V) where
  unfoldable pub new_metrics : Metrics V
  new_metrics = record {
    custom_record_count = 0;
    request_custom_counter = 0;
    response_counter = prom.empty;
    cached_response_counter = 0;
    request_upstream_resolve_counter = prom.empty;
    request_upstream_doh_request = prom.empty;
    request_upstream_resolve_duration = [];
    custom_dns_config_reload = 0;
    doh_response_count = prom.empty;
    config_high_cardinality = false;
    config_histograms = false;
    duration_registered = false;
  }

  -- `Start` up to its goroutine: registering the histogram twice panics.
  unfoldable pub start : Bool → Bool → Metrics V → Run (Metrics V)
  start high_cardinality histograms_enabled m =
      let m' = record m { config_high_cardinality = high_cardinality } in
      if histograms_enabled
      then if m.duration_registered
        then panicked
        else returned (record m' { config_histograms = true; duration_registered = true })
      else returned m'

  -- for _, m := range allVecMetrics { m.Reset() }
  unfoldable pub reset_all : Metrics V → Metrics V
  reset_all m = record m {
    response_counter = prom.reset m.response_counter;
    request_upstream_resolve_counter = prom.reset m.request_upstream_resolve_counter;
    request_upstream_doh_request = prom.reset m.request_upstream_doh_request;
    doh_response_count = prom.reset m.doh_response_count;
  }

  -- The labels of a response: q_type, remote_ip, q_name, rcode, blocked.
  unfoldable pub response_labels : Bool → Text → Question → ℕ → Bool → Labels
  response_labels high remote q rcode blocked =
      prom.type_to_string q.qtype
      ∷ (if high then remote else [])
      ∷ (if high then q.name else [])
      ∷ prom.rcode_to_string rcode
      ∷ format_bool blocked
      ∷ []

  unfoldable pub count_response : Text → List Question → ℕ → Bool → Metrics V → Run (Metrics V)
  count_response remote [] rcode blocked m = panicked
  count_response remote (question ∷ rest) rcode blocked m = returned (record m {
    response_counter =
        prom.inc (response_labels m.config_high_cardinality remote question rcode blocked)
          m.response_counter;
  })

  -- `ReportDNSResponse`; `remote` is the host of the writer's address.
  unfoldable pub report_dns_response : Text → Msg → Bool → Metrics V → Run (Metrics V)
  report_dns_response remote message blocked m =
      count_response remote message.question message.rcode blocked m

  unfoldable pub count_cached : Bool → Run (Metrics V) → Run (Metrics V)
  count_cached cached panicked = panicked
  count_cached cached (returned m) =
      if cached
      then returned (record m { cached_response_counter = m.cached_response_counter + 1 })
      else returned m

  -- `ReportDNSRespond`; `remote` is the text of the address.
  unfoldable pub report_dns_respond : Text → Msg → Bool → Bool → Metrics V → Run (Metrics V)
  report_dns_respond remote message blocked cached m =
      count_cached cached (count_response remote message.question message.rcode blocked m)

  -- `ReportUpstreamResolve`
  unfoldable pub report_upstream_resolve : Text → ℕ → Metrics V → Metrics V
  report_upstream_resolve upstream duration m =
      if m.config_histograms
      then record m {
        request_upstream_resolve_duration =
            m.request_upstream_resolve_duration ++ (upstream, duration) ∷ [];
      }
      else m

  -- The counter of `Lookup`: q_type, q_name, rcode, upstream.
  unfoldable pub count_upstream : Question → Msg → Text → Metrics V → Metrics V
  count_upstream question answer upstream m = record m {
    request_upstream_resolve_counter =
        prom.inc
          (prom.type_to_string question.qtype
            ∷ question.name
            ∷ prom.rcode_to_string answer.rcode
            ∷ upstream
            ∷ [])
          m.request_upstream_resolve_counter;
  }

  -- The deferred function of `DoHLookup`: `failed` is err != nil.
  unfoldable pub count_doh_request : Bool → Metrics V → Metrics V
  count_doh_request failed m = record m {
    request_upstream_doh_request =
        prom.with_labels (format_bool failed ∷ []) m.request_upstream_doh_request;
  }

  -- `countResponse` of doh.go; `status` is its text.
  unfoldable pub count_doh_response : Text → Metrics V → Metrics V
  count_doh_response status m = record m {
    doh_response_count = prom.inc (status ∷ []) m.doh_response_count;
  }

  -- metric.RequestCustomCounter.Inc()
  unfoldable pub count_custom : Metrics V → Metrics V
  count_custom m = record m { request_custom_counter = m.request_custom_counter + 1 }

  -- metric.CustomDNSConfigReload.Inc()
  unfoldable pub count_reload : Metrics V → Metrics V
  count_reload m = record m { custom_dns_config_reload = m.custom_dns_config_reload + 1 }

  -- metric.CustomRecordCount.Set(float64(total))
  unfoldable pub set_custom_records : ℕ → Metrics V → Metrics V
  set_custom_records total m = record m { custom_record_count = total }

-- The metrics beside the goroutine of `Start`: its mark, and whether it has returned.
pub record Running (V : Type 0) : Type 0 where
  pub metrics : Metrics V
  pub last_reset : ℕ
  pub cancelled : Bool
  pub ended : Bool

-- What the program reports, and the turns of the goroutine. `wake` is one that takes `default`: it
-- reads the clock for its test and, where it resets, for its mark.
pub data Event : Type 0 where
  dns_response : Text → Msg → Bool → Event
  dns_respond : Text → Msg → Bool → Bool → Event
  upstream_answer : Question → Msg → Text → Event
  upstream_time : Text → ℕ → Event
  doh_outcome : Bool → Event
  doh_response : Text → Event
  custom_request config_reload cancel done : Event
  custom_records : ℕ → Event
  wake : ℕ → ℕ → Event

module _ {V : Type 0} where
  unfoldable pub then_events : Run (Running V) → (Running V → Run (Running V)) → Run (Running V)
  then_events panicked f = panicked
  then_events (returned r) f = f r

module _ {V : Type 0} (prom : Prom V) (period : ℕ) where
  -- if time.Now().Sub(mark) > ...
  unfoldable pub reset_turn : ℕ → ℕ → Running V → Running V
  reset_turn now later r =
      if ltb period (now - r.last_reset)
      then record r { metrics = reset_all prom r.metrics; last_reset = later }
      else r

  unfoldable pub with_metrics : Run (Metrics V) → Running V → Run (Running V)
  with_metrics panicked r = panicked
  with_metrics (returned m) r = returned (record r { metrics = m })

  unfoldable pub take_event : Event → Running V → Run (Running V)
  take_event (dns_response remote m b) r =
      with_metrics (report_dns_response prom remote m b r.metrics) r
  take_event (dns_respond remote m b c) r =
      with_metrics (report_dns_respond prom remote m b c r.metrics) r
  take_event (upstream_answer q m u) r =
      with_metrics (returned (count_upstream prom q m u r.metrics)) r
  take_event (upstream_time u t) r =
      with_metrics (returned (report_upstream_resolve prom u t r.metrics)) r
  take_event (doh_outcome f) r = with_metrics (returned (count_doh_request prom f r.metrics)) r
  take_event (doh_response s) r = with_metrics (returned (count_doh_response prom s r.metrics)) r
  take_event custom_request r = with_metrics (returned (count_custom prom r.metrics)) r
  take_event config_reload r = with_metrics (returned (count_reload prom r.metrics)) r
  take_event (custom_records n) r = with_metrics (returned (set_custom_records prom n r.metrics)) r
  take_event cancel r = returned (record r { cancelled = true })
  -- <-ctx.Done()
  take_event done r = returned (if r.cancelled then record r { ended = true } else r)
  take_event (wake now later) r = returned (if r.ended then r else reset_turn now later r)

  unfoldable pub report_all : List Event → Running V → Run (Running V)
  report_all [] r = returned r
  report_all (e ∷ es) r = then_events (take_event e r) (report_all es)
