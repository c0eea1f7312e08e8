-- ===== src/Metrics.antt =====
-- internal/controller/metrics.go: the gauges and the counter, and the calls that the controllers
-- make on them. Gauge values are whole numbers throughout.
use locations.Prelude.{String, List, [], ◌∷◌}
use locations.Prelude.Int.{ℤ}

pub data Gauge : Type 0 where
  locations_publishable locations_published locations_retained : Gauge
  location_publish_timestamp location_removal_blocked location_matched_clusters : Gauge
  location_publish_mismatch location_ready location_class_accepted : Gauge
  location_class_deletion_blocked : Gauge

abbrev pub metric_label_location : String
metric_label_location = "location"

abbrev pub metric_label_class : String
metric_label_class = "class"

abbrev pub metric_label_reason : String
metric_label_reason = "reason"

-- The names of the labels that each gauge is declared with.
abbrev pub label_names : Gauge → List String
label_names Gauge.locations_publishable = []
label_names Gauge.locations_published = []
label_names Gauge.locations_retained = []
label_names Gauge.location_publish_timestamp = metric_label_location ∷ []
label_names Gauge.location_removal_blocked = metric_label_location ∷ metric_label_reason ∷ []
label_names Gauge.location_matched_clusters = metric_label_location ∷ []
label_names Gauge.location_publish_mismatch = metric_label_location ∷ metric_label_reason ∷ []
label_names Gauge.location_ready = metric_label_location ∷ []
label_names Gauge.location_class_accepted = metric_label_class ∷ []
label_names Gauge.location_class_deletion_blocked = metric_label_class ∷ metric_label_reason ∷ []

pub data MetricCall : Type 0 where
  -- `WithLabelValues(values...).Set(x)`, and `Set(x)` on a plain gauge
  set : Gauge → List String → ℤ → MetricCall
  -- `DeleteLabelValues(values...)`
  delete_label_values : Gauge → List String → MetricCall
  -- `DeletePartialMatch(map[string]string{label: value})`
  delete_partial_match : Gauge → String → String → MetricCall
  -- `locationPublisherConflictsTotal.WithLabelValues(location, reason).Inc()`
  count_conflict : String → String → MetricCall
