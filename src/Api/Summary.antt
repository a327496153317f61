-- ===== src/Api/Summary.antt =====
-- internal/api/metrics_summary.go: the dashboard's view of the counters, with those of a worker merged
-- in. Floating-point numbers, the texts of labels and the fetch itself are parameters; Go's maps are
-- lists of pairs, and a range over one takes its keys in the order of the list.
pub mod Cooldown
use notifier.Base.{
  String, ℕ, ◌+◌, ◌*◌, Bool, true, false, ◌&&◌, ◌||◌, List, [], ◌∷◌, ◌++◌, map, Option, none, some,
  ltb, leb, ◌==◌, str_eq, if◌then◌else◌, length, take,
}
use notifier.Domain.Errors.{Error, error_text, texts, Result, ok, err}
use notifier.Domain.Status.{channel_text, status_text}
use notifier.Domain.Notification.{StatusCount}
use notifier.Queue.Topology.{second}
use notifier.Api.Respond.{Response, write_json_response, write_error_response}

abbrev pub worker_fetch_cooldown : ℕ
worker_fetch_cooldown = 5 * second

abbrev max_http_rows : ℕ
max_http_rows = 8

abbrev pub Labels : Type 0
Labels = List (String × String)

-- The arithmetic of `float64`, and the order of the texts that `fmt.Sprint` gives for labels.
pub record Floats : Type 1 where
  pub Float : Type 0
  pub plus : Float → Float → Float
  pub times : Float → Float → Float
  pub over : Float → Float → Float
  pub of_count : ℕ → Float
  pub label_before : Labels → Labels → Bool

-- A map's element, "" where the key is missing; and a map with one element set.
abbrev label_at : String → Labels → String
label_at key [] = ""
label_at key ((k, v) ∷ rest) = if str_eq k key then v else label_at key rest

abbrev set_label : String → String → Labels → Labels
set_label key value [] = (key, value) ∷ []
set_label key value ((k, v) ∷ rest) =
    let more = set_label key value rest in
    if str_eq k key then (key, value) ∷ rest else (k, v) ∷ more

-- `labelsOf`
unfoldable pub labels_from : List (String × String) → Labels → Labels
labels_from [] labels = labels
labels_from ((name, value) ∷ pairs) labels = labels_from pairs (set_label name value labels)

abbrev all_at : Labels → Labels → Bool
all_at [] b = true
all_at ((key, value) ∷ rest) b = str_eq (label_at key b) value && all_at rest b

-- `sameLabels`
unfoldable pub same_labels : Labels → Labels → Bool
same_labels a b = length a == length b && all_at a b

pub record LifetimeCount : Type 0 where
  pub channel : String
  pub status : String
  pub count : ℕ

module _ (floats : Floats) where
  open floats use {Float, plus, times, over, of_count, label_before}

  pub record Metric : Type 0 where
    pub pairs : List (String × String)
    pub counter : Float
    pub sample_count : ℕ
    pub sample_sum : Float

  pub record MetricFamily : Type 0 where
    pub name : String
    pub metrics : List Metric

  pub record LabeledValue : Type 0 where
    pub labels : Labels
    pub value : Float

  pub record LatencySummary : Type 0 where
    pub labels : Labels
    pub count : ℕ
    pub avg_ms : Float

  pub record MetricsSummary : Type 0 where
    pub created : List LabeledValue
    pub delivered : List LabeledValue
    pub attempts : List LabeledValue
    pub delivery_latency : List LatencySummary
    pub http_latency : List LatencySummary
    pub lifetime : List LifetimeCount
    pub sources : List String

  -- The first element with these labels is added to, or a new one stands at the end.
  unfoldable pub merge_counter : Labels → Float → List LabeledValue → List LabeledValue
  unfolding same_labels
  merge_counter labels value [] = record { labels = labels; value = value } ∷ []
  merge_counter labels value (x ∷ xs) =
      let more = merge_counter labels value xs in
      if same_labels x.labels labels then record x { value = plus x.value value } ∷ xs else x ∷ more

  abbrev per_second : Float
  per_second = of_count 1_000

  -- A histogram without samples adds no element.
  unfoldable pub merge_histogram : Labels → ℕ → Float → List LatencySummary → List LatencySummary
  unfolding same_labels
  merge_histogram labels count sum [] =
      if ltb 0 count
      then record {
        labels = labels;
        count = count;
        avg_ms = times (over sum (of_count count)) per_second;
      }
        ∷ []
      else []
  merge_histogram labels count sum (x ∷ xs) =
      let more = merge_histogram labels count sum xs in
      let total = plus (times (over x.avg_ms per_second) (of_count x.count)) sum in
      if same_labels x.labels labels
      then record x {
        count = x.count + count;
        avg_ms =
            if ltb 0 (x.count + count)
            then times (over total (of_count (x.count + count))) per_second
            else x.avg_ms;
      }
        ∷ xs
      else x ∷ more

  -- `mergeCounters` and `mergeHistograms`
  unfoldable pub merge_counters : List Metric → List LabeledValue → List LabeledValue
  unfolding merge_counter labels_from
  merge_counters [] existing = existing
  merge_counters (m ∷ ms) existing =
      merge_counters ms (merge_counter (labels_from m.pairs []) m.counter existing)

  unfoldable pub merge_histograms : List Metric → List LatencySummary → List LatencySummary
  unfolding merge_histogram labels_from
  merge_histograms [] existing = existing
  merge_histograms (m ∷ ms) existing =
      merge_histograms ms
        (merge_histogram (labels_from m.pairs []) m.sample_count m.sample_sum existing)

  unfoldable pub visit : MetricFamily → MetricsSummary → MetricsSummary
  unfolding merge_counters merge_histograms
  visit f s =
      if str_eq f.name "notifications_created_total"
      then record s { created = merge_counters f.metrics s.created }
      else if str_eq f.name "notifications_delivered_total"
      then record s { delivered = merge_counters f.metrics s.delivered }
      else if str_eq f.name "delivery_attempts_total"
      then record s { attempts = merge_counters f.metrics s.attempts }
      else if str_eq f.name "delivery_duration_seconds"
      then record s { delivery_latency = merge_histograms f.metrics s.delivery_latency }
      else if str_eq f.name "http_request_duration_seconds"
      then record s { http_latency = merge_histograms f.metrics s.http_latency }
      else s

  -- `accumulate`
  unfoldable pub accumulate : List MetricFamily → MetricsSummary → MetricsSummary
  unfolding visit
  accumulate [] s = s
  accumulate (f ∷ fs) s = accumulate fs (visit f s)

  abbrev insert_labeled : LabeledValue → List LabeledValue → List LabeledValue
  insert_labeled v [] = v ∷ []
  insert_labeled v (x ∷ xs) =
      let more = insert_labeled v xs in
      if label_before x.labels v.labels then x ∷ more else v ∷ x ∷ xs

  abbrev sort_labeled : List LabeledValue → List LabeledValue
  sort_labeled [] = []
  sort_labeled (v ∷ vs) = insert_labeled v (sort_labeled vs)

  abbrev insert_busiest : LatencySummary → List LatencySummary → List LatencySummary
  insert_busiest v [] = v ∷ []
  insert_busiest v (x ∷ xs) =
      let more = insert_busiest v xs in if ltb v.count x.count then x ∷ more else v ∷ x ∷ xs

  abbrev sort_busiest : List LatencySummary → List LatencySummary
  sort_busiest [] = []
  sort_busiest (v ∷ vs) = insert_busiest v (sort_busiest vs)

  -- `sortSummary`
  unfoldable pub sort_summary : MetricsSummary → MetricsSummary
  sort_summary s = record s {
    created = sort_labeled s.created;
    delivered = sort_labeled s.delivered;
    attempts = sort_labeled s.attempts;
    http_latency = take max_http_rows (sort_busiest s.http_latency);
  }

  abbrev empty_summary : MetricsSummary
  empty_summary = record {
    created = [];
    delivered = [];
    attempts = [];
    delivery_latency = [];
    http_latency = [];
    lifetime = [];
    sources = "api" ∷ [];
  }

  -- `workerFetchAllowed`; the zero time is 0.
  unfoldable pub worker_fetch_allowed : ℕ → ℕ → Bool
  worker_fetch_allowed last now = last == 0 || leb (last + worker_fetch_cooldown) now

  -- `recordWorkerFetch`
  unfoldable pub record_worker_fetch : ℕ → Result (List MetricFamily) → ℕ
  record_worker_fetch now (err e) = now
  record_worker_fetch now (ok fs) = 0

  abbrev add_worker : Result (List MetricFamily) → MetricsSummary → MetricsSummary
  add_worker (err e) s = s
  add_worker (ok fs) s =
      let merged = accumulate fs s in record merged { sources = merged.sources ++ "worker" ∷ [] }

  abbrev lifetime_count : StatusCount → LifetimeCount
  lifetime_count c = record {
    channel = channel_text c.channel;
    status = status_text c.status;
    count = c.count;
  }

  abbrev add_lifetime : Option (Result (List StatusCount)) → MetricsSummary → MetricsSummary
  add_lifetime (some (ok counts)) s = record s {
    lifetime = s.lifetime ++ map lifetime_count counts;
    sources = s.sources ++ "database" ∷ [];
  }
  add_lifetime _ s = s

  -- The worker is asked if its URL is set and no failure is too recent.
  unfoldable pub with_worker :
      Bool → ℕ → ℕ → Result (List MetricFamily) → MetricsSummary → MetricsSummary × ℕ
  with_worker has_url last now fetch s =
      if has_url && worker_fetch_allowed last now
      then (add_worker fetch s, record_worker_fetch now fetch)
      else (s, last)

  -- `serve`: the answer, and the time of the last failure. The fetch is what asking the worker would give.
  unfoldable pub serve :
      (String → String)
      → Bool
      → ℕ
      → ℕ
      → Result (List MetricFamily)
      → Result (List MetricFamily)
      → Option (Result (List StatusCount))
      → Response MetricsSummary × ℕ
  unfolding with_worker accumulate sort_summary
  serve quote has_url last now (err e) fetch lifetime = (
    write_error_response quote 500 (texts ("gather metrics: " ∷ error_text quote e ∷ [])) [],
    last,
  )
  serve quote has_url last now (ok families) fetch lifetime =
      let (s, failed_at) = with_worker has_url last now fetch (accumulate families empty_summary) in
      (write_json_response 200 (sort_summary (add_lifetime lifetime s)), failed_at)
