-- ===== src/Metrics.antt =====
-- internal/metrics/metrics.go: the queue's state in the Prometheus text format.
--
-- The output is a list of lines. A line keeps what is printed in it: the family's name, the labels
-- in their order and the number. The quoting of `%q`, the digits of `%d` and `%g`, and a writer that
-- fails are left out.
pub mod Exposition
use local_first_job_queue.Prelude.{
  ℕ, suc, Bool, true, false, Option, none, some, List, [], ◌∷◌, ◌++◌, map, Text, bytes, eq_text,
  if◌then◌else◌, ℤ, pos, sub_ℕ, leb_ℤ,
}
use local_first_job_queue.Clock.{Time}
use local_first_job_queue.Models.{
  JobState, pending, leased, completed, dead_letter, failed, state_text, EventType, enqueued,
  scheduled, leased_event, lease_renewed, acknowledged, failed_event, retried, recovered,
  dead_lettered, requeued, event_text, KindStateCount, EventTypeCount, RetentionSource, manual,
  auto, other_source, RetentionSourceCount, RetentionRun,
}
use local_first_job_queue.Store.{World, Env, Exec, Error, Result, ok, err, time_now}
use local_first_job_queue.Store.Queries.{
  get_queue_stats, get_oldest_pending_ready_time, eq_source, get_retention_stats,
  get_last_retention_run,
}
use local_first_job_queue.Store.Counts.{get_state_kind_counts, get_event_type_counts}

pub data Line : Type 0 where
  help counter_type gauge_type : Text → Line
  sample : Text → List (Text × Text) → ℕ → Line
  -- A number of nanoseconds, which is printed in seconds.
  age : Text → ℤ → Line

-- What was written, and how the writing ended.
abbrev pub Write : Type 0 → Type 0
Write A = World → List Line × Result A × World

unfoldable pub emit : List Line → Write (Unit {0})
emit ls w = (ls, ok tt, w)

unfoldable pub read : {A : Type 0} → Exec A → Write A
read m w = let (r, v) = m w in ([], r, v)

abbrev pub carry_on : {A B : Type 0} → List Line → Result A → (A → Write B) → Write B
carry_on ls (ok a) f w = let (more, r, v) = f a w in (ls ++ more, r, v)
carry_on ls (err x) f w = (ls, err x, w)

infixl 10 ◌>>=◌ ◌>>◌
unfoldable pub ◌>>=◌ : {A B : Type 0} → Write A → (A → Write B) → Write B
unfolding emit read
◌>>=◌ m f w = let (ls, r, v) = m w in carry_on ls r f v

abbrev pub ◌>>◌ : {A B : Type 0} → Write A → Write B → Write B
m >> n = m >>= λ _. n

-- `stateOrder`
abbrev pub state_order : List JobState
state_order = pending ∷ leased ∷ completed ∷ dead_letter ∷ failed ∷ []

-- `eventTypeOrder`
abbrev pub event_type_order : List EventType
event_type_order =
    enqueued ∷ scheduled ∷ leased_event ∷ lease_renewed ∷ acknowledged ∷ failed_event ∷ retried
    ∷ recovered ∷ dead_lettered ∷ requeued ∷ []

abbrev pub jobs_family : Text
jobs_family = bytes "jobqueue_jobs"

abbrev pub kinds_family : Text
kinds_family = bytes "jobqueue_jobs_by_kind"

abbrev pub events_family : Text
events_family = bytes "jobqueue_events_total"

abbrev pub state_sample : (JobState → ℕ) → JobState → Line
state_sample stats s = sample jobs_family ((bytes "state", state_text s) ∷ []) (stats s)

-- `writeStateGauge`
unfoldable pub state_gauge : (JobState → ℕ) → List Line
state_gauge stats = help jobs_family ∷ gauge_type jobs_family ∷ map (state_sample stats) state_order

abbrev pub kind_sample : KindStateCount → Line
kind_sample c =
    sample kinds_family ((bytes "kind", c.kind) ∷ (bytes "state", state_text c.state) ∷ []) c.total

-- `writeKindGauge`
unfoldable pub kind_gauge : List KindStateCount → List Line
kind_gauge counts = help kinds_family ∷ gauge_type kinds_family ∷ map kind_sample counts

last_total : EventType → List EventTypeCount → ℕ → ℕ
last_total t [] n = n
last_total t (c ∷ cs) n =
    last_total t cs (if eq_text (event_text c.event_type) (event_text t) then c.total else n)

-- The map `byType`: the last count of a type, or 0.
unfoldable pub by_type : List EventTypeCount → EventType → ℕ
unfolding last_total
by_type counts t = last_total t counts 0

abbrev pub event_sample : List EventTypeCount → EventType → Line
event_sample counts t = sample events_family ((bytes "type", event_text t) ∷ []) (by_type counts t)

-- `writeEventCounters`
unfoldable pub event_counters : List EventTypeCount → List Line
unfolding by_type
event_counters counts =
    help events_family ∷ counter_type events_family ∷ map (event_sample counts) event_type_order

abbrev pub oldest_family : Text
oldest_family = bytes "jobqueue_oldest_pending_seconds"

age_of : Env → Text → Time → Write (Unit {0})
age_of e family at = do now ← read (time_now e); emit (age family (sub_ℕ now at) ∷ [])

oldest_age : Env → Option Time → Write (Unit {0})
oldest_age e none = emit []
oldest_age e (some ready) = age_of e oldest_family ready

-- `writeOldestPending`
unfoldable pub oldest_pending : Env → Write (Unit {0})
unfolding ◌>>=◌ oldest_age age_of
oldest_pending e = do
  ready ← read (get_oldest_pending_ready_time e)
  emit (help oldest_family ∷ gauge_type oldest_family ∷ [])
  oldest_age e ready

abbrev pub source_text : RetentionSource → Text
source_text manual = bytes "manual"
source_text auto = bytes "auto"
source_text (other_source s) = s

last_count :
    RetentionSource → List RetentionSourceCount → RetentionSourceCount → RetentionSourceCount
last_count s [] c = c
last_count s (d ∷ ds) c = last_count s ds (if eq_source d.source s then d else c)

-- The map `bySource`: the last count of a source, or zeros.
unfoldable pub by_source : List RetentionSourceCount → RetentionSource → RetentionSourceCount
unfolding last_count
by_source stats s =
    last_count s stats (record { source = s; runs = 0; jobs_removed = 0; events_removed = 0 })

-- One family of the retention counters, over `retentionSourceOrder`.
unfoldable pub retention_family :
    Text → (RetentionSourceCount → ℕ) → List RetentionSourceCount → List Line
unfolding by_source
retention_family name value stats =
    help name
    ∷ counter_type name
    ∷ map (λ s. sample name ((bytes "source", source_text s) ∷ []) (value (by_source stats s)))
        (manual ∷ auto ∷ [])

abbrev pub last_run_family : Text
last_run_family = bytes "jobqueue_retention_last_run_seconds"

-- An age that is negative is written as 0.
last_run_age : Env → Option RetentionRun → Write (Unit {0})
last_run_age e none = emit []
last_run_age e (some run) = do
  now ← read (time_now e)
  let passed = sub_ℕ now run.started_at
  emit (age last_run_family (if leb_ℤ (pos 0) passed then passed else pos 0) ∷ [])

-- `writeRetention`
unfoldable pub retention : Env → Write (Unit {0})
unfolding ◌>>=◌ retention_family last_run_age
retention e = do
  stats ← read (get_retention_stats e)
  emit (
      retention_family (bytes "jobqueue_retention_runs_total") (λ c. c.runs) stats
      ++ retention_family (bytes "jobqueue_retention_jobs_removed_total") (λ c. c.jobs_removed)
          stats
      ++ retention_family (bytes "jobqueue_retention_events_removed_total") (λ c. c.events_removed)
          stats)
  emit (help last_run_family ∷ gauge_type last_run_family ∷ [])
  last ← read (get_last_retention_run e)
  last_run_age e last

-- `Write`
unfoldable pub write : Env → Write (Unit {0})
unfolding ◌>>=◌ state_gauge kind_gauge event_counters oldest_pending retention
write e = do
  stats ← read (get_queue_stats e)
  kinds ← read (get_state_kind_counts e)
  events ← read (get_event_type_counts e)
  emit (state_gauge stats)
  emit (kind_gauge kinds)
  emit (event_counters events)
  oldest_pending e
  retention e
