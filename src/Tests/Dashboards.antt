-- ===== src/Tests/Dashboards.antt =====
-- Requests to the dashboard and scrapes of the metrics, at a store with one dead-lettered job.
use local_first_job_queue.Prelude.{
  ℕ, ◌+◌, ◌-◌, ◌*◌, ◌≡◌, ◌≢◌, refl, arith, true, false, ◌&&◌, ◌==◌, some, none, List, [], ◌∷◌, Text,
  bytes, length, count, eq_text, find?, pos, pos_part, ◌≤ℤ◌,
}
use Prim.Native.Nat.{min}
use local_first_job_queue.Prelude.Predicates.{All}
use local_first_job_queue.Clock.{nanos, format}
use local_first_job_queue.Models.{Job, JobState, dead_letter, pending, state_text, KindStateCount}
use local_first_job_queue.Store.{Row, World, Env, empty}
use local_first_job_queue.Store.Queries.{matches}
use local_first_job_queue.Store.Queries.Tally.{Tally}
use local_first_job_queue.Store.Insert.{row_of}
use local_first_job_queue.Store.Lookup.{find_id}
use local_first_job_queue.Store.Readable.{IsReadable, row_of-IsReadable}
use local_first_job_queue.Store.Counts.{event_type_counts}
use local_first_job_queue.Store.Counts.Totals.{
  sum_kinds, sum_events, total_of, event_type_counts_total,
}
use local_first_job_queue.Metrics.{Line, write}
use local_first_job_queue.Metrics.Exposition.{first_lines, write_lem}
use local_first_job_queue.Web.{
  BasicAuth, error_json, jobs_json, JobsQuery, page_limit, page_offset, filter_of, handle_api_jobs,
  alone, handle_api_requeue,
}
use local_first_job_queue.Web.Listing.{handle_api_jobs_lem}
use local_first_job_queue.Web.Requeueing.{requeued_row, handle_api_requeue_misreports}
use local_first_job_queue.Tests.Samples.{quiet_env, email, first_id, start_second}

abbrev dead_job : Job
dead_job = record {
  id = first_id;
  kind = email;
  payload = bytes "a";
  state = dead_letter;
  retry_count = pos 3;
  max_attempts = pos 3;
  priority = pos 0;
  idempotency_key = none;
  created_at = start_second * nanos;
  updated_at = (start_second + 1) * nanos;
  leased_until = none;
  lease_token = [];
  run_at = none;
}

abbrev dead_row : Row
dead_row = record {
  id = first_id;
  kind = email;
  payload = bytes "a";
  state = dead_letter;
  retry_count = pos 3;
  max_attempts = pos 3;
  priority = pos 0;
  idempotency_key = none;
  created_at = format (start_second * nanos);
  updated_at = format ((start_second + 1) * nanos);
  leased_until = none;
  run_at = none;
  lease_token = none;
}

abbrev stored : World
stored = record { db = record empty { jobs = dead_row ∷ [] }; ticks = 0 }

readable : IsReadable dead_row
unfolding row_of
readable = row_of-IsReadable dead_job

jobs-IsReadable : All IsReadable stored.db.jobs
jobs-IsReadable = (readable, tt)

abbrev admin : BasicAuth
admin = record { username = bytes "admin"; password = bytes "secret" }

abbrev second_page : JobsQuery
second_page = record {
  state = none;
  kind = [];
  q = [];
  limit = some (pos 5000);
  offset = some (pos 1);
}

handle_api_jobs_lem_example :
    (jobs : List Job) × (total : ℕ) × (handle_api_jobs quiet_env second_page stored ≡ (
      record {
        status = 200;
        body = jobs_json jobs total (page_limit second_page.limit) (page_offset second_page.offset);
      },
      record stored { ticks = 2 },
    ))
    × (total ≡ count (matches (filter_of second_page)) stored.db.jobs)
    × (length jobs
        ≡ min
            (pos_part (page_limit second_page.limit))
            (total - pos_part (page_offset second_page.offset)))
    × (pos 1 ≤ℤ page_limit second_page.limit)
    × (page_limit second_page.limit ≤ℤ pos 1000)
handle_api_jobs_lem_example =
    handle_api_jobs_lem quiet_env second_page stored (λ n. refl) jobs-IsReadable

found_dead : find_id first_id stored.db.jobs ≡ some dead_row
unfolding find? eq_text
found_dead = refl

-- Only the statement that appends the event fails.
abbrev broken_env : Env
broken_env = record quiet_env { fails = λ n. n == 6 }

only_sixth : (k : ℕ) → k ≢ 6 → broken_env.fails k ≡ false
only_sixth k n = ground (arith, n)

abbrev unlogged_row : Row
unlogged_row =
    requeued_row broken_env stored first_id none none dead_row refl readable found_dead refl

handle_api_requeue_misreports_example :
    let (response, v) = handle_api_requeue broken_env true first_id (alone none none) stored in
    (response ≡ record { status = 409; body = error_json (bytes "job is not dead-lettered") })
    × (find_id first_id v.db.jobs ≡ some unlogged_row)
    × (unlogged_row.state ≡ pending)
    × (v.db.events ≡ stored.db.events)
handle_api_requeue_misreports_example =
    handle_api_requeue_misreports broken_env stored first_id none none dead_row refl readable
      found_dead refl only_sixth refl

write_lem_example :
    (n : JobState → ℕ) × (counts : List KindStateCount) × ((rest : List Line) × ((write quiet_env
          stored).0
        ≡ first_lines n counts rest))
    × ((s : JobState) → Tally s stored.db.jobs (n s))
    × (sum_kinds counts ≡ length stored.db.jobs)
    × ((k : Text) (s : JobState)
        → total_of k s counts
          ≡ count
              (λ r. eq_text k r.kind && eq_text (state_text s) (state_text r.state))
              stored.db.jobs)
write_lem_example = write_lem quiet_env stored refl refl refl

event_type_counts_total_example :
    sum_events (event_type_counts stored.db.events) ≡ length stored.db.events
event_type_counts_total_example = event_type_counts_total stored.db.events
