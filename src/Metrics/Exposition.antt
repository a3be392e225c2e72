-- ===== src/Metrics/Exposition.antt =====
-- What a scrape shows of the tables.
use local_first_job_queue.Prelude.{
  ℕ, suc, ◌≡◌, refl, sym, map, [], ◌∷◌, bytes, false, ◌&&◌, List, ◌++◌, Text, eq_text, count,
  length,
}
use local_first_job_queue.Models.{
  JobState, pending, leased, completed, dead_letter, failed, state_text, KindStateCount,
}
use local_first_job_queue.Store.{World, Env, statement}
use local_first_job_queue.Store.Queries.{eq_state, get_queue_stats, queue_stats}
use local_first_job_queue.Store.Queries.Tally.{Tally, count-Tally}
use local_first_job_queue.Store.Counts.{
  get_state_kind_counts, state_kind_counts, get_event_type_counts, event_type_counts,
}
use local_first_job_queue.Store.Counts.Totals.{
  sum_kinds, total_of, state_kind_counts_total, state_kind_counts_lem,
}
use local_first_job_queue.Metrics.{
  Line, help, gauge_type, sample, kind_sample, ◌>>=◌, ◌>>◌, state_gauge, kind_gauge, event_counters,
  oldest_pending, retention, write,
}

-- One sample for each kind and state.
abbrev pub kind_lines : List KindStateCount → List Line
kind_lines [] = []
kind_lines (c ∷ cs) =
    sample (bytes "jobqueue_jobs_by_kind")
      ((bytes "kind", c.kind) ∷ (bytes "state", state_text c.state) ∷ []) c.total
    ∷ kind_lines cs

kind_lines_lem : (cs : List KindStateCount) → map kind_sample cs ≡ kind_lines cs
kind_lines_lem [] = refl
kind_lines_lem (c ∷ cs) = rw (kind_lines_lem cs) refl

-- The sample of a state in the first family.
abbrev pub state_line : Text → ℕ → Line
state_line name n = sample (bytes "jobqueue_jobs") ((bytes "state", name) ∷ []) n

-- The first lines of a scrape, by the numbers of jobs in a state and those of a kind in a state.
abbrev pub first_lines : (JobState → ℕ) → List KindStateCount → List Line → List Line
first_lines n counts rest =
    help (bytes "jobqueue_jobs")
    ∷ gauge_type (bytes "jobqueue_jobs")
    ∷ state_line (bytes "pending") (n pending)
    ∷ state_line (bytes "leased") (n leased)
    ∷ state_line (bytes "completed") (n completed)
    ∷ state_line (bytes "dead_letter") (n dead_letter)
    ∷ state_line (bytes "failed") (n failed)
    ∷ help (bytes "jobqueue_jobs_by_kind")
    ∷ gauge_type (bytes "jobqueue_jobs_by_kind")
    ∷ (kind_lines counts ++ rest)

module _ (e : Env) (w : World) where
  -- The world after the first three queries.
  scraped : World
  scraped = record { db = w.db; ticks = suc (suc (suc w.ticks)) }

  -- Where the three counting queries succeed, a scrape begins with five samples, the numbers of
  -- pending, leased, completed, dead-lettered and failed jobs, and goes on with one sample for each
  -- of the counts by kind and state, which add up to the number of jobs and are, for every kind and
  -- state, the number of its rows; this is written even where a later query fails.
  pub write_lem :
      e.fails w.ticks ≡ false
      → e.fails (suc w.ticks) ≡ false
      → e.fails (suc (suc w.ticks)) ≡ false
      → (n : JobState → ℕ) × (counts : List KindStateCount) × ((rest : List Line) × ((write e w).0
            ≡ first_lines n counts rest))
        × ((s : JobState) → Tally s w.db.jobs (n s))
        × (sum_kinds counts ≡ length w.db.jobs)
        × ((k : Text) (s : JobState)
            → total_of k s counts
              ≡ count
                  (λ r. eq_text k r.kind && eq_text (state_text s) (state_text r.state))
                  w.db.jobs)
  unfolding write ◌>>=◌ get_queue_stats queue_stats get_state_kind_counts get_event_type_counts
      statement scraped state_gauge kind_gauge
  write_lem a b c = (
    λ s. count (λ r. eq_state r.state s) w.db.jobs,
    state_kind_counts w.db.jobs,
    (
      event_counters (event_type_counts w.db.events)
          ++ ((oldest_pending e >> retention e) scraped).0,
      rw (a, b, c, sym (kind_lines_lem (state_kind_counts w.db.jobs))) refl,
    ),
    λ s. count-Tally s w.db.jobs,
    state_kind_counts_total w.db.jobs,
    λ k s. state_kind_counts_lem k s w.db.jobs,
  )
