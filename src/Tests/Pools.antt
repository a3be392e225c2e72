-- ===== src/Tests/Pools.antt =====
-- A worker of two goroutines that runs a job, is cancelled and returns.
use local_first_job_queue.Prelude.{◌≢◌, ◌⊎◌, refl, ◌≤◌, true, false, [], ◌∷◌, pos, arith}
use local_first_job_queue.Worker.Pool.{
  Config, with_concurrency, new_worker, start_pool, Pool, looping, returned, Reaches, here,
  then_step, starts, gives_back, leaves, is_cancelled, stops, returns,
}
use local_first_job_queue.Worker.Pool.Bounds.{IsOver, run_bounds}
use local_first_job_queue.Tests.Samples.{email}

abbrev two : Config
two = new_worker email (with_concurrency (pos 2) ∷ [])

abbrev at_start : Pool
at_start = record {
  permits = 2;
  working = 0;
  leaving = 0;
  retaining = false;
  ticking = false;
  cancelled = false;
  phase = looping;
}

abbrev at_end : Pool
at_end = record at_start { cancelled = true; phase = returned }

whole_run : Reaches at_start at_end
whole_run =
    then_step
      (then_step
        (then_step
          (then_step (then_step (then_step here (starts refl (omega arith))) is_cancelled)
            (stops refl refl))
          (gives_back (omega arith)))
        (leaves (omega arith)))
      (returns refl refl refl)

run_bounds_example : (at_end.working ≤ 2) × ((at_end.phase ≢ returned) ⊎ IsOver 2 at_end)
unfolding start_pool
run_bounds_example = run_bounds two 2 at_start at_end at_end refl refl whole_run here
