-- ===== src/Queue/Idempotency.antt =====
-- `Enqueue` with a key that is taken, in internal/queue/queue.go.
use local_first_job_queue.Prelude.{ℕ, suc, ◌+◌, ◌≡◌, false, some, ◌∷◌, Text, find?, arith}
use local_first_job_queue.Models.{Job}
use local_first_job_queue.Store.{Row, World, Env, ok, time_now, statement, ◌>>=◌}
use local_first_job_queue.Store.Rows.{scan_job, scan_optional}
use local_first_job_queue.Store.Insert.{has_key}
use local_first_job_queue.Queue.{EnqueueConfig, enqueue}

-- No statement fails from this world on.
abbrev pub IsQuiet : Env → Type 0
IsQuiet e = (n : ℕ) → e.fails n ≡ false

-- Where no statement fails and the random source answers, an enqueue under a key that some job has,
-- whose timestamps parse, returns that job, whatever the kind, the payload and the other options,
-- and changes no table.
pub enqueue_again :
    (e : Env) (w : World) (kind payload : Text) (cfg : EnqueueConfig) (c : ℕ) (cs id : Text)
    (r : Row) (j : Job)
    → IsQuiet e
    → e.random w.ticks ≡ some id
    → cfg.idempotency_key ≡ c ∷ cs
    → find? (has_key (c ∷ cs)) w.db.jobs ≡ some r
    → scan_job r ≡ ok j
    → enqueue e kind payload cfg w ≡ (ok j, record w { ticks = w.ticks + 4 })
unfolding enqueue ◌>>=◌ time_now statement scan_optional
enqueue_again e w kind payload cfg c cs id r j quiet drawn key held scans =
    ground
      (arith, quiet (suc (suc w.ticks)), quiet (suc (suc (suc w.ticks))), drawn, key, held, scans)
