-- ===== src/Queue/Options.antt =====
-- The options of `Enqueue` and `Requeue`, in internal/queue/queue.go: changes of a configuration.
use local_first_job_queue.Prelude.{none, some, Text, ℤ, pos, leb_ℤ, ◌==◌, if◌then◌else◌}
use local_first_job_queue.Clock.{Time, Duration, add}
use local_first_job_queue.Queue.{EnqueueConfig, RequeueConfig}

unfoldable pub with_idempotency_key : Text → EnqueueConfig → EnqueueConfig
with_idempotency_key key c = record c { idempotency_key = key }

unfoldable pub with_max_attempts : ℤ → EnqueueConfig → EnqueueConfig
with_max_attempts n c = record c { max_attempts = n }

unfoldable pub with_priority : ℤ → EnqueueConfig → EnqueueConfig
with_priority priority c = record c { priority = priority }

-- The zero time asks for no delay.
unfoldable pub with_run_at : Time → EnqueueConfig → EnqueueConfig
with_run_at t c = record c { run_at = if t == 0 then none else some t }

-- `now` is the clock's reading when the option is applied.
unfoldable pub with_run_after : Time → Duration → EnqueueConfig → EnqueueConfig
with_run_after now d c = record c { run_at = if leb_ℤ d (pos 0) then none else some (add now d) }

unfoldable pub requeue_with_max_attempts : ℤ → RequeueConfig → RequeueConfig
requeue_with_max_attempts n c = record c { max_attempts = n }

unfoldable pub requeue_with_payload : Text → RequeueConfig → RequeueConfig
requeue_with_payload payload c = record c { payload = some payload }
