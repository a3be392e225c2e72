-- ===== src/Cli/Scheduling.antt =====
-- The job that the command `enqueue` makes of its flags.
use local_first_job_queue.Prelude.{
  zero, suc, ◌≡◌, refl, ap, ◌∙◌, false, ◌&&◌, not, Option, none, some, [], ◌∷◌, ◌++◌, Text, find?,
  arith, ◌==◌, if◌then◌else◌, ℤ, pos, negsuc, leb_ℤ,
}
use local_first_job_queue.Clock.{Time, Duration, add, format}
use local_first_job_queue.Models.{Job, pending}
use local_first_job_queue.Store.{Row, World, Env, time_now, ◌>>=◌}
use local_first_job_queue.Store.Rows.{has_id, map_option}
use local_first_job_queue.Store.Insert.{row_of, conflicting}
use local_first_job_queue.Queue.{EnqueueConfig, new_job, key_of, clamp_attempts}
use local_first_job_queue.Queue.Options.{
  with_idempotency_key, with_max_attempts, with_priority, with_run_at, with_run_after,
}
use local_first_job_queue.Queue.Idempotency.{IsQuiet}
use local_first_job_queue.Queue.Enqueueing.{enqueue_lem}
use local_first_job_queue.Cli.{
  EnqueueFlags, RunAt, absent, unparsable, at, is_absent, is_unparsable, is_zero, is_empty,
  with_key, with_run_time, enqueue_options, enqueue_now, enqueue_command, run_command, printed,
}

-- The time that the flags ask for: none where `-run-after` is not positive or `-run-at` is the zero
-- time.
abbrev pub run_time : Time → RunAt → Duration → Option Time
run_time now (at t) d = if t == 0 then none else some t
run_time now _ d = if leb_ℤ d (pos 0) then none else some (add now d)

-- What the flags ask for.
abbrev pub requested : Time → EnqueueFlags → EnqueueConfig
requested now f = record {
  idempotency_key = f.idempotency_key;
  max_attempts = f.max_attempts;
  priority = f.priority;
  run_at = run_time now f.run_at f.run_after;
}

keyed :
    (n m : ℤ) (key : Text)
    → with_key key (record { idempotency_key = []; max_attempts = n; priority = m; run_at = none })
      ≡ record { idempotency_key = key; max_attempts = n; priority = m; run_at = none }
unfolding with_key with_idempotency_key
keyed n m [] = refl
keyed n m (k ∷ ks) = refl

timed :
    (now : Time) (n m : ℤ) (key kind payload : Text) (t : RunAt) (d : Duration)
    → with_run_time now
        (record {
          kind = kind;
          payload = payload;
          idempotency_key = key;
          max_attempts = n;
          priority = m;
          run_at = t;
          run_after = d;
        })
        (record { idempotency_key = key; max_attempts = n; priority = m; run_at = none })
      ≡ record { idempotency_key = key; max_attempts = n; priority = m; run_at = run_time now t d }
unfolding with_run_time with_run_at with_run_after
timed now n m key kind payload (at t) d = refl
timed now n m key kind payload absent (pos zero) = refl
timed now n m key kind payload absent (pos (suc d)) = ground arith
timed now n m key kind payload absent (negsuc d) = ground arith
timed now n m key kind payload unparsable (pos zero) = refl
timed now n m key kind payload unparsable (pos (suc d)) = ground arith
timed now n m key kind payload unparsable (negsuc d) = ground arith

enqueue_options_lem : (now : Time) (f : EnqueueFlags) → enqueue_options now f ≡ requested now f
unfolding enqueue_options with_priority with_max_attempts
enqueue_options_lem now f =
    ap (with_run_time now f) (keyed f.max_attempts f.priority f.idempotency_key)
    ∙ timed now f.max_attempts f.priority f.idempotency_key f.kind f.payload f.run_at f.run_after

-- The smallest number of attempts is one.
abbrev pub at_least_one : ℤ → ℤ
at_least_one (pos zero) = pos 1
at_least_one (pos (suc n)) = pos (suc n)
at_least_one (negsuc n) = pos 1

abbrev pub text_or_none : Text → Option Text
text_or_none [] = none
text_or_none (c ∷ cs) = some (c ∷ cs)

-- The job that the flags describe, asked for at one time and stored at another.
abbrev pub described_job : Text → EnqueueFlags → Time → Time → Job
described_job id f asked_at stored_at = record {
  id = id;
  kind = f.kind;
  payload = f.payload;
  state = pending;
  retry_count = pos 0;
  max_attempts = at_least_one f.max_attempts;
  priority = f.priority;
  idempotency_key = text_or_none f.idempotency_key;
  created_at = stored_at;
  updated_at = stored_at;
  leased_until = none;
  lease_token = [];
  run_at = run_time asked_at f.run_at f.run_after;
}

-- The row of it, with its times as texts.
abbrev pub described_row : Text → EnqueueFlags → Time → Time → Row
described_row id f asked_at stored_at = record {
  id = id;
  kind = f.kind;
  payload = f.payload;
  state = pending;
  retry_count = pos 0;
  max_attempts = at_least_one f.max_attempts;
  priority = f.priority;
  idempotency_key = text_or_none f.idempotency_key;
  created_at = format stored_at;
  updated_at = format stored_at;
  leased_until = none;
  run_at = elim (run_time asked_at f.run_at f.run_after) [ none ↦ none | some t ↦ some (format t) ];
  lease_token = none;
}

clamp_attempts_lem : (n : ℤ) → clamp_attempts n ≡ at_least_one n
clamp_attempts_lem (pos zero) = refl
clamp_attempts_lem (pos (suc n)) = ground arith
clamp_attempts_lem (negsuc n) = ground arith

key_of_lem : (key : Text) → key_of key ≡ text_or_none key
key_of_lem [] = refl
key_of_lem (c ∷ cs) = refl

map_format :
    (t : Option Time) → map_option format t ≡ elim t [ none ↦ none | some u ↦ some (format u) ]
map_format none = refl
map_format (some u) = refl

new_job_lem :
    (id : Text) (f : EnqueueFlags) (asked_at stored_at : Time)
    → new_job id f.kind f.payload (requested asked_at f) stored_at
      ≡ described_job id f asked_at stored_at
unfolding new_job
new_job_lem id f asked_at stored_at =
    rw (clamp_attempts_lem f.max_attempts, key_of_lem f.idempotency_key) refl

row_of_lem :
    (id : Text) (f : EnqueueFlags) (asked_at stored_at : Time)
    → row_of (described_job id f asked_at stored_at) ≡ described_row id f asked_at stored_at
unfolding row_of
row_of_lem id f asked_at stored_at = rw (map_format (run_time asked_at f.run_at f.run_after)) refl

module _ (e : Env) (w : World) (f : EnqueueFlags) (id : Text) (quiet : IsQuiet e)
    (drawn : e.random (suc w.ticks) ≡ some id) (has_payload : is_empty f.payload ≡ false)
    (one_time : (not (is_absent f.run_at) && not (is_zero f.run_after)) ≡ false)
    (parses : is_unparsable f.run_at ≡ false)
    (fresh_key : conflicting (key_of f.idempotency_key) w.db.jobs ≡ none)
    (fresh_id : find? (has_id id) w.db.jobs ≡ none) where
  -- Where no statement fails, neither the new id nor the key is taken, the payload is not empty, at
  -- most one of the two times is given and it parses, the command `enqueue` prints and appends the
  -- job that its flags describe: pending, with no attempt counted and no lease, of the given kind,
  -- payload, priority and key, due at the given time, with the given number of attempts, but one at
  -- least.
  pub enqueue_command_lem :
      let (r, v) = enqueue_command e f w in
      (r ≡ printed (described_job id f (e.now w.ticks) (e.now (suc (suc w.ticks)))))
      × (v.db.jobs
          ≡ w.db.jobs ++ described_row id f (e.now w.ticks) (e.now (suc (suc w.ticks))) ∷ [])
  unfolding enqueue_command run_command enqueue_now ◌>>=◌ time_now
  enqueue_command_lem =
      let asked_at = e.now w.ticks in
      let stored_at = e.now (suc (suc w.ticks)) in
      let (result, jobs, _) =
        enqueue_lem e (record w { ticks = suc w.ticks }) f.kind f.payload (requested asked_at f) id
          quiet drawn fresh_key fresh_id in
      let described = new_job_lem id f asked_at stored_at in
      rw (has_payload, one_time, parses, enqueue_options_lem asked_at f, result)
        (
          ap printed described,
          jobs
              ∙ ap (λ r. w.db.jobs ++ r ∷ [])
                  (ap row_of described ∙ row_of_lem id f asked_at stored_at),
        )
