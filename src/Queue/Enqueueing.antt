-- ===== src/Queue/Enqueueing.antt =====
-- What `Enqueue` does with a job that is new.
use local_first_job_queue.Prelude.{suc, ◌≡◌, refl, none, some, [], ◌∷◌, ◌++◌, Text, find?}
use local_first_job_queue.Clock.{format}
use local_first_job_queue.Store.{World, Env, ok, time_now, new_text, statement, pure, lift, ◌>>=◌}
use local_first_job_queue.Store.Rows.{has_id}
use local_first_job_queue.Store.Insert.{
  row_of, insert_job, insert_row, conflicting, insert_event, append_event, event_row,
}
use local_first_job_queue.Queue.{
  EnqueueConfig, enqueue, finish_enqueue, append_enqueue_events, new_job, key_of, creation_event,
  creation_metadata,
}
use local_first_job_queue.Queue.Idempotency.{IsQuiet}

module _ (e : Env) (w : World) (kind payload : Text) (cfg : EnqueueConfig) (id : Text)
    (quiet : IsQuiet e) (drawn : e.random w.ticks ≡ some id)
    (fresh_key : conflicting (key_of cfg.idempotency_key) w.db.jobs ≡ none)
    (fresh_id : find? (has_id id) w.db.jobs ≡ none) where
  -- Where no statement fails and neither the id that the random source gives nor the key, if there
  -- is one, is taken, `Enqueue` returns the pending job that the options describe, appends its row
  -- behind the others, and appends its event.
  pub enqueue_lem :
      let (r, v) = enqueue e kind payload cfg w in
      let now = e.now (suc w.ticks) in
      (r ≡ ok (new_job id kind payload cfg now))
      × (v.db.jobs ≡ w.db.jobs ++ row_of (new_job id kind payload cfg now) ∷ [])
      × (v.db.events
          ≡ w.db.events
            ++ event_row w.db.next_event id
                (creation_event cfg.run_at)
                (some (creation_metadata kind cfg.run_at))
                (format now)
              ∷ [])
  unfolding enqueue finish_enqueue append_enqueue_events append_event insert_event insert_job
      insert_row new_job ◌>>=◌ time_now new_text statement pure lift
  enqueue_lem =
      rw (drawn, fresh_key, fresh_id, quiet (suc (suc w.ticks)), quiet (suc (suc (suc w.ticks))))
        (refl, refl, refl)
