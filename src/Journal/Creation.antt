-- ===== src/Journal/Creation.antt =====
-- A new job comes with the first event of its log.
use local_first_job_queue.Prelude.{
  ◌≡◌, refl, subst, inl, inr, Option, none, some, [], ◌∷◌, Text, arith, Option-cases, suc, find?,
}
use local_first_job_queue.Prelude.Predicates.{All-find?}
use local_first_job_queue.Clock.{Time, format}
use local_first_job_queue.Models.{pending}
use local_first_job_queue.Archive.Transition.{first_event_state, replay_pending}
use local_first_job_queue.Store.{
  Row, EventRow, World, Env, time_now, new_text, statement, lift, pure, ◌>>=◌,
}
use local_first_job_queue.Store.Rows.{has_id}
use local_first_job_queue.Store.Insert.{
  insert_event, insert_job, insert_row, row_of, conflicting, has_key, find_job_by_idempotency_key,
  append_event, event_row,
}
use local_first_job_queue.Store.Readable.{IsReadable, scan_optional-IsReadable}
use local_first_job_queue.Store.Rows.{scan_optional}
use local_first_job_queue.Queue.{
  enqueue, EnqueueConfig, finish_enqueue, append_enqueue_events, new_job, key_of, creation_event,
  creation_metadata,
}
use local_first_job_queue.Journal.{Told, Replays, HasBudget}
use local_first_job_queue.Journal.Change.{insert-Journal}
use local_first_job_queue.Journal.Outcomes.{IsRegular, IsKept, IsJournal, unchanged-Journal}

creation_event-Replays :
    (run_at : Option Time) (v : EventRow)
    → v.event_type ≡ creation_event run_at
    → Replays pending (v ∷ [])
unfolding first_event_state
creation_event-Replays none v h = rw h (refl, (replay_pending, refl, refl))
creation_event-Replays (some t) v h = rw h (refl, (replay_pending, refl, refl))

new_job-HasBudget :
    (id kind payload : Text) (cfg : EnqueueConfig) (now : Time)
    → HasBudget (row_of (new_job id kind payload cfg now))
unfolding row_of new_job
new_job-HasBudget id kind payload cfg now = record {
  budget = ground arith;
  retries = omega arith;
  within = ground arith;
  attempt_left = λ _. ground arith;
}

module _ (e : Env) (regular : IsRegular e) (w : World) (kept : IsKept e w) (kind payload : Text)
    (cfg : EnqueueConfig) where
  enqueue_new :
      (id : Text)
      → e.random w.ticks ≡ some id
      → conflicting (key_of cfg.idempotency_key) w.db.jobs ≡ none
      → find? (has_id id) w.db.jobs ≡ none
      → IsJournal e (enqueue e kind payload cfg w).1
  unfolding enqueue finish_enqueue append_enqueue_events append_event insert_event insert_job
      insert_row new_job ◌>>=◌ time_now new_text statement pure lift row_of
  enqueue_new id drawn fresh_key fresh_id =
      let now = e.now (suc w.ticks) in
      let row = row_of (new_job id kind payload cfg now) in
      let high = e.now (suc (suc (suc (suc w.ticks)))) in
      let v =
        event_row w.db.next_event id (creation_event cfg.run_at)
          (some (creation_metadata kind cfg.run_at)) (format now) in
      let told : Told high row (v ∷ []) = record {
        sound = record {
          named = λ q. regular.draws w.ticks (subst (λ x. e.random w.ticks ≡ some x) q drawn);
          counts = new_job-HasBudget id kind payload cfg now;
          created = now;
          updated = now;
          created_ok = refl;
          updated_ok = refl;
          ordered = omega arith;
          past = regular.forward _ _ (omega arith);
        };
        replays = creation_event-Replays cfg.run_at v refl;
        dated = (now, refl, regular.running _, omega arith, regular.forward _ _ (omega arith));
      } in
      rw
        (
          drawn,
          fresh_key,
          fresh_id,
          regular.quiet (suc (suc w.ticks)),
          regular.quiet (suc (suc (suc w.ticks))),
        )
        (insert-Journal (e.now w.ticks) high w.db.jobs w.db.events v kept.journal
          (regular.forward _ _ (omega arith)) row fresh_id refl told)

  enqueue_held :
      (id : Text) (held : Row)
      → e.random w.ticks ≡ some id
      → conflicting (key_of cfg.idempotency_key) w.db.jobs ≡ some held
      → IsJournal e (enqueue e kind payload cfg w).1
  unfolding enqueue finish_enqueue insert_job insert_row new_job ◌>>=◌ time_now new_text statement
      pure lift row_of find_job_by_idempotency_key scan_optional
  enqueue_held id held drawn taken =
      elim (Option-cases (find? (has_key cfg.idempotency_key) w.db.jobs)) [
        | inl q ↦
            rw
              (
                drawn,
                taken,
                regular.quiet (suc (suc w.ticks)),
                regular.quiet (suc (suc (suc w.ticks))),
                q,
              )
              (unchanged-Journal e regular w kept _ (omega arith))
        | inr (r, q) ↦
            let readable =
              All-find? IsReadable (has_key cfg.idempotency_key) w.db.jobs r kept.reads.jobs q in
            rw
              (
                drawn,
                taken,
                regular.quiet (suc (suc w.ticks)),
                regular.quiet (suc (suc (suc w.ticks))),
                q,
                scan_optional-IsReadable r readable,
              )
              (unchanged-Journal e regular w kept _ (omega arith))
      ]

  enqueue_drawn :
      (id : Text) → e.random w.ticks ≡ some id → IsJournal e (enqueue e kind payload cfg w).1
  unfolding enqueue insert_job insert_row new_job ◌>>=◌ time_now new_text statement row_of
  enqueue_drawn id drawn =
      elim (Option-cases (conflicting (key_of cfg.idempotency_key) w.db.jobs)) [
        | inr (held, taken) ↦ enqueue_held id held drawn taken
        | inl q ↦ elim (Option-cases (find? (has_id id) w.db.jobs)) [
          | inl s ↦ enqueue_new id drawn q s
          | inr (r, s) ↦
              rw (drawn, q, s, regular.quiet (suc (suc w.ticks)))
                (unchanged-Journal e regular w kept _ (omega arith))
        ]
      ]

  pub enqueue-Journal : IsJournal e (enqueue e kind payload cfg w).1
  unfolding enqueue ◌>>=◌ new_text
  enqueue-Journal = elim (Option-cases (e.random w.ticks)) [
    | inl q ↦ rw q (unchanged-Journal e regular w kept _ (omega arith))
    | inr (id, q) ↦ enqueue_drawn id q
  ]
