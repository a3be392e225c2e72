-- ===== src/Statements/Refine.antt =====
-- Every operation of the queue acts on the tables by statements of the type `Statement` alone.
use local_first_job_queue.Prelude.{
  refl, ap, ◌∙◌, Bool, true, false, Option, none, some, List, [], ◌∷◌, ◌++◌, Text, zero, suc, ℕ, ℤ,
  pos, leb_ℤ,
}
use local_first_job_queue.Clock.{Time, Duration, format, sub}
use local_first_job_queue.Models.{
  Job, EventType, Metadata, PrunePolicy, PruneResult, RetentionSource,
}
use local_first_job_queue.Store.{Row, Db, Env, Exec, statement}
use local_first_job_queue.Store.Keeps.{
  Keeps, Keeps-bind, Keeps-statement, Keeps-lift, Keeps-pure, Keeps-if, keeps_rules,
}
use local_first_job_queue.Store.Rows.{get_job, update, update_returning}
use local_first_job_queue.Store.Claim.{
  claim, lease_job, lease_job_by_id, lease_row, is_pending_id, refuse_lease, returned_or,
}
use local_first_job_queue.Store.Insert.{insert_job, append_event, insert_event}
use local_first_job_queue.Store.Changes.{
  requeued_rows, holds_lease, holds_token, complete_row, fail_row, renew_row, requeue_row,
  is_dead_lettered_id,
}
use local_first_job_queue.Store.Recover.{recover_row, recover_each}
use local_first_job_queue.Store.Prune.{
  insert_run, prune_age, prune_excess, prune_body, prune_with_source,
}
use local_first_job_queue.Store.Transactions.{Keeps-transaction}
use local_first_job_queue.Queue.{
  EnqueueConfig, new_job, finish_enqueue, record_lease, fail_known, requeue_known, enqueue, lease,
  acknowledge, fail, renew, recover, requeue, RequeueConfig, record_recoveries,
}
use local_first_job_queue.Statements.{
  Statement, appends, claims, claims_id, completes, fails, renews, requeues, recovers,
  deletes_old_events, deletes_old_jobs, trims, records_run, inserts, run, run_all, run_all-append,
  Follows,
}

module _ (d : Db) where
  pub Follows-refl : Follows d d
  unfolding run_all
  Follows-refl = record { statements = []; result = refl }

  Follows-run : (s : Statement) (v : Db) → Follows d v → Follows d (run s v)
  unfolding run_all
  Follows-run s v f = record {
    statements = f.statements ++ s ∷ [];
    result = run_all-append f.statements (s ∷ []) d ∙ ap (run s) f.result;
  }

  append_event-Follows :
      (e : Env) (id : Text) (t : EventType) (m : Option Metadata) (at : Time)
      → Keeps (Follows d) (append_event e id t m at)
  unfolding append_event run
  append_event-Follows e id t m at =
      Keeps-statement e (insert_event id t m at) (λ v. Follows-run (appends id t m at) v)

  get_job-Follows : (e : Env) (id : Text) → Keeps (Follows d) (get_job e id)
  unfolding get_job
  get_job-Follows e id = search (keeps_rules)

  complete-Follows :
      (e : Env) (id token : Text) (now : Time)
      → Keeps (Follows d) (statement e (update (holds_lease id token) (complete_row (format now))))
  unfolding run
  complete-Follows e id token now =
      Keeps-statement e _ (λ v. Follows-run (completes id token now) v)

  fail-Follows :
      (e : Env) (id token : Text) (retry : Bool) (now : Time)
      → Keeps
          (Follows d)
          (statement e (update (holds_lease id token) (fail_row retry (format now))))
  unfolding run
  fail-Follows e id token retry now =
      Keeps-statement e _ (λ v. Follows-run (fails id token retry now) v)

  renew-Follows :
      (e : Env) (id token : Text) (now until : Time)
      → Keeps (Follows d) (
          statement e
            (update_returning (holds_token id token) (renew_row (format now) (format until))))
  unfolding run
  renew-Follows e id token now until =
      Keeps-statement e _ (λ v. Follows-run (renews id token now until) v)

  requeue-Follows :
      (e : Env) (id : Text) (n : ℤ) (payload : Option Text) (now : Time)
      → Keeps
          (Follows d)
          (statement e (update (is_dead_lettered_id id) (requeue_row n payload (format now))))
  unfolding run
  requeue-Follows e id n payload now =
      Keeps-statement e _ (λ v. Follows-run (requeues id n payload now) v)

  recover-Follows :
      (e : Env) (now : Time) (j : Job)
      → Keeps (Follows d) (statement e (recover_row (format now) j))
  unfolding run
  recover-Follows e now j = Keeps-statement e _ (λ v. Follows-run (recovers now j) v)

  claim-Follows :
      (e : Env) (kind : Text) (now until : Time) (token : Text)
      → Keeps (Follows d) (statement e (claim e kind (format now) (format until) token))
  unfolding run
  claim-Follows e kind now until token =
      Keeps-statement e _ (λ v. Follows-run (claims e kind now until token) v)

  claim_id-Follows :
      (e : Env) (id : Text) (now until : Time) (token : Text)
      → Keeps (Follows d) (
          statement e
            (update_returning (is_pending_id id) (lease_row (format now) (format until) token)))
  unfolding run
  claim_id-Follows e id now until token =
      Keeps-statement e _ (λ v. Follows-run (claims_id id now until token) v)

  insert-Follows :
      (e : Env) (id kind payload : Text) (cfg : EnqueueConfig) (now : Time)
      → Keeps (Follows d) (insert_job e (new_job id kind payload cfg now))
  unfolding run insert_job
  insert-Follows e id kind payload cfg now =
      Keeps-statement e _ (λ v. Follows-run (inserts id kind payload cfg now) v)

  lease_job-Follows :
      (e : Env) (kind : Text) (t : Duration) → Keeps (Follows d) (lease_job e kind t)
  unfolding lease_job
  lease_job-Follows e kind t = search (keeps_rules, claim-Follows)

  refuse_lease-Follows : (e : Env) (id : Text) → Keeps (Follows d) (refuse_lease e id)
  unfolding refuse_lease
  refuse_lease-Follows e id = record { at = λ w h. (get_job-Follows e id).at w h }

  returned_or-Follows :
      (row : Option Row) (m : Exec Job)
      → Keeps (Follows d) m
      → Keeps (Follows d) (returned_or row m)
  unfolding returned_or
  returned_or-Follows none m k = k
  returned_or-Follows (some r) m k = Keeps-lift _

  -- `LeaseJobByID` changes the tables by statements only.
  pub lease_job_by_id-Follows :
      (e : Env) (id : Text) (t : Duration) → Keeps (Follows d) (lease_job_by_id e id t)
  unfolding lease_job_by_id
  lease_job_by_id-Follows e id t =
      search (keeps_rules, claim_id-Follows, returned_or-Follows, refuse_lease-Follows)

  record_lease-Follows : (e : Env) (j : Option Job) → Keeps (Follows d) (record_lease e j)
  unfolding record_lease
  record_lease-Follows e none = search keeps_rules
  record_lease-Follows e (some j) = search (keeps_rules, append_event-Follows)

  pub lease-Follows : (e : Env) (kind : Text) (t : Duration) → Keeps (Follows d) (lease e kind t)
  unfolding lease
  lease-Follows e kind t = search (keeps_rules, lease_job-Follows, record_lease-Follows)

  pub acknowledge-Follows : (e : Env) (id token : Text) → Keeps (Follows d) (acknowledge e id token)
  unfolding acknowledge
  acknowledge-Follows e id token = search (keeps_rules, complete-Follows, append_event-Follows)

  fail_known-Follows :
      (e : Env) (id token message : Text) (j : Job)
      → Keeps (Follows d) (fail_known e id token message j)
  unfolding fail_known
  fail_known-Follows e id token message j = search (keeps_rules, fail-Follows, append_event-Follows)

  pub fail_op-Follows :
      (e : Env) (id token message : Text) → Keeps (Follows d) (fail e id token message)
  unfolding fail
  fail_op-Follows e id token message = search (keeps_rules, get_job-Follows, fail_known-Follows)

  pub renew_op-Follows :
      (e : Env) (id token : Text) (t : Duration) → Keeps (Follows d) (renew e id token t)
  unfolding renew
  renew_op-Follows e id token t = search (keeps_rules, renew-Follows, append_event-Follows)

  recover_each-Follows :
      (e : Env) (now : Time) (js : List Job) → Keeps (Follows d) (recover_each e (format now) js)
  unfolding recover_each
  recover_each-Follows e now [] = search keeps_rules
  recover_each-Follows e now (j ∷ js) =
      Keeps-bind _ _ (recover-Follows e now j)
        λ n. Keeps-bind _ _ (recover_each-Follows e now js) λ rest. Keeps-pure _

  record_recoveries-Follows :
      (e : Env) (now : Time) (js : List Job) → Keeps (Follows d) (record_recoveries e now js)
  unfolding record_recoveries
  record_recoveries-Follows e now [] = search keeps_rules
  record_recoveries-Follows e now (j ∷ js) =
      Keeps-bind _ _ (append_event-Follows e _ _ _ now) λ _. record_recoveries-Follows e now js

  pub recover_op-Follows : (e : Env) → Keeps (Follows d) (recover e)
  unfolding recover
  recover_op-Follows e = search (keeps_rules, recover_each-Follows, record_recoveries-Follows)

  requeued_rows-Follows : (e : Env) (id : Text) (n : ℕ) → Keeps (Follows d) (requeued_rows e id n)
  unfolding requeued_rows
  requeued_rows-Follows e id zero = search keeps_rules
  requeued_rows-Follows e id (suc n) = get_job-Follows e id

  requeue_known-Follows :
      (e : Env) (id : Text) (cfg : RequeueConfig) (j : Job)
      → Keeps (Follows d) (requeue_known e id cfg j)
  unfolding requeue_known
  requeue_known-Follows e id cfg j =
      search (keeps_rules, requeue-Follows, requeued_rows-Follows, append_event-Follows)

  pub requeue_op-Follows :
      (e : Env) (id : Text) (cfg : RequeueConfig) → Keeps (Follows d) (requeue e id cfg)
  unfolding requeue
  requeue_op-Follows e id cfg = search (keeps_rules, get_job-Follows, requeue_known-Follows)

  finish_enqueue-Follows :
      (e : Env) (cfg : EnqueueConfig) (j : Job) (now : Time) (b : Bool)
      → Keeps (Follows d) (finish_enqueue e cfg j now b)
  unfolding finish_enqueue
  finish_enqueue-Follows e cfg j now true = search (keeps_rules, append_event-Follows)
  finish_enqueue-Follows e cfg j now false = search keeps_rules

  pub enqueue_op-Follows :
      (e : Env) (kind payload : Text) (cfg : EnqueueConfig)
      → Keeps (Follows d) (enqueue e kind payload cfg)
  unfolding enqueue
  enqueue_op-Follows e kind payload cfg =
      search (keeps_rules, insert-Follows, finish_enqueue-Follows)

  prune_age-Follows :
      (e : Env) (started : Time) (p : PrunePolicy) → Keeps (Follows d) (prune_age e started p)
  unfolding prune_age run
  prune_age-Follows e started p = Keeps-if (leb_ℤ p.max_job_age (pos 0)) _ _ (Keeps-pure _) (
      Keeps-bind _ _
        (Keeps-statement e _ (λ v. Follows-run (deletes_old_events (sub started p.max_job_age)) v))
        λ n.
          Keeps-bind _ _
            (Keeps-statement e _
              (λ v. Follows-run (deletes_old_jobs (sub started p.max_job_age)) v))
            λ m. Keeps-pure _)

  prune_excess-Follows :
      (e : Env) (p : PrunePolicy) (res : PruneResult) → Keeps (Follows d) (prune_excess e p res)
  unfolding prune_excess run
  prune_excess-Follows e p res = Keeps-if (leb_ℤ p.max_events_per_job (pos 0)) _ _ (Keeps-pure _) (
      Keeps-bind _ _ (Keeps-statement e _ (λ v. Follows-run (trims p.max_events_per_job) v))
        λ n. Keeps-pure _)

  insert_run-Follows :
      (e : Env) (started : Time) (source : RetentionSource) (p : PrunePolicy) (res : PruneResult)
      → Keeps (Follows d) (statement e (insert_run started source p res))
  unfolding run
  insert_run-Follows e started source p res =
      Keeps-statement e _ (λ v. Follows-run (records_run started source p res) v)

  prune_body-Follows :
      (e : Env) (started : Time) (p : PrunePolicy) (source : RetentionSource)
      → Keeps (Follows d) (prune_body e started p source)
  unfolding prune_body
  prune_body-Follows e started p source =
      search (keeps_rules, prune_age-Follows, prune_excess-Follows, insert_run-Follows)

  pub prune_with_source-Follows :
      (e : Env) (p : PrunePolicy) (source : RetentionSource)
      → Keeps (Follows d) (prune_with_source e p source)
  unfolding prune_with_source
  prune_with_source-Follows e p source = search (keeps_rules, Keeps-transaction, prune_body-Follows)
