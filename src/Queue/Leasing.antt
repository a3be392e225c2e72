-- ===== src/Queue/Leasing.antt =====
-- What `Lease` does where no statement fails.
use local_first_job_queue.Prelude.{
  suc, ◌≡◌, ◌∙◌, refl, ap, true, none, some, List, [], ◌∷◌, Text, eq_text_refl, keep, find?,
  Option-cases, inl, inr, ◌⊎◌,
}
use local_first_job_queue.Prelude.Predicates.{All-find?, All-keep}
use local_first_job_queue.Clock.{Stamp, Duration, add, format}
use local_first_job_queue.Models.{leased_event}
use local_first_job_queue.Store.{
  Row, Db, World, Env, ok, time_now, new_text, statement, lift, pure, ◌>>=◌,
}
use local_first_job_queue.Store.Rows.{
  update_where, update_returning, set_jobs, has_id, scan_optional,
}
use local_first_job_queue.Store.Claim.{
  claim, lease_job, lease_row, best, is_ready, is_chosen, pending_order,
}
use local_first_job_queue.Store.ClaimOrder.{best-none}
use local_first_job_queue.Store.Insert.{insert_event, append_event}
use local_first_job_queue.Store.Lookup.{
  find_id, find_id-update_where, find_id-each, keep-test, best-All,
}
use local_first_job_queue.Store.Readable.{
  IsReadable, scanned, scan_optional-IsReadable, lease_row-IsReadable,
}
use local_first_job_queue.Statements.Shape.{WellFormed}
use local_first_job_queue.Statements.Exclusive.{IsHeld}
use local_first_job_queue.Statements.Reading.{Reads}
use local_first_job_queue.Queue.{lease, record_lease}
use local_first_job_queue.Queue.Idempotency.{IsQuiet}

nobody : (rows : List Row) → find? (is_chosen none) rows ≡ none
unfolding find?
nobody [] = refl
nobody (r ∷ rs) = nobody rs

unchanged : (f : Row → Row) (rows : List Row) → update_where (is_chosen none) f rows ≡ rows
unfolding update_where
unchanged f [] = refl
unchanged f (r ∷ rs) = ap (λ xs. r ∷ xs) (unchanged f rs)

module _ (e : Env) (kind : Text) (duration : Duration) (token : Text) (w : World) where
  abbrev pub moment : Stamp
  moment = format (e.now w.ticks)

  -- The row of a job as the claim leaves it.
  abbrev pub leased_row : Row → Row
  leased_row = lease_row moment (format (add (e.now w.ticks) duration)) token

  -- The tables after the claim of a row and the event of it.
  abbrev pub leased_db : Row → Db
  leased_db r =
      (insert_event r.id leased_event none (e.now (suc (suc (suc w.ticks))))
        (set_jobs w.db (update_where (has_id r.id) leased_row w.db.jobs))).1

  -- A ready row, and that the lease took it.
  pub record Leases : Type 0 where
    pub row : Row
    pub ready : is_ready kind moment row ≡ true
    pub found : find_id row.id w.db.jobs ≡ some row
    pub readable : IsReadable (leased_row row)
    pub found_after : find_id row.id (leased_db row).jobs ≡ some (leased_row row)
    pub runs : lease e kind duration w ≡ (
      ok (some (scanned (leased_row row) readable)),
      record { db = leased_db row; ticks = suc (suc (suc (suc (suc w.ticks)))) },
    )

  abbrev pub held_after : (l : Leases) → IsHeld l.row.id token (leased_db l.row)
  held_after l = record {
    row = leased_row l.row;
    found = l.found_after;
    is_lease = refl;
    owner = refl;
  }

  -- Nothing is ready, and nothing happens.
  pub record FindsNothing : Type 0 where
    pub none_ready : keep (is_ready kind moment) w.db.jobs ≡ []
    pub runs : lease e kind duration w ≡ (ok none, record w { ticks = suc (suc (suc w.ticks)) })

  module _ (quiet : IsQuiet e) (well : WellFormed w.db) (reads : Reads w.db)
      (given : e.random (suc w.ticks) ≡ some token) where
    chosen_row :
        (r : Row)
        → best (pending_order e moment) (keep (is_ready kind moment) w.db.jobs) ≡ some r
        → Leases
    unfolding lease lease_job record_lease claim ◌>>=◌ time_now new_text statement lift pure
        update_returning insert_event append_event scanned
    chosen_row r q =
        let found =
          best-All (λ x. find_id x.id w.db.jobs ≡ some x) (pending_order e moment) _ r
            (All-keep _ (is_ready kind moment) w.db.jobs (find_id-each w.db.jobs well.ids)) q in
        let ready =
          best-All (λ x. is_ready kind moment x ≡ true) (pending_order e moment) _ r
            (keep-test (is_ready kind moment) w.db.jobs) q in
        let readable =
          lease_row-IsReadable (e.now w.ticks) r
            (All-find? IsReadable _ w.db.jobs r reads.jobs found) (add (e.now w.ticks) duration)
            token in
        record {
          row = r;
          ready = ready;
          found = found;
          readable = readable;
          found_after =
              find_id-update_where r.id (has_id r.id) leased_row w.db.jobs (λ x. refl)
              ∙ rw (found, eq_text_refl r.id) refl;
          runs =
              rw
                (
                  given,
                  q,
                  found,
                  quiet (suc (suc w.ticks)),
                  scan_optional-IsReadable (leased_row r) readable,
                  quiet (suc (suc (suc (suc w.ticks)))),
                )
                refl;
        }

    nothing :
        best (pending_order e moment) (keep (is_ready kind moment) w.db.jobs) ≡ none → FindsNothing
    unfolding lease lease_job record_lease claim ◌>>=◌ time_now new_text statement lift pure
        update_returning scan_optional
    nothing q = record {
      none_ready = best-none (pending_order e moment) _ q;
      runs =
          rw (given, q, nobody w.db.jobs, quiet (suc (suc w.ticks)), unchanged leased_row w.db.jobs)
            refl;
    }

    -- Nothing is ready, or a row is leased.
    pub lease_lem : FindsNothing ⊎ Leases
    lease_lem =
        elim (Option-cases
          (best (pending_order e moment) (keep (is_ready kind moment) w.db.jobs))) [
            | inl q ↦ inl (nothing q)
            | inr (r, q) ↦ inr (chosen_row r q)
          ]
