-- ===== src/Store/Rows.antt =====
-- How the statements of internal/queue/sqlite.go act on a table, and how a row becomes a `Job`.
use local_first_job_queue.Prelude.{
  ℕ, Bool, Option, none, some, List, [], ◌∷◌, Text, eq_text, find?, count, if◌then◌else◌,
}
use local_first_job_queue.Clock.{Time, Stamp, parse}
use local_first_job_queue.Models.{Job}
use local_first_job_queue.Store.{
  Row, Db, Env, Exec, Result, ok, err, bad_timestamp, no_rows, statement, lift, ◌>>=◌,
}

-- `UPDATE jobs SET .. WHERE ..`: the rows that pass the test are changed, in place.
unfoldable pub update_where : (Row → Bool) → (Row → Row) → List Row → List Row
update_where p f [] = []
update_where p f (r ∷ rs) = (if p r then f r else r) ∷ update_where p f rs

abbrev pub set_jobs : Db → List Row → Db
set_jobs d rows = record d { jobs = rows }

abbrev pub map_option : {A B : Type 0} → (A → B) → Option A → Option B
map_option f none = none
map_option f (some a) = some (f a)

-- An update by `Exec`, for the number of rows that it changed.
unfoldable pub update : (Row → Bool) → (Row → Row) → Db → Result ℕ × Db
update p f d = (ok (count p d.jobs), set_jobs d (update_where p f d.jobs))

-- An update with `RETURNING`, read by `QueryRow`: the first row that it changed.
unfoldable pub update_returning : (Row → Bool) → (Row → Row) → Db → Result (Option Row) × Db
update_returning p f d = (ok (map_option f (find? p d.jobs)), set_jobs d (update_where p f d.jobs))

abbrev pub has_id : Text → Row → Bool
has_id id r = eq_text r.id id

unfoldable pub parse_optional : Option Stamp → Option (Option Time)
parse_optional none = some none
parse_optional (some s) = map_option some (parse s)

abbrev pub text_or_empty : Option Text → Text
text_or_empty none = []
text_or_empty (some t) = t

job_of : Row → Option Time → Option Time → Option (Option Time) → Option (Option Time) → Result Job
job_of r (some created) (some updated) (some until) (some run_at) = ok (record {
  id = r.id;
  kind = r.kind;
  payload = r.payload;
  state = r.state;
  retry_count = r.retry_count;
  max_attempts = r.max_attempts;
  priority = r.priority;
  idempotency_key = r.idempotency_key;
  created_at = created;
  updated_at = updated;
  leased_until = until;
  lease_token = text_or_empty r.lease_token;
  run_at = run_at;
})
job_of r _ _ _ _ = err bad_timestamp

-- `scanJob`
unfoldable pub scan_job : Row → Result Job
unfolding job_of parse_optional
scan_job r =
    job_of r (parse r.created_at) (parse r.updated_at) (parse_optional r.leased_until)
      (parse_optional r.run_at)

-- `scanJob` of `QueryRow`'s answer, where no row is `sql.ErrNoRows`.
unfoldable pub scan_row : Option Row → Result Job
unfolding scan_job
scan_row none = err no_rows
scan_row (some r) = scan_job r

-- The same where the caller turns `sql.ErrNoRows` into a nil result.
unfoldable pub scan_optional : Option Row → Result (Option Job)
scan_optional none = ok none
scan_optional (some r) = elim (scan_job r) [ ok j ↦ ok (some j) | err x ↦ err x ]

-- The loop over `rows.Next()`, which stops at the first row that does not scan.
unfoldable pub scan_all : List Row → Result (List Job)
scan_all [] = ok []
scan_all (r ∷ rs) = elim (scan_job r) [
  | err x ↦ err x
  | ok j ↦ elim (scan_all rs) [ err x ↦ err x | ok js ↦ ok (j ∷ js) ]
]

-- A `SELECT .. FROM jobs WHERE ..` for its first row.
unfoldable pub select_one : (Row → Bool) → Db → Result (Option Row) × Db
select_one p d = (ok (find? p d.jobs), d)

-- `GetJob`
unfoldable pub get_job : Env → Text → Exec Job
unfolding select_one
get_job e id = do row ← statement e (select_one (has_id id)); lift (scan_row row)
