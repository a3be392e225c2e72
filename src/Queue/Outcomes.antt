-- ===== src/Queue/Outcomes.antt =====
-- What an acknowledgement does to the job that the worker holds.
use local_first_job_queue.Prelude.{
  ℕ, suc, ◌≡◌, ◌∙◌, refl, ap, inl, inr, Bool, true, false, Option, none, some, List, [], ◌∷◌, Text,
  eq_text, eq_text_iff, eq_text_refl, count, find?, Bool-cases, some-eq, arith,
}
use local_first_job_queue.Prelude.Predicates.{find?-test}
use local_first_job_queue.Clock.{Time, format}
use local_first_job_queue.Models.{EventType, Metadata, acknowledged}
use local_first_job_queue.Store.{Row, Db, World, Env, ok, time_now, statement, ◌>>=◌}
use local_first_job_queue.Store.Rows.{set_jobs, update_where, has_id}
use local_first_job_queue.Store.Changes.{holds_lease, complete_row}
use local_first_job_queue.Store.Insert.{insert_event}
use local_first_job_queue.Store.Lookup.{find_id, find_id-update_where}
use local_first_job_queue.Statements.Exclusive.{IsHeld}
use local_first_job_queue.Queue.{acknowledge}
use local_first_job_queue.Queue.Idempotency.{IsQuiet}

pub count-pos :
    (p q : Row → Bool) (rows : List Row) (r : Row)
    → find? q rows ≡ some r
    → p r ≡ true
    → (n : ℕ) × (count p rows ≡ suc n)
unfolding find? count
count-pos p q [] r f t = cc
count-pos p q (x ∷ xs) r f t = elim (Bool-cases (p x)) [
  | inl a ↦ (count p xs, ground (arith, a))
  | inr a ↦ elim (Bool-cases (q x)) [
    | inl b ↦ absurd (clash a (some-eq (rw b at f)))
    | inr b ↦ let (n, s) = count-pos p q xs r (rw b at f) t in (n, ground (arith, a, s))
  ]
]
  where
    clash : p x ≡ false → x ≡ r → ⊥
    clash a same = cc (a, ap p same, t)

-- An update of rows with one id, none of which is another's.
pub untouched :
    (id other token : Text) (f : Row → Row) (rows : List Row)
    → ((r : Row) → (f r).id ≡ r.id)
    → eq_text other id ≡ false
    → find_id other (update_where (holds_lease id token) f rows) ≡ find_id other rows
unfolding find? update_where
untouched id other token f [] ids n = refl
untouched id other token f (r ∷ rs) ids n = ground (
  arith,
  ids r,
  untouched id other token f rs ids n,
  eq_text_iff r.id other,
  eq_text_iff r.id id,
  eq_text_iff other id,
)

module _ (id : Text) (c : ℕ) (cs : Text) (d : Db) (h : IsHeld id (c ∷ cs) d) where
  pub holds : holds_lease id (c ∷ cs) h.row ≡ true
  holds = ground (
    arith,
    find?-test (has_id id) d.jobs h.row h.found,
    h.is_lease,
    h.owner,
    eq_text_refl (c ∷ cs),
  )

  pub updated :
      (f : Row → Row)
      → ((r : Row) → (f r).id ≡ r.id)
      → find_id id (update_where (holds_lease id (c ∷ cs)) f d.jobs) ≡ some (f h.row)
  updated f ids =
      find_id-update_where id (holds_lease id (c ∷ cs)) f d.jobs ids ∙ rw (h.found, holds) refl

-- The tables after an update of the held job by `f` and the event of it.
abbrev pub closed_db : Text → Text → (Row → Row) → EventType → Option Metadata → Time → Db → Db
closed_db id token f event_type metadata at d =
    (insert_event id event_type metadata at
      (set_jobs d (update_where (holds_lease id token) f d.jobs))).1

pub acknowledge_runs :
    (e : Env) (w : World) (id : Text) (c : ℕ) (cs : Text)
    → IsQuiet e
    → IsHeld id (c ∷ cs) w.db
    → acknowledge e id (c ∷ cs) w ≡ (
      ok tt,
      record {
        db =
            closed_db id
              (c ∷ cs)
              (complete_row (format (e.now w.ticks)))
              acknowledged
              none
              (e.now (suc (suc w.ticks)))
              w.db;
        ticks = suc (suc (suc (suc w.ticks)));
      },
    )
unfolding acknowledge ◌>>=◌ time_now statement insert_event
acknowledge_runs e w id c cs quiet h =
    let (k, some_row) =
      count-pos (holds_lease id (c ∷ cs)) (has_id id) w.db.jobs h.row h.found
        (holds id c cs w.db h) in
    rw (quiet (suc w.ticks), some_row, quiet (suc (suc (suc w.ticks)))) refl
