-- ===== src/Archive/Acceptance.antt =====
-- Which records `validateRecord` of internal/archive/archive.go accepts, after the lines above them.
use local_first_job_queue.Prelude.{
  ◌≡◌, ◌≢◌, refl, subst, ◌≤◌, ◌⊎◌, inl, inr, true, false, not, List, [], ◌∷◌, Text, ℤ, pos, ltb,
  ◌<ℤ◌, arith, if◌then◌else◌, ◌&&◌, ◌||◌, ltb_ℤ, Bool-cases,
}
use local_first_job_queue.Models.{Job, Event}
use local_first_job_queue.Archive.Transition.{first_event_state}
use local_first_job_queue.Archive.{
  Record, duplicate_job, missing_job_id, Seen, Loop, when, seen_text, eq_ℤ, job_codes, after_event,
  note_job, later_events, start_loop, events_findings, validate_record, schema_version_1, is_empty,
  is_zero,
}
use local_first_job_queue.Archive.Soundness.{
  append-eq_nil, when-eq_nil, IsHistory, validate_record_sound,
}
use local_first_job_queue.Archive.Fitting.{
  Timed, Lacks, AllNew, onto, ids_of, IsAccepted, Fits, event-Fits, Fits-event, after_event-fitted,
  fitted, later-Passed, later_complete, seen_text_iff,
}

-- What the ids of a record are against those of the lines above it.
abbrev pub NewHere : Record → Seen → Type 0
NewHere r seen = Lacks r.job.id seen.jobs × AllNew seen.events (ids_of r.events)

abbrev pub seen_after : Record → Seen → Seen
seen_after r seen = record {
  jobs = r.job.id ∷ seen.jobs;
  events = onto (ids_of r.events) seen.events;
}

start-Fits :
    (job_id : Text) (seen : List ℤ) (v : Event)
    → v.job_id ≡ job_id
    → pos 0 <ℤ v.id
    → Lacks v.id seen
    → v.timestamp ≢ 0
    → Fits job_id (start_loop seen) v
start-Fits job_id seen v a b c d = (a, b, c, d, (λ p. absurd (omega arith)), omega arith)

record EventsPassed (vs : List Event) (r : Record) (seen : Seen) : Type 0 where
  timed : Timed 0 vs
  new : AllNew seen.events (ids_of vs)
  left :
      (events_findings vs r seen).seen
      ≡ record { jobs = seen.jobs; events = onto (ids_of vs) seen.events }

events_passed :
    (vs : List Event) (r : Record) (seen : Seen)
    → (events_findings vs r seen).errors ≡ []
    → EventsPassed vs r seen
unfolding events_findings
events_passed [] r seen h = cc
events_passed (v ∷ vs) r seen h =
    let l = start_loop seen.events in
    let s = (first_event_state v.event_type).0 in
    let (abc, d) = append-eq_nil _ _ h in
    let (ab, c) = append-eq_nil _ _ abc in
    let (a, b) = append-eq_nil _ _ ab in
    let fits = event-Fits r.job.id l v a in
    let e = after_event-fitted r.job.id l s v fits in
    let rest = later-Passed r.job.id (after_event l s v) vs c in
    let timed : Timed v.timestamp vs = subst (λ k. Timed k.previous_timestamp vs) e rest.timed in
    let new : AllNew (v.id ∷ seen.events) (ids_of vs) =
      subst (λ k. AllNew k.seen_events (ids_of vs)) e rest.new in
    let left : (later_events r.job.id (after_event l s v) vs).1.seen_events
        ≡ onto (ids_of vs) (v.id ∷ seen.events) =
      subst
        (λ (k : Loop).
          (later_events r.job.id (after_event l s v) vs).1.seen_events
          ≡ onto (ids_of vs) k.seen_events)
        e rest.left in
    record { timed = (fits.3, omega arith, timed); new = (fits.2, new); left = rw left refl }

events_complete :
    (vs : List Event) (r : Record) (seen : Seen)
    → IsHistory r.job.id r.job.state vs
    → Timed 0 vs
    → AllNew seen.events (ids_of vs)
    → (events_findings vs r seen).errors ≡ []
unfolding events_findings
events_complete [] r seen h t n = absurd h
events_complete (v ∷ vs) r seen (mine, positive, starts, (final, same, c)) (nonzero, _, t)
      (lacks, n) =
    let l = start_loop seen.events in
    let s = (first_event_state v.event_type).0 in
    let fits = start-Fits r.job.id seen.events v mine positive lacks nonzero in
    let e = after_event-fitted r.job.id l s v fits in
    let (codes, ends) = later_complete r.job.id (fitted l s v) final vs positive c t n in
    rw (e, Fits-event r.job.id l v fits, codes, ends, starts, same) (ground arith)

ordered_of :
    (j : Job)
    → (not (is_zero j.created_at) && not (is_zero j.updated_at) && ltb j.updated_at j.created_at)
      ≡ false
    → (j.created_at ≡ 0) ⊎ (j.updated_at ≡ 0) ⊎ (j.created_at ≤ j.updated_at)
ordered_of j h = elim (Bool-cases (is_zero j.created_at)) [
  | inl e ↦ inl (ground arith)
  | inr e ↦ elim (Bool-cases (is_zero j.updated_at)) [
    | inl f ↦ inr (inl (ground arith))
    | inr f ↦ inr (inr (ground arith))
  ]
]

of_ordered :
    (j : Job)
    → (j.created_at ≡ 0) ⊎ (j.updated_at ≡ 0) ⊎ (j.created_at ≤ j.updated_at)
    → (not (is_zero j.created_at) && not (is_zero j.updated_at) && ltb j.updated_at j.created_at)
      ≡ false
of_ordered j (inl e) = ground arith
of_ordered j (inr (inl e)) = ground arith
of_ordered j (inr (inr e)) = ground arith

id_part :
    (id : Text) (seen : List Text)
    → (if is_empty id then missing_job_id ∷ [] else when (seen_text id seen) duplicate_job) ≡ []
    → Lacks id seen × (note_job id seen ≡ id ∷ seen)
id_part [] seen h = cc
id_part (c ∷ id) seen h =
    let new = when-eq_nil _ duplicate_job h in ((seen_text_iff (c ∷ id) seen).0 new, rw new refl)

of_new_id :
    (id : Text) (seen : List Text)
    → id ≢ []
    → Lacks id seen
    → (if is_empty id then missing_job_id ∷ [] else when (seen_text id seen) duplicate_job) ≡ []
of_new_id [] seen h n = absurd (h refl)
of_new_id (c ∷ id) seen h n = rw ((seen_text_iff (c ∷ id) seen).1 n) refl

pub record RecordPassed (r : Record) (seen : Seen) : Type 0 where
  pub accepted : IsAccepted r
  pub new : NewHere r seen
  pub left : (validate_record r seen).seen ≡ seen_after r seen

-- A record that the verifier finds no error in, after lines with the jobs and events `seen`.
pub validate_record-passed :
    (r : Record) (seen : Seen) → (validate_record r seen).errors ≡ [] → RecordPassed r seen
unfolding validate_record job_codes
validate_record-passed r seen h =
    let (codes, events) = append-eq_nil _ _ h in
    let (abcde, f) = append-eq_nil _ _ codes in
    let (abcd, e) = append-eq_nil _ _ abcde in
    let (abc, d) = append-eq_nil _ _ abcd in
    let (ab, c) = append-eq_nil _ _ abc in
    let (a, b) = append-eq_nil _ _ ab in
    let (new, noted) = id_part r.job.id seen.jobs b in
    let later =
      events_passed r.events r (record seen { jobs = note_job r.job.id seen.jobs }) events in
    record {
      accepted = record {
        consistent = validate_record_sound r seen h;
        ordered = ordered_of r.job (when-eq_nil _ _ f);
        timed = later.timed;
      };
      new = (new, later.new);
      left = rw (later.left, noted) refl;
    }

pub validate_record_complete :
    (r : Record) (seen : Seen)
    → IsAccepted r
    → NewHere r seen
    → (validate_record r seen).errors ≡ []
unfolding validate_record job_codes
validate_record_complete r seen a (new, events) =
    let k = a.consistent in
    let version : eq_ℤ r.schema_version schema_version_1 ≡ true = rw k.version refl in
    let budget : ltb_ℤ r.job.max_attempts (pos 1) ≡ false = ground (arith, k.budget) in
    let retries : (ltb_ℤ r.job.retry_count (pos 0) || ltb_ℤ r.job.max_attempts r.job.retry_count)
        ≡ false =
      ground (arith, k.retries) in
    rw
      (
        version,
        of_new_id r.job.id seen.jobs k.has_id new,
        budget,
        retries,
        k.known_state,
        of_ordered r.job a.ordered,
        events_complete r.events r (record seen { jobs = note_job r.job.id seen.jobs }) k.history
            a.timed events,
      )
      refl
