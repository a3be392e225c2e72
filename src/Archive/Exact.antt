-- ===== src/Archive/Exact.antt =====
-- Which archives the verifier of internal/archive/archive.go accepts: `validateRecord` and `Verify`
-- against a description that does not mention them.
use local_first_job_queue.Prelude.{
  suc, ◌≡◌, refl, sym, subst, ℕ, ◌↔◌, true, List, [], ◌∷◌, ◌++◌, Text, ℤ, arith,
}
use local_first_job_queue.Prelude.Predicates.{All}
use local_first_job_queue.Archive.{Seen, validate_record}
use local_first_job_queue.Archive.{
  Line, blank, malformed, decoded, verify, valid, verify_from, add_record, add_malformed,
  empty_report, VerificationReport,
}
use local_first_job_queue.Archive.Report.{issues-eq_nil, issues_at-eq_nil}
use local_first_job_queue.Archive.Fitting.{AllNew, onto, ids_of, IsAccepted}
use local_first_job_queue.Archive.Acceptance.{validate_record-passed, validate_record_complete}

abbrev pub IsAcceptedLine : Line → Type 0
IsAcceptedLine blank = Unit
IsAcceptedLine malformed = ⊥
IsAcceptedLine (decoded r) = IsAccepted r

abbrev pub job_ids : List Line → List Text
job_ids [] = []
job_ids (decoded r ∷ ls) = r.job.id ∷ job_ids ls
job_ids (_ ∷ ls) = job_ids ls

abbrev pub event_ids : List Line → List ℤ
event_ids [] = []
event_ids (decoded r ∷ ls) = ids_of r.events ++ event_ids ls
event_ids (_ ∷ ls) = event_ids ls

pub AllNew-append {ℓ} :
    {A : Type ℓ} (old xs ys : List A)
    → AllNew old (xs ++ ys) ↔ (AllNew old xs × AllNew (onto xs old) ys)
AllNew-append old [] ys = ((λ h. (tt, h)), λ h. h.1)
AllNew-append old (x ∷ xs) ys =
    let ih = AllNew-append (x ∷ old) xs ys in
    ((λ h. ((h.0, (ih.0 h.1).0), (ih.0 h.1).1)), λ h. (h.0.0, ih.1 (h.0.1, h.1)))

-- An archive of consistent records, all of whose jobs and events are distinct.
abbrev pub AreAccepted : List Line → List Text → List ℤ → Type 0
AreAccepted ls jobs events =
    All IsAcceptedLine ls × AllNew jobs (job_ids ls) × AllNew events (event_ids ls)

verify_from-passed :
    (n : ℕ) (ls : List Line) (seen : Seen) (rep : VerificationReport)
    → (verify_from n ls seen rep).issues ≡ []
    → (rep.issues ≡ []) × AreAccepted ls seen.jobs seen.events
unfolding verify_from
verify_from-passed n [] seen rep h = (h, (tt, tt, tt))
verify_from-passed n (blank ∷ ls) seen rep h =
    let (none_yet, (all, jobs, events)) = verify_from-passed (suc n) ls seen rep h in
    (none_yet, ((tt, all), jobs, events))
verify_from-passed n (malformed ∷ ls) seen rep h =
    let (some_yet, rest) = verify_from-passed (suc n) ls seen (add_malformed n rep) h in
    absurd (ground (arith, (issues-eq_nil rep.issues _ some_yet).1))
verify_from-passed n (decoded r ∷ ls) seen rep h =
    let f = validate_record r seen in
    let (some_yet, (all, jobs, events)) =
      verify_from-passed (suc n) ls f.seen (add_record n r f rep) h in
    let (before, here) = issues-eq_nil rep.issues _ some_yet in
    let ok = validate_record-passed r seen (issues_at-eq_nil n r.job.id f.errors here) in
    let jobs' : AllNew (r.job.id ∷ seen.jobs) (job_ids ls) =
      subst (λ k. AllNew k.jobs (job_ids ls)) ok.left jobs in
    let events' : AllNew (onto (ids_of r.events) seen.events) (event_ids ls) =
      subst (λ k. AllNew k.events (event_ids ls)) ok.left events in
    (
      before,
      (
        (ok.accepted, all),
        (ok.new.0, jobs'),
        (AllNew-append seen.events (ids_of r.events) (event_ids ls)).1 (ok.new.1, events'),
      ),
    )

verify_from_complete :
    (n : ℕ) (ls : List Line) (seen : Seen) (rep : VerificationReport)
    → rep.issues ≡ []
    → AreAccepted ls seen.jobs seen.events
    → (verify_from n ls seen rep).issues ≡ []
unfolding verify_from
verify_from_complete n [] seen rep e h = e
verify_from_complete n (blank ∷ ls) seen rep e (a, jobs, events) =
    verify_from_complete (suc n) ls seen rep e (a.1, jobs, events)
verify_from_complete n (malformed ∷ ls) seen rep e (a, jobs, events) = absurd a.0
verify_from_complete n (decoded r ∷ ls) seen rep e (a, jobs, events) =
    let f = validate_record r seen in
    let (mine, events') = (AllNew-append seen.events (ids_of r.events) (event_ids ls)).0 events in
    let none_here = validate_record_complete r seen a.0 (jobs.0, mine) in
    let ok = validate_record-passed r seen none_here in
    let issues : (add_record n r f rep).issues ≡ [] = rw (e, none_here) refl in
    verify_from_complete (suc n) ls f.seen (add_record n r f rep) issues (
      a.1,
      subst (λ k. AllNew k.jobs (job_ids ls)) (sym ok.left) jobs.1,
      subst (λ k. AllNew k.events (event_ids ls)) (sym ok.left) events',
    )

-- The verifier calls an archive valid exactly when every line that is not blank decodes to a
-- record that is consistent by itself (its fields, its history and the order of its times), and
-- no two lines share a job and no two events an id.
pub verify_exact : (ls : List Line) → (valid (verify ls) ≡ true) ↔ AreAccepted ls [] []
unfolding verify valid
verify_exact ls =
    let seen : Seen = record { jobs = []; events = [] } in
    (
      (λ h. (verify_from-passed 1 ls seen empty_report (ground arith)).1),
      λ h. ground (arith, verify_from_complete 1 ls seen empty_report refl h),
    )
