-- ===== src/Archive/Report.antt =====
-- The report on a whole archive: internal/archive/archive.go, `Verify`.
use local_first_job_queue.Prelude.{
  ℕ, suc, ◌+◌, ◌≤◌, ◌≡◌, refl, ◌↔◌, true, List, [], ◌∷◌, ◌++◌, Text, arith,
}
use local_first_job_queue.Prelude.Predicates.{All}
use local_first_job_queue.Archive.{
  Record, Code, Seen, Line, blank, malformed, decoded, Issue, VerificationReport, issues_at,
  add_record, add_malformed, count_valid, empty_report, validate_record, verify_from, verify, valid,
  Findings,
}
use local_first_job_queue.Archive.Soundness.{IsConsistent, validate_record_sound}

-- A line that counts as one consistent record, or as nothing.
abbrev pub IsGood : Line → Type 0
IsGood blank = Unit
IsGood malformed = ⊥
IsGood (decoded r) = IsConsistent r

abbrev pub is_record : Line → ℕ
is_record blank = 0
is_record malformed = 1
is_record (decoded r) = 1

-- The lines that are not blank.
abbrev pub record_lines : List Line → ℕ
record_lines [] = 0
record_lines (l ∷ ls) = is_record l + record_lines ls

pub issues-eq_nil : (a b : List Issue) → a ++ b ≡ [] → (a ≡ []) × (b ≡ [])
issues-eq_nil [] b h = (refl, h)
issues-eq_nil (x ∷ a) b h = cc

pub issues_at-eq_nil : (n : ℕ) (id : Text) (cs : List Code) → issues_at n id cs ≡ [] → cs ≡ []
issues_at-eq_nil n id [] h = refl
issues_at-eq_nil n id (c ∷ cs) h = cc

verify_from_sound :
    (n : ℕ) (ls : List Line) (seen : Seen) (rep : VerificationReport)
    → (verify_from n ls seen rep).issues ≡ []
    → (rep.issues ≡ []) × All IsGood ls
unfolding verify_from
verify_from_sound n [] seen rep h = (h, tt)
verify_from_sound n (blank ∷ ls) seen rep h =
    let (none_yet, rest) = verify_from_sound (suc n) ls seen rep h in (none_yet, (tt, rest))
verify_from_sound n (malformed ∷ ls) seen rep h =
    let (some_yet, rest) = verify_from_sound (suc n) ls seen (add_malformed n rep) h in
    absurd (ground (arith, (issues-eq_nil rep.issues _ some_yet).1))
verify_from_sound n (decoded r ∷ ls) seen rep h =
    let f = validate_record r seen in
    let (some_yet, rest) = verify_from_sound (suc n) ls f.seen (add_record n r f rep) h in
    let (before, here) = issues-eq_nil rep.issues _ some_yet in
    (before, (validate_record_sound r seen (issues_at-eq_nil n r.job.id f.errors here), rest))

pub valid_lem : (rep : VerificationReport) → valid rep ≡ true → rep.issues ≡ []
unfolding valid
valid_lem rep h = ground arith

-- An archive that the verifier calls valid has only consistent records: every line that is not
-- blank decodes, to a record whose events replay to the state of its job.
pub verify_sound : (ls : List Line) → valid (verify ls) ≡ true → All IsGood ls
unfolding verify
verify_sound ls h = (verify_from_sound 1 ls _ empty_report (valid_lem _ h)).1

-- How the counters of the report move, and that `valid_records` falls behind at an issue only.
record Counted (rep : VerificationReport) : Type 0 where
  bounded : rep.valid_records ≤ rep.records
  exact : (rep.issues ≡ []) ↔ (rep.valid_records ≡ rep.records)

counted_step :
    (n : ℕ) (id : Text) (is : List Issue) (cs : List Code) (a b : ℕ)
    → a ≤ b
    → (is ≡ []) ↔ (a ≡ b)
    → (a + count_valid cs ≤ suc b) × ((is ++ issues_at n id cs ≡ []) ↔ (a + count_valid cs ≡ suc b))
counted_step n id [] [] a b h e = (omega arith, ((λ _. omega (arith, e.0 refl)), λ _. refl))
counted_step n id [] (c ∷ cs) a b h e = (omega arith, ((λ q. cc), λ q. absurd (omega arith)))
counted_step n id (x ∷ is) [] a b h e =
    (omega arith, ((λ q. cc), λ q. absurd (nonempty (e.1 (omega arith)))))
  where
    nonempty : x ∷ is ≡ [] → ⊥
    nonempty q = cc
counted_step n id (x ∷ is) (c ∷ cs) a b h e = (omega arith, ((λ q. cc), λ q. absurd (omega arith)))

add_record-Counted :
    (n : ℕ) (r : Record) (f : Findings) (rep : VerificationReport)
    → Counted rep
    → Counted (add_record n r f rep)
add_record-Counted n r f rep c =
    let (bounded, exact) =
      counted_step n r.job.id rep.issues f.errors rep.valid_records rep.records c.bounded c.exact in
    record { bounded = bounded; exact = exact }

add_malformed-Counted :
    (n : ℕ) (rep : VerificationReport) → Counted rep → Counted (add_malformed n rep)
add_malformed-Counted n rep c = record {
  bounded = omega (arith, c.bounded);
  exact = (
    λ q. absurd (ground (arith, (issues-eq_nil rep.issues _ q).1)),
    λ q. absurd (omega (arith, c.bounded)),
  );
}

verify_from-counts :
    (n : ℕ) (ls : List Line) (seen : Seen) (rep : VerificationReport)
    → Counted rep
    → Counted (verify_from n ls seen rep)
      × ((verify_from n ls seen rep).records ≡ rep.records + record_lines ls)
unfolding verify_from
verify_from-counts n [] seen rep c = (c, omega arith)
verify_from-counts n (blank ∷ ls) seen rep c =
    let (d, e) = verify_from-counts (suc n) ls seen rep c in (d, omega arith)
verify_from-counts n (malformed ∷ ls) seen rep c =
    let (d, e) =
      verify_from-counts (suc n) ls seen (add_malformed n rep) (add_malformed-Counted n rep c) in
    (d, omega arith)
verify_from-counts n (decoded r ∷ ls) seen rep c =
    let f = validate_record r seen in
    let (d, e) =
      verify_from-counts (suc n) ls f.seen (add_record n r f rep)
        (add_record-Counted n r f rep c) in
    (d, omega arith)

empty-Counted : Counted empty_report
empty-Counted = record { bounded = omega arith; exact = (λ _. refl, λ _. refl) }

-- The report counts every line that is not blank as a record, and the archive is valid exactly
-- when all of them count as valid records.
pub verify_counts :
    (ls : List Line)
    → ((verify ls).records ≡ record_lines ls)
      × ((valid (verify ls) ≡ true) ↔ ((verify ls).valid_records ≡ (verify ls).records))
unfolding verify valid
verify_counts ls =
    let (c, e) =
      verify_from-counts 1 ls (record { jobs = []; events = [] }) empty_report empty-Counted in
    (omega arith, (λ h. c.exact.0 (ground arith), λ h. ground (arith, c.exact.1 h)))
