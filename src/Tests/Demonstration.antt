-- ===== src/Tests/Demonstration.antt =====
-- The demonstration's checks on small stores.
use local_first_job_queue.Prelude.{
  ◌≡◌, refl, ◌*◌, ◌-◌, true, [], ◌∷◌, length, count, pos, find?, eq_text, keep, bytes, ◌+ℤ◌,
}
use local_first_job_queue.Clock.{parse, format, stamp_le}
use local_first_job_queue.Archive.{decoded}
use local_first_job_queue.Store.{Env, ok, time_now, statement, ◌>>=◌, new_text}
use local_first_job_queue.Store.Rows.{scan_optional, scan_job, update_where}
use local_first_job_queue.Calls.{perform_all}
use local_first_job_queue.Calls.Replay.{new_world}
use local_first_job_queue.Cli.Demo.{
  show_history_verification, shown, show_priority_aging, aging, payload_name,
}
use local_first_job_queue.Cli.Demo.Verification.{without_token, show_history_verification_lem}
use local_first_job_queue.Tests.Exports.{calls, calls-IsLogged, quiet_env-IsRegular}
use local_first_job_queue.Tests.Samples.{quiet_env, start, email}

show_history_verification_lem_example :
    let w = perform_all quiet_env calls (new_world 0) in
    let (r, v) =
      show_history_verification (λ a b. true) (λ r. decoded (without_token r)) quiet_env w in
    (r
      ≡ ok
          (shown (record { exported = length w.db.jobs; verified = length w.db.jobs; issues = 0 })))
    × (v.db ≡ w.db)
show_history_verification_lem_example =
    show_history_verification_lem (λ a b. true) (λ r. decoded (without_token r)) (λ s. refl)
      (λ r. refl) quiet_env quiet_env-IsRegular calls 0 calls-IsLogged

-- A point for each tenth of a second that the texts' seconds lie apart.
abbrev aging_env : Env
aging_env = record quiet_env {
  age_points = λ a b d. pos (10 * (a.second - b.second));
  aging_interval = aging;
}

-- The job that waited is leased first.
aged_first :
    (show_priority_aging aging_env email start).0 ≡ ok (shown (b'r' ∷ 1 ∷ [], b'r' ∷ 5 ∷ []))
unfolding show_priority_aging stamp_le ◌+ℤ◌ ◌>>=◌ time_now statement new_text count scan_optional
    find? eq_text keep scan_job parse format update_where
aged_first = refl

name_of_alpha : payload_name (bytes "{\"name\":\"alpha\"}") ≡ bytes "alpha"
unfolding payload_name
name_of_alpha = refl

no_name : payload_name (bytes "{}") ≡ bytes "?"
unfolding payload_name
no_name = refl
