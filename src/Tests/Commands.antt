-- ===== src/Tests/Commands.antt =====
-- The commands and the sample jobs, at concrete arguments.
use local_first_job_queue.Prelude.{
  false, eq_text_iff, arith, ℕ, ◌≡◌, refl, true, none, some, List, [], ◌∷◌, ◌++◌, Text, bytes,
  eq_text, find?, pos,
}
use mathlib.Core.List.{Memᴰ}
use local_first_job_queue.Clock.{Time}
use local_first_job_queue.Models.{Job}
use local_first_job_queue.Store.{ok, ◌>>=◌, time_now, statement, new_text}
use local_first_job_queue.Statements.Reading.{empty-Reads}
use local_first_job_queue.Fixture.{load_sample_data}
use local_first_job_queue.Fixture.Again.{load_again}
use local_first_job_queue.Store.Schema.{Tables, column, events_columns, migrate}
use local_first_job_queue.Store.Schema.Complete.{
  jobs_table, events_table, runs_table, columns_or, BeginsWith, HasColumn, migrate_lem,
}
use local_first_job_queue.Cli.{EnqueueFlags, absent, printed, enqueue_command}
use local_first_job_queue.Cli.Positional.{move_first_positional_to_end, split, is_one_of}
use local_first_job_queue.Cli.Arguments.{
  Flag, IsFlag, valued_flags, alone, valued, all_words, move-anywhere,
}
use local_first_job_queue.Cli.Scheduling.{described_job, described_row, enqueue_command_lem}
use local_first_job_queue.Cli.Serving.{web_auth, work_auth, web_auth-guards}
use local_first_job_queue.Web.{plain, index, serve}
use local_first_job_queue.Tests.Samples.{quiet_env, start, email, minute}

abbrev later_flags : EnqueueFlags
later_flags = record {
  kind = email;
  payload = bytes "a";
  idempotency_key = [];
  max_attempts = pos 0;
  priority = pos 4;
  run_at = absent;
  run_after = minute;
}

abbrev command_id : Text
command_id = b'r' ∷ 1 ∷ []

enqueue_command_lem_example :
    let (r, v) = enqueue_command quiet_env later_flags start in
    let j = described_job command_id later_flags (quiet_env.now 0) (quiet_env.now 2) in
    (r ≡ printed j)
    × (v.db.jobs
        ≡ start.db.jobs
          ++ described_row command_id later_flags (quiet_env.now 0) (quiet_env.now 2) ∷ [])
unfolding find?
enqueue_command_lem_example =
    enqueue_command_lem quiet_env start later_flags command_id (λ n. refl) refl refl refl refl refl
      refl

abbrev job_then_flags : List Flag
job_then_flags = valued (bytes "-db") (bytes "q.db") ∷ alone (bytes "-json") ∷ []

unlisted : (a : Text) (fs : List Text) → is_one_of a fs ≡ false → ¬ Memᴰ a fs
unfolding is_one_of
unlisted a [] h m = elim m [ ]
unlisted a (f ∷ fs) h (Memᴰ.head e) = ground (arith, h, (eq_text_iff a f).1 e)
unlisted a (f ∷ fs) h (Memᴰ.tail m) = unlisted a fs (ground (arith, h)) m

json_alone : IsFlag (alone (bytes "-json"))
unfolding is_one_of eq_text
json_alone = ((_, (_, refl)), (λ e. cc), unlisted (bytes "-json") valued_flags refl)

move-anywhere_example :
    move_first_positional_to_end (bytes "j1" ∷ all_words job_then_flags)
    ≡ all_words job_then_flags ++ bytes "j1" ∷ []
unfolding split eq_text
move-anywhere_example =
    move-anywhere [] job_then_flags (bytes "j1") tt
      (Memᴰ.tail (Memᴰ.tail (Memᴰ.tail (Memᴰ.tail (Memᴰ.head refl)))), (json_alone, tt))
      (λ (c, (cs, e)). cc)

-- Two dashes are a flag too, but its value is not known as one: the job's id takes its place.
double_dash :
    move_first_positional_to_end (bytes "j1" ∷ bytes "--db" ∷ bytes "q.db" ∷ [])
    ≡ bytes "--db" ∷ bytes "j1" ∷ bytes "q.db" ∷ []
unfolding move_first_positional_to_end split eq_text
double_dash = refl

abbrev encode : Text → ℕ → Time → Text
encode kind i now = b'{' ∷ kind

first_load : (js : List Job) × ((load_sample_data quiet_env encode start).0 ≡ ok js)
unfolding load_sample_data ◌>>=◌ time_now statement new_text find? eq_text
first_load = (_, refl)

load_again_example :
    let v = (load_sample_data quiet_env encode start).1 in
    (ks : List Job) × ((load_sample_data quiet_env encode v).0 ≡ ok ks)
    × ((load_sample_data quiet_env encode v).1.db ≡ v.db)
load_again_example =
    load_again quiet_env encode start first_load.0 (λ n. refl) (λ n. (b'r' ∷ n ∷ [], refl))
      empty-Reads first_load.1

web_auth-guards_example :
    serve quiet_env
      (some (record { username = bytes "u"; password = bytes "p" }))
      none
      (index true)
      start
    ≡ (record { status = 401; body = plain (bytes "unauthorized") }, start)
unfolding web_auth
web_auth-guards_example =
    web_auth-guards quiet_env (bytes "u") b'p' [] _ none (index true) start refl refl
      (λ q. ground (arith, q))

-- The dashboard of a worker with a password and no user asks for nothing.
half_set : work_auth [] (bytes "secret") ≡ none
half_set = refl

-- A database from before priorities, schedules, tokens and retention runs.
abbrev old_tables : Tables
old_tables = record {
  jobs =
      some (
        column (bytes "id") (bytes "TEXT PRIMARY KEY")
        ∷ column (bytes "state") (bytes "TEXT")
        ∷ []);
  events = some events_columns;
  retention_runs = none;
}

migrate_lem_example :
    let u = (migrate (λ n. false) old_tables).1 in
    BeginsWith (columns_or jobs_table old_tables.jobs) u.jobs
    × BeginsWith (columns_or events_table old_tables.events) u.events
    × BeginsWith (columns_or runs_table old_tables.retention_runs) u.retention_runs
    × HasColumn (bytes "priority") u.jobs
    × HasColumn (bytes "run_at") u.jobs
    × HasColumn (bytes "lease_token") u.jobs
unfolding migrate eq_text
migrate_lem_example = migrate_lem (λ n. false) old_tables refl
