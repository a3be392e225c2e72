-- ===== src/Web/Listing.antt =====
-- The pages of `/api/jobs` and the totals of the summary.
use local_first_job_queue.Prelude.{
  ℕ, zero, suc, ◌-◌, ◌<◌, ◌≡◌, refl, Option, none, some, List, length, count, arith, Bool-cases,
  inl, inr, ℤ, pos, negsuc, pos_part, ◌≤ℤ◌, leb_ℤ,
}
use Prim.Native.Nat.{min}
use local_first_job_queue.Prelude.Predicates.{All}
use local_first_job_queue.Models.{Job}
use local_first_job_queue.Store.{Db, World, Env, statement, ◌>>=◌}
use local_first_job_queue.Store.Queries.{
  JobFilter, matches, select_page, select_count, search_jobs, count_jobs,
}
use local_first_job_queue.Store.Queries.Pages.{length-select_page, All-select_page}
use local_first_job_queue.Store.Readable.{IsReadable, scan_all-IsReadable}
use local_first_job_queue.Queue.Idempotency.{IsQuiet}
use local_first_job_queue.Web.{
  JobsQuery, page_limit, page_offset, filter_of, jobs_json, handle_api_jobs,
}

page_limit-pos : (n : Option ℤ) → (k : ℕ) × (page_limit n ≡ pos (suc k)) × (k < 1000)
page_limit-pos none = (199, refl, omega arith)
page_limit-pos (some (pos zero)) = (199, refl, omega arith)
page_limit-pos (some (negsuc n)) = (199, ground arith, omega arith)
page_limit-pos (some (pos (suc n))) = elim (Bool-cases (leb_ℤ (pos (suc n)) (pos 1000))) [
  | inl q ↦ (n, ground (arith, q), ground (arith, q))
  | inr q ↦ (199, ground (arith, q), omega arith)
]

select_page-db : (f : JobFilter) (d : Db) → (select_page f d).1 ≡ d
unfolding select_page
select_page-db f d = ground arith

module _ (e : Env) (r : JobsQuery) (w : World) (quiet : IsQuiet e)
    (readable : All IsReadable w.db.jobs) where
  -- Where no statement fails and every row reads back, whatever limit and offset a request asks
  -- for, `/api/jobs` answers with status 200, the number of all matching jobs, and a page of
  -- between 1 and 1000 jobs at most that is full if enough matching jobs stand behind the offset.
  pub handle_api_jobs_lem :
      (jobs : List Job) × (total : ℕ) × (handle_api_jobs e r w ≡ (
        record {
          status = 200;
          body = jobs_json jobs total (page_limit r.limit) (page_offset r.offset);
        },
        record w { ticks = suc (suc w.ticks) },
      ))
      × (total ≡ count (matches (filter_of r)) w.db.jobs)
      × (length jobs
          ≡ min (pos_part (page_limit r.limit)) (total - pos_part (page_offset r.offset)))
      × (pos 1 ≤ℤ page_limit r.limit)
      × (page_limit r.limit ≤ℤ pos 1000)
  unfolding handle_api_jobs ◌>>=◌ search_jobs count_jobs statement select_count
  handle_api_jobs_lem =
      let (k, q, small) = page_limit-pos r.limit in
      let (rows, found, (total, counted, n)) = length-select_page (filter_of r) k w.db q in
      let (js, scans, same) =
        scan_all-IsReadable rows
          (All-select_page IsReadable (filter_of r) k w.db rows q found readable) in
      (
        js,
        count (matches (filter_of r)) w.db.jobs,
        rw (quiet w.ticks, found, select_page-db (filter_of r) w.db, scans, quiet (suc w.ticks))
            refl,
        refl,
        ground (arith, same, n, counted, q),
        rw q (omega arith),
        rw q (omega arith),
      )
