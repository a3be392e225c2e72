-- ===== src/Store/Queries/Pages.antt =====
-- A page of `SearchJobs` and the total of `CountJobs`.
use local_first_job_queue.Prelude.{
  Bool-cases, inl, inr, ℕ, zero, suc, ◌-◌, ◌≡◌, refl, Bool, List, [], ◌∷◌, length, take, drop, keep,
  count, arith, Ordering, pos, pos_part,
}
use Prim.Native.Nat.{min}
use mathlib.Core.Path.{subst}
use local_first_job_queue.Prelude.Predicates.{All, All-keep}
use local_first_job_queue.Clock.{is_gt}
use local_first_job_queue.Store.{Row, Db, ok}
use local_first_job_queue.Store.Queries.{
  JobFilter, matches, insert_by, sort_by, newest_first, select_page, select_count,
}

length-insert_by :
    (cmp : Row → Row → Ordering) (r : Row) (rows : List Row)
    → length (insert_by cmp r rows) ≡ suc (length rows)
unfolding insert_by
length-insert_by cmp r [] = refl
length-insert_by cmp r (s ∷ ss) = ground (arith, length-insert_by cmp r ss)

pub length-sort_by :
    (cmp : Row → Row → Ordering) (rows : List Row) → length (sort_by cmp rows) ≡ length rows
unfolding sort_by
length-sort_by cmp [] = refl
length-sort_by cmp (r ∷ rs) =
    omega (arith, length-insert_by cmp r (sort_by cmp rs), length-sort_by cmp rs)

pub length-keep : (p : Row → Bool) (rows : List Row) → length (keep p rows) ≡ count p rows
unfolding keep count
length-keep p [] = refl
length-keep p (r ∷ rs) = ground (arith, length-keep p rs)

pub length-take {ℓ} :
    {A : Type ℓ} (n : ℕ) (rows : List A) → length (take n rows) ≡ min n (length rows)
length-take zero rows = omega arith
length-take (suc n) [] = omega arith
length-take (suc n) (r ∷ rs) = omega (arith, length-take n rs)

length-drop : (n : ℕ) (rows : List Row) → length (drop n rows) ≡ length rows - n
length-drop zero rows = omega arith
length-drop (suc n) [] = omega arith
length-drop (suc n) (r ∷ rs) = omega (arith, length-drop n rs)

All-insert_by :
    (P : Row → Type 0) (cmp : Row → Row → Ordering) (r : Row) (rows : List Row)
    → P r
    → All P rows
    → All P (insert_by cmp r rows)
unfolding insert_by
All-insert_by P cmp r [] p h = (p, tt)
All-insert_by P cmp r (s ∷ ss) p h = elim (Bool-cases (is_gt (cmp r s))) [
  | inl q ↦ rw q (h.0, All-insert_by P cmp r ss p h.1)
  | inr q ↦ rw q (p, h)
]

pub All-sort_by :
    (P : Row → Type 0) (cmp : Row → Row → Ordering) (rows : List Row)
    → All P rows
    → All P (sort_by cmp rows)
unfolding sort_by
All-sort_by P cmp [] h = tt
All-sort_by P cmp (r ∷ rs) h = All-insert_by P cmp r _ h.0 (All-sort_by P cmp rs h.1)

pub All-take {ℓ κ} :
    {A : Type ℓ} (P : A → Type κ) (n : ℕ) (rows : List A) → All P rows → All P (take n rows)
All-take P zero rows h = tt
All-take P (suc n) [] h = tt
All-take P (suc n) (r ∷ rs) h = (h.0, All-take P n rs h.1)

All-drop : (P : Row → Type 0) (n : ℕ) (rows : List Row) → All P rows → All P (drop n rows)
All-drop P zero rows h = h
All-drop P (suc n) [] h = tt
All-drop P (suc n) (r ∷ rs) h = All-drop P n rs h.1

-- What holds of every row holds of every row of a page.
pub All-select_page :
    (P : Row → Type 0) (f : JobFilter) (n : ℕ) (d : Db) (rows : List Row)
    → f.limit ≡ pos (suc n)
    → (select_page f d).0 ≡ ok rows
    → All P d.jobs
    → All P rows
unfolding select_page
All-select_page P f n d rows h q a = subst (All P) (page_rows q) (
    All-take P (suc n) _ (
      All-drop P (pos_part f.offset) _
        (All-sort_by P newest_first _ (All-keep P (matches f) d.jobs a))))
  where
    page_rows :
        (select_page f d).0 ≡ ok rows
        → take (suc n) (drop (pos_part f.offset) (sort_by newest_first (keep (matches f) d.jobs)))
          ≡ rows
    page_rows q = ground (arith, h, q)

-- With a positive limit, a page of a search holds as many jobs as the limit allows of those that
-- `CountJobs` counts behind the offset.
pub length-select_page :
    (f : JobFilter) (n : ℕ) (d : Db)
    → f.limit ≡ pos (suc n)
    → (rows : List Row) × ((select_page f d).0 ≡ ok rows)
      × ((total : ℕ) × ((select_count f d).0 ≡ ok total)
          × (length rows ≡ min (suc n) (total - pos_part f.offset)))
unfolding select_page select_count
length-select_page f n d h =
    let page = drop (pos_part f.offset) (sort_by newest_first (keep (matches f) d.jobs)) in
    (
      take (suc n) page,
      ground (arith, h),
      (
        count (matches f) d.jobs,
        refl,
        omega (
          arith,
          length-take (suc n) page,
          length-drop (pos_part f.offset) (sort_by newest_first (keep (matches f) d.jobs)),
          length-sort_by newest_first (keep (matches f) d.jobs),
          length-keep (matches f) d.jobs,
        ),
      ),
    )
