-- ===== src/Store/Counts/Totals.antt =====
-- The grouped counts against a count of the rows.
use local_first_job_queue.Prelude.{
  ℕ, ◌+◌, ◌≡◌, refl, ap, ◌∙◌, ◌&&◌, List, [], ◌∷◌, map, Text, eq_text, compare_text, suc,
  compare_text-IsOrder, count, length, arith, if◌then◌else◌,
}
use local_first_job_queue.Prelude.Order.{IsOrder, on-IsOrder, then_by-IsOrder}
use local_first_job_queue.Prelude.Tally.{groups-sum, group_of, group_of-groups, sum_groups, is_eq}
use local_first_job_queue.Models.{JobState, EventType, state_text, KindStateCount, EventTypeCount}
use local_first_job_queue.Store.{Row, EventRow}
use local_first_job_queue.Store.Counts.{
  kind_state_order, kind_state, kind_state_count, state_kind_counts, event_order, event_type_count,
  event_type_counts,
}

-- The totals of a list of counts, added up.
unfoldable pub sum_kinds : List KindStateCount → ℕ
sum_kinds [] = 0
sum_kinds (c ∷ cs) = c.total + sum_kinds cs

unfoldable pub sum_events : List EventTypeCount → ℕ
sum_events [] = 0
sum_events (c ∷ cs) = c.total + sum_events cs

sum_kinds-map :
    (gs : List ((Text × JobState) × ℕ))
    → sum_kinds (map kind_state_count gs) ≡ sum_groups kind_state_order gs
unfolding sum_kinds sum_groups
sum_kinds-map [] = refl
sum_kinds-map (((k, s), n) ∷ gs) = omega (arith, sum_kinds-map gs)

sum_events-map :
    (gs : List (EventType × ℕ)) → sum_events (map event_type_count gs) ≡ sum_groups event_order gs
unfolding sum_events sum_groups
sum_events-map [] = refl
sum_events-map ((t, n) ∷ gs) = omega (arith, sum_events-map gs)

length-map {ℓ κ} :
    {A : Type ℓ} {B : Type κ} (f : A → B) (xs : List A) → length (map f xs) ≡ length xs
length-map f [] = refl
length-map f (x ∷ xs) = ap suc (length-map f xs)

-- The counts by kind and state add up to the number of jobs.
pub state_kind_counts_total : (rows : List Row) → sum_kinds (state_kind_counts rows) ≡ length rows
unfolding state_kind_counts
state_kind_counts_total rows =
    sum_kinds-map _ ∙ groups-sum kind_state_order (map kind_state rows) ∙ length-map kind_state rows

-- The counts by event type add up to the number of events.
pub event_type_counts_total :
    (events : List EventRow) → sum_events (event_type_counts events) ≡ length events
unfolding event_type_counts
event_type_counts_total events =
    sum_events-map _
    ∙ groups-sum event_order (map (λ (v : EventRow). v.event_type) events)
    ∙ length-map (λ (v : EventRow). v.event_type) events

-- The total that a list of counts gives for a kind and a state, or 0.
unfoldable pub total_of : Text → JobState → List KindStateCount → ℕ
total_of k s [] = 0
total_of k s (c ∷ cs) =
    let rest = total_of k s cs in
    if eq_text k c.kind && eq_text (state_text s) (state_text c.state) then c.total else rest

is_eq-compare_text : (a b : Text) → is_eq (compare_text a b) ≡ eq_text a b
unfolding compare_text eq_text
is_eq-compare_text [] [] = refl
is_eq-compare_text [] (b ∷ bs) = refl
is_eq-compare_text (a ∷ xs) [] = refl
is_eq-compare_text (a ∷ xs) (b ∷ bs) = ground (arith, is_eq-compare_text xs bs)

same_key :
    (k l : Text) (s t : JobState)
    → is_eq (kind_state_order (k, s) (l, t))
      ≡ (eq_text k l && eq_text (state_text s) (state_text t))
same_key k l s t =
    ground (arith, is_eq-compare_text k l, is_eq-compare_text (state_text s) (state_text t))

total_of-map :
    (k : Text) (s : JobState) (gs : List ((Text × JobState) × ℕ))
    → total_of k s (map kind_state_count gs) ≡ group_of kind_state_order (k, s) gs
unfolding total_of group_of
total_of-map k s [] = refl
total_of-map k s (((l, t), n) ∷ gs) = rw (same_key k l s t, total_of-map k s gs) refl

kind_state_order-IsOrder : IsOrder kind_state_order
kind_state_order-IsOrder =
    then_by-IsOrder (on-IsOrder (λ (p : Text × JobState). p.0) compare_text-IsOrder)
      (on-IsOrder (λ (p : Text × JobState). state_text p.1) compare_text-IsOrder)

count-map :
    (k : Text) (s : JobState) (rows : List Row)
    → count (λ p. is_eq (kind_state_order (k, s) p)) (map kind_state rows)
      ≡ count (λ (r : Row). eq_text k r.kind && eq_text (state_text s) (state_text r.state)) rows
unfolding count
count-map k s [] = refl
count-map k s (r ∷ rs) = rw (same_key k r.kind s r.state, count-map k s rs) refl

-- The grouped query gives for every kind and state the number of rows of that kind and state, and
-- 0 where there is none.
pub state_kind_counts_lem :
    (k : Text) (s : JobState) (rows : List Row)
    → total_of k s (state_kind_counts rows)
      ≡ count (λ r. eq_text k r.kind && eq_text (state_text s) (state_text r.state)) rows
unfolding state_kind_counts
state_kind_counts_lem k s rows =
    total_of-map k s _
    ∙ group_of-groups kind_state_order kind_state_order-IsOrder (k, s) (map kind_state rows)
    ∙ count-map k s rows
