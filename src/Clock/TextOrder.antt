-- ===== src/Clock/TextOrder.antt =====
-- The order of the stored texts, which is the order of time only down to the second.
use local_first_job_queue.Prelude.{
  ℕ, ◌+◌, ◌*◌, ◌/◌, ◌<◌, ◌≡◌, true, compare, arith, compare_text, compare_text-IsOrder,
}
use local_first_job_queue.Prelude.Order.{IsOrder, on-IsOrder, then_by-IsOrder}
use local_first_job_queue.Clock.{Time, Stamp, nanos, format, compare_stamp, stamp_lt, stamp_le}

compare-IsOrder : IsOrder compare
compare-IsOrder = record { flips = λ a b. ground arith; chains = λ a b c p q. ground arith }

pub compare_stamp-IsOrder : IsOrder compare_stamp
unfolding compare_stamp
compare_stamp-IsOrder =
    then_by-IsOrder (on-IsOrder (λ (s : Stamp). s.second) compare-IsOrder)
      (on-IsOrder (λ (s : Stamp). s.tail) compare_text-IsOrder)

-- Times of different seconds are stored as texts in the order of time.
pub stamp_lt-format : (t u : Time) → t / nanos < u / nanos → stamp_lt (format t) (format u) ≡ true
unfolding stamp_lt format
stamp_lt-format t u h = ground arith

-- Texts in order come from times less than a second out of order.
pub stamp_lt_sound : (t u : Time) → stamp_lt (format t) (format u) ≡ true → t < u + nanos
unfolding stamp_lt format
stamp_lt_sound t u h = ground arith

pub stamp_le_sound : (t u : Time) → stamp_le (format t) (format u) ≡ true → t < u + nanos
unfolding stamp_le format
stamp_le_sound t u h = ground arith

-- Within a second the order is not that of time: every later instant of a second is stored as a
-- smaller text than the second itself.
pub stamp_lt-whole_second :
    (s n : ℕ) → 0 < n → n < nanos → stamp_lt (format (s * nanos + n)) (format (s * nanos)) ≡ true
unfolding stamp_lt format compare_text
stamp_lt-whole_second s n p q = ground arith
