-- ===== src/Clock.antt =====
-- Times as internal/queue/sqlite.go keeps them: `time.Time` in memory, RFC3339Nano text in SQLite.
--
-- A `Time` is the number of nanoseconds since the zero `time.Time`, in UTC. The stored text begins
-- with nineteen bytes, `2006-01-02T15:04:05`, of fixed width and in the order of the second that
-- they name; a `Stamp` holds that second and the bytes behind it (`Z`, or `.25Z`).
pub mod RoundTrip
pub mod TextOrder
use local_first_job_queue.Prelude.{
  ℕ, zero, suc, ◌+◌, ◌-◌, ◌*◌, ◌/◌, ◌%◌, ◌^◌, Ordering, Bool, true, false, ◌&&◌, not, List, [], ◌∷◌,
  ◌++◌, Option, none, some, Text, compare, compare_text, ◌==◌, ltb, leb, if◌then◌else◌, ℤ, pos,
  negsuc,
}
use local_first_job_queue.Prelude.Order.{◌then_by◌}

abbrev pub Time : Type 0
Time = ℕ

abbrev pub Duration : Type 0
Duration = ℤ

abbrev pub nanos : ℕ
nanos = 1000000000

-- `t.Add(d)`. The clock stands far enough from the zero time that no program's duration passes it.
abbrev pub add : Time → Duration → Time
add t (pos n) = t + n
add t (negsuc n) = t - suc n

-- `t.Add(-d)`
abbrev pub sub : Time → Duration → Time
sub t (pos n) = t - n
sub t (negsuc n) = t + suc n

pub record Stamp : Type 0 where
  pub second : ℕ
  pub tail : Text

-- The nine digits of the nanoseconds, without the zeros at the end.
trimmed : ℕ → ℕ → Text
trimmed zero n = []
trimmed (suc k) n =
    let rest = trimmed k (n % 10 ^ k) in if n == 0 then [] else (b'0' + n / 10 ^ k) ∷ rest

fraction : ℕ → Text
unfolding trimmed
fraction n = if n == 0 then b'Z' ∷ [] else b'.' ∷ (trimmed 9 n ++ b'Z' ∷ [])

-- `t.UTC().Format(time.RFC3339Nano)`
unfoldable pub format : Time → Stamp
unfolding fraction
format t = record { second = t / nanos; tail = fraction (t % nanos) }

add_digit : ℕ → Option ℕ → Option ℕ
add_digit d none = none
add_digit d (some n) = some (d + n)

is_end : ℕ → Text → Bool
is_end c [] = c == b'Z'
is_end c (d ∷ cs) = false

abbrev pub is_digit : ℕ → Bool
is_digit c = leb b'0' c && leb c b'9'

-- Digits and a final `Z`, each digit at the weight of its place; behind the places, digits are
-- skipped.
digits : ℕ → Text → Option ℕ
unfolding add_digit is_end
digits k [] = none
digits zero (c ∷ cs) =
    let rest = digits zero cs in if is_end c cs then some 0 else if is_digit c then rest else none
digits (suc k) (c ∷ cs) =
    let rest = digits k cs in
    if is_end c cs
    then some 0
    else if is_digit c
    then add_digit ((c - b'0') * 10 ^ k) rest
    else none

-- One digit at least.
first_digits : Text → Option ℕ
unfolding digits
first_digits [] = none
first_digits (c ∷ cs) = if is_digit c then digits 9 (c ∷ cs) else none

parse_tail : Text → Option ℕ
unfolding first_digits
parse_tail [] = none
parse_tail (c ∷ cs) = if is_end c cs then some 0 else if c == b'.' then first_digits cs else none

at_second : ℕ → Option ℕ → Option Time
at_second s none = none
at_second s (some n) = some (s * nanos + n)

-- `time.Parse(time.RFC3339Nano, text)`, on text in UTC: `none` is the error.
unfoldable pub parse : Stamp → Option Time
unfolding parse_tail at_second
parse s = at_second s.second (parse_tail s.tail)

-- How SQLite compares the stored texts.
unfoldable pub compare_stamp : Stamp → Stamp → Ordering
compare_stamp a b = compare a.second b.second then_by compare_text a.tail b.tail

abbrev pub is_lt : Ordering → Bool
is_lt Ordering.lt = true
is_lt _ = false

abbrev pub is_gt : Ordering → Bool
is_gt Ordering.gt = true
is_gt _ = false

-- `a < b` and `a <= b` in a query.
unfoldable pub stamp_lt : Stamp → Stamp → Bool
unfolding compare_stamp
stamp_lt a b = is_lt (compare_stamp a b)

unfoldable pub stamp_le : Stamp → Stamp → Bool
unfolding compare_stamp
stamp_le a b = not (is_gt (compare_stamp a b))
