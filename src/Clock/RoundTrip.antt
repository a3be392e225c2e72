-- ===== src/Clock/RoundTrip.antt =====
-- Reading back a stored timestamp.
use local_first_job_queue.Prelude.{
  ℕ, zero, suc, ◌/◌, ◌%◌, ◌^◌, ◌<◌, ◌≤◌, ◌≡◌, [], ◌∷◌, ◌++◌, some, arith,
}
use native.Mathlib.Nat.{div-add-mod', mod-lt, pow-suc, div-lt_iff_lt-mul}
use local_first_job_queue.Clock.{Time, nanos, trimmed, format, digits, first_digits, parse}

pow-pos : (k : ℕ) → 0 < 10 ^ k
pow-pos zero = omega arith
pow-pos (suc k) = rw (pow-suc 10 k) (omega (arith, pow-pos k))

digit_small : (k n : ℕ) → n < 10 ^ suc k → n / 10 ^ k ≤ 9
digit_small k n h = omega (
  arith,
  (div-lt_iff_lt-mul {k = 10 ^ k} {x = n} {y = 10} (pow-pos k)).1 (omega (arith, pow-suc 10 k)),
)

digits-trimmed : (k n : ℕ) → n < 10 ^ k → digits k (trimmed k n ++ b'Z' ∷ []) ≡ some n
unfolding digits trimmed
digits-trimmed zero n h = ground arith
digits-trimmed (suc k) n h = ground (
  arith,
  digits-trimmed k (n % 10 ^ k),
  mod-lt (n) {m = 10 ^ k} (pow-pos k),
  digit_small k n h,
  div-add-mod' n (10 ^ k),
)

first_digits-trimmed :
    (n : ℕ) → n < 10 ^ 9 → 0 < n → first_digits (trimmed 9 n ++ b'Z' ∷ []) ≡ some n
unfolding first_digits trimmed
first_digits-trimmed n h positive = ground (arith, digits-trimmed 9 n h, digit_small 8 n h)

-- A time that was stored reads back as itself.
pub parse-format : (t : Time) → parse (format t) ≡ some t
unfolding parse format
parse-format t = ground (arith, first_digits-trimmed (t % nanos))
