-- ===== src/Cli/Arguments.antt =====
-- Where a positional argument may stand.
use local_first_job_queue.Prelude.{
  ℕ, ◌==◌, ◌≢◌, inl, inr, bytes, eq_text, eq_text_iff, Bool-cases, arith, ◌≡◌, ◌∙◌, refl, ap, true,
  false, Bool, ◌&&◌, not, some, List, [], ◌∷◌, ◌++◌, Text,
}
use mathlib.Core.List.{Memᴰ}
use local_first_job_queue.Prelude.Predicates.{All}
use local_first_job_queue.Cli.Positional.{
  is_flag, takes_value, is_one_of, value_flags, is_terminator, Split, add_flag, split, reordered,
  move_first_positional_to_end,
}

-- A flag alone, or a flag with the value behind it.
pub data Flag : Type 0 where
  alone : Text → Flag
  valued : Text → Text → Flag

-- The flags of the commands that take a value behind them, spelled with one dash.
abbrev pub valued_flags : List Text
valued_flags =
    bytes "-addr"
    ∷ bytes "-age"
    ∷ bytes "-aging"
    ∷ bytes "-concurrency"
    ∷ bytes "-db"
    ∷ bytes "-idempotency-key"
    ∷ bytes "-kind"
    ∷ bytes "-lease"
    ∷ bytes "-lease-renewal"
    ∷ bytes "-max-attempts"
    ∷ bytes "-max-events"
    ∷ bytes "-payload"
    ∷ bytes "-poll"
    ∷ bytes "-priority"
    ∷ bytes "-out"
    ∷ bytes "-run-after"
    ∷ bytes "-run-at"
    ∷ bytes "-retention-age"
    ∷ bytes "-retention-interval"
    ∷ bytes "-retention-max-events"
    ∷ bytes "-state"
    ∷ []

-- The argument begins with a dash, and is more than one.
abbrev pub IsDashed : Text → Type 0
IsDashed a = (c : ℕ) × ((cs : Text) × (a ≡ b'-' ∷ c ∷ cs))

-- A flag of that list has a value; any other dashed argument but `--` stands alone.
abbrev pub IsFlag : Flag → Type 0
IsFlag (alone a) = IsDashed a × (a ≢ bytes "--") × (¬ Memᴰ a valued_flags)
IsFlag (valued a v) = Memᴰ a valued_flags

abbrev pub words : Flag → List Text
words (alone a) = a ∷ []
words (valued a v) = a ∷ v ∷ []

abbrev pub all_words : List Flag → List Text
all_words [] = []
all_words (f ∷ fs) = words f ++ all_words fs

record IsSingle (a : Text) : Type 0 where
  flag : is_flag a ≡ true
  other : is_terminator a ≡ false
  single : takes_value a ≡ false

record IsValued (a : Text) : Type 0 where
  flag : is_flag a ≡ true
  other : is_terminator a ≡ false
  value : takes_value a ≡ true

is_one_of-Memᴰ : (a : Text) (fs : List Text) → is_one_of a fs ≡ true → Memᴰ a fs
unfolding is_one_of
is_one_of-Memᴰ a [] h = cc
is_one_of-Memᴰ a (f ∷ fs) h = elim (Bool-cases (eq_text a f)) [
  | inl q ↦ Memᴰ.head ((eq_text_iff a f).0 q)
  | inr q ↦ Memᴰ.tail (is_one_of-Memᴰ a fs (rw q at h))
]

dashed_flag : (a : Text) → IsDashed a → is_flag a ≡ true
unfolding is_flag
dashed_flag a (c, (cs, e)) = rw e refl

not_terminator : (a : Text) → a ≢ bytes "--" → is_terminator a ≡ false
not_terminator a n = elim (Bool-cases (eq_text a (bytes "--"))) [
  | inl q ↦ absurd (n ((eq_text_iff a (bytes "--")).0 q))
  | inr q ↦ q
]

single : (a : Text) → IsFlag (alone a) → IsSingle a
unfolding takes_value
single a (dashed, other, unlisted) = record {
  flag = dashed_flag a dashed;
  other = not_terminator a other;
  single = elim (Bool-cases (is_one_of a value_flags)) [
    | inl q ↦ absurd (unlisted (is_one_of-Memᴰ a value_flags q))
    | inr q ↦ rw (dashed_flag a dashed, q) refl
  ];
}

abbrev are_valued : List Text → Bool
are_valued [] = true
are_valued (f ∷ fs) =
    let rest = are_valued fs in is_flag f && not (is_terminator f) && takes_value f && rest

listed : are_valued valued_flags ≡ true
unfolding takes_value eq_text
listed = refl

pick : (a : Text) (fs : List Text) → are_valued fs ≡ true → Memᴰ a fs → IsValued a
pick a [] h m = elim m [ ]
pick a (f ∷ fs) h (Memᴰ.head e) = record {
  flag = rw e (ground (arith, h));
  other = rw e (ground (arith, h));
  value = rw e (ground (arith, h));
}
pick a (f ∷ fs) h (Memᴰ.tail m) = pick a fs (ground (arith, h)) m

-- Flags put before what is split.
add_flags : List Text → Split → Split
add_flags [] s = s
add_flags (a ∷ rest) s = add_flag a (add_flags rest s)

split-flags :
    (fs : List Flag) (rest : List Text)
    → All IsFlag fs
    → split false (all_words fs ++ rest) ≡ add_flags (all_words fs) (split false rest)
unfolding split add_flags
split-flags [] rest h = refl
split-flags (alone a ∷ fs) rest (f, h) =
    let q = single a f in rw (q.single, q.other, q.flag) (ap (add_flag a) (split-flags fs rest h))
split-flags (valued a v ∷ fs) rest (f, h) =
    let q = pick a valued_flags listed f in
    rw (q.value, q.other, q.flag) (ap (λ s. add_flag a (add_flag v s)) (split-flags fs rest h))

split-only : (fs : List Flag) → All IsFlag fs → split false (all_words fs) ≡ some (all_words fs, [])
unfolding split
split-only [] h = refl
split-only (alone a ∷ fs) (f, h) =
    let q = single a f in rw (q.single, q.other, q.flag, split-only fs h) refl
split-only (valued a v ∷ fs) (f, h) =
    let q = pick a valued_flags listed f in rw (q.value, q.other, q.flag, split-only fs h) refl

add_flags-some :
    (more flags positional : List Text)
    → add_flags more (some (flags, positional)) ≡ some (more ++ flags, positional)
unfolding add_flags
add_flags-some [] flags positional = refl
add_flags-some (a ∷ rest) flags positional = ap (add_flag a) (add_flags-some rest flags positional)

plain_argument : (id : Text) → ¬ IsDashed id → is_flag id ≡ false
unfolding is_flag
plain_argument [] n = refl
plain_argument (c ∷ []) n = refl
plain_argument (c ∷ d ∷ ds) n = elim (Bool-cases (c == b'-')) [
  | inl q ↦ absurd (n (d, (ds, ap (λ x. x ∷ d ∷ ds) (ground (arith, q)))))
  | inr q ↦ q
]

-- Wherever an argument that is not dashed stands among flags, it is moved behind them, and their
-- order stays. The flags are those of the list of flags with values, spelled with one dash as in
-- the list, each with its value behind it, and any other arguments but `--` that begin with a dash,
-- without one.
pub move-anywhere :
    (before after : List Flag) (id : Text)
    → All IsFlag before
    → All IsFlag after
    → ¬ IsDashed id
    → move_first_positional_to_end (all_words before ++ id ∷ all_words after)
      ≡ (all_words before ++ all_words after) ++ id ∷ []
unfolding move_first_positional_to_end split takes_value
move-anywhere before after id b a undashed =
    ap (reordered (all_words before ++ id ∷ all_words after)) (
      split-flags before (id ∷ all_words after) b
      ∙ ap (add_flags (all_words before)) here
      ∙ add_flags-some (all_words before) (all_words after) (id ∷ []))
  where
    plain : is_flag id ≡ false
    plain = plain_argument id undashed

    other : is_terminator id ≡ false
    other = not_terminator id (λ e. undashed (b'-', ([], e)))

    here : split false (id ∷ all_words after) ≡ some (all_words after, id ∷ [])
    here = rw (plain, other, split-only after a) refl
