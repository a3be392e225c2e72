-- ===== src/Cli/Positional.antt =====
-- internal/cli/util.go: the positional arguments behind the flags.
use local_first_job_queue.Prelude.{
  Bool, true, false, ◌&&◌, ◌||◌, not, Option, none, some, List, [], ◌∷◌, ◌++◌, Text, bytes, eq_text,
  if◌then◌else◌, ◌==◌,
}

-- `valueFlags`
abbrev pub value_flags : List Text
value_flags =
    bytes "-addr"
    ∷ bytes "-age"
    ∷ bytes "-aging"
    ∷ bytes "-concurrency"
    ∷ bytes "-db"
    ∷ bytes "-idempotency-key"
    ∷ bytes "-kind"
    ∷ bytes "-lease"
    ∷ bytes "-lease-renewal"
    ∷ bytes "-max-attempts"
    ∷ bytes "-max-events"
    ∷ bytes "-payload"
    ∷ bytes "-poll"
    ∷ bytes "-priority"
    ∷ bytes "-out"
    ∷ bytes "-run-after"
    ∷ bytes "-run-at"
    ∷ bytes "-retention-age"
    ∷ bytes "-retention-interval"
    ∷ bytes "-retention-max-events"
    ∷ bytes "-state"
    ∷ []

unfoldable pub is_one_of : Text → List Text → Bool
is_one_of a [] = false
is_one_of a (f ∷ fs) = eq_text a f || is_one_of a fs

-- `strings.Contains(a, "=")`
has_equals : Text → Bool
has_equals [] = false
has_equals (c ∷ cs) = (c == b'=') || has_equals cs

-- `strings.HasPrefix(a, "-") && a != "-"`
unfoldable pub is_flag : Text → Bool
is_flag [] = false
is_flag (c ∷ []) = false
is_flag (c ∷ d ∷ ds) = c == b'-'

-- The next argument is this flag's value.
unfoldable pub takes_value : Text → Bool
unfolding is_flag is_one_of has_equals
takes_value a = is_flag a && is_one_of a value_flags && not (has_equals a)

abbrev pub is_terminator : Text → Bool
is_terminator a = eq_text a (bytes "--")

-- The flags with their values and the positional arguments, or nothing where `--` stands.
abbrev pub Split : Type 0
Split = Option (List Text × List Text)

abbrev pub add_flag : Text → Split → Split
add_flag a none = none
add_flag a (some (flags, positional)) = some (a ∷ flags, positional)

abbrev pub add_positional : Text → Split → Split
add_positional a none = none
add_positional a (some (flags, positional)) = some (flags, a ∷ positional)

-- The loop of `moveFirstPositionalToEnd`, with whether the next argument is a flag's value.
unfoldable pub split : Bool → List Text → Split
unfolding takes_value is_flag
split value [] = some ([], [])
split true (v ∷ rest) = add_flag v (split false rest)
split false (a ∷ rest) =
    let after = split (takes_value a) rest in
    if is_terminator a then none else if is_flag a then add_flag a after else add_positional a after

abbrev pub reordered : List Text → Split → List Text
reordered args none = args
reordered args (some (flags, [])) = args
reordered args (some (flags, p ∷ ps)) = flags ++ p ∷ ps

-- `moveFirstPositionalToEnd`
unfoldable pub move_first_positional_to_end : List Text → List Text
unfolding split
move_first_positional_to_end args = reordered args (split false args)
