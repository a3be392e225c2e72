-- ===== src/Cli/Demo/Names.antt =====
-- `payloadName` of internal/cli/demo.go on the payloads of the demonstration.
use local_first_job_queue.Prelude.{◌≡◌, refl, ◌==◌, false, [], ◌∷◌, ◌++◌, some, Text, bytes, ℕ}
use local_first_job_queue.Prelude.Predicates.{All}
use local_first_job_queue.Cli.Demo.{payload_name, before_quote}

before_quote_lem :
    (name rest : Text)
    → All (λ (c : ℕ). (c == b'"') ≡ false) name
    → before_quote (name ++ b'"' ∷ rest) ≡ some name
unfolding before_quote
before_quote_lem [] rest h = refl
before_quote_lem (c ∷ cs) rest h = rw (h.0, before_quote_lem cs rest h.1) refl

-- The name that a payload begins with, if it has no quote, is the one that is printed.
pub payload_name_lem :
    (name rest : Text)
    → All (λ (c : ℕ). (c == b'"') ≡ false) name
    → payload_name (bytes "{\"name\":\"" ++ (name ++ b'"' ∷ rest)) ≡ name
unfolding payload_name
payload_name_lem name rest h = rw (before_quote_lem name rest h) refl
