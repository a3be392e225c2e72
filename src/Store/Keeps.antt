-- ===== src/Store/Keeps.antt =====
-- Properties of the tables that an action keeps, one rule for each way to build an action.
use local_first_job_queue.Prelude.{inl, inr, Bool, true, false, Bool-cases, if◌then◌else◌}
use local_first_job_queue.Store.{
  World, Db, Env, Exec, Error, Result, ok, err, pure, raise, lift, ◌>>=◌, time_now, new_text,
  statement,
}

-- The action keeps `P`, whether it ends with a value or with an error.
pub record Keeps {A : Type 0} (P : Db → Type 0) (m : Exec A) : Type 0 where
  pub at : (w : World) → P w.db → P (m w).1.db

module _ {P : Db → Type 0} {A : Type 0} where
  pub Keeps-pure : (a : A) → Keeps P (pure a)
  unfolding pure
  Keeps-pure a = record { at = λ w h. h }

  pub Keeps-raise : (x : Error) → Keeps P (raise {A = A} x)
  unfolding raise
  Keeps-raise x = record { at = λ w h. h }

  pub Keeps-lift : (r : Result A) → Keeps P (lift r)
  unfolding lift
  Keeps-lift r = record { at = λ w h. h }

  pub Keeps-if : (b : Bool) (m n : Exec A) → Keeps P m → Keeps P n → Keeps P (if b then m else n)
  Keeps-if true m n km kn = km
  Keeps-if false m n km kn = kn

  -- A statement that fails leaves the tables alone, so only the other case counts.
  pub Keeps-statement :
      (e : Env) (f : Db → Result A × Db) → ((d : Db) → P d → P (f d).1) → Keeps P (statement e f)
  unfolding statement
  Keeps-statement e f k = record {
    at = λ w h. elim (Bool-cases (e.fails w.ticks)) [ inl q ↦ rw q h | inr q ↦ rw q (k w.db h) ];
  }

module _ {P : Db → Type 0} where
  pub Keeps-time_now : (e : Env) → Keeps P (time_now e)
  unfolding time_now
  Keeps-time_now e = record { at = λ w h. h }

  pub Keeps-new_text : (e : Env) → Keeps P (new_text e)
  unfolding new_text
  Keeps-new_text e = record { at = λ w h. h }

module _ {P : Db → Type 0} {A B : Type 0} where
  Keeps-lift-bind :
      (r : Result A) (f : A → Exec B) → ((a : A) → Keeps P (f a)) → Keeps P (lift r >>= f)
  unfolding ◌>>=◌
  Keeps-lift-bind (ok a) f kf = record { at = λ w h. (kf a).at w h }
  Keeps-lift-bind (err x) f kf = record { at = λ w h. h }

  pub Keeps-bind :
      (m : Exec A) (f : A → Exec B) → Keeps P m → ((a : A) → Keeps P (f a)) → Keeps P (m >>= f)
  unfolding ◌>>=◌
  Keeps-bind m f km kf = record {
    at = λ w h. let (r, v) = m w in (Keeps-lift-bind r f kf).at v (km.at w h);
  }

pub ruleset keeps_rules = (
  Keeps-pure, Keeps-raise, Keeps-lift, Keeps-if, Keeps-statement, Keeps-time_now, Keeps-new_text,
  Keeps-bind,
)
