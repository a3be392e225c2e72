-- ===== src/Store/Transactions.antt =====
-- What a transaction of internal/queue/prune.go keeps, and that it is all or nothing.
use local_first_job_queue.Prelude.{inl, inr, Bool-cases, suc}
use local_first_job_queue.Store.{World, Db, Env, Exec, Result, ok, err}
use local_first_job_queue.Store.Keeps.{Keeps}
use local_first_job_queue.Store.Prune.{settle, transaction}

settle-keeps :
    (P : Db → Type 0) {A : Type 0} (e : Env) (before : Db) (r : Result A) (v : World)
    → P before
    → P v.db
    → P (settle e before r v).1.db
unfolding settle
settle-keeps P e before (err x) v p q = p
settle-keeps P e before (ok a) v p q = elim (Bool-cases (e.fails v.ticks)) [
  | inl f ↦ rw f p
  | inr f ↦ rw f q
]

module _ {P : Db → Type 0} {A : Type 0} where
  pub Keeps-transaction : (e : Env) (m : Exec A) → Keeps P m → Keeps P (transaction e m)
  unfolding transaction
  Keeps-transaction e m k = record {
    at = λ w h. elim (Bool-cases (e.fails w.ticks)) [
      | inl f ↦ rw f h
      | inr f ↦ rw f (
          let (r, v) = m (record w { ticks = suc w.ticks }) in
          settle-keeps P e w.db r v h (k.at (record w { ticks = suc w.ticks }) h))
    ];
  }
