-- ===== src/Coordinator/Catalog/Lock.antt =====
-- The lock of the catalog.
use p2p_distributed_system_m.Base.{
  ℕ, zero, suc, ◌*◌, ◌≤◌, ◌≡◌, ◌↔◌, refl, Bytes, Bool, true, Result, arith, Bool-cases, inl, inr,
  ok, err, ap,
}
use p2p_distributed_system_m.Utils.{second}
use p2p_distributed_system_m.Coordinator.Host.{Env}
use p2p_distributed_system_m.Coordinator.Catalog.{lock_key, is_locked, acquire}

module _ (E : Env) (self : Bytes) where
  -- What a try for the lock answers.
  abbrev pub tried : E.redis.Db → Result Bool × E.redis.Db
  tried db = E.redis.set_nx lock_key self (10 * second) db

  -- Redis after `k` tries and the wait after each of them, whatever they answer.
  abbrev pub after_tries : ℕ → E.redis.Db → E.redis.Db
  after_tries zero db = db
  after_tries (suc k) db = after_tries k (E.redis.wait (tried db).1)

  is_locked_iff : (r : Result Bool) → is_locked r ≡ true → r ≡ ok true
  is_locked_iff (ok b) h = ap ok h
  is_locked_iff (err e) h = absurd (ground arith)

  acquired→set :
      (waits : ℕ) (db : E.redis.Db)
      → (acquire E self waits db).0 ≡ true
      → (k : ℕ) × (k ≤ waits) × ((tried (after_tries k db)).0 ≡ ok true)
  unfolding acquire
  acquired→set zero db h = (0, omega arith, is_locked_iff (tried db).0 h)
  acquired→set (suc waits) db h = elim (Bool-cases (is_locked (tried db).0)) [
    | inl e ↦ (0, omega arith, is_locked_iff (tried db).0 e)
    | inr e ↦
        let (k, below, at) = acquired→set waits (E.redis.wait (tried db).1) (rw e at h) in
        (suc k, omega arith, at)
  ]

  set→acquired :
      (waits k : ℕ) (db : E.redis.Db)
      → k ≤ waits
      → (tried (after_tries k db)).0 ≡ ok true
      → (acquire E self waits db).0 ≡ true
  unfolding acquire
  set→acquired zero zero db below at = rw at refl
  set→acquired zero (suc k) db below at = absurd (omega arith)
  set→acquired (suc waits) zero db below at = rw at refl
  set→acquired (suc waits) (suc k) db below at = elim (Bool-cases (is_locked (tried db).0)) [
    | inl e ↦ rw e refl
    | inr e ↦ rw e (set→acquired waits k (E.redis.wait (tried db).1) (omega arith) at)
  ]

  -- A node obtains the lock exactly when Redis answers one of its tries, made with a wait between them
  -- and no later than its context ends, with no error and that it has set the key of the lock.
  pub acquire_iff :
      (waits : ℕ) (db : E.redis.Db)
      → ((acquire E self waits db).0 ≡ true)
        ↔ ((k : ℕ) × (k ≤ waits) × ((tried (after_tries k db)).0 ≡ ok true))
  acquire_iff waits db = (acquired→set waits db, λ (k, below, at). set→acquired waits k db below at)
