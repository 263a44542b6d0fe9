-- ===== src/Runner/Execute/Serial.antt =====
-- The serial mutex during a test, and how often the body is called, whatever the test body and the
-- channel do.
use tanu.Prelude.{
  ℕ, zero, suc, ◌+◌, ◌≤◌, ℤ, Bool, true, false, List, [], ◌∷◌, Option, none, some, ◌≡◌, refl, arith,
  unwrap_or,
}
use tanu.Config.{ProjectConfig}
use tanu.Runner.{TestInfo}
use tanu.Runner.Execute.{
  Attempt, returned, failed, panic, Action, lock, unlock, called, published, start, World, Env,
  Retry, attempt, execute_test, publish, finish,
}

-- Whether the mutex is held after a trace, the newest action first; `none` where an action of the
-- trace breaks the discipline: a lock while held, an unlock while free, a call of the body while free.
abbrev pub held : List Action → Option Bool
held [] = some false
held (lock ∷ t) = elim (held t) [
  | some b ↦ (elim b [ false ↦ some true | true ↦ none ])
  | none ↦ none
]
held (unlock ∷ t) = elim (held t) [
  | some b ↦ (elim b [ true ↦ some false | false ↦ none ])
  | none ↦ none
]
held (called ∷ t) = elim (held t) [
  | some b ↦ (elim b [ true ↦ some true | false ↦ none ])
  | none ↦ none
]
held (published n ∷ t) = held t

-- An invariant of one attempt, over the number of attempts that are left, is one of the retries: they
-- end with some attempts left, after at least one.
module _ (retry : Retry) (f : World → Attempt × World) (P : ℕ → World → Type 0)
    (keep : (n : ℕ) (w : World) → P (suc n) w → P n (f w).1) where
  open retry use {run, run-zero, run-returned, run-panic, run-failed}

  abbrev Ends : ℕ → World → Type 0
  Ends n w = (m : ℕ) × (m ≤ n) × P m w

  first-Ends :
      (n : ℕ) (w w' : World) (r : Attempt)
      → f w ≡ (r, w')
      → ((v : World) → P (suc n) v → Ends n (run n f v).1)
      → P (suc n) w'
      → Ends (suc n) (run (suc n) f w).1
  first-Ends n w w' returned e rest h = (suc n, omega arith, rw (run-returned n f w w' e) h)
  first-Ends n w w' (panic p) e rest h = (suc n, omega arith, rw (run-panic n f w w' p e) h)
  first-Ends n w w' (failed x) e rest h =
      let (m, le, q) = rest w' h in (m, omega arith, rw (run-failed n f w w' x e) q)

  run-Ends : (n : ℕ) (w : World) → P (suc n) w → Ends n (run n f w).1
  run-Ends zero w h = (zero, omega arith, rw (run-zero f w) (keep zero w h))
  run-Ends (suc n) w h = first-Ends n w (f w).1 (f w).0 refl (run-Ends n) (keep (suc n) w h)

module _ (env : Env) (info : TestInfo) (worker_id : ℤ) where
  attempt-held :
      (w : World)
      → held w.trace ≡ some false
      → held (attempt env info true worker_id w).1.trace ≡ some false
  unfolding attempt
  attempt-held w h = ground arith

  attempt-calls :
      (serial : Bool) (w : World) → (attempt env info serial worker_id w).1.calls ≡ w.calls + 1
  unfolding attempt
  attempt-calls serial w = ground arith

  -- what holds when a test may still make `n` attempts
  abbrev Budget : ℕ → ℕ → World → Type 0
  Budget bound n w = (held w.trace ≡ some false) × (w.calls + n ≡ bound)

  attempt-Budget :
      (bound n : ℕ) (w : World)
      → Budget bound (suc n) w
      → Budget bound n (attempt env info true worker_id w).1
  attempt-Budget bound n w h = (attempt-held w h.0, omega (arith, attempt-calls true w))

  finish-held :
      (a : Attempt) (w : World)
      → held w.trace ≡ some false
      → (held (finish env info true worker_id (a, w)).1.trace ≡ some false)
        × ((finish env info true worker_id (a, w)).1.calls ≡ w.calls)
  unfolding finish
  finish-held a w h = ground arith

  -- A test of a serial group takes the mutex for each call of its body and gives it back after it, also
  -- where the body panics or an event cannot be sent; it never takes it twice and ends without it.
  -- The body is called at most once more than the retries that are configured.
  pub execute_test-serial :
      {V : Type 0} (retry : Retry) (project : ProjectConfig V) (w : World)
      → held w.trace ≡ some false
      → (held (execute_test env info true worker_id retry project w).1.trace ≡ some false)
        × ((execute_test env info true worker_id retry project w).1.calls
            ≤ w.calls + unwrap_or project.retry.count 0 + 1)
  unfolding execute_test publish
  execute_test-serial retry project w h =
      let n = unwrap_or project.retry.count 0 in
      let w'' : World = record w {
        sends = w.sends + 1;
        trace = published start ∷ w.trace;
        retry_count = n;
      } in
      let f = attempt env info true worker_id in
      let (m, le, (hm, cm)) =
        run-Ends retry f (Budget (w.calls + suc n)) (attempt-Budget (w.calls + suc n)) n w''
          (h, refl) in
      let r = retry.run n f w'' in ground (arith, finish-held r.0 r.1 hm)
