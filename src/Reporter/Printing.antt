-- ===== src/Reporter/Printing.antt =====
-- What the list reporter prints at the end of a test, and whether it goes on after that.
use tanu.Prelude.{
  Bool, true, false, not, any, List, [], ◌∷◌, ◌++◌, map, Option, none, some, All, if◌then◌else◌,
  ◌≡◌, ◌∙◌, refl, inl, inr, ℕ, Bool-cases, Option-cases, ap, sym, append-nil, ok, arith,
}
use tanu.Config.{CaptureHttpMode}
use tanu.Runner.{Test, end, Event}
use tanu.Reporter.{
  Key, Buffer, Line, end_line, http_log, grpc_log, broken_log, ListReporter, Received, received,
  lagged, should_print, new, get_mut, on_end, end_with, get_or_insert_number, run, write_logs,
  log_lines, breaks, key_of, dispatch, recv_loop,
}
use tanu.Reporter.Pending.{Logs, pending, newest_first, Agrees, recv_loop-Agrees, new-Agrees}

module _ {H G : Type 0} (readable : H → Bool) where
  recv_loop-append :
      (rs qs : List (Received H G)) (s : ListReporter H G)
      → (recv_loop readable rs s).panicked ≡ false
      → recv_loop readable (rs ++ qs) s ≡ recv_loop readable qs (recv_loop readable rs s)
  unfolding recv_loop
  recv_loop-append [] qs s h = refl
  recv_loop-append (lagged ∷ rs) qs s h = recv_loop-append rs qs s h
  recv_loop-append (received e ∷ rs) qs s h =
      let t = (dispatch readable (key_of e) e.body s).1 in
      go t (recv_loop readable rs t) (recv_loop readable (rs ++ qs) t) t.panicked refl
        (λ k. recv_loop-append rs qs t k) h
    where
      go :
          (t u w : ListReporter H G) (b : Bool)
          → t.panicked ≡ b
          → (u.panicked ≡ false → w ≡ recv_loop readable qs u)
          → (if b then t else u).panicked ≡ false
          → (if b then t else w) ≡ recv_loop readable qs (if b then t else u)
      go t u w true y f h = ground (arith, y, h)
      go t u w false n f h = f h

  last_event :
      (e : Event H G) (s : ListReporter H G)
      → recv_loop readable (received e ∷ []) s ≡ (dispatch readable (key_of e) e.body s).1
  unfolding recv_loop
  last_event e s = same (dispatch readable (key_of e) e.body s).1.panicked
    where
      same : {t : ListReporter H G} (b : Bool) → (if b then t else t) ≡ t
      same true = refl
      same false = refl

  -- The logs as they are written: all of them, those of HTTP first, or up to one that is not readable,
  -- which panics.
  pub data Written (hs : List H) (gs : List G) : List (Line H G) → Bool → Type 0 where
    whole :
        All (λ h. readable h ≡ true) hs → Written hs gs (map http_log hs ++ map grpc_log gs) false
    broken :
        (before : List H) (h : H) (after : List H)
        → hs ≡ before ++ (h ∷ after)
        → All (λ x. readable x ≡ true) before
        → readable h ≡ false
        → Written hs gs (map http_log before ++ (broken_log h ∷ [])) true

  one_more :
      (h : H) (hs : List H) (gs : List G) (lines : List (Line H G)) (p : Bool)
      → readable h ≡ true
      → Written hs gs lines p
      → Written (h ∷ hs) gs (http_log h ∷ lines) p
  one_more h hs gs lines p r (whole a) = whole (r, a)
  one_more h hs gs lines p r (broken before x after e a b) =
      broken (h ∷ before) x after (ap (λ l. h ∷ l) e) (r, a) b

  write_logs-Written :
      (hs : List H) (gs : List G)
      → Written hs gs (write_logs readable hs gs) (any (λ h. not (readable h)) hs)
  unfolding write_logs
  write_logs-Written [] gs = whole tt
  write_logs-Written (h ∷ hs) gs = elim (Bool-cases (readable h)) [
    | inl y ↦ rw y (one_more h hs gs _ _ y (write_logs-Written hs gs))
    | inr n ↦ rw n (broken [] h hs refl tt n)
  ]

  -- what the end of a test adds to the terminal, and whether it panics
  abbrev pub Printed :
      CaptureHttpMode → Key → Test → Option (Logs H G) → List (Line H G) → Bool → Type 0
  Printed mode k test none lines p = (lines ≡ []) × (p ≡ false)
  Printed mode k test (some (hs, gs)) lines p =
      (n : ℕ) × (logs : List (Line H G)) × (lines
        ≡ end_line n k.0 test.info.module_path test.info.name test.result ∷ logs)
      × (if should_print mode test then Written hs gs logs p else (logs ≡ []) × (p ≡ false))

  logs-Written :
      (print : Bool) (b : Buffer H G)
      → (if print
          then Written b.http_logs b.grpc_logs
              (log_lines readable print b)
              (breaks readable print b)
          else (log_lines readable print b ≡ []) × (breaks readable print b ≡ false))
  unfolding log_lines breaks
  logs-Written true b = write_logs-Written b.http_logs b.grpc_logs
  logs-Written false b = (refl, refl)

  end-Printed :
      (mode : CaptureHttpMode) (past : List (Received H G)) (k : Key) (test : Test)
      (s : ListReporter H G)
      → Agrees mode past s
      → s.panicked ≡ false
      → (lines : List (Line H G)) × ((dispatch readable k (end test) s).1.terminal
          ≡ s.terminal ++ lines)
        × Printed mode k test
            (pending mode k past)
            lines
            (dispatch readable k (end test) s).1.panicked
  unfolding dispatch on_end end_with
  end-Printed mode past k test s a h = elim (Option-cases (get_mut k s.buffer)) [
    | inl e ↦ ([], rw e (sym (append-nil s.terminal)), rw (← a.same_logs k, e) (refl, h))
    | inr (b, e) ↦ (
      end_line (get_or_insert_number b.test_number s.test_numbers).0 k.0 test.info.module_path
            test.info.name test.result
          ∷ log_lines readable (should_print s.capture_http test) b,
      rw e refl,
      rw (← a.same_logs k, e, ← a.same_mode)
          (
            (get_or_insert_number b.test_number s.test_numbers).0,
            log_lines readable (should_print s.capture_http test) b,
            refl,
            logs-Written (should_print s.capture_http test) b,
          ),
    )
  ]

  -- Whatever the events of all tests so far, while the reporter has not panicked: the end of a test
  -- prints nothing if the test is not running, and else its line and, if the mode asks for them, the
  -- logs of its calls since its last start or retry, in their order, those of HTTP first: no log of
  -- another test or of an earlier attempt. At the first HTTP log of these that is not readable the
  -- reporter panics, and prints no log after it; else it goes on. Lost events are ignored.
  pub run-Printed :
      (mode : CaptureHttpMode) (counter : ℕ) (rs : List (Received H G)) (e : Event H G)
      (test : Test)
      → e.body ≡ end test
      → (run readable (ok rs) (new mode counter)).1.panicked ≡ false
      → (lines : List (Line H G)) × ((run readable
            (ok (rs ++ (received e ∷ [])))
            (new mode counter)).1.terminal
          ≡ (run readable (ok rs) (new mode counter)).1.terminal ++ lines)
        × Printed mode
            (key_of e)
            test
            (pending mode (key_of e) (newest_first rs []))
            lines
            (run readable (ok (rs ++ (received e ∷ []))) (new mode counter)).1.panicked
  unfolding run
  run-Printed mode counter rs e test h n =
      let s = recv_loop readable rs (new mode counter) in
      let p =
        end-Printed mode (newest_first rs []) (key_of e) test s
          (recv_loop-Agrees readable mode [] rs (new mode counter) (new-Agrees mode counter) n) n in
      let at =
        recv_loop-append rs (received e ∷ []) (new mode counter) n
        ∙ last_event e s
        ∙ ap (λ body. (dispatch readable (key_of e) body s).1) h in
      (p.0, ap (λ u. u.terminal) at ∙ p.1, rw at p.2)
