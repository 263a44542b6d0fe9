-- ===== src/Tui/Runtime/Turns.antt =====
-- How the loop of tanu-tui/src/lib.rs ends, and what it keeps.
use tanu.Prelude.{
  ℕ, Bool, true, false, not, ◌&&◌, List, [], ◌∷◌, ◌++◌, Option, none, some, Text, Result, ok, err,
  ◌>>=◌, All, if◌then◌else◌, ◌≡◌, ◌⊎◌, refl, sym, subst, arith,
}
use tanu.Runner.{EventBody, start, check, call, retry, end, summary, Event, Test}
use tanu.Tui.{TestResult}
use tanu.Tui.Model.{Message, ListOps, WidgetEvent, select_pane}
use tanu.Tui.Model.Keys.{KeyEvent, KeyCode, char, esc, handle_key}
use tanu.Tui.Model.Focus.{IsFocused, update-IsFocused, view-IsFocused}
use tanu.Tui.Runtime.{
  Runtime, Tick, draw_tick, cmds_tick, scrl_tick, thrb_tick, runner_done, runner_event, key_event,
  mouse_event, other_event, quits, call_into, finish, on_event, on_message, send_command, turn, run,
  get_mut,
}

-- no panic has occurred at a turn
abbrev pub Calm : {H G M : Type 0} → List (Bool × Tick H G M) → Type 0
Calm = All (λ t. t.0 ≡ false)

-- the code of q or of Esc
abbrev pub IsQuit : KeyCode → Type 0
IsQuit code = (code ≡ char b'q') ⊎ (code ≡ esc)

module _ {T H G L W M : Type 0} where
  finish-IsFocused :
      (e : Event H G) (test : Test) (o : Option (TestResult H G)) (r : Runtime T H G L W M)
      → IsFocused r.model
      → IsFocused (finish e test o r).model
  unfolding finish
  finish-IsFocused e test none r h = h
  finish-IsFocused e test (some p) r h = h

  event-IsFocused :
      (e : Event H G) (body : EventBody H G) (r : Runtime T H G L W M)
      → IsFocused r.model
      → IsFocused (on_event e body r).model
  unfolding on_event call_into
  event-IsFocused e start r h = h
  event-IsFocused e (check c) r h = h
  event-IsFocused e (call log) r h =
      ground (arith, get_mut (e.project, e.test) r.test_results_buffer)
  event-IsFocused e (retry test) r h = h
  event-IsFocused e (end test) r h =
      finish-IsFocused e test (get_mut (e.project, e.test) r.test_results_buffer) r h
  event-IsFocused e (summary s) r h = h

  send-IsFocused :
      (r : Runtime T H G L W M) → IsFocused r.model → IsFocused (send_command r.cmds r).model
  unfolding send_command
  send-IsFocused r h = ground arith

module _ {T H G L W M : Type 0} (ops : ListOps L) (transition : WidgetEvent → W → W) (begun : T)
    (calc_next : T → T) where
  abbrev Keeps : Result Text (Runtime T H G L W M) → Type 0
  Keeps (err e) = Unit
  Keeps (ok r) = IsFocused r.model

  message-IsFocused :
      (size : Result Text (ℕ × ℕ)) (o : Option (Message M)) (r : Runtime T H G L W M)
      → IsFocused r.model
      → IsFocused (on_message ops transition begun calc_next size o r).model
  unfolding on_message
  message-IsFocused size none r h = h
  message-IsFocused size (some msg) r h = update-IsFocused ops transition begun size msg r.model h

  turn-Keeps :
      (tick : Tick H G M) (r : Runtime T H G L W M)
      → IsFocused r.model
      → Keeps (turn ops transition begun calc_next tick r)
  unfolding turn
  turn-Keeps (draw_tick (err e)) r h = tt
  turn-Keeps (draw_tick (ok layout)) r h = view-IsFocused layout r.model h
  turn-Keeps cmds_tick r h = send-IsFocused r h
  turn-Keeps scrl_tick r h = h
  turn-Keeps thrb_tick r h = h
  turn-Keeps runner_done r h = h
  turn-Keeps (runner_event e) r h = event-IsFocused e e.body r h
  turn-Keeps (key_event size key) r h = key-Keeps (quits key.code)
    where
      key-Keeps :
          (ends : Bool)
          → Keeps (
              if ends
              then ok (record r { should_exit = true })
              else ok (
                  on_message ops transition begun calc_next size
                    (handle_key key r.model.current_pane)
                    r))
      key-Keeps true = h
      key-Keeps false = message-IsFocused size (handle_key key r.model.current_pane) r h
  turn-Keeps (mouse_event size is_left click) r h =
      message-IsFocused size (if is_left then some (select_pane click) else none) r h
  turn-Keeps other_event r h = h

  Keeps-run :
      (ticks : List (Bool × Tick H G M)) (r : Runtime T H G L W M)
      → IsFocused r.model
      → Keeps (run ops transition begun calc_next ticks r)
  unfolding run
  Keeps-run [] r h = h
  Keeps-run ((panic, tick) ∷ ticks) r h =
      next (not r.should_exit && not panic) (turn ops transition begun calc_next tick r)
        (turn-Keeps tick r h) (λ r' k. Keeps-run ticks r' k)
    where
      next :
          (goes_on : Bool) (w : Result Text (Runtime T H G L W M))
          → Keeps w
          → ((r' : Runtime T H G L W M)
              → IsFocused r'.model
              → Keeps (run ops transition begun calc_next ticks r'))
          → Keeps (elim goes_on as (λ b. Result Text (Runtime T H G L W M)) [
            | false ↦ ok r
            | true ↦ w >>= λ r'. run ops transition begun calc_next ticks r'
          ])
      next false w k rest = h
      next true (err e) k rest = tt
      next true (ok r') k rest = rest r' k

  -- Whatever the loop is given, if it ends without an error, the flag of the info pane says at its end
  -- whether it is the current pane, if it did at the beginning.
  pub run-IsFocused :
      (ticks : List (Bool × Tick H G M)) (r s : Runtime T H G L W M)
      → IsFocused r.model
      → run ops transition begun calc_next ticks r ≡ ok s
      → IsFocused s.model
  run-IsFocused ticks r s h e = subst Keeps e (Keeps-run ticks r h)

  run_exited :
      (ticks : List (Bool × Tick H G M)) (r : Runtime T H G L W M)
      → r.should_exit ≡ true
      → run ops transition begun calc_next ticks r ≡ ok r
  unfolding run
  run_exited [] r h = refl
  run_exited ((panic, tick) ∷ ticks) r h = rw h refl

  -- Without a panic the loop over a longer list goes on where it stood.
  pub run-append :
      (xs ys : List (Bool × Tick H G M)) (r : Runtime T H G L W M)
      → Calm xs
      → run ops transition begun calc_next (xs ++ ys) r
        ≡ (run ops transition begun calc_next xs r >>= λ s. run ops transition begun calc_next ys s)
  unfolding run
  run-append [] ys r c = refl
  run-append ((panic, tick) ∷ xs) ys r c = rw c.0 (
      next r.should_exit refl (turn ops transition begun calc_next tick r)
        (λ r'. run-append xs ys r' c.1))
    where
      later : Runtime T H G L W M → Result Text (Runtime T H G L W M)
      later s = run ops transition begun calc_next ys s

      next :
          (exits : Bool)
          → r.should_exit ≡ exits
          → (w : Result Text (Runtime T H G L W M))
          → ((r' : Runtime T H G L W M)
              → run ops transition begun calc_next (xs ++ ys) r'
                ≡ (run ops transition begun calc_next xs r' >>= later))
          → (elim (not r.should_exit && not false) as (λ b. Result Text (Runtime T H G L W M)) [
            | false ↦ ok r
            | true ↦ w >>= λ r'. run ops transition begun calc_next (xs ++ ys) r'
          ])
            ≡ ((elim (not r.should_exit && not false) as (λ b. Result Text (Runtime T H G L W M)) [
              | false ↦ ok r
              | true ↦ w >>= λ r'. run ops transition begun calc_next xs r'
            ])
                >>= later)
      next true e w rest = rw e (sym (run_exited ys r e))
      next false e (err x) rest = rw e refl
      next false e (ok r') rest = rw e (rest r')

  -- What a key makes of the loop at a state, with what comes after it.
  abbrev pub Pressed :
      KeyEvent
      → Runtime T H G L W M
      → List (Bool × Tick H G M)
      → Result Text (Runtime T H G L W M)
      → Type 0
  Pressed key s after w =
      (IsQuit key.code × (w ≡ ok (record s { should_exit = true })))
      ⊎ ((¬ IsQuit key.code)
          × ((t : Runtime T H G L W M) × (t.should_exit ≡ s.should_exit)
              × (w ≡ run ops transition begun calc_next after t)))
