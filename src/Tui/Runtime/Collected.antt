-- ===== src/Tui/Runtime/Collected.antt =====
-- What the loop of tanu-tui/src/lib.rs has collected at the end of a test.
use tanu.Prelude.{
  ℕ, Bool, true, false, not, ◌&&◌, List, [], ◌∷◌, ◌++◌, Option, none, some, Text, Result, ok, err,
  ◌>>=◌, if◌then◌else◌, ◌≡◌, ◌∙◌, refl, sym, ap, subst,
}
use tanu.Runner.{Event, Test}
use tanu.Tui.{TestResult, ProjectState, on_test_updated}
use tanu.Tui.Model.{Message, ListOps, WidgetEvent, select_pane}
use tanu.Tui.Model.Keys.{handle_key}
use tanu.Tui.Runtime.{
  Key, Runtime, Tick, draw_tick, cmds_tick, scrl_tick, thrb_tick, runner_done, runner_event,
  key_event, mouse_event, other_event, quits, on_message, turn, run, get_mut,
}
use tanu.Tui.Runtime.Turns.{Calm}
use tanu.Tui.Runtime.Results.{event_key, waiting, waits, event-waits, send-waits}

waiting-cons :
    {H G M : Type 0} (k : Key) (panic : Bool) (tick : Tick H G M) (ts : List (Bool × Tick H G M))
    (o : Option (TestResult H G))
    → waiting k ((panic, tick) ∷ ts) o ≡ waiting k ts (waiting k ((panic, tick) ∷ []) o)
waiting-cons k panic (draw_tick layout) ts o = refl
waiting-cons k panic cmds_tick ts o = refl
waiting-cons k panic scrl_tick ts o = refl
waiting-cons k panic thrb_tick ts o = refl
waiting-cons k panic runner_done ts o = refl
waiting-cons k panic (runner_event e) ts o = refl
waiting-cons k panic (key_event size key) ts o = refl
waiting-cons k panic (mouse_event size is_left click) ts o = refl
waiting-cons k panic other_event ts o = refl

-- what a test adds to the results at its end
abbrev pub ended_result : {H G : Type 0} → Test → Option (TestResult H G) → List (TestResult H G)
ended_result test none = []
ended_result test (some result) = record result { test = some test } ∷ []

-- how the tree shows it
abbrev pub ended_tree :
    {T H G : Type 0}
    → Event H G
    → Test
    → Option (TestResult H G)
    → List (ProjectState T H G)
    → List (ProjectState T H G)
ended_tree e test none ps = ps
ended_tree e test (some result) ps =
    on_test_updated e.project e.module_path e.test (record result { test = some test }) ps

module _ {T H G L W M : Type 0} where
  -- what the end of a test leaves behind
  pub record Collected (e : Event H G) (test : Test) (o : Option (TestResult H G))
      (r s : Runtime T H G L W M) : Type 0 where
    pub collected : s.model.test_results ≡ r.model.test_results ++ ended_result test o
    pub shown :
        s.model.test_cases_list.projects ≡ ended_tree e test o r.model.test_cases_list.projects
    pub forgotten : get_mut (event_key e) s.test_results_buffer ≡ none

module _ {T H G L W M : Type 0} (ops : ListOps L) (transition : WidgetEvent → W → W) (begun : T)
    (calc_next : T → T) where
  abbrev Becomes : Key → Option (TestResult H G) → Result Text (Runtime T H G L W M) → Type 0
  Becomes k o (err e) = Unit
  Becomes k o (ok r) = waits k r ≡ o

  message-waits :
      (k : Key) (size : Result Text (ℕ × ℕ)) (o : Option (Message M)) (r : Runtime T H G L W M)
      → waits k (on_message ops transition begun calc_next size o r) ≡ waits k r
  unfolding on_message
  message-waits k size none r = refl
  message-waits k size (some msg) r = refl

  turn-Becomes :
      (k : Key) (tick : Tick H G M) (r : Runtime T H G L W M)
      → Becomes k
          (waiting k ((false, tick) ∷ []) (waits k r))
          (turn ops transition begun calc_next tick r)
  unfolding turn
  turn-Becomes k (draw_tick (err e)) r = tt
  turn-Becomes k (draw_tick (ok layout)) r = refl
  turn-Becomes k cmds_tick r = send-waits k r.cmds r
  turn-Becomes k scrl_tick r = refl
  turn-Becomes k thrb_tick r = refl
  turn-Becomes k runner_done r = refl
  turn-Becomes k (runner_event e) r = event-waits e e.body k r
  turn-Becomes k (key_event size key) r = key-Becomes (quits key.code)
    where
      key-Becomes :
          (ends : Bool)
          → Becomes k (waits k r) (
              if ends
              then ok (record r { should_exit = true })
              else ok (
                  on_message ops transition begun calc_next size
                    (handle_key key r.model.current_pane)
                    r))
      key-Becomes true = refl
      key-Becomes false = message-waits k size (handle_key key r.model.current_pane) r
  turn-Becomes k (mouse_event size is_left click) r =
      message-waits k size (if is_left then some (select_pane click) else none) r
  turn-Becomes k other_event r = refl

  waits_next :
      (k : Key) (ticks : List (Bool × Tick H G M)) (r s : Runtime T H G L W M) (exits : Bool)
      (o : Option (TestResult H G)) (w : Result Text (Runtime T H G L W M))
      → r.should_exit ≡ exits
      → s.should_exit ≡ false
      → Becomes k o w
      → ((r' : Runtime T H G L W M)
          → run ops transition begun calc_next ticks r' ≡ ok s
          → waits k s ≡ waiting k ticks (waits k r'))
      → (elim (not exits && not false) as (λ b. Result Text (Runtime T H G L W M)) [
        | false ↦ ok r
        | true ↦ w >>= λ r'. run ops transition begun calc_next ticks r'
      ])
        ≡ ok s
      → waits k s ≡ waiting k ticks o
  waits_next k ticks r s true o w x open_ b rest h = cc
  waits_next k ticks r s false o (err e) x open_ b rest h = cc
  waits_next k ticks r s false o (ok r') x open_ b rest h = rest r' h ∙ ap (waiting k ticks) b

  pub run-waits :
      (k : Key) (ticks : List (Bool × Tick H G M)) (r s : Runtime T H G L W M)
      → Calm ticks
      → run ops transition begun calc_next ticks r ≡ ok s
      → s.should_exit ≡ false
      → waits k s ≡ waiting k ticks (waits k r)
  unfolding run
  run-waits k [] r s c h open_ = ap (waits k) (let same : s ≡ r = cc in same)
  run-waits k ((panic, tick) ∷ ticks) r s c h open_ =
      waits_next k ticks r s r.should_exit (waiting k ((panic, tick) ∷ []) (waits k r))
        (turn ops transition begun calc_next tick r) refl open_
        (subst
          (λ p.
            Becomes k (waiting k ((p, tick) ∷ []) (waits k r))
              (turn ops transition begun calc_next tick r))
          (sym c.0) (turn-Becomes k tick r))
        (λ r' e. run-waits k ticks r' s c.1 e open_) (rw c.0 at h)
      ∙ sym (waiting-cons k panic tick ticks (waits k r))
