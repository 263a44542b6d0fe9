-- ===== src/Tui/Runtime/Queue.antt =====
-- The commands that the loop of tanu-tui/src/lib.rs queues and sends to the runner.
use tanu.Prelude.{
  ℕ, Bool, true, false, not, ◌&&◌, List, [], ◌∷◌, ◌++◌, Option, none, some, Text, Result, ok, err,
  append-nil, append_assoc, if◌then◌else◌, ◌≡◌, ◌∙◌, refl, sym, ap, arith, ◌>>=◌,
}
use tanu.Runner.{EventBody, start, check, call, retry, end, summary, Event, Test}
use tanu.Tui.{TestResult}
use tanu.Tui.Model.{Model, Message, Command, ListOps, WidgetEvent, selection, update, select_pane}
use tanu.Tui.Model.Keys.{handle_key}
use tanu.Tui.Model.Updates.{command_of, update-command_of}
use tanu.Tui.Runtime.{
  Runtime, Tick, draw_tick, cmds_tick, scrl_tick, thrb_tick, runner_done, runner_event, key_event,
  mouse_event, other_event, quits, push_back, call_into, finish, on_event, on_message, send_command,
  turn, run, get_mut,
}

abbrev to_list : Option Command → List Command
to_list none = []
to_list (some cmd) = cmd ∷ []

push_back-ok :
    (o : Option Command) (cmds : List Command) → push_back (ok o) cmds ≡ cmds ++ to_list o
push_back-ok none cmds = sym (append-nil cmds)
push_back-ok (some cmd) cmds = refl

module _ {T H G L W M : Type 0} where
  -- the commands on their way, the oldest first
  abbrev pub on_way : Runtime T H G L W M → List Command
  on_way r = r.sent ++ r.cmds

  module _ (ops : ListOps L) where
    -- what a message asks for, if the size of the terminal is known
    abbrev pub asked_by :
        Result Text (ℕ × ℕ) → Option (Message M) → Model T H G L W M → List Command
    asked_by (err e) o m = []
    asked_by (ok size) none m = []
    asked_by (ok size) (some msg) m = to_list (command_of msg (selection ops m))

    -- what a tick asks for, by the pane and the row that are current
    abbrev pub asked : Tick H G M → Model T H G L W M → List Command
    asked (draw_tick layout) m = []
    asked cmds_tick m = []
    asked scrl_tick m = []
    asked thrb_tick m = []
    asked runner_done m = []
    asked (runner_event e) m = []
    asked (key_event size key) m =
        if quits key.code then [] else asked_by size (handle_key key m.current_pane) m
    asked (mouse_event size is_left click) m =
        asked_by size (if is_left then some (select_pane click) else none) m
    asked other_event m = []

  finish-on_way :
      (e : Event H G) (test : Test) (o : Option (TestResult H G)) (r : Runtime T H G L W M)
      → on_way (finish e test o r) ≡ on_way r
  unfolding finish
  finish-on_way e test none r = refl
  finish-on_way e test (some p) r = refl

  on_event-on_way :
      (e : Event H G) (body : EventBody H G) (r : Runtime T H G L W M)
      → on_way (on_event e body r) ≡ on_way r
  unfolding on_event call_into
  on_event-on_way e start r = refl
  on_event-on_way e (check c) r = refl
  on_event-on_way e (call log) r = ground (arith, get_mut (e.project, e.test) r.test_results_buffer)
  on_event-on_way e (retry test) r = refl
  on_event-on_way e (end test) r =
      finish-on_way e test (get_mut (e.project, e.test) r.test_results_buffer) r
  on_event-on_way e (summary s) r = refl

  send-on_way :
      (cmds : List Command) (r : Runtime T H G L W M)
      → r.cmds ≡ cmds
      → on_way (send_command cmds r) ≡ on_way r
  unfolding send_command
  send-on_way [] r h = refl
  send-on_way (cmd ∷ cmds) r h = append_assoc r.sent (cmd ∷ []) cmds ∙ ap (λ l. r.sent ++ l) (sym h)

  module _ (ops : ListOps L) (transition : WidgetEvent → W → W) (begun : T)
      (calc_next : T → T) where
    message-on_way :
        (size : Result Text (ℕ × ℕ)) (o : Option (Message M)) (r : Runtime T H G L W M)
        → on_way (on_message ops transition begun calc_next size o r)
          ≡ on_way r ++ asked_by ops size o r.model
    unfolding on_message
    message-on_way (err e) none r = sym (append-nil (on_way r))
    message-on_way (ok size) none r = sym (append-nil (on_way r))
    message-on_way (err e) (some msg) r = unfold update in sym (append-nil (on_way r))
    message-on_way (ok size) (some msg) r =
        ap (λ c. r.sent ++ push_back c r.cmds)
          (update-command_of ops transition begun size msg r.model)
        ∙ ap (λ l. r.sent ++ l) (push_back-ok (command_of msg (selection ops r.model)) r.cmds)
        ∙ sym (append_assoc r.sent r.cmds (to_list (command_of msg (selection ops r.model))))

    -- what is on its way after a turn that went well
    abbrev Into : List Command → Result Text (Runtime T H G L W M) → Type 0
    Into cmds (err e) = Unit
    Into cmds (ok r') = on_way r' ≡ cmds

    -- a key that ends the loop or not
    key-Follows :
        (ends : Bool) (size : Result Text (ℕ × ℕ)) (o : Option (Message M))
        (r : Runtime T H G L W M)
        → Into (on_way r ++ (if ends then [] else asked_by ops size o r.model)) (
            if ends
            then ok (record r { should_exit = true })
            else ok (on_message ops transition begun calc_next size o r))
    key-Follows true size o r = sym (append-nil (on_way r))
    key-Follows false size o r = message-on_way size o r

    turn-Follows :
        (tick : Tick H G M) (r : Runtime T H G L W M)
        → Into (on_way r ++ asked ops tick r.model) (turn ops transition begun calc_next tick r)
    unfolding turn
    turn-Follows (draw_tick (err e)) r = tt
    turn-Follows (draw_tick (ok layout)) r = sym (append-nil (on_way r))
    turn-Follows cmds_tick r = send-on_way r.cmds r refl ∙ sym (append-nil (on_way r))
    turn-Follows scrl_tick r = sym (append-nil (on_way r))
    turn-Follows thrb_tick r = sym (append-nil (on_way r))
    turn-Follows runner_done r = sym (append-nil (on_way r))
    turn-Follows (runner_event e) r = on_event-on_way e e.body r ∙ sym (append-nil (on_way r))
    turn-Follows (key_event size key) r =
        key-Follows (quits key.code) size (handle_key key r.model.current_pane) r
    turn-Follows (mouse_event size is_left click) r =
        message-on_way size (if is_left then some (select_pane click) else none) r
    turn-Follows other_event r = sym (append-nil (on_way r))

    -- what the ticks ask for until the loop ends
    abbrev pub all_asked : List (Bool × Tick H G M) → Runtime T H G L W M → List Command
    all_asked [] r = []
    all_asked ((panic_occurred, tick) ∷ ticks) r = elim (not r.should_exit && not panic_occurred) [
      | false ↦ []
      | true ↦ elim (turn ops transition begun calc_next tick r) [
        | err e ↦ []
        | ok r' ↦ asked ops tick r.model ++ all_asked ticks r'
      ]
    ]

    one_turn :
        (tick : Tick H G M) (ticks : List (Bool × Tick H G M)) (r s : Runtime T H G L W M)
        (goes_on : Bool) (w : Result Text (Runtime T H G L W M))
        → ((r' : Runtime T H G L W M)
            → run ops transition begun calc_next ticks r' ≡ ok s
            → on_way s ≡ on_way r' ++ all_asked ticks r')
        → Into (on_way r ++ asked ops tick r.model) w
        → (elim goes_on as (λ b. Result Text (Runtime T H G L W M)) [
          | false ↦ ok r
          | true ↦ w >>= λ r'. run ops transition begun calc_next ticks r'
        ])
          ≡ ok s
        → on_way s
          ≡ on_way r ++ (elim goes_on as (λ b. List Command) [
            | false ↦ []
            | true ↦ elim w as (λ v. List Command) [
              | err e ↦ []
              | ok r' ↦ asked ops tick r.model ++ all_asked ticks r'
            ]
          ])
    one_turn tick ticks r s false w rest h e =
        let same : r ≡ s = cc in ap on_way (sym same) ∙ sym (append-nil (on_way r))
    one_turn tick ticks r s true (err x) rest h e = cc
    one_turn tick ticks r s true (ok r') rest h e =
        rest r' e
        ∙ ap (λ l. l ++ all_asked ticks r') h
        ∙ append_assoc (on_way r) (asked ops tick r.model) (all_asked ticks r')

    -- The commands that were sent and those that wait, in this order, are those that were on their way
    -- before and then those that the keys asked for, in their order: none is lost, doubled or overtaken,
    -- whatever else the loop does in between.
    pub run-on_way :
        (ticks : List (Bool × Tick H G M)) (r s : Runtime T H G L W M)
        → run ops transition begun calc_next ticks r ≡ ok s
        → on_way s ≡ on_way r ++ all_asked ticks r
    unfolding run
    run-on_way [] r s h =
        let same : r ≡ s = cc in ap on_way (sym same) ∙ sym (append-nil (on_way r))
    run-on_way ((panic, tick) ∷ ticks) r s h =
        one_turn tick ticks r s (not r.should_exit && not panic)
          (turn ops transition begun calc_next tick r) (λ r' e. run-on_way ticks r' s e)
          (turn-Follows tick r) h
