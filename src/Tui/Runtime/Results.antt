-- ===== src/Tui/Runtime/Results.antt =====
-- The results of tests that the loop of tanu-tui/src/lib.rs collects, from the events of the runner.
use tanu.Prelude.{
  Bool, true, List, [], ◌∷◌, Option, none, some, text_eq_iff, map_option, if◌then◌else◌, ◌≡◌, refl,
  arith, text_eq_refl,
}
use tanu.Runner.{CallLog, EventBody, start, check, call, retry, end, summary, Event, Test}
use tanu.Tui.{TestResult}
use tanu.Tui.Model.{Command}
use tanu.Tui.Runtime.{
  Key, key_eq, Runtime, Tick, draw_tick, cmds_tick, scrl_tick, thrb_tick, runner_done, runner_event,
  key_event, mouse_event, other_event, call_into, finish, on_event, send_command, get_mut, insert,
  remove, push_log, started_result,
}

key_eq_sound : (j k : Key) → key_eq j k ≡ true → j ≡ k
unfolding key_eq
key_eq_sound (a, b) (x, y) h = ground (arith, text_eq_iff a x, text_eq_iff b y)

pub key_eq_refl : (k : Key) → key_eq k k ≡ true
unfolding key_eq
key_eq_refl (a, b) = ground (arith, text_eq_refl a, text_eq_refl b)

module _ {H G : Type 0} where
  pub get_mut-remove :
      (j k : Key) (m : List (Key × TestResult H G))
      → get_mut k (remove j m) ≡ (if key_eq j k then none else get_mut k m)
  unfolding get_mut remove
  get_mut-remove j k [] = ground arith
  get_mut-remove (a, b) (x, y) (((u, v), d) ∷ m) =
      unfold key_eq in
      ground (
        arith,
        get_mut-remove (a, b) (x, y) m,
        text_eq_iff a x,
        text_eq_iff b y,
        text_eq_iff u a,
        text_eq_iff v b,
        text_eq_iff u x,
        text_eq_iff v y,
      )

  abbrev pub event_key : Event H G → Key
  event_key e = (e.project, e.test)

  -- what an event makes of the result that waits for the end of a test of its project and name
  abbrev pub after_event :
      Event H G → EventBody H G → Option (TestResult H G) → Option (TestResult H G)
  after_event e start o = some (started_result e)
  after_event e (check c) o = o
  after_event e (call log) o = map_option (push_log log) o
  after_event e (retry test) o = o
  after_event e (end test) o = none
  after_event e (summary s) o = o

  -- The result that waits for the end of a test of a project and name, after the ticks: it began with
  -- the last start, and has the calls since then, those before a retry among them.
  abbrev pub waiting :
      {M : Type 0}
      → Key
      → List (Bool × Tick H G M)
      → Option (TestResult H G)
      → Option (TestResult H G)
  waiting k [] o = o
  waiting k ((panic, draw_tick layout) ∷ ts) o = waiting k ts o
  waiting k ((panic, cmds_tick) ∷ ts) o = waiting k ts o
  waiting k ((panic, scrl_tick) ∷ ts) o = waiting k ts o
  waiting k ((panic, thrb_tick) ∷ ts) o = waiting k ts o
  waiting k ((panic, runner_done) ∷ ts) o = waiting k ts o
  waiting k ((panic, runner_event e) ∷ ts) o =
      waiting k ts (if key_eq (event_key e) k then after_event e e.body o else o)
  waiting k ((panic, key_event size key) ∷ ts) o = waiting k ts o
  waiting k ((panic, mouse_event size is_left click) ∷ ts) o = waiting k ts o
  waiting k ((panic, other_event) ∷ ts) o = waiting k ts o

module _ {T H G L W M : Type 0} where
  abbrev pub waits : Key → Runtime T H G L W M → Option (TestResult H G)
  waits k r = get_mut k r.test_results_buffer

  call-waits :
      (e : Event H G) (k : Key) (log : CallLog H G) (o : Option (TestResult H G))
      (r : Runtime T H G L W M)
      → get_mut (event_key e) r.test_results_buffer ≡ o
      → waits k (call_into (event_key e) log o r)
        ≡ (if key_eq (event_key e) k then map_option (push_log log) (waits k r) else waits k r)
  unfolding call_into get_mut insert
  call-waits e k log none r h = ground (arith, key_eq_sound (event_key e) k)
  call-waits e k log (some x) r h = ground (arith, key_eq_sound (event_key e) k)

  finish-waits :
      (e : Event H G) (k : Key) (test : Test) (o : Option (TestResult H G))
      (r : Runtime T H G L W M)
      → get_mut (event_key e) r.test_results_buffer ≡ o
      → waits k (finish e test o r) ≡ (if key_eq (event_key e) k then none else waits k r)
  unfolding finish
  finish-waits e k test none r h = ground (arith, key_eq_sound (event_key e) k)
  finish-waits e k test (some x) r h = get_mut-remove (event_key e) k r.test_results_buffer

  pub event-waits :
      (e : Event H G) (body : EventBody H G) (k : Key) (r : Runtime T H G L W M)
      → waits k (on_event e body r)
        ≡ (if key_eq (event_key e) k then after_event e body (waits k r) else waits k r)
  unfolding on_event
  event-waits e start k r = unfold get_mut insert in refl
  event-waits e (check c) k r = ground arith
  event-waits e (call log) k r =
      call-waits e k log (get_mut (event_key e) r.test_results_buffer) r refl
  event-waits e (retry test) k r = ground arith
  event-waits e (end test) k r =
      finish-waits e k test (get_mut (event_key e) r.test_results_buffer) r refl
  event-waits e (summary s) k r = ground arith

  pub send-waits :
      (k : Key) (cmds : List Command) (r : Runtime T H G L W M)
      → waits k (send_command cmds r) ≡ waits k r
  unfolding send_command
  send-waits k [] r = refl
  send-waits k (cmd ∷ cmds) r = refl
