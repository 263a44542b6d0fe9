-- ===== src/Reporter/Pending.antt =====
-- What the list reporter has in store for a test, from the events so far.
use tanu.Prelude.{
  Bool, false, true, List, [], ◌∷◌, ◌++◌, Option, none, some, text_eq_iff, map_option,
  if◌then◌else◌, ◌≡◌, ◌∙◌, refl, arith, inl, inr, ℕ, Option-cases,
}
use tanu.Config.{CaptureHttpMode, off, all, on_failure}
use tanu.Runner.{
  Test, CallLog, http, grpc, EventBody, start, check, call, retry, end, summary, Event,
}
use tanu.Reporter.{
  Key, key_eq, Buffer, ListReporter, Received, received, lagged, new, get_mut, insert, swap_remove,
  on_start, on_call, on_retry, on_end, call_into, retry_into, end_with, push_log, on_summary,
  key_of, dispatch, recv_loop,
}

key_eq_sound : (j k : Key) → key_eq j k ≡ true → j ≡ k
unfolding key_eq
key_eq_sound (a, b, c) (x, y, z) h =
    ground (arith, text_eq_iff a x, text_eq_iff b y, text_eq_iff c z)

abbrev pub Logs : Type 0 → Type 0 → Type 0
Logs H G = List H × List G

module _ {H G : Type 0} where
  abbrev pub logs_of : Buffer H G → Logs H G
  logs_of b = (b.http_logs, b.grpc_logs)

  abbrev pub with_log : CallLog H G → Logs H G → Logs H G
  with_log (http log) (hs, gs) = (hs ++ (log ∷ []), gs)
  with_log (grpc log) (hs, gs) = (hs, gs ++ (log ∷ []))

  abbrev pub logged : CaptureHttpMode → CallLog H G → Logs H G → Logs H G
  logged off log l = l
  logged all log l = with_log log l
  logged on_failure log l = with_log log l

  -- what one event of a test makes of the logs that wait for its end
  abbrev pub after_event : CaptureHttpMode → EventBody H G → Option (Logs H G) → Option (Logs H G)
  after_event mode start o = some ([], [])
  after_event mode (check c) o = o
  after_event mode (call log) o = map_option (logged mode log) o
  after_event mode (retry test) o = map_option (λ l. ([], [])) o
  after_event mode (end test) o = none
  after_event mode (summary t) o = o

  -- The logs that wait for the end of a test, from the events so far, the newest first: its calls since
  -- its last start or retry. `none` where the test has not started or has ended.
  abbrev pub pending : CaptureHttpMode → Key → List (Received H G) → Option (Logs H G)
  pending mode k [] = none
  pending mode k (lagged ∷ older) = pending mode k older
  pending mode k (received e ∷ older) =
      let o = pending mode k older in if key_eq (key_of e) k then after_event mode e.body o else o

  pub get_mut-insert :
      (j k : Key) (b : Buffer H G) (m : List (Key × Buffer H G))
      → get_mut k (insert j b m) ≡ (if key_eq j k then some b else get_mut k m)
  unfolding get_mut insert
  get_mut-insert j k b m = refl

  pub get_mut-swap_remove :
      (j k : Key) (m : List (Key × Buffer H G))
      → get_mut k (swap_remove j m) ≡ (if key_eq j k then none else get_mut k m)
  unfolding get_mut swap_remove
  get_mut-swap_remove j k [] = ground arith
  get_mut-swap_remove (a, b, c) (x, y, z) (((u, v, w), d) ∷ m) =
      unfold key_eq in
      ground (
        arith,
        get_mut-swap_remove (a, b, c) (x, y, z) m,
        text_eq_iff a x,
        text_eq_iff b y,
        text_eq_iff c z,
        text_eq_iff u a,
        text_eq_iff v b,
        text_eq_iff w c,
        text_eq_iff u x,
        text_eq_iff v y,
        text_eq_iff w z,
      )

  -- the buffer agrees with the events
  pub record Agrees (mode : CaptureHttpMode) (past : List (Received H G)) (s : ListReporter H G)
      : Type 0 where
    pub same_mode : s.capture_http ≡ mode
    pub same_logs : (k : Key) → map_option logs_of (get_mut k s.buffer) ≡ pending mode k past

  -- the events, the newest first, after what was there
  abbrev pub newest_first : List (Received H G) → List (Received H G) → List (Received H G)
  newest_first [] past = past
  newest_first (r ∷ rs) past = newest_first rs (r ∷ past)

module _ {H G : Type 0} (readable : H → Bool) where
  module _ (mode : CaptureHttpMode) (past : List (Received H G)) (k j : Key) (s : ListReporter H G)
      (a : Agrees mode past s) where
    -- what the event has to make of the logs of the test `j`
    abbrev Next : EventBody H G → ListReporter H G → Type 0
    Next body t =
        map_option logs_of (get_mut j t.buffer)
        ≡ (if key_eq k j then after_event mode body (pending mode j past) else pending mode j past)

    start-Next : Next start (dispatch readable k start s).1
    unfolding dispatch on_start
    start-Next = ground (arith, a.same_logs j, get_mut-insert k j _ s.buffer)

    call-Next : (log : CallLog H G) → Next (call log) (dispatch readable k (call log) s).1
    unfolding dispatch on_call call_into push_log
    call-Next log = elim (Option-cases (get_mut k s.buffer)) [
      | inl e ↦ ground (arith, e, a.same_logs j, a.same_logs k, a.same_mode, key_eq_sound k j)
      | inr (b, e) ↦ ground (
        arith,
        e,
        a.same_logs j,
        a.same_logs k,
        a.same_mode,
        key_eq_sound k j,
        get_mut-insert k j (push_log log b) s.buffer,
      )
    ]

    retry-Next : (test : Test) → Next (retry test) (dispatch readable k (retry test) s).1
    unfolding dispatch on_retry retry_into
    retry-Next test = elim (Option-cases (get_mut k s.buffer)) [
      | inl e ↦ ground (arith, e, a.same_logs j, a.same_logs k, key_eq_sound k j)
      | inr (b, e) ↦
          ground (
            arith,
            e,
            a.same_logs j,
            a.same_logs k,
            key_eq_sound k j,
            get_mut-insert k j _ s.buffer,
          )
    ]

    end-Next : (test : Test) → Next (end test) (dispatch readable k (end test) s).1
    unfolding dispatch on_end end_with
    end-Next test = elim (Option-cases (get_mut k s.buffer)) [
      | inl e ↦ ground (arith, e, a.same_logs j, a.same_logs k, key_eq_sound k j)
      | inr (b, e) ↦ ground (
        arith,
        e,
        a.same_logs j,
        a.same_logs k,
        key_eq_sound k j,
        get_mut-swap_remove k j s.buffer,
      )
    ]

    body-Next : (body : EventBody H G) → Next body (dispatch readable k body s).1
    body-Next start = start-Next
    body-Next (check c) = unfold dispatch in ground (arith, a.same_logs j)
    body-Next (call log) = call-Next log
    body-Next (retry test) = retry-Next test
    body-Next (end test) = end-Next test
    body-Next (summary t) = unfold dispatch in unfold on_summary in ground (arith, a.same_logs j)

  dispatch-mode :
      (k : Key) (body : EventBody H G) (s : ListReporter H G)
      → (dispatch readable k body s).1.capture_http ≡ s.capture_http
  unfolding dispatch on_start on_call on_retry on_end call_into retry_into end_with on_summary
  dispatch-mode k start s = refl
  dispatch-mode k (check c) s = refl
  dispatch-mode k (call log) s = ground (arith, Option-cases (get_mut k s.buffer))
  dispatch-mode k (retry test) s = ground (arith, Option-cases (get_mut k s.buffer))
  dispatch-mode k (end test) s = ground (arith, Option-cases (get_mut k s.buffer))
  dispatch-mode k (summary t) s = refl

  dispatch-Agrees :
      (mode : CaptureHttpMode) (past : List (Received H G)) (e : Event H G) (s : ListReporter H G)
      → Agrees mode past s
      → Agrees mode (received e ∷ past) (dispatch readable (key_of e) e.body s).1
  dispatch-Agrees mode past e s a = record {
    same_mode = dispatch-mode (key_of e) e.body s ∙ a.same_mode;
    same_logs = λ k. body-Next mode past (key_of e) k s a e.body;
  }

  -- A loop that has not panicked agrees with all events.
  pub recv_loop-Agrees :
      (mode : CaptureHttpMode) (past rs : List (Received H G)) (s : ListReporter H G)
      → Agrees mode past s
      → (recv_loop readable rs s).panicked ≡ false
      → Agrees mode (newest_first rs past) (recv_loop readable rs s)
  unfolding recv_loop
  recv_loop-Agrees mode past [] s a h = a
  recv_loop-Agrees mode past (lagged ∷ rs) s a h =
      recv_loop-Agrees mode (lagged ∷ past) rs s
        (record { same_mode = a.same_mode; same_logs = a.same_logs }) h
  recv_loop-Agrees mode past (received e ∷ rs) s a h =
      go (dispatch readable (key_of e) e.body s).1.panicked
        (λ k.
          recv_loop-Agrees mode (received e ∷ past) rs (dispatch readable (key_of e) e.body s).1
            (dispatch-Agrees mode past e s a) k)
        (dispatch-Agrees mode past e s a) refl h
    where
      go :
          {t u : ListReporter H G} (b : Bool)
          → (u.panicked ≡ false → Agrees mode (newest_first rs (received e ∷ past)) u)
          → Agrees mode (received e ∷ past) t
          → t.panicked ≡ b
          → (if b then t else u).panicked ≡ false
          → Agrees mode (newest_first rs (received e ∷ past)) (if b then t else u)
      go true f b y h = ground (arith, y, h)
      go false f b n h = f h

pub new-Agrees :
    {H G : Type 0} (mode : CaptureHttpMode) (counter : ℕ)
    → Agrees {H = H} {G = G} mode [] (new mode counter)
unfolding new get_mut
new-Agrees mode counter = record { same_mode = refl; same_logs = λ k. refl }
