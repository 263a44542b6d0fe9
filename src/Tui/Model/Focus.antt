-- ===== src/Tui/Model/Focus.antt =====
-- The focus of the info pane, in `update` and `view` of tanu-tui/src/lib.rs: the model has it twice, as
-- the current pane and as a flag of the info pane.
use tanu.Prelude.{ℕ, Option, none, some, Text, Result, ok, err, ◌≡◌, ◌∙◌, refl, arith}
use tanu.Tui.{TestCaseSelector}
use tanu.Tui.Info.{
  Tab, call_tab, headers_tab, payload_tab, error_tab, CursorMovement, up, down, up_half_screen,
  down_half_screen, home, end, next, prev, InfoState, scroll, offset_up, offset_down, offset_begin,
  offset_end, next_tab, prev_tab,
}
use tanu.Tui.Model.{
  Model, one, Message, ListOps, WidgetEvent, maximize, next_pane_message, list_select, list_expand,
  info_select, info_tab_select, logger_select, execute_one_message, execute_all_message,
  select_pane, is_info, next_pane, selection, update, handle, execute_selected, refresh,
}
use tanu.Tui.Model.Clicks.{Layout, view}

down-focused :
    (val : ℕ) (s : InfoState) (t : Tab)
    → s.selected_tab ≡ t
    → (offset_down val s).focused ≡ s.focused
unfolding offset_down
down-focused val s call_tab e = ground arith
down-focused val s headers_tab e = ground arith
down-focused val s payload_tab e = ground arith
down-focused val s error_tab e = ground arith

up-focused :
    (val : ℕ) (s : InfoState) (t : Tab) → s.selected_tab ≡ t → (offset_up val s).focused ≡ s.focused
unfolding offset_up
up-focused val s call_tab e = ground arith
up-focused val s headers_tab e = ground arith
up-focused val s payload_tab e = ground arith
up-focused val s error_tab e = ground arith

begin-focused :
    (s : InfoState) (t : Tab) → s.selected_tab ≡ t → (offset_begin s).focused ≡ s.focused
unfolding offset_begin
begin-focused s call_tab e = ground arith
begin-focused s headers_tab e = ground arith
begin-focused s payload_tab e = ground arith
begin-focused s error_tab e = ground arith

scroll-focused :
    (terminal_height : ℕ) (movement : CursorMovement) (s : InfoState)
    → (scroll terminal_height movement s).focused ≡ s.focused
unfolding scroll offset_end
scroll-focused n up s = up-focused _ s s.selected_tab refl
scroll-focused n down s = down-focused _ s s.selected_tab refl
scroll-focused n up_half_screen s = up-focused _ s s.selected_tab refl
scroll-focused n down_half_screen s = down-focused _ s s.selected_tab refl
scroll-focused n home s = begin-focused s s.selected_tab refl
scroll-focused n end s = refl

module _ {T H G L W M : Type 0} where
  -- the info pane has the focus exactly when it is the current pane
  abbrev pub IsFocused : Model T H G L W M → Type 0
  IsFocused m = m.info_state.focused ≡ is_info m.current_pane

  module _ (ops : ListOps L) (transition : WidgetEvent → W → W) (begun : T) where
    execute-IsFocused :
        (o : Option TestCaseSelector) (m : Model T H G L W M)
        → IsFocused m
        → IsFocused (execute_selected ops transition begun o m).1
    unfolding execute_selected
    execute-IsFocused none m h = h
    execute-IsFocused (some sel) m h = h

    handle-IsFocused :
        (height : ℕ) (msg : Message M) (m : Model T H G L W M)
        → IsFocused m
        → IsFocused (handle ops transition begun height msg m).1
    unfolding handle refresh next_pane next_tab prev_tab
    handle-IsFocused n maximize m h = h
    handle-IsFocused n next_pane_message m h = refl
    handle-IsFocused n (list_select movement) m h = h
    handle-IsFocused n list_expand m h = h
    handle-IsFocused n (info_select movement) m h = scroll-focused n movement m.info_state ∙ h
    handle-IsFocused n (info_tab_select next) m h = h
    handle-IsFocused n (info_tab_select prev) m h = h
    handle-IsFocused n (logger_select e) m h = h
    handle-IsFocused n execute_one_message m h =
        execute-IsFocused (selection ops m) (record m { current_exec = some one }) h
    handle-IsFocused n execute_all_message m h = h
    handle-IsFocused n (select_pane click) m h = h

    -- Every message keeps the two views of the focus in agreement, also where the size of the terminal
    -- cannot be read.
    pub update-IsFocused :
        (size : Result Text (ℕ × ℕ)) (msg : Message M) (m : Model T H G L W M)
        → IsFocused m
        → IsFocused (update ops transition begun size msg m).1
    unfolding update
    update-IsFocused (err e) msg m h = h
    update-IsFocused (ok (width, height)) msg m h =
        handle-IsFocused height msg (record m { click = none }) h

  -- Drawing keeps it as well: a click moves both.
  pub view-IsFocused :
      (layout : Layout M) (m : Model T H G L W M) → IsFocused m → IsFocused (view layout m)
  unfolding view
  view-IsFocused layout m h = ground arith
