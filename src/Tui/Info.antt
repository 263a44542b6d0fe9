-- ===== src/Tui/Info.antt =====
-- `InfoState` and `Tab` of tanu-tui/src/widget/info.rs, and the functions of tanu-tui/src/lib.rs on its
-- offsets. The states of tables are left out: nothing that is modelled reads them.
pub mod Selected
pub mod Payload
pub mod Window
use tanu.Prelude.{
  ℕ, zero, suc, ◌+◌, ◌-◌, ◌/◌, ◌%◌, ◌==◌, Bool, false, Option, none, some, if◌then◌else◌, unwrap_or,
}
use tanu.Tui.{TestCaseSelector}

pub data Tab : Type 0 where
  call_tab : Tab
  headers_tab : Tab
  payload_tab : Tab
  error_tab : Tab

pub data CursorMovement : Type 0 where
  up : CursorMovement
  down : CursorMovement
  up_half_screen : CursorMovement
  down_half_screen : CursorMovement
  home : CursorMovement
  end : CursorMovement

pub data TabMovement : Type 0 where
  next : TabMovement
  prev : TabMovement

pub record InfoState : Type 0 where
  pub focused : Bool
  pub selected_tab : Tab
  pub selected_test : Option TestCaseSelector
  pub payload_offset : ℕ  -- `payload_state.scroll_offset`, a `u16`
  pub error_offset : ℕ  -- `error_state.scroll_offset`, a `u16`

-- `InfoState::new`
abbrev pub new_info : InfoState
new_info = record {
  focused = false;
  selected_tab = headers_tab;
  selected_test = none;
  payload_offset = 0;
  error_offset = 0;
}

abbrev pub tab_index : Tab → ℕ
tab_index call_tab = 0
tab_index headers_tab = 1
tab_index payload_tab = 2
tab_index error_tab = 3

abbrev tab_of : ℕ → Option Tab
tab_of i =
    if i == 0
    then some call_tab
    else if i == 1
    then some headers_tab
    else if i == 2
    then some payload_tab
    else if i == 3
    then some error_tab
    else none

-- `InfoState::next_tab`
unfoldable pub next_tab : InfoState → InfoState
next_tab s = record s {
  selected_tab = unwrap_or (tab_of ((tab_index s.selected_tab + 1) % 4)) s.selected_tab;
}

-- `current_index.checked_sub(1).unwrap_or(Tab::Error as usize)`
abbrev before : ℕ → ℕ
before zero = 3
before (suc i) = i

-- `InfoState::prev_tab`
unfoldable pub prev_tab : InfoState → InfoState
prev_tab s = record s {
  selected_tab = unwrap_or (tab_of (before (tab_index s.selected_tab) % 4)) s.selected_tab;
}

-- The functions on offsets change the model in its `info_state` alone; `val` is the value `as u16`.
unfoldable pub offset_begin : InfoState → InfoState
offset_begin s = elim s.selected_tab [
  | call_tab ↦ s
  | headers_tab ↦ s
  | payload_tab ↦ record s { payload_offset = 0 }
  | error_tab ↦ record s { error_offset = 0 }
]

unfoldable pub offset_end : InfoState → InfoState
offset_end s = s

unfoldable pub offset_down : ℕ → InfoState → InfoState
offset_down val s = elim s.selected_tab [
  | call_tab ↦ s
  | headers_tab ↦ s
  | payload_tab ↦ record s { payload_offset = (s.payload_offset + val) % 65536 }
  | error_tab ↦ record s { error_offset = (s.error_offset + val) % 65536 }
]

unfoldable pub offset_up : ℕ → InfoState → InfoState
offset_up val s = elim s.selected_tab [
  | call_tab ↦ s
  | headers_tab ↦ s
  | payload_tab ↦ record s { payload_offset = s.payload_offset - val }
  | error_tab ↦ record s { error_offset = s.error_offset - val }
]

unfoldable pub scroll : ℕ → CursorMovement → InfoState → InfoState
unfolding offset_down offset_up offset_begin offset_end
scroll terminal_height down = offset_down 1
scroll terminal_height down_half_screen = offset_down (terminal_height / 2)
scroll terminal_height up = offset_up 1
scroll terminal_height up_half_screen = offset_up (terminal_height / 2)
scroll terminal_height home = offset_begin
scroll terminal_height end = offset_end
