-- ===== src/Tui/Model/Clicks.antt =====
-- How `view` of tanu-tui/src/lib.rs takes a click: the pane, and the tab, on which it was. ratatui's
-- layout is a record of what the code asks of it.
use tanu.Prelude.{
  ℕ, ◌+◌, ◌%◌, Bool, true, false, ◌&&◌, leb, List, [], ◌∷◌, none, some, if◌then◌else◌,
}
use tanu.Tui.Info.{Tab, call_tab, headers_tab, payload_tab, error_tab}
use tanu.Tui.Model.{Model, Pane, list_pane, info_pane, logger_pane}

-- for a click: whether the areas contain it, and its column
pub record Layout (M : Type 0) : Type 0 where
  pub in_list : M → Bool
  pub in_info : M → Bool
  pub in_tabs : M → Bool
  pub in_logger : M → Bool
  pub column : M → ℕ
  pub tabs_left : ℕ  -- `layout_tabs.left()`

-- `tab.to_string().len() + TAB_PADDING`
abbrev tab_length : Tab → ℕ
tab_length call_tab = 8
tab_length headers_tab = 11
tab_length payload_tab = 11
tab_length error_tab = 9

-- the loop over the tabs, from the column `left`, a `u16`
abbrev tab_at : ℕ → ℕ → List Tab → Tab → Tab
tab_at x left [] old = old
tab_at x left (t ∷ ts) old =
    let rest = tab_at x ((left + (tab_length t + 1)) % 65536) ts old in
    if leb left x && leb x ((left + tab_length t) % 65536) then t else rest

abbrev tabs : List Tab
tabs = call_tab ∷ headers_tab ∷ payload_tab ∷ error_tab ∷ []

module _ {T H G L W M : Type 0} where
  -- the pane is the current one, and the info pane is focused or not
  abbrev focus : Pane → Bool → Model T H G L W M → Model T H G L W M
  focus pane focused m = record m {
    current_pane = pane;
    info_state = record m.info_state { focused = focused };
  }

  select_tab : Layout M → M → Model T H G L W M → Model T H G L W M
  select_tab layout click m = record m {
    info_state = record m.info_state {
      selected_tab = tab_at (layout.column click) layout.tabs_left tabs m.info_state.selected_tab;
    };
  }

  -- what drawing changes
  unfoldable pub view : Layout M → Model T H G L W M → Model T H G L W M
  unfolding select_tab
  view layout m = elim m.click [
    | none ↦ m
    | some click ↦
        (if layout.in_list click
          then focus list_pane false m
          else if layout.in_info click
          then focus info_pane true m
          else if layout.in_tabs click
          then select_tab layout click (focus info_pane true m)
          else if layout.in_logger click
          then focus logger_pane false m
          else m)
  ]
