-- ===== src/Tui/Info/Window.antt =====
-- The lines of a payload that are drawn, in `render_payload` of tanu-tui/src/widget/info.rs. The height
-- of the pane is `height`, a `u16`; `none` is the overflow of `height - BOARDER_AND_PADDING`, which
-- panics where overflows are checked.
use tanu.Prelude.{
  ℕ, ◌+◌, ◌-◌, ◌%◌, ◌≤◌, ◌<◌, Option, none, some, ltb, leb, if◌then◌else◌, ◌≡◌, arith,
}
use tanu.Tui.Info.{InfoState}

abbrev least : ℕ → ℕ → ℕ
least a b = if leb a b then a else b

-- with 4 for `BOARDER_AND_PADDING`
unfoldable pub max_scroll_offset : ℕ → ℕ → Option ℕ
max_scroll_offset height lines = if ltb height 4 then none else some (lines - (height - 4))

-- the offset is brought within its bounds, `max_scroll_offset as u16`
unfoldable pub clamp_offset : ℕ → InfoState → InfoState
clamp_offset max s = record s { payload_offset = least s.payload_offset (max % 65536) }

abbrev pub start_line : InfoState → ℕ
start_line s = s.payload_offset

abbrev pub end_line : ℕ → ℕ → InfoState → ℕ
end_line height lines s = least (start_line s + height) lines

-- where the height takes the border and the padding, the last offset leaves no line out
max-bound :
    (height lines max : ℕ)
    → max_scroll_offset height lines ≡ some max
    → (max ≤ lines) × (lines ≤ max + height)
unfolding max_scroll_offset
max-bound height lines max h = ground arith

-- The slice that is drawn is one of the lines there are: it starts at or before its end, which is not
-- past the last line.
pub clamp_offset-window :
    (height lines max : ℕ) (s : InfoState)
    → max_scroll_offset height lines ≡ some max
    → (start_line (clamp_offset max s) ≤ end_line height lines (clamp_offset max s))
      × (end_line height lines (clamp_offset max s) ≤ lines)
unfolding clamp_offset
clamp_offset-window height lines max s h =
    let b = max-bound height lines max h in (ground (arith, b.0, b.1), ground (arith, b.0, b.1))

-- However far the offset has gone, it comes back to where the last line is drawn, if there are less than
-- 65536 lines.
pub clamp_offset-last :
    (height lines max : ℕ) (s : InfoState)
    → max_scroll_offset height lines ≡ some max
    → lines < 65536
    → lines ≤ s.payload_offset
    → end_line height lines (clamp_offset max s) ≡ lines
unfolding clamp_offset
clamp_offset-last height lines max s h k l =
    let b = max-bound height lines max h in ground (arith, b.0, b.1, k, l)
