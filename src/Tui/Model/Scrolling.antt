-- ===== src/Tui/Model/Scrolling.antt =====
-- The tabs and the offsets of the info pane: `next_tab`, `prev_tab`, `offset_down` and `offset_up`.
use tanu.Prelude.{ℕ, ◌+◌, ◌-◌, ◌<◌, ◌%◌, ◌/◌, ◌≡◌, refl, ap, arith}
use tanu.Tui.Info.{
  Tab, call_tab, headers_tab, payload_tab, error_tab, InfoState, next_tab, prev_tab, offset_down,
  offset_up, offset_begin, offset_end, CursorMovement, up, down, up_half_screen, down_half_screen,
  home, end, scroll,
}

abbrev fix_tab : InfoState → Tab → InfoState
fix_tab s t = record s { selected_tab = t }

next_prev : (s : InfoState) (t : Tab) → next_tab (prev_tab (fix_tab s t)) ≡ fix_tab s t
unfolding next_tab prev_tab
next_prev s call_tab = refl
next_prev s headers_tab = refl
next_prev s payload_tab = refl
next_prev s error_tab = refl

prev_next : (s : InfoState) (t : Tab) → prev_tab (next_tab (fix_tab s t)) ≡ fix_tab s t
unfolding next_tab prev_tab
prev_next s call_tab = refl
prev_next s headers_tab = refl
prev_next s payload_tab = refl
prev_next s error_tab = refl

-- The next tab and the previous one undo each other, also around the ends.
pub next_tab-prev_tab : (s : InfoState) → (next_tab (prev_tab s) ≡ s) × (prev_tab (next_tab s) ≡ s)
next_tab-prev_tab s = (next_prev s s.selected_tab, prev_next s s.selected_tab)

-- both offsets are `u16`
pub record IsOffset (s : InfoState) : Type 0 where
  pub payload_bound : s.payload_offset < 65536
  pub error_bound : s.error_offset < 65536

down_up : (n val : ℕ) → n + val < 65536 → (n + val) % 65536 - val ≡ n
down_up n val h = omega arith

-- Scrolling down by `val` and then up by as much leads back, in each tab, if neither offset passes the
-- range of a `u16` on the way.
pub offset_up-offset_down :
    (val : ℕ) (s : InfoState)
    → s.payload_offset + val < 65536
    → s.error_offset + val < 65536
    → offset_up val (offset_down val s) ≡ s
unfolding offset_up offset_down
offset_up-offset_down val s p e = of_tab s.selected_tab
  where
    of_tab : (t : Tab) → offset_up val (offset_down val (fix_tab s t)) ≡ fix_tab s t
    of_tab call_tab = refl
    of_tab headers_tab = refl
    of_tab payload_tab =
        ap (λ n. record s { selected_tab = payload_tab; payload_offset = n })
          (down_up s.payload_offset val p)
    of_tab error_tab =
        ap (λ n. record s { selected_tab = error_tab; error_offset = n })
          (down_up s.error_offset val e)

down-IsOffset :
    (val : ℕ) (s : InfoState) (t : Tab) → IsOffset s → IsOffset (offset_down val (fix_tab s t))
unfolding offset_down
down-IsOffset val s call_tab h = record {
  payload_bound = h.payload_bound;
  error_bound = h.error_bound;
}
down-IsOffset val s headers_tab h = record {
  payload_bound = h.payload_bound;
  error_bound = h.error_bound;
}
down-IsOffset val s payload_tab h = record {
  payload_bound = omega arith;
  error_bound = h.error_bound;
}
down-IsOffset val s error_tab h = record {
  payload_bound = h.payload_bound;
  error_bound = omega arith;
}

up-IsOffset :
    (val : ℕ) (s : InfoState) (t : Tab) → IsOffset s → IsOffset (offset_up val (fix_tab s t))
unfolding offset_up
up-IsOffset val s call_tab h = record {
  payload_bound = h.payload_bound;
  error_bound = h.error_bound;
}
up-IsOffset val s headers_tab h = record {
  payload_bound = h.payload_bound;
  error_bound = h.error_bound;
}
up-IsOffset val s payload_tab h = record {
  payload_bound = omega (arith, h.payload_bound);
  error_bound = h.error_bound;
}
up-IsOffset val s error_tab h = record {
  payload_bound = h.payload_bound;
  error_bound = omega (arith, h.error_bound);
}

begin-IsOffset : (s : InfoState) (t : Tab) → IsOffset s → IsOffset (offset_begin (fix_tab s t))
unfolding offset_begin
begin-IsOffset s call_tab h = record {
  payload_bound = h.payload_bound;
  error_bound = h.error_bound;
}
begin-IsOffset s headers_tab h = record {
  payload_bound = h.payload_bound;
  error_bound = h.error_bound;
}
begin-IsOffset s payload_tab h = record { payload_bound = omega arith; error_bound = h.error_bound }
begin-IsOffset s error_tab h = record { payload_bound = h.payload_bound; error_bound = omega arith }

-- Every scrolling of the info pane, at every height of the terminal, keeps both offsets in the range
-- of a `u16`.
pub scroll-IsOffset :
    (terminal_height : ℕ) (movement : CursorMovement) (s : InfoState)
    → IsOffset s
    → IsOffset (scroll terminal_height movement s)
unfolding scroll offset_end
scroll-IsOffset n down s h = down-IsOffset 1 s s.selected_tab h
scroll-IsOffset n down_half_screen s h = down-IsOffset (n / 2) s s.selected_tab h
scroll-IsOffset n up s h = up-IsOffset 1 s s.selected_tab h
scroll-IsOffset n up_half_screen s h = up-IsOffset (n / 2) s s.selected_tab h
scroll-IsOffset n home s h = begin-IsOffset s s.selected_tab h
scroll-IsOffset n end s h = h
