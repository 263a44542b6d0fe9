-- ===== src/Tui/Model/Keys.antt =====
-- `handle_key` of tanu-tui/src/lib.rs. A key is told by the codes and modifiers that the code names; all
-- others are `other`.
use tanu.Prelude.{
  ℕ, ◌==◌, Bool, true, false, not, Option, none, some, if◌then◌else◌, ◌≡◌, refl, arith,
}
use tanu.Tui.Info.{up, down, up_half_screen, down_half_screen, home, end, next, prev}
use tanu.Tui.Model.{
  Pane, list_pane, info_pane, logger_pane, Message, maximize, next_pane_message, list_select,
  list_expand, info_select, info_tab_select, logger_select, execute_one_message,
  execute_all_message, select_pane, down_key, up_key, left_key, right_key, space_key, hide_key,
  focus_key,
}

pub data KeyCode : Type 0 where
  char : ℕ → KeyCode  -- the code of a character
  up_arrow : KeyCode
  down_arrow : KeyCode
  left_arrow : KeyCode
  right_arrow : KeyCode
  home_key : KeyCode
  end_key : KeyCode
  enter : KeyCode
  tab : KeyCode
  back_tab : KeyCode
  esc : KeyCode
  other : KeyCode

pub data KeyModifiers : Type 0 where
  shift : KeyModifiers
  control : KeyModifiers
  others : KeyModifiers

pub record KeyEvent : Type 0 where
  pub is_press : Bool  -- `kind == KeyEventKind::Press`
  pub code : KeyCode
  pub modifiers : KeyModifiers

abbrev is_control : KeyModifiers → Bool
is_control shift = false
is_control control = true
is_control others = false

abbrev is_shift : KeyModifiers → Bool
is_shift shift = true
is_shift control = false
is_shift others = false

module _ {M : Type 0} where
  -- the characters, in each pane; 106 is j, 107 k, 103 g, 71 G, 100 d, 117 u, 104 h, 108 l, 49 and 50
  -- are 1 and 2, 32 is a space, 72 is H and 70 F
  info_char : ℕ → Bool → Option (Message M)
  info_char c ctrl =
      if c == 106
      then some (info_select down)
      else if c == 107
      then some (info_select up)
      else if c == 104
      then some (info_tab_select prev)
      else if c == 108
      then some (info_tab_select next)
      else if c == 103
      then some (info_select home)
      else if c == 71
      then some (info_select end)
      else if c == 100
      then (if ctrl then some (info_select down_half_screen) else none)
      else if c == 117
      then (if ctrl then some (info_select up_half_screen) else none)
      else if c == 49
      then some execute_all_message
      else none

  list_char : ℕ → Bool → Option (Message M)
  list_char c ctrl =
      if c == 106
      then some (list_select down)
      else if c == 107
      then some (list_select up)
      else if c == 103
      then some (list_select home)
      else if c == 71
      then some (list_select end)
      else if c == 100
      then (if ctrl then some (list_select down_half_screen) else none)
      else if c == 117
      then (if ctrl then some (list_select up_half_screen) else none)
      else if c == 104
      then some (info_tab_select prev)
      else if c == 108
      then some (info_tab_select next)
      else if c == 49
      then some execute_all_message
      else if c == 50
      then some execute_one_message
      else none

  logger_char : ℕ → Option (Message M)
  logger_char c =
      if c == 106
      then some (logger_select down_key)
      else if c == 107
      then some (logger_select up_key)
      else if c == 104
      then some (logger_select left_key)
      else if c == 108
      then some (logger_select right_key)
      else if c == 32
      then some (logger_select space_key)
      else if c == 72
      then some (logger_select hide_key)
      else if c == 70
      then some (logger_select focus_key)
      else none

  pane_char : Pane → ℕ → Bool → Option (Message M)
  unfolding info_char list_char logger_char
  pane_char list_pane c ctrl = list_char c ctrl
  pane_char info_pane c ctrl = info_char c ctrl
  pane_char logger_pane c ctrl = logger_char c

  -- the match on the pane, the code and the modifiers; 122 is z
  message_of : Pane → KeyCode → KeyModifiers → Option (Message M)
  unfolding pane_char
  message_of pane (char c) mods =
      if c == 122 then some maximize else pane_char pane c (is_control mods)
  message_of pane back_tab mods = if is_shift mods then some (info_tab_select next) else none
  message_of pane tab mods = some next_pane_message
  message_of list_pane up_arrow mods = some (list_select up)
  message_of info_pane up_arrow mods = some (info_select up)
  message_of logger_pane up_arrow mods = some (logger_select up_key)
  message_of list_pane down_arrow mods = some (list_select down)
  message_of info_pane down_arrow mods = some (info_select down)
  message_of logger_pane down_arrow mods = some (logger_select down_key)
  message_of list_pane left_arrow mods = some (info_tab_select prev)
  message_of info_pane left_arrow mods = some (info_tab_select prev)
  message_of logger_pane left_arrow mods = some (logger_select left_key)
  message_of list_pane right_arrow mods = some (info_tab_select next)
  message_of info_pane right_arrow mods = some (info_tab_select next)
  message_of logger_pane right_arrow mods = some (logger_select right_key)
  message_of list_pane home_key mods = some (list_select home)
  message_of info_pane home_key mods = some (info_select home)
  message_of logger_pane home_key mods = none
  message_of list_pane end_key mods = some (list_select end)
  message_of info_pane end_key mods = some (info_select end)
  message_of logger_pane end_key mods = none
  message_of list_pane enter mods = some list_expand
  message_of info_pane enter mods = none
  message_of logger_pane enter mods = none
  message_of pane esc mods = none
  message_of pane other mods = none

  unfoldable pub handle_key : KeyEvent → Pane → Option (Message M)
  unfolding message_of
  handle_key key current_pane =
      if not key.is_press then none else message_of current_pane key.code key.modifiers

  -- the panes in which a key may ask for a message
  abbrev pub belongs : Message M → Pane → Bool
  belongs maximize pane = true
  belongs next_pane_message pane = true
  belongs (info_tab_select movement) list_pane = true
  belongs (info_tab_select movement) info_pane = true
  belongs (info_tab_select movement) logger_pane = true
  belongs (list_select movement) list_pane = true
  belongs (list_select movement) info_pane = false
  belongs (list_select movement) logger_pane = false
  belongs list_expand list_pane = true
  belongs list_expand info_pane = false
  belongs list_expand logger_pane = false
  belongs (info_select movement) list_pane = false
  belongs (info_select movement) info_pane = true
  belongs (info_select movement) logger_pane = false
  belongs (logger_select e) list_pane = false
  belongs (logger_select e) info_pane = false
  belongs (logger_select e) logger_pane = true
  belongs execute_one_message list_pane = true
  belongs execute_one_message info_pane = false
  belongs execute_one_message logger_pane = false
  belongs execute_all_message list_pane = true
  belongs execute_all_message info_pane = true
  belongs execute_all_message logger_pane = false
  belongs (select_pane click) pane = false

module _ (M : Type 0) where
  abbrev all_belong : Option (Message M) → Pane → Bool
  all_belong none pane = true
  all_belong (some msg) pane = belongs msg pane

  chars_belong :
      (pane : Pane) (c : ℕ) (ctrl : Bool) → all_belong (pane_char pane c ctrl) pane ≡ true
  unfolding pane_char info_char list_char logger_char
  chars_belong list_pane c ctrl = ground arith
  chars_belong info_pane c ctrl = ground arith
  chars_belong logger_pane c ctrl = ground arith

  messages_belong :
      (pane : Pane) (code : KeyCode) (mods : KeyModifiers)
      → all_belong (message_of pane code mods) pane ≡ true
  unfolding message_of
  messages_belong pane (char c) mods = ground (arith, chars_belong pane c (is_control mods))
  messages_belong list_pane up_arrow mods = refl
  messages_belong info_pane up_arrow mods = refl
  messages_belong logger_pane up_arrow mods = refl
  messages_belong list_pane down_arrow mods = refl
  messages_belong info_pane down_arrow mods = refl
  messages_belong logger_pane down_arrow mods = refl
  messages_belong list_pane left_arrow mods = refl
  messages_belong info_pane left_arrow mods = refl
  messages_belong logger_pane left_arrow mods = refl
  messages_belong list_pane right_arrow mods = refl
  messages_belong info_pane right_arrow mods = refl
  messages_belong logger_pane right_arrow mods = refl
  messages_belong list_pane home_key mods = refl
  messages_belong info_pane home_key mods = refl
  messages_belong logger_pane home_key mods = refl
  messages_belong list_pane end_key mods = refl
  messages_belong info_pane end_key mods = refl
  messages_belong logger_pane end_key mods = refl
  messages_belong list_pane enter mods = refl
  messages_belong info_pane enter mods = refl
  messages_belong logger_pane enter mods = refl
  messages_belong pane tab mods = refl
  messages_belong list_pane back_tab mods = ground arith
  messages_belong info_pane back_tab mods = ground arith
  messages_belong logger_pane back_tab mods = ground arith
  messages_belong pane esc mods = refl
  messages_belong pane other mods = refl

  -- A key asks only for what its pane allows: to move or expand in the list and to execute one item in
  -- the list pane, to scroll in the info pane, to move in the logger in the logger pane, to execute all
  -- in the list and the info pane. It never stands for a click.
  pub handle_key-belongs :
      (key : KeyEvent) (pane : Pane) (msg : Message M)
      → handle_key key pane ≡ some msg
      → belongs msg pane ≡ true
  unfolding handle_key
  handle_key-belongs key pane msg h = ground (arith, h, messages_belong pane key.code key.modifiers)
