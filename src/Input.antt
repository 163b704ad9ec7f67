-- ===== src/Input.antt =====
-- Key bindings and modes (src/input.rs). `Resolve` proves what a key can do in each mode.
pub mod Resolve
use mtack.Base.{ℕ, ◌-◌, Bool, true, false, ◌&&◌, Option, none, some, leb, ◌==◌, if◌then◌else◌}
use mtack.Key.{
  KeyCode, KeyModifiers, KeyEvent, enter, esc, tab, back_tab, backspace, left, right, up, down,
  page_up, page_down, home, end, char, no_mods, is_shift, is_control, without_shift, is_char,
  is_esc,
}

-- The key that leaves focus mode (src/config.rs).
pub data UnfocusKey : Type 0 where
  esc_key : UnfocusKey
  char_key : ℕ → UnfocusKey
  ctrl_key : ℕ → UnfocusKey

pub data Mode : Type 0 where
  normal focused search_mode confirm_quit quitting : Mode

pub data ScrollAmount : Type 0 where
  line full_page : ScrollAmount

pub data Action : Type 0 where
  select_tab : ℕ → Action
  next_tab prev_tab focus unfocus start_process stop_process restart_process : Action
  scroll_up scroll_down : ScrollAmount → Action
  scroll_to_top scroll_to_bottom enter_search search_accept search_cancel : Action
  search_input : ℕ → Action
  search_backspace search_fill_placeholder search_next search_prev : Action
  toggle_help detach quit force_quit cancel_quit : Action
  forward_key : KeyEvent → Action

resolve_quitting : KeyEvent → Option Action
resolve_quitting key =
    if is_char b'c' key.code && is_control key.modifiers then some force_quit else none

confirm_code : KeyCode → Bool → Option Action
confirm_code (char c) plain = if c == b'y' && plain then some quit else some cancel_quit
confirm_code enter plain = some quit
confirm_code _ plain = some cancel_quit

resolve_confirm_quit : KeyEvent → Option Action
unfolding confirm_code
resolve_confirm_quit key = confirm_code key.code (no_mods key.modifiers)

pub matches_unfocus_key : KeyEvent → UnfocusKey → Bool
matches_unfocus_key key esc_key = is_esc key.code && no_mods key.modifiers
matches_unfocus_key key (char_key c) = is_char c key.code && no_mods key.modifiers
matches_unfocus_key key (ctrl_key c) = is_char c key.code && is_control key.modifiers

resolve_focused : KeyEvent → UnfocusKey → Option Action
unfolding matches_unfocus_key
resolve_focused key unfocus_key =
    if matches_unfocus_key key unfocus_key then some unfocus else some (forward_key key)

search_code : KeyCode → Option Action
search_code enter = some search_accept
search_code esc = some search_cancel
search_code tab = some search_fill_placeholder
search_code backspace = some search_backspace
search_code (char c) = some (search_input c)
search_code _ = none

resolve_search : KeyEvent → Option Action
unfolding search_code
resolve_search key =
    if is_char b'c' key.code && is_control key.modifiers
    then some search_cancel
    else if no_mods (without_shift key.modifiers)
    then search_code key.code
    else none

-- The arms of `resolve_normal` for a character, in their order.
normal_char : ℕ → Option Action
normal_char c =
    if leb b'1' c && leb c b'9'
    then some (select_tab (c - b'1'))
    else if c == b'l'
    then some next_tab
    else if c == b'h'
    then some prev_tab
    else if c == b'i'
    then some focus
    else if c == b's'
    then some start_process
    else if c == b'x'
    then some stop_process
    else if c == b'r'
    then some restart_process
    else if c == b'j'
    then some (scroll_down line)
    else if c == b'k'
    then some (scroll_up line)
    else if c == b'/'
    then some enter_search
    else if c == b'n'
    then some search_next
    else if c == b'd'
    then some detach
    else if c == b'q'
    then some quit
    else if c == b'?'
    then some toggle_help
    else none

normal_code : KeyCode → Option Action
unfolding normal_char
normal_code (char c) = normal_char c
normal_code right = some next_tab
normal_code tab = some next_tab
normal_code left = some prev_tab
normal_code enter = some focus
normal_code down = some (scroll_down line)
normal_code up = some (scroll_up line)
normal_code page_up = some (scroll_up full_page)
normal_code page_down = some (scroll_down full_page)
normal_code home = some scroll_to_top
normal_code end = some scroll_to_bottom
normal_code esc = some search_cancel
normal_code _ = none

shift_code : KeyCode → Option Action
shift_code (char c) =
    if c == b'Q'
    then some force_quit
    else if c == b'N'
    then some search_prev
    else if c == b'?'
    then some toggle_help
    else none
shift_code back_tab = some prev_tab
shift_code _ = none

control_code : KeyCode → Option Action
control_code (char c) =
    if c == b'b'
    then some (scroll_up full_page)
    else if c == b'c'
    then some quit
    else if c == b'f'
    then some (scroll_down full_page)
    else none
control_code _ = none

-- A set of modifiers is never both exactly SHIFT and exactly CONTROL.
resolve_normal_modified : KeyEvent → Option Action
unfolding shift_code control_code
resolve_normal_modified key =
    if is_shift key.modifiers
    then shift_code key.code
    else if is_control key.modifiers
    then control_code key.code
    else none

resolve_normal : KeyEvent → Option Action
unfolding resolve_normal_modified normal_code
resolve_normal key =
    if no_mods key.modifiers then normal_code key.code else resolve_normal_modified key

unfoldable pub resolve : KeyEvent → Mode → UnfocusKey → Option Action
unfolding resolve_focused resolve_normal resolve_search resolve_confirm_quit resolve_quitting
resolve key focused unfocus_key = resolve_focused key unfocus_key
resolve key normal unfocus_key = resolve_normal key
resolve key search_mode unfocus_key = resolve_search key
resolve key confirm_quit unfocus_key = resolve_confirm_quit key
resolve key quitting unfocus_key = resolve_quitting key
