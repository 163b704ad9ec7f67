-- ===== src/Input/Resolve.antt =====
-- What a key press can do in each mode (src/input.rs).
use mtack.Base.{ℕ, ◌+◌, ◌<◌, ◌≡◌, refl, ◌↔◌, Bool, true, false, ◌&&◌, Option, none, some, arith}
use mtack.Key.{KeyEvent, char, esc, no_modifiers, is_char, is_control}
use mtack.Input.{
  UnfocusKey, esc_key, char_key, ctrl_key, Mode, normal, focused, search_mode, confirm_quit,
  quitting, Action, select_tab, unfocus, search_accept, search_cancel, search_input,
  search_backspace, search_fill_placeholder, quit, force_quit, cancel_quit, forward_key,
  matches_unfocus_key, resolve,
}

-- The actions that a mode offers.
abbrev pub allowed : Mode → Action → Bool
allowed focused unfocus = true
allowed focused (forward_key key) = true
allowed focused _ = false
allowed search_mode search_accept = true
allowed search_mode search_cancel = true
allowed search_mode search_fill_placeholder = true
allowed search_mode search_backspace = true
allowed search_mode (search_input c) = true
allowed search_mode _ = false
allowed confirm_quit quit = true
allowed confirm_quit cancel_quit = true
allowed confirm_quit _ = false
allowed quitting force_quit = true
allowed quitting _ = false
allowed normal unfocus = false
allowed normal search_accept = false
allowed normal (search_input c) = false
allowed normal search_backspace = false
allowed normal search_fill_placeholder = false
allowed normal cancel_quit = false
allowed normal (forward_key key) = false
allowed normal _ = true

abbrev pub Allows : Mode → Option Action → Type 0
Allows mode none = Unit {0}
Allows mode (some action) = allowed mode action ≡ true

-- Whatever key is pressed, `resolve` answers with nothing or with an action that the mode offers:
-- keys are typed into a process in focus mode only, edit the query in search mode only, and while
-- the program is quitting nothing but a forced quit is left.
pub resolve-Allows :
    (key : KeyEvent) (mode : Mode) (unfocus_key : UnfocusKey)
    → Allows mode (resolve key mode unfocus_key)
unfolding resolve
resolve-Allows key focused unfocus_key = ground arith
resolve-Allows key normal unfocus_key = ground arith
resolve-Allows key search_mode unfocus_key = ground arith
resolve-Allows key confirm_quit unfocus_key = ground arith
resolve-Allows key quitting unfocus_key = ground arith

-- The key event that a configured unfocus key names.
abbrev pub event_of : UnfocusKey → KeyEvent
event_of esc_key = record { code = esc; modifiers = no_modifiers; extra = 0 }
event_of (char_key c) = record { code = char c; modifiers = no_modifiers; extra = 0 }
event_of (ctrl_key c) = record {
  code = char c;
  modifiers = record no_modifiers { control = true };
  extra = 0;
}

-- Focus mode can always be left by the configured key, and every key that does not match it reaches
-- the process unchanged.
pub resolve_focused_lem :
    (unfocus_key : UnfocusKey)
    → (resolve (event_of unfocus_key) focused unfocus_key ≡ some unfocus)
      × ((key : KeyEvent)
          → matches_unfocus_key key unfocus_key ≡ false
          → resolve key focused unfocus_key ≡ some (forward_key key))
unfolding resolve
resolve_focused_lem esc_key = (refl, λ key h. ground arith)
resolve_focused_lem (char_key c) = (ground arith, λ key h. ground arith)
resolve_focused_lem (ctrl_key c) = (ground arith, λ key h. ground arith)

-- While the program is quitting, a key is acted on exactly if it is Ctrl-C, and then it forces the
-- quit.
pub resolve_quitting_iff :
    (key : KeyEvent) (unfocus_key : UnfocusKey) (action : Action)
    → (resolve key quitting unfocus_key ≡ some action)
      ↔ ((is_char b'c' key.code && is_control key.modifiers ≡ true) × (action ≡ force_quit))
unfolding resolve
resolve_quitting_iff key unfocus_key action = (λ h. ground arith, λ h. ground arith)

-- A tab number is below nine: `SelectTab` comes from the digits 1 to 9 alone.
pub select_tab-lt :
    (key : KeyEvent) (mode : Mode) (unfocus_key : UnfocusKey) (i : ℕ)
    → resolve key mode unfocus_key ≡ some (select_tab i)
    → (i < 9) × (key.code ≡ char (i + b'1'))
unfolding resolve
select_tab-lt key normal unfocus_key i h = ground arith
select_tab-lt key focused unfocus_key i h = ground arith
select_tab-lt key search_mode unfocus_key i h = ground arith
select_tab-lt key confirm_quit unfocus_key i h = ground arith
select_tab-lt key quitting unfocus_key i h = ground arith
