-- ===== src/Ui/Status.antt =====
-- The status bar (src/ui/status.rs): the spans of its row in each mode.
pub mod Line
pub mod Fits
pub mod Fill
use mtack.Base.{
  ℕ, zero, suc, ◌+◌, ◌-◌, ◌/◌, ◌%◌, Bool, true, false, not, ◌&&◌, ◌||◌, List, [], ◌∷◌, ◌++◌, Option,
  none, some, Text, String, if◌then◌else◌, ltb, leb, length, get_elem?, take, drop, is_empty,
}
use mtack.Base.Utf8.{codes, utf8, flat_map}
use mtack.Vt100.{Vt100}
use mtack.Input.{Mode, normal, focused, search_mode, confirm_quit, quitting}
use mtack.Terminal.Defs.{is_scrolled_back, is_alternate_screen}
use mtack.Process.Types.{State, stopped, Process}
use mtack.Process.Ops.{state}
use mtack.App.State.{App, SearchState, is_live, match_count, no_matches}
use mtack.Ui.Style.{
  Span, Color, black, red, green, yellow, dark_gray, styled, raw, on, fg_style, rule, spans_width,
}
use mtack.Ui.Hints.{KeyHint, ShowWhen, visible, normal_hints, focused_hints, styled_keys}

pub record StatusBar : Type 0 where
  pub mode : Mode
  pub search : SearchState
  pub remaining_count : ℕ
  pub scrolled_back : Bool
  pub alternate_screen : Bool
  pub process_state : State

module _ {vt : Vt100} where
  abbrev scrolled_back_of : Option (Process vt) → Bool
  scrolled_back_of none = false
  scrolled_back_of (some p) = is_scrolled_back p.terminal

  abbrev alternate_screen_of : Option (Process vt) → Bool
  alternate_screen_of none = false
  alternate_screen_of (some p) = is_alternate_screen p.terminal

  abbrev state_or_stopped : Option (Process vt) → State
  state_or_stopped none = stopped
  state_or_stopped (some p) = state p

  live_count : List (Process vt) → ℕ
  live_count [] = 0
  live_count (p ∷ ps) = (if is_live p then 1 else 0) + live_count ps

  -- Of the `RenderContext` that the App draws from.
  unfoldable pub new : App vt → StatusBar
  unfolding live_count
  new app = record {
    mode = app.mode;
    search = app.search;
    remaining_count = live_count app.processes;
    scrolled_back = scrolled_back_of (get_elem? app.processes app.selected);
    alternate_screen = alternate_screen_of (get_elem? app.processes app.selected);
    process_state = state_or_stopped (get_elem? app.processes app.selected);
  }

-- A number as `format!` writes it; the fuel is one more than the number.
unfoldable pub digits : ℕ → ℕ → Text → Text
digits zero n later = later
digits (suc fuel) n later =
    let now : Text = (b'0' + n % 10) ∷ later in
    let rest = digits fuel (n / 10) now in if ltb n 10 then now else rest

unfoldable pub decimal : ℕ → Text
unfolding digits
decimal n = digits (suc n) n []

unfoldable pub push_badge : List Span → Text → Color → List Span
push_badge spans label bg =
    spans
    ++ ((if is_empty spans then [] else raw (codes " ") ∷ [])
        ++ (styled (codes " " ++ (label ++ codes " ")) (on black bg) ∷ []))

unfoldable pub build_hint : Bool → Text → Text → List Span
build_hint has_prefix key desc =
    (if has_prefix then raw (codes "  ") ∷ [] else [])
    ++ (styled_keys key ++ (raw (codes " " ++ desc) ∷ []))

unfoldable pub push_hint : List Span → Text → Text → List Span
push_hint spans key desc = spans ++ build_hint (not (is_empty spans)) key desc

-- `len` of a text, in bytes.
abbrev pub byte_len : Text → ℕ
byte_len t = length (flat_map utf8 t)

-- The spans and their width with one more hint; `none` where it does not fit.
unfoldable pub try_push_hint : ℕ → List Span × ℕ → Text → Text → Option (List Span × ℕ)
unfolding utf8
try_push_hint max_width (spans, width) key desc =
    let prefix : ℕ = if ltb 0 width then 2 else 0 in
    let w : ℕ = prefix + byte_len key + 1 + byte_len desc in
    if ltb max_width (width + w)
    then none
    else some (spans ++ build_hint (ltb 0 width) key desc, width + w)

-- The hints of one side of the bar, as their keys and descriptions.
unfoldable pub shown_bar : State → Bool → Text → Option (String × ShowWhen) → Option (Text × Text)
unfolding visible
shown_bar state scrolled desc none = none
shown_bar state scrolled desc (some (keys, when)) =
    if visible when state scrolled then some (codes keys, desc) else none

unfoldable pub shown_hint : State → Bool → Bool → KeyHint → Option (Text × Text)
shown_hint state scrolled right h =
    if h.right && not right || not h.right && right
    then none
    else shown_bar state scrolled (codes h.desc) h.bar

unfoldable pub cons_some : Option (Text × Text) → List (Text × Text) → List (Text × Text)
cons_some none hs = hs
cons_some (some h) hs = h ∷ hs

unfoldable pub shown_hints : State → Bool → Bool → List KeyHint → List (Text × Text)
shown_hints state scrolled right [] = []
shown_hints state scrolled right (h ∷ hs) =
    cons_some (shown_hint state scrolled right h) (shown_hints state scrolled right hs)

-- The loop over the hints, up to the first that does not fit.
unfoldable pub push_hints : ℕ → List (Text × Text) → List Span × ℕ → List Span × ℕ
push_hints max_width [] drawn = drawn
push_hints max_width ((key, desc) ∷ hs) drawn = elim (try_push_hint max_width drawn key desc) [
  | none ↦ drawn
  | some more ↦ push_hints max_width hs more
]
