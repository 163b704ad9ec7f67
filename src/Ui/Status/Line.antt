-- ===== src/Ui/Status/Line.antt =====
-- The row of the status bar, mode by mode (src/ui/status.rs, `StatusBar::render`).
use mtack.Base.{
  ℕ, ◌+◌, ◌-◌, Bool, true, false, not, ◌&&◌, ◌||◌, List, [], ◌∷◌, ◌++◌, Option, none, some, Text,
  if◌then◌else◌, ltb, take, drop, is_empty,
}
use mtack.Base.Utf8.{codes}
use mtack.Input.{Mode, normal, focused, search_mode, confirm_quit, quitting}
use mtack.App.State.{SearchState, match_count, no_matches}
use mtack.Ui.Style.{
  Span, black, red, green, yellow, dark_gray, styled, raw, on, fg_style, rule, spans_width,
}
use mtack.Ui.Hints.{KeyHint, normal_hints, focused_hints}
use mtack.Ui.Status.{
  StatusBar, decimal, push_badge, build_hint, push_hint, try_push_hint, shown_hints, push_hints,
}

abbrev pub confirm_row : List Span
confirm_row =
    push_hint
      (push_hint (styled (codes "Quit with running processes? ") (fg_style yellow) ∷ [])
        (codes "y/enter") (codes "quit"))
      (codes "any") (codes "cancel")

-- The last query as a placeholder, its first character under the cursor.
abbrev placeholder_row : Text → List Span
placeholder_row last =
    styled (take 1 last) (on dark_gray yellow)
    ∷ (if is_empty (drop 1 last) then [] else styled (drop 1 last) (fg_style dark_gray) ∷ [])

abbrev pub search_row : SearchState → List Span
search_row s =
    styled (codes "/") (fg_style yellow)
    ∷ (if is_empty s.query && not (is_empty s.last_query)
        then placeholder_row s.last_query
        else styled s.query (fg_style yellow) ∷ styled (codes "▎") (fg_style yellow) ∷ [])

abbrev pub quitting_row : ℕ → List Span
quitting_row remaining =
    styled (codes "Shutting down… (" ++ (decimal remaining ++ codes " remaining)"))
      (fg_style yellow)
    ∷ []

unfoldable pub searching : StatusBar → Bool
searching bar = not (is_empty bar.search.query)

unfoldable pub search_badge : StatusBar → List Span
unfolding searching
search_badge bar = elim bar.search.current [
  | some idx ↦
      styled
        (codes " "
          ++ (decimal (idx + 1) ++ (codes "/" ++ (decimal (match_count bar.search) ++ codes " "))))
        (on black yellow)
      ∷ raw (codes " ")
      ∷ []
  | none ↦
      if no_matches bar.search
      then styled (codes " 0/0 ") (on black red) ∷ raw (codes " ") ∷ []
      else if searching bar && bar.alternate_screen
      then push_badge [] (codes "FIND") yellow
      else []
]

-- What the normal mode shows before its hints.
unfoldable pub badges : StatusBar → List Span
unfolding search_badge push_badge
badges bar =
    if bar.scrolled_back
    then push_badge (search_badge bar) (codes "SCROLL") yellow
    else search_badge bar

-- The hints after `clear`, if that fits.
unfoldable pub hints_after :
    ℕ → List (Text × Text) → List Span × ℕ → Option (List Span × ℕ) → List Span
hints_after max_width hs drawn none = drawn.0
hints_after max_width hs drawn (some more) = (push_hints max_width hs more).0

-- The hints of focus mode, whatever the state of the process.
unfoldable pub bar_hints : List KeyHint → List (Text × Text)
bar_hints [] = []
bar_hints (h ∷ hs) = elim h.bar [
  | none ↦ bar_hints hs
  | some (keys, when) ↦ (codes keys, codes h.desc) ∷ bar_hints hs
]

abbrev pub focus_badge : List Span
focus_badge = push_badge [] (codes "FOCUS") green

hints_spans : List (Text × Text) → List Span
hints_spans [] = []
hints_spans ((key, desc) ∷ hs) = build_hint true key desc ++ hints_spans hs

unfoldable pub right_spans : StatusBar → List Span
unfolding hints_spans
right_spans bar = elim bar.mode [
  | normal ↦ hints_spans (shown_hints bar.process_state bar.scrolled_back true normal_hints)
  | _ ↦ []
]

-- `width` is the display width of a text.
module _ (width : Text → ℕ) where
  unfoldable pub normal_row : ℕ → StatusBar → List Span
  unfolding hints_after searching
  normal_row max_width bar =
      let drawn : List Span × ℕ = (badges bar, spans_width width (badges bar)) in
      hints_after max_width (shown_hints bar.process_state bar.scrolled_back false normal_hints)
        drawn
        (if searching bar || bar.scrolled_back
          then try_push_hint max_width drawn (codes "esc") (codes "clear")
          else some drawn)

  unfoldable pub focused_row : ℕ → List Span
  unfolding bar_hints focused_hints
  focused_row max_width =
      (push_hints max_width (bar_hints focused_hints)
        (focus_badge, spans_width width focus_badge)).0

  -- The spans on the left.
  unfoldable pub left_in : ℕ → StatusBar → Mode → List Span
  left_in max_width bar confirm_quit = confirm_row
  left_in max_width bar search_mode = search_row bar.search
  left_in max_width bar normal = normal_row max_width bar
  left_in max_width bar focused = focused_row max_width
  left_in max_width bar quitting = quitting_row bar.remaining_count

  unfoldable pub left_spans : ℕ → StatusBar → List Span
  left_spans max_width bar = left_in max_width bar bar.mode

  -- The line, and the right side behind it, if there is room.
  abbrev pub fill_spans : ℕ → List Span → List Span
  fill_spans available right =
      if ltb 0 (spans_width width right) && ltb (spans_width width right) available
      then rule (available - spans_width width right) ∷ right
      else rule available ∷ []

  abbrev pub gap_of : List Span → ℕ
  gap_of left = if ltb 0 (spans_width width left) then 2 else 0

  -- The row from both sides: a line fills what is left between them.
  unfoldable pub join_spans : ℕ → List Span → List Span → List Span
  join_spans max_width left right =
      let available : ℕ = max_width - (spans_width width left + gap_of left) in
      if ltb 0 available
      then left
        ++ ((if ltb 0 (gap_of left) then raw (codes "  ") ∷ [] else [])
            ++ fill_spans available right)
      else left

  unfoldable pub render : ℕ → StatusBar → List Span
  unfolding left_spans right_spans join_spans
  render max_width bar = join_spans max_width (left_spans max_width bar) (right_spans bar)
