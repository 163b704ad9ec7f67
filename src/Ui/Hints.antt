-- ===== src/Ui/Hints.antt =====
-- The key hints (src/ui/hints.rs): one table for the status bar and the help panel.
pub mod Keys
use mtack.Base.{
  ℕ, ◌+◌, Bool, true, false, not, ◌&&◌, ◌||◌, List, [], ◌∷◌, ◌++◌, Option, none, some, Text, String,
  u16, length, if◌then◌else◌, ◌==◌, any, text_eq,
}
use mtack.Base.Utf8.{codes}
use mtack.Process.Types.{State, stopped, running, stopping, failed}
use mtack.Ui.Style.{Span, Style, white, plain, fg_style, styled}

pub data Category : Type 0 where
  navigation actions app : Category

pub data ShowWhen : Type 0 where
  always when_running when_stopped when_scrolled : ShowWhen

unfoldable pub visible : ShowWhen → State → Bool → Bool
visible always state scrolled = true
visible when_running running scrolled = true
visible when_running _ scrolled = false
visible when_stopped stopped scrolled = true
visible when_stopped failed scrolled = true
visible when_stopped _ scrolled = false
visible when_scrolled state scrolled = scrolled

pub record KeyHint : Type 0 where
  pub keys : String
  pub desc : String
  pub category : Category
  pub bar : Option (String × ShowWhen)
  pub right : Bool

abbrev pub hint : String → String → Category → KeyHint
hint keys desc category = record {
  keys = keys;
  desc = desc;
  category = category;
  bar = none;
  right = false;
}

abbrev pub bar_hint : String → String → Category → String → ShowWhen → KeyHint
bar_hint keys desc category bar_keys when = record {
  keys = keys;
  desc = desc;
  category = category;
  bar = some (bar_keys, when);
  right = false;
}

abbrev pub right_hint : String → String → Category → String → ShowWhen → KeyHint
right_hint keys desc category bar_keys when = record {
  keys = keys;
  desc = desc;
  category = category;
  bar = some (bar_keys, when);
  right = true;
}

-- `chars().count()`, as a u16.
unfoldable pub help_width : KeyHint → ℕ
help_width h = u16 (2 + length (codes h.keys) + 1 + length (codes h.desc))

unfoldable pub normal_hints : List KeyHint
normal_hints =
    bar_hint "h/l ←/→ tab" "tabs" navigation "h/l" always
    ∷ hint "1-9" "go to tab" navigation
    ∷ hint "j/k ↑/↓" "scroll" navigation
    ∷ bar_hint "ctrl-f/b" "scroll pages" navigation "^f/^b" when_scrolled
    ∷ hint "pgdn/pgup" "scroll pages" navigation
    ∷ hint "home/end" "top/bottom" navigation
    ∷ bar_hint "i/enter" "focus" actions "i" when_running
    ∷ bar_hint "s" "start" actions "s" when_stopped
    ∷ bar_hint "x" "stop" actions "x" when_running
    ∷ bar_hint "r" "restart" actions "r" when_running
    ∷ bar_hint "/" "search" navigation "/" always
    ∷ hint "n/N" "next/prev match" navigation
    ∷ right_hint "d" "detach" app "d" always
    ∷ right_hint "q" "quit" app "q" always
    ∷ hint "Q" "force quit" app
    ∷ right_hint "?" "help" app "?" always
    ∷ []

unfoldable pub focused_hints : List KeyHint
focused_hints = bar_hint "esc" "unfocus" actions "esc" always ∷ []

abbrev key_style : Style
key_style = record plain { fg = some white; bold = true }

-- `str::split` at slashes, as texts.
unfoldable pub split : Text → Text → List Text
split acc [] = acc ∷ []
split acc (c ∷ cs) =
    let next = split (acc ++ (c ∷ [])) cs in
    let fresh = split [] cs in if c == b'/' then acc ∷ fresh else next

key_spans : List Text → List Span
key_spans [] = []
key_spans (k ∷ []) = styled k key_style ∷ []
key_spans (k ∷ l ∷ ks) = styled k key_style ∷ styled (b'/' ∷ []) plain ∷ key_spans (l ∷ ks)

-- Keys are bold and slashes between them plain; a single slash is a key.
unfoldable pub styled_keys : Text → List Span
unfolding key_spans split text_eq
styled_keys keys =
    if not (any (λ c. c == b'/') keys) || text_eq keys (b'/' ∷ [])
    then styled keys key_style ∷ []
    else key_spans (split [] keys)
