-- ===== src/Ui/Help.antt =====
-- The size of the help panel (src/ui/help.rs).
pub mod Panel
use mtack.Base.{
  ℕ, ◌+◌, ◌≤◌, ◌<◌, ◌≡◌, Bool, true, false, List, [], ◌∷◌, ◌++◌, String, arith, max, u16, ltb,
  if◌then◌else◌, length, map,
}
use mtack.Base.Utf8.{codes, utf8, flat_map}
use mtack.Ui.Hints.{
  Category, navigation, actions, app, KeyHint, help_width, normal_hints, focused_hints,
}

in_category : Category → Category → Bool
in_category navigation navigation = true
in_category actions actions = true
in_category app app = true
in_category _ _ = false

select : Category → List KeyHint → List KeyHint
unfolding in_category
select c [] = []
select c (h ∷ hs) = let rest = select c hs in if in_category c h.category then h ∷ rest else rest

unfoldable pub columns : List (String × List KeyHint)
unfolding select normal_hints focused_hints
columns =
    ("Navigation", select navigation normal_hints)
    ∷ ("Actions", select actions normal_hints ++ focused_hints)
    ∷ ("App", select app normal_hints)
    ∷ []

max_of : List ℕ → ℕ
max_of [] = 0
max_of (n ∷ ns) = max n (max_of ns)

unfoldable pub max_rows : ℕ
unfolding columns max_of
max_rows = max_of (map (λ c. length c.1) columns)

abbrev gap : ℕ
gap = 2

pub column_width : String × List KeyHint → ℕ
unfolding max_of help_width utf8
column_width (header, hints) =
    max (u16 (2 + length (flat_map utf8 (codes header)))) (max_of (map help_width hints))

width_of : List ℕ → ℕ
width_of [] = 0
width_of (w ∷ []) = w
width_of (w ∷ v ∷ ws) = u16 (w + gap + width_of (v ∷ ws))

unfoldable pub total_width : ℕ
unfolding columns column_width width_of
total_width = width_of (map column_width columns)

unfoldable pub help_height : ℕ → ℕ
unfolding total_width max_rows
help_height width = if ltb width total_width then 4 else u16 (1 + 1 + max_rows + 1 + 1)

-- Every hint has its row: in the panel of `help_height` rows, behind border, header, spacer and
-- status bar.
abbrev HasRows : ℕ → List (String × List KeyHint) → Type 0
HasRows height [] = Unit {0}
HasRows height ((header, hints) ∷ cs) = (length hints + 4 ≤ height) × HasRows height cs

-- From a width of 57 columns on, the help panel is high enough to show every hint of each of its
-- three columns; below that width it is four rows high. It never takes more than twelve.
pub help_height_shows :
    (width : ℕ)
    → (57 ≤ width → HasRows (help_height width) columns)
      × (width < 57 → help_height width ≡ 4)
      × (help_height width ≤ 12)
unfolding help_height columns
help_height_shows width = (λ h. ground arith, λ h. ground arith, ground arith)
