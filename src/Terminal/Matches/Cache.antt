-- ===== src/Terminal/Matches/Cache.antt =====
-- The two caches of the search share one dirty flag (src/terminal.rs).
use mtack.Base.{◌≡◌, refl, true, false, List, [], ◌∷◌, some, Text, Bytes, arith, is_empty, text_eq}
use mtack.Vt100.{Vt100}
use mtack.Terminal.Defs.{Terminal, VisibleMatchSpan, process}
use mtack.Terminal.Search.{find_visible_matches, find_all_matches}

text_eq_refl : (s : Text) → text_eq s s ≡ true
unfolding text_eq
text_eq_refl [] = refl
text_eq_refl (x ∷ s) = ground (arith, text_eq_refl s)

module _ {vt : Vt100} (lower : Text → Text) where
  visible_keeps :
      (t : Terminal vt) (query : Text) {matches : List VisibleMatchSpan} {t' : Terminal vt}
      → is_empty query ≡ false
      → t.search_dirty ≡ true
      → find_visible_matches lower t query ≡ some (matches, t')
      → (t'.search_dirty ≡ false)
        × (t'.cached_all_query ≡ t.cached_all_query)
        × (t'.cached_all_matches ≡ t.cached_all_matches)
        × (t'.cached_all_total_rows ≡ t.cached_all_total_rows)
  unfolding find_visible_matches
  visible_keeps t query q dirty h = ground arith

  process_keeps :
      (bytes : Bytes) (t : Terminal vt)
      → ((process bytes t).search_dirty ≡ true)
        × ((process bytes t).cached_all_query ≡ t.cached_all_query)
        × ((process bytes t).cached_all_matches ≡ t.cached_all_matches)
        × ((process bytes t).cached_all_total_rows ≡ t.cached_all_total_rows)
  unfolding process
  process_keeps bytes t = ground arith

  -- The bug: the caches go stale. A query was searched for; any output comes; a frame is drawn,
  -- which highlights the visible matches of the same query. The search for that query is then
  -- answered from before the output, matches and number of rows alike.
  pub find_all_matches_stale :
      (t drawn : Terminal vt) (bytes : Bytes) (query : Text) (visible : List VisibleMatchSpan)
      → is_empty query ≡ false
      → t.cached_all_query ≡ query
      → find_visible_matches lower (process bytes t) query ≡ some (visible, drawn)
      → find_all_matches lower drawn query
        ≡ some ((t.cached_all_matches, t.cached_all_total_rows), drawn)
  unfolding find_all_matches
  find_all_matches_stale t drawn bytes query visible q cached h =
      let p = process_keeps bytes t in
      let v = visible_keeps (process bytes t) query q p.0 h in
      ground (arith, p, v, text_eq_refl query)
