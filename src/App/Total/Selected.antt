-- ===== src/App/Total/Selected.antt =====
-- The operations that keep the selected process (src/app.rs).
use mtack.Base.{
  length-drop, ℕ, suc, ◌+◌, ◌-◌, ◌≤◌, ◌<◌, ◌≢◌, refl, Bytes, subst, ◌&&◌, List, [], ◌∷◌, Option,
  none, some, Text, arith, length, modify, map, length-modify, length-map, take, drop, length-take,
  ltb, if-cases, u16, leb,
}
use mtack.Vt100.{Vt100}
use mtack.Process.Types.{Process}
use mtack.Process.Ops as Process
use mtack.Server as Server
use mtack.Server.{Client, Drawn, sent, busy, disconnected, unreachable}
use mtack.Ui.Tabs.{index_from, tab_index_at_col, Tab, tab_width, visible_range, left_cost}
use mtack.App.State.{
  App, World, Env, selected_process, update_selected, set_size, resize_processes, begin_quit,
  reset_view, drop_client,
}
use mtack.App.State as State
use mtack.App.Loop.{
  ServerEvent, attach, quit_request, Event, pty_output, process_exited, handle_server_event,
  handle_app_event, click, after_draw, unfocused, tab_of,
}
use mtack.App.Total.Rows.{Below, IsSafe}

-- The selected process is there.
abbrev pub HasSelected : {vt : Vt100} → App vt → Type 0
HasSelected app = app.selected < length app.processes

index_from-Below : (ws : List ℕ) (i x col : ℕ) → Below (i + length ws) (index_from ws i x col)
unfolding index_from
index_from-Below [] i x col = tt
index_from-Below (w ∷ ws) i x col =
    if-cases (Below (i + length (w ∷ ws))) (leb x col && ltb col (u16 (x + w))) (some i) _
      (λ e. omega arith)
      (λ e.
        subst (λ n. Below n (index_from ws (suc i) (u16 (x + w)) col)) {x = suc i + length ws}
          {y = i + length (w ∷ ws)} (omega arith) (index_from-Below ws (suc i) (u16 (x + w)) col))

Below-mono : (m n : ℕ) (o : Option ℕ) → Below m o → m ≤ n → Below n o
Below-mono m n none b h = tt
Below-mono m n (some i) b h = omega arith

shown-Below :
    (ws : List ℕ) (first n x col : ℕ) → length ws ≤ n - first → Below n (index_from ws first x col)
unfolding index_from
shown-Below [] first n x col h = tt
shown-Below (w ∷ ws) first n x col h =
    Below-mono (first + length (w ∷ ws)) n _ (index_from-Below (w ∷ ws) first x col) (omega arith)

tab_index_at_col-Below :
    (width : Text → ℕ) (tabs : List Tab) (selected area col : ℕ)
    → Below (length tabs) (tab_index_at_col width tabs selected area col)
unfolding tab_index_at_col
tab_index_at_col-Below width tabs selected area col =
    let widths = map (tab_width width) tabs in
    let (first, last) = visible_range widths selected area in
    shown-Below (take (last - first) (drop first widths)) first (length tabs) (left_cost first) col
      (omega (
        arith,
        length-take (last - first) (drop first widths),
        length-drop first widths,
        length-map tabs (tab_width width),
      ))

-- A frame is queued only where no frame waits, so that it finds room.
pub draw_reachable : (frame : Bytes) (c : Client) → (Server.draw frame c).1 ≢ unreachable
unfolding Server.draw Server.try_send Server.capacity
draw_reachable frame c e = ground (arith, e)

module _ {vt : Vt100} where
  map-lt :
      (i : ℕ) (f : Process vt → Process vt) (ps : List (Process vt))
      → i < length ps
      → i < length (map f ps)
  map-lt i f ps v = omega (arith, length-map ps f)

  pub begin_quit-HasSelected : (app : App vt) → HasSelected app → HasSelected (begin_quit app)
  unfolding begin_quit resize_processes
  begin_quit-HasSelected app v =
      if-cases (λ (a : App vt). HasSelected a) (State.all_stopped app) _ _ (λ e. v)
        (λ e.
          map-lt app.selected Process.stop _
            (map-lt app.selected (Process.resize _ _) app.processes v))

  pub resize_processes-HasSelected :
      (app : App vt) → HasSelected app → HasSelected (resize_processes app)
  unfolding resize_processes
  resize_processes-HasSelected app v = map-lt app.selected (Process.resize _ _) app.processes v

  reset_view-HasSelected : (app : App vt) → HasSelected app → HasSelected (reset_view app)
  unfolding reset_view
  reset_view-HasSelected app v = map-lt app.selected State.to_bottom app.processes v

  take_client-HasSelected :
      (o : Option Client) (app : App vt) → HasSelected app → HasSelected (State.take_client o app)
  unfolding State.take_client
  take_client-HasSelected none app v = v
  take_client-HasSelected (some c) app v = v

  pub detach-HasSelected : (app : App vt) → HasSelected app → HasSelected (State.detach app)
  unfolding State.detach
  detach-HasSelected app v =
      reset_view-HasSelected (State.take_client app.client app)
        (take_client-HasSelected app.client app v)

  pub modify-lt :
      (i k : ℕ) (f : Process vt → Process vt) (ps : List (Process vt))
      → i < length ps
      → i < length (modify k f ps)
  modify-lt i k f ps v = omega (arith, length-modify k f ps)

  pub handle_app_event-HasSelected :
      (env : Env) (e : Event) (app : App vt)
      → HasSelected app
      → HasSelected (handle_app_event env e app)
  unfolding handle_app_event
  handle_app_event-HasSelected env (pty_output id bytes) app v =
      modify-lt app.selected id _ app.processes v
  handle_app_event-HasSelected env (process_exited id status) app v =
      modify-lt app.selected id _ app.processes v

  pub set_size-HasSelected :
      (cols rows : ℕ) (app : App vt) → HasSelected app → HasSelected (set_size cols rows app)
  unfolding set_size
  set_size-HasSelected cols rows app v =
      resize_processes-HasSelected (record app { terminal_cols = cols; terminal_rows = rows }) v

  pub handle_server_event-HasSelected :
      (e : ServerEvent) (app : App vt) → HasSelected app → HasSelected (handle_server_event e app)
  unfolding handle_server_event
  handle_server_event-HasSelected (attach c cols rows) app v =
      set_size-HasSelected cols rows (State.detach app) (detach-HasSelected app v)
  handle_server_event-HasSelected quit_request app v = begin_quit-HasSelected app v

  pub drop_client-HasSelected : (app : App vt) → HasSelected app → HasSelected (drop_client app)
  unfolding drop_client
  drop_client-HasSelected app v = reset_view-HasSelected (record app { client = none }) v

  pub after_draw-IsSafe :
      (r : Client × Drawn) (app : App vt)
      → r.1 ≢ unreachable
      → HasSelected app
      → IsSafe (after_draw r app)
  unfolding after_draw
  after_draw-IsSafe (c, sent) app ne v = v
  after_draw-IsSafe (c, busy) app ne v = v
  after_draw-IsSafe (c, disconnected) app ne v = drop_client-HasSelected app v
  after_draw-IsSafe (c, unreachable) app ne v = ne refl

  choose-HasSelected :
      (o : Option ℕ) (app : App vt)
      → Below (length app.processes) o
      → HasSelected app
      → HasSelected (elim o [
        | none ↦ app
        | some i ↦ record app {
          selected = i;
          search = State.clear app.search;
          mode = unfocused app.mode;
        }
      ])
  choose-HasSelected none app b v = v
  choose-HasSelected (some i) app b v = b

  pub click-HasSelected :
      (world : World) (column : ℕ) (app : App vt)
      → HasSelected app
      → HasSelected (click world column app)
  unfolding click
  click-HasSelected world column app v =
      let o =
        tab_index_at_col world.width (map tab_of app.processes) app.selected app.terminal_cols
          column in
      choose-HasSelected o app
        (subst (λ n. Below n o) (length-map app.processes tab_of)
          (tab_index_at_col-Below world.width (map tab_of app.processes) app.selected
            app.terminal_cols column))
        v
