-- ===== src/App/View.antt =====
-- What the user sees after an attach, a detach or a key press (src/app.rs).
use mtack.Base.{
  ℕ, ◌≡◌, refl, sym, true, false, List, [], ◌∷◌, ◌++◌, Option, none, some, arith, ◌⊎◌, ltb, length,
  map, All, if-cases, get_elem?-lt, ltb→lt, All-map, All-map-total, subst, get_elem?-modify,
}
use mtack.Base.Panic.{◌>>=◌}
use mtack.Vt100.{Vt100, Laws}
use mtack.Key.{CtEvent}
use mtack.Protocol.{event}
use mtack.Input.{normal, quitting}
use mtack.Terminal.Defs.{scrollback, is_scrolled_back}
use mtack.Terminal.Defs as Terminal
use mtack.Process.Types.{Process}
use mtack.Process.Ops as Process
use mtack.Server.{Client, Outbox, detach_client}
use mtack.App.State.{
  App, World, Env, selected_process, update_selected, to_bottom, reset_view, unfinished,
  take_client, detach, set_size,
}
use mtack.App.Loop.{handle_client_msg, handle_crossterm_event, handle_server_event, attach}

-- The last goodbye is this client's, if there was one.
abbrev pub SaysGoodbye : Option Client → List Outbox → Type 0
SaysGoodbye none os = Unit {0}
SaysGoodbye (some c) os = (earlier : List Outbox) × (os ≡ earlier ++ (detach_client c ∷ []))

module _ {vt : Vt100} where
  -- The process shows the latest output, and its watcher is not paused.
  abbrev pub IsFollowing : Process vt → Type 0
  IsFollowing p = (is_scrolled_back p.terminal ≡ false) × (p.paused ≡ false)

  abbrev pub IsUnpaused : Process vt → Type 0
  IsUnpaused p = p.paused ≡ false

  -- What a client that attaches finds: no help, no query, no matches, the focus, and a mode that is
  -- `normal` or `quitting`.
  abbrev pub IsFresh : App vt → Type 0
  IsFresh app =
      (app.show_help ≡ false)
      × (app.search.query ≡ [])
      × (app.search.matches ≡ [])
      × (app.focused ≡ true)
      × ((app.mode ≡ normal) ⊎ (app.mode ≡ quitting))

module _ {vt : Vt100} where
  -- Of the outcome of an event: the selected process is there, and its watcher is paused exactly if
  -- its terminal is scrolled back.
  abbrev pub IsSynced : Option (App vt) → Type 0
  IsSynced none = Unit {0}
  IsSynced (some app) =
      (p : Process vt) × (selected_process app ≡ some p) × (p.paused ≡ is_scrolled_back p.terminal)

module _ {vt : Vt100} (laws : Laws vt) where
  to_bottom-IsFollowing : (p : Process vt) → IsFollowing (to_bottom p)
  unfolding Terminal.scroll_to_bottom Process.sync_paused
  to_bottom-IsFollowing p = ground (arith, laws.offset-set 0 p.terminal.parser)

  processes-detach : (app : App vt) → (detach app).processes ≡ map to_bottom app.processes
  unfolding detach
  processes-detach app = ground arith

  resize-IsUnpaused :
      (rows cols : ℕ) (p : Process vt) → IsFollowing p → IsUnpaused (Process.resize rows cols p)
  unfolding Process.resize
  resize-IsUnpaused rows cols p h = h.1

  detach-IsFollowing : (app : App vt) → All IsFollowing (detach app).processes
  detach-IsFollowing app =
      subst (All IsFollowing) (sym (processes-detach app))
        (All-map-total IsFollowing to_bottom app.processes to_bottom-IsFollowing)

  reset_view-IsFresh : (app : App vt) → IsFresh (reset_view app)
  unfolding reset_view
  reset_view-IsFresh app = (refl, refl, refl, refl, ground arith)

  take_client-SaysGoodbye :
      (o : Option Client) (app : App vt) → SaysGoodbye o (take_client o app).goodbyes
  unfolding take_client
  take_client-SaysGoodbye none app = tt
  take_client-SaysGoodbye (some c) app = (unfinished app.goodbyes, refl)

  take_client-none :
      (o : Option Client) (app : App vt) → app.client ≡ o → (take_client o app).client ≡ none
  unfolding take_client
  take_client-none none app h = h
  take_client-none (some c) app h = refl

  -- A detach, by the user or ahead of a new client, resets the view: the App is fresh, every process
  -- shows its latest output, unpaused, and the client that was there gets its goodbye behind the
  -- goodbyes that still wait.
  pub detach_lem :
      (app : App vt)
      → IsFresh (detach app)
        × All IsFollowing (detach app).processes
        × SaysGoodbye app.client (detach app).goodbyes
        × ((detach app).client ≡ none)
  unfolding detach
  detach_lem app = (
    reset_view-IsFresh (take_client app.client app),
    detach-IsFollowing app,
    take_client-SaysGoodbye app.client app,
    take_client-none app.client app refl,
  )

  -- A client that attaches takes the place of the one before, which gets its goodbye. The new client
  -- finds a fresh App of its own terminal's size, that will be drawn, with no process paused.
  pub attach_lem :
      (client : Client) (cols rows : ℕ) (app : App vt)
      → let attached = handle_server_event (attach client cols rows) app in
        (attached.client ≡ some client)
        × (attached.terminal_cols ≡ cols)
        × (attached.terminal_rows ≡ rows)
        × (attached.dirty ≡ true)
        × IsFresh attached
        × All IsUnpaused attached.processes
        × SaysGoodbye app.client attached.goodbyes
  unfolding handle_server_event set_size
  attach_lem client cols rows app =
      let (fresh, following, goodbye, gone) = detach_lem app in
      (
        refl,
        refl,
        refl,
        refl,
        fresh,
        All-map IsFollowing IsUnpaused (Process.resize _ cols) (detach app).processes
            (resize-IsUnpaused _ cols) following,
        goodbye,
      )

module _ {vt : Vt100} (world : World) (env : Env) where
  sync-IsSynced :
      (o : Option (App vt))
      → IsSynced (
          o >>= λ handled.
          update_selected Process.sync_paused handled >>= λ a. some (record a { dirty = true }))
  unfolding Process.sync_paused
  sync-IsSynced none = tt
  sync-IsSynced (some app) =
      if-cases (λ (o : Option (App vt)). IsSynced (o >>= λ a. some (record a { dirty = true })))
        (ltb app.selected (length app.processes)) (some _) none
        (λ e.
          let (p, found) = get_elem?-lt app.processes app.selected (ltb→lt _ _ e) in
          (_, get_elem?-modify app.processes app.selected Process.sync_paused p found, refl))
        (λ e. tt)

  -- After a client's key press or mouse event that does not panic, the selected process is there,
  -- and its watcher is paused exactly if its terminal is scrolled back.
  pub handle_client_msg-paused :
      (e : CtEvent) (app after : App vt)
      → handle_client_msg world env (event e) app ≡ some after
      → (p : Process vt) × (selected_process after ≡ some p)
        × (p.paused ≡ is_scrolled_back p.terminal)
  unfolding handle_client_msg
  handle_client_msg-paused e app after h =
      subst IsSynced h (sync-IsSynced (handle_crossterm_event world env e app))
