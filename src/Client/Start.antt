-- ===== src/Client/Start.antt =====
-- Starting a server, from both ends (src/client.rs, `up`; src/main.rs, `serve`).
use mtack.Base.{
  ◌↔◌, none, some, ℕ, zero, suc, ◌+◌, ◌≤◌, ◌<◌, ◌≡◌, Bool, true, false, [], ◌∷◌, ◌++◌, Text,
  if◌then◌else◌, text_eq, arith, Bool-cases, inl, inr, ltb, subst,
}
use mtack.Base.Results.{Result, ok, err}
use mtack.Config.Types.{Config}
use mtack.Config.Fields.{ConfigError}
use mtack.Client.{
  Up, started, already_running, ready, busy, trim_end, cons_trimmed, becomes_reachable, after_start,
  up, Launch, launched,
}

-- What comes of binding the socket: the server listens, another one holds the lock, or an error.
pub data Bound : Type 0 where
  listens held bind_fails : Bound

-- What the server program meets: whether it gets a session of its own, what comes of the socket, whether the log is
-- created, what it loads, and whether its output can be written and flushed.
pub record Serving : Type 0 where
  pub gets_session : Bool
  pub bound : Bound
  pub creates_log : Bool
  pub config : Result ConfigError Config
  pub writes : Bool

-- A line goes out as a whole: what cannot be written is a panic or an error.
print_line : Bool → Text → Text
print_line writes text = if writes then text ++ (10 ∷ []) else []

loaded : Bool → Result ConfigError Config → Text
unfolding print_line
loaded writes (err e) = []
loaded writes (ok config) = print_line writes ready

serve_bound : Serving → Bound → Text
unfolding print_line loaded
serve_bound s held = print_line s.writes busy
serve_bound s bind_fails = []
serve_bound s listens = if s.creates_log then loaded s.writes s.config else []

-- What the server program writes to its output until it is ready, the line that its client reads.
unfoldable pub serve : Serving → Text
unfolding serve_bound
serve s = if s.gets_session then serve_bound s s.bound else []

-- Where no server answers at first, the client comes to read the line of the server that it starts.
abbrev pub Launches : Result ConfigError Config → Launch → Bool → Type 0
Launches mine l reads =
    ((c : Config) × (mine ≡ ok c))
    × (l.opens_log ≡ true)
    × (l.finds_exe ≡ true)
    × (l.spawns ≡ true)
    × (reads ≡ true)

-- The server binds its socket, creates its log, loads the configuration, and can say so.
abbrev pub GetsReady : Serving → Type 0
GetsReady s =
    (s.gets_session ≡ true)
    × (s.bound ≡ listens)
    × (s.creates_log ≡ true)
    × ((c : Config) × (s.config ≡ ok c))
    × (s.writes ≡ true)

-- Another server holds the lock, and this one can say so.
abbrev pub IsBusy : Serving → Type 0
IsBusy s = (s.gets_session ≡ true) × (s.bound ≡ held) × (s.writes ≡ true)

abbrev pub Reached : (ℕ → Bool) → ℕ → ℕ → Type 0
Reached connects tries attempt =
    (n : ℕ) × (attempt ≤ n) × (n < attempt + tries) × (connects n ≡ true)

-- The launch of a server, and its line where the client can read it.
abbrev pub with_line : Launch → Bool → Serving → Launch
with_line l reads s = record l { line = if reads then some (serve s) else none }

becomes_reachable_iff :
    (connects : ℕ → Bool) (tries attempt : ℕ)
    → (becomes_reachable connects tries attempt ≡ true) ↔ Reached connects tries attempt
unfolding becomes_reachable
becomes_reachable_iff connects zero attempt =
    (λ h. cc, λ (n, l, u, c). let no : ⊥ = omega arith in absurd no)
becomes_reachable_iff connects (suc tries) attempt = (
  λ h. elim (Bool-cases (connects attempt)) [
    | inl c ↦ (attempt, omega arith, omega arith, c)
    | inr c ↦
        let (n, l, u, k) =
          (becomes_reachable_iff connects tries (suc attempt)).0 (ground (arith, c, h)) in
        (n, omega arith, omega arith, k)
  ],
  λ (n, l, u, k). elim (Bool-cases (ltb attempt n)) [
    | inl later ↦
        let rest =
          (becomes_reachable_iff connects tries (suc attempt)).1
            (n, ground (arith, later), omega arith, k) in
        ground (arith, rest)
    | inr now ↦
        let same : n ≡ attempt = ground (arith, now) in
        let first = subst (λ m. connects m ≡ true) same k in ground (arith, first)
  ],
)

-- How the server fares, for the four things that it says or does not say.
after_start-GetsReady :
    (connects : ℕ → Bool) (s : Serving)
    → (after_start connects (serve s) ≡ ok started) ↔ GetsReady s
unfolding after_start serve trim_end cons_trimmed text_eq
after_start-GetsReady connects s = (λ h. ground (arith, h), λ h. ground (arith, h))

after_start-IsBusy :
    (connects : ℕ → Bool) (s : Serving)
    → (after_start connects (serve s) ≡ ok already_running)
      ↔ (IsBusy s × (becomes_reachable connects 40 1 ≡ true))
unfolding after_start serve trim_end cons_trimmed text_eq
after_start-IsBusy connects s = (λ h. ground (arith, h), λ h. ground (arith, h))

-- What the client answers is what it makes of the server's line, where it comes to read it.
up-Launches :
    (connects : ℕ → Bool) (mine : Result ConfigError Config) (l : Launch) (reads : Bool)
    (s : Serving) (outcome : Up)
    → connects 0 ≡ false
    → (up connects mine (with_line l reads s) ≡ ok outcome)
      ↔ (Launches mine l reads × (after_start connects (serve s) ≡ ok outcome))
unfolding up launched
up-Launches connects (err e) l reads s outcome h =
    (λ k. ground (arith, h, k), λ k. ground (arith, h, k))
up-Launches connects (ok c) l reads s outcome h =
    (λ k. ground (arith, h, k), λ k. ground (arith, h, k))

-- Both ends of a start together, where no server answers at first. `up` reports a start exactly where the client launches
-- the server and reads its line, and the server gets ready: it has a session, the socket, the log and the configuration, and
-- can write. It reports a running server exactly where it launches one and reads that this one is busy, another holding the
-- lock, and one of 40 further attempts reaches that one. Everything else is an error.
pub up-serve :
    (connects : ℕ → Bool) (mine : Result ConfigError Config) (l : Launch) (reads : Bool)
    (s : Serving)
    → connects 0 ≡ false
    → ((up connects mine (with_line l reads s) ≡ ok started)
        ↔ (Launches mine l reads × GetsReady s))
      × ((up connects mine (with_line l reads s) ≡ ok already_running)
          ↔ (Launches mine l reads × IsBusy s × Reached connects 40 1))
up-serve connects mine l reads s h =
    let started_when = up-Launches connects mine l reads s started h in
    let running_when = up-Launches connects mine l reads s already_running h in
    (
      (
        λ e.
            let (client, line) = started_when.0 e in
            (client, (after_start-GetsReady connects s).0 line),
        λ (client, ready). started_when.1 (client, (after_start-GetsReady connects s).1 ready),
      ),
      (
        λ e.
            let (client, line) = running_when.0 e in
            let (server, reached) = (after_start-IsBusy connects s).0 line in
            (client, server, (becomes_reachable_iff connects 40 1).0 reached),
        λ (client, server, reached). running_when.1 (
          client,
          (after_start-IsBusy connects s).1
              (server, (becomes_reachable_iff connects 40 1).1 reached),
        ),
      ),
    )
