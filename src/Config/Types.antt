-- ===== src/Config/Types.antt =====
-- What a configuration says (src/config.rs). Paths are texts, durations milliseconds.
use mtack.Base.{ℕ, Bool, List, Option, Text, get_or}
use mtack.Input.{UnfocusKey}

pub record ProcConfig : Type 0 where
  pub name : Text
  pub autostart : Bool
  pub autorestart : Bool
  pub program : Text
  pub args : List Text
  pub cwd : Option Text
  pub env : List (Text × Text)
  pub scrollback : Option ℕ
  pub unfocus_key : UnfocusKey

pub record Config : Type 0 where
  pub scrollback : ℕ
  pub shutdown_timeout : ℕ
  pub procs : List ProcConfig

-- The process's own scrollback, or the global one.
abbrev pub scrollback_of : ProcConfig → ℕ → ℕ
scrollback_of c global = get_or c.scrollback global
