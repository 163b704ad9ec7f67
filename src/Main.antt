-- ===== src/Main.antt =====
-- The command line (src/main.rs): which configuration a command is about, and what it reports. The
-- file system and the outcomes of the client's calls are arguments; paths are texts.
pub mod Choice
use mtack.Base.{
  ◌≡◌, Bool, true, false, List, [], ◌∷◌, ◌++◌, Option, none, some, Text, if◌then◌else◌,
}
use mtack.Base.Results.{Result, ok, err, ok_or, ◌>>=◌}
use mtack.Base.Utf8.{codes}
use mtack.Client.{Up, UpError, started, already_running, AttachEnd, is_detached, is_exited, is_lost}
use mtack.Server.Listing.{DirError}

pub data Cmd : Type 0 where
  up attach down server : Cmd

-- `has_no_parent` is the panic of `expect`.
pub data Failure : Type 0 where
  no_cwd not_found not_absolute has_no_parent cannot_read server_lost : Failure
  several not_running : List Text → Failure
  bad_dir : DirError → Failure
  not_up : UpError → Failure

-- `std::path::absolute`, `Path::parent` and `std::fs::canonicalize`.
pub record Files : Type 0 where
  pub absolute : Text → Option Text
  pub parent : Text → Option Text
  pub canonicalize : Text → Option Text

pub record Target : Type 0 where
  pub config_path : Text
  pub config_dir : Text
  pub config_flag : Text

pub data Report : Type 0 where
  nothing : Report
  to_attach to_return already_running_for : Text → Report
  none_running : List Text → Report

unfoldable pub reaches_running : Option Cmd → Bool
reaches_running (some attach) = true
reaches_running (some down) = true
reaches_running _ = false

abbrev pub checked_dir : {A : Type 0} → Result DirError A → Result Failure A
checked_dir (ok a) = ok a
checked_dir (err e) = err (bad_dir e)

unfoldable pub only_one : List Text → Result Failure Text
only_one [] = err not_found
only_one (config ∷ []) = ok config
only_one (config ∷ other ∷ more) = err (several (config ∷ other ∷ more))

-- `runtime` is what `runtime_dir` gives, `listed` what `list_running` then does.
unfoldable pub only_running_config : Result DirError (Unit {0}) → List Text → Result Failure Text
unfolding only_one
only_running_config runtime listed = checked_dir runtime >>= λ dir. only_one listed

-- `named` is the flag, `found` what the search from the working directory gives, if there is one.
unfoldable pub chosen_config :
    Option Text
    → Option Cmd
    → Option (Option Text)
    → Result DirError (Unit {0})
    → List Text
    → Result Failure (Text × Bool)
chosen_config (some path) command found runtime listed = ok (path, true)
chosen_config none command none runtime listed = err no_cwd
chosen_config none command (some (some path)) runtime listed = ok (path, false)
chosen_config none command (some none) runtime listed =
    if reaches_running command
    then (only_running_config runtime listed >>= λ path. ok (path, true))
    else err not_found

-- A server can outlive its configuration.
unfoldable pub resolved : Files → Bool → Text → Option Text → Result Failure Text
resolved files reaches path (some canonical) = ok canonical
resolved files true path none = ok_or (files.absolute path) not_absolute
resolved files false path none = err cannot_read

-- The part of `main` before the command is carried out.
unfoldable pub target :
    Files
    → Option Text
    → Option Cmd
    → Option (Option Text)
    → Result DirError (Unit {0})
    → List Text
    → Result Failure Target
unfolding resolved
target files named command found runtime listed = do
  chosen ← chosen_config named command found runtime listed
  absolute ← ok_or (files.absolute chosen.0) not_absolute
  dir ← ok_or (files.parent absolute) has_no_parent
  path ← resolved files (reaches_running command) chosen.0 (files.canonicalize chosen.0)
  checked ← checked_dir runtime
  ok (record {
    config_path = path;
    config_dir = dir;
    config_flag = if chosen.1 then codes " -c " ++ path else [];
  })

attached : Target → List Text → Option AttachEnd → Result Failure Report
attached to listed none = err (not_running listed)
attached to listed (some is_detached) = ok (to_return to.config_flag)
attached to listed (some is_exited) = ok nothing
attached to listed (some is_lost) = err server_lost

abbrev up_report : Target → Result UpError Up → Result Failure Report
up_report to (err e) = err (not_up e)
up_report to (ok started) = ok (to_attach to.config_flag)
up_report to (ok already_running) = ok (already_running_for to.config_path)

-- What a command of the client reports, with what its calls give.
unfoldable pub report :
    Option Cmd
    → Target
    → List Text
    → Result UpError Up
    → Option AttachEnd
    → Bool
    → Result Failure Report
unfolding attached
report none to listed upped end stopped = up_report to upped >>= λ reported. attached to listed end
report (some up) to listed upped end stopped = up_report to upped
report (some attach) to listed upped end stopped = attached to listed end
report (some down) to listed upped end stopped =
    ok (if stopped then nothing else none_running listed)
report (some server) to listed upped end stopped = ok nothing
