-- ===== src/Tests/Commands.antt =====
-- The directory of servers and the command line on concrete inputs (src/server.rs, src/main.rs).
use mathlib.Core.List.{Memᴰ}
use mtack.Base.{
  ◌↔◌, refl, Bool, true, List, [], ◌∷◌, ◌++◌, Option, none, some, Text, Bytes, length, leb, text_eq,
}
use mtack.Base.Utf8.{codes}
use mtack.Server.Listing.{
  Metadata, runtime_dir, running, FilePath, Serves, list_running, list_running_iff,
}
use mtack.Main.{Files, Target, attach, target, chosen_config, reaches_running, only_running_config}
use mtack.Main.Choice.{IsTarget, target_sound}

abbrev home : Text
home = codes "/home/a/mtack.kdl"

abbrev shorter : Bytes → Bytes → Bool
shorter p q = leb (length p) (length q)

abbrev accepts : FilePath → Bool
accepts path = true

abbrev lock_of : FilePath → Option Bytes
lock_of path = some home

-- The socket and the lock of one server, and an entry that cannot be read.
abbrev entries : List (Option FilePath)
entries =
    some (record { stem = codes "9f"; extension = some (codes "lock") })
    ∷ none
    ∷ some (record { stem = codes "9f"; extension = some (codes "sock") })
    ∷ []

list_running_iff_example :
    Memᴰ home (list_running shorter accepts lock_of (some entries))
    ↔ Serves shorter accepts lock_of entries home
list_running_iff_example = list_running_iff shorter accepts lock_of entries home

abbrev private : Option Metadata
private = some (record { is_dir = true; uid = 501; mode = 0x41c0 })

-- The configuration is gone, its server still runs.
abbrev files : Files
files = record {
  absolute = λ path. some path;
  parent = λ path. some (codes "/home/a");
  canonicalize = λ path. none;
}

abbrev to_home : Target
to_home = record {
  config_path = home;
  config_dir = codes "/home/a";
  config_flag = codes " -c " ++ home;
}

target_sound_example :
    IsTarget files none
      (some attach)
      (some none)
      (runtime_dir 501 true private)
      (list_running shorter accepts lock_of (some entries))
      to_home
unfolding target list_running chosen_config reaches_running only_running_config running text_eq
    runtime_dir
target_sound_example =
    target_sound files none (some attach) (some none) (runtime_dir 501 true private)
      (list_running shorter accepts lock_of (some entries)) to_home refl
