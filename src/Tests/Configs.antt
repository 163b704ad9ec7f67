-- ===== src/Tests/Configs.antt =====
-- A configuration on concrete inputs (src/config.rs): a document type whose accessors do what those of
-- the crate kdl do on these documents.
use mtack.Base.{
  ◌≡◌, ◌↔◌, refl, Bool, true, false, List, [], ◌∷◌, Option, none, some, Text, if◌then◌else◌,
  text_eq,
}
use mtack.Base.Results.{ok}
use mtack.Base.Utf8.{codes}
use mtack.Input.{ctrl_key}
use mtack.Config.Kdl.{Kdl, ℤ, pos}
use mtack.Config.Types.{Config, ProcConfig}
use mtack.Config.Fields.{
  unfocus_key_of, positive, ctrl_of, char_of, expand_tilde, join, positive_at, nonnegative_at,
  nonnegative, unfocus_key_at, parse_positive_int, parse_nonneg_int, parse_bool_field,
  parse_unfocus_key,
}
use mtack.Config.Parse
use mtack.Config.Validity.{IsValid, parse-IsValid}
use mtack.Config.Find.{find_config_file, candidate, Holds, Nearest, find_config_file_iff}

data Value : Type 0 where
  text : Text → Value
  number : ℤ → Value
  boolean : Bool → Value

data Entry : Type 0 where
  arg : Value → Entry
  property : Text → Value → Entry

-- A document is its nodes, each with its name, its entries and its block.
mutual
  data Document : Type 0 where
    nil : Document
    cons : Node → Document → Document

  data Node : Type 0 where
    leaf : Text → List Entry → Node
    block : Text → List Entry → Document → Node

nodes_of : Document → List Node
nodes_of nil = []
nodes_of (cons n d) = n ∷ nodes_of d

abbrev name_of : Node → Text
name_of (leaf name entries) = name
name_of (block name entries d) = name

abbrev entries_of : Node → List Entry
entries_of (leaf name entries) = entries
entries_of (block name entries d) = entries

abbrev children_of : Node → Option Document
children_of (leaf name entries) = none
children_of (block name entries d) = some d

abbrev first_of : List Entry → Option Value
first_of [] = none
first_of (arg v ∷ es) = some v
first_of (property name v ∷ es) = first_of es

abbrev get_in : List Node → Text → Option Node
get_in [] name = none
get_in (n ∷ ns) name = if text_eq (name_of n) name then some n else get_in ns name

abbrev first_in : Option Node → Option Value
first_in none = none
first_in (some n) = first_of (entries_of n)

abbrev arg_text : Text → Entry
arg_text t = arg (text t)

abbrev block_of : List Node → Document
block_of [] = nil
block_of (n ∷ ns) = cons n (block_of ns)

abbrev env_block : List Node
env_block =
    leaf (codes "PORT") (arg_text (codes "8080") ∷ [])
    ∷ leaf (codes "MODE") (arg_text (codes "dev") ∷ [])
    ∷ []

abbrev proc_block : Document
proc_block = block_of (
    leaf (codes "cmd") (arg_text (codes "npm") ∷ arg_text (codes "start") ∷ [])
    ∷ leaf (codes "cwd") (arg_text (codes "~/web") ∷ [])
    ∷ block (codes "env") [] (block_of env_block)
    ∷ leaf (codes "autorestart") (arg (boolean false) ∷ [])
    ∷ leaf (codes "unfocus-key") (arg_text (codes "ctrl-g") ∷ [])
    ∷ [])

abbrev file : Document
file = block_of (
    leaf (codes "shutdown-timeout") (arg (number (pos 3)) ∷ [])
    ∷ block (codes "proc") (arg_text (codes "web") ∷ []) proc_block
    ∷ [])

abbrev kdl : Kdl
kdl = record {
  Document = Document;
  Node = Node;
  Entry = Entry;
  Value = Value;
  read = λ input. if text_eq input (codes "file") then some file else none;
  nodes = nodes_of;
  get = λ d name. get_in (nodes_of d) name;
  get_arg = λ d name. first_in (get_in (nodes_of d) name);
  node_name = name_of;
  first = λ n. first_of (entries_of n);
  entries = entries_of;
  children = children_of;
  entry_name = λ e. elim e [ arg v ↦ none | property name v ↦ some name ];
  entry_value = λ e. elim e [ arg v ↦ v | property name v ↦ v ];
  as_string = λ v. elim v [ text t ↦ some t | number n ↦ none | boolean b ↦ none ];
  as_integer = λ v. elim v [ text t ↦ none | number n ↦ some n | boolean b ↦ none ];
  as_bool = λ v. elim v [ text t ↦ none | number n ↦ none | boolean b ↦ some b ];
}

abbrev web : ProcConfig
web = record {
  name = codes "web";
  autostart = true;
  autorestart = false;
  program = codes "npm";
  args = codes "start" ∷ [];
  cwd = some (codes "/home/a/web");
  env = (codes "PORT", codes "8080") ∷ (codes "MODE", codes "dev") ∷ [];
  scrollback = none;
  unfocus_key = ctrl_key b'g';
}

abbrev config : Config
config = record { scrollback = 2000; shutdown_timeout = 3000; procs = web ∷ [] }

parse_file : Parse.parse kdl (some (codes "/home/a")) none (codes "file") ≡ ok config
unfolding Parse.parse Parse.parse_document Parse.reject_unknown_nodes Parse.reject_unknown
    Parse.at_least_one Parse.procs_of Parse.parse_proc Parse.proc_of Parse.parse_command
    Parse.parse_cmd Parse.parse_shell Parse.parse_env Parse.env_at Parse.env_of parse_positive_int
    positive_at positive parse_nonneg_int nonnegative_at nonnegative parse_bool_field
    parse_unfocus_key unfocus_key_at unfocus_key_of ctrl_of char_of expand_tilde join text_eq
    nodes_of
parse_file = refl

parse-IsValid_example : IsValid config
parse-IsValid_example =
    parse-IsValid kdl (some (codes "/home/a")) none (codes "file") config parse_file

-- /home/a/web has no such file, /home/a has `.mtack.kdl`.
abbrev is_file : List Text → Text → Bool
is_file (a ∷ b ∷ []) name = text_eq name (codes ".mtack.kdl")
is_file _ name = false

abbrev web_dir : List Text
web_dir = codes "web" ∷ codes "a" ∷ codes "home" ∷ []

find_config_file_iff_example :
    (find_config_file is_file web_dir ≡ some (codes "a" ∷ codes "home" ∷ [], codes ".mtack.kdl"))
    ↔ (Nearest is_file web_dir (codes "a" ∷ codes "home" ∷ [])
        × Holds is_file (codes "a" ∷ codes "home" ∷ []) (codes ".mtack.kdl"))
find_config_file_iff_example =
    find_config_file_iff is_file web_dir (codes "a" ∷ codes "home" ∷ []) (codes ".mtack.kdl")

find_above :
    find_config_file is_file web_dir ≡ some (codes "a" ∷ codes "home" ∷ [], codes ".mtack.kdl")
unfolding find_config_file candidate text_eq
find_above = refl
