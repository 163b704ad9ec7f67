-- ===== src/Config/Parse.antt =====
-- The parsing of a configuration (src/config.rs). The variables HOME and SHELL are arguments.
use mtack.Base.{
  ℕ, ◌*◌, true, not, ◌&&◌, List, [], ◌∷◌, Option, none, some, Text, if◌then◌else◌, is_empty,
  is_some, get_or, map, text_eq,
}
use mtack.Base.Results.{Result, ok, err, ◌>>=◌, ok_or}
use mtack.Base.Utf8.{codes}
use mtack.Config.Kdl.{Kdl}
use mtack.Config.Types.{Config, ProcConfig}
use mtack.Config.Fields.{
  Context, top_level, in_proc, ConfigError, invalid_document, no_procs, no_name, empty_name,
  unknown_node, duplicate_node, duplicate_proc, no_body, both_commands, no_command, empty_cmd,
  cmd_not_strings, shell_not_string, empty_shell, env_no_block, duplicate_env, env_not_string,
  contains, expand_tilde, parse_positive_int, parse_nonneg_int, parse_bool_field, parse_unfocus_key,
}

abbrev pub default_scrollback : ℕ
default_scrollback = 2000

-- In milliseconds.
abbrev pub default_shutdown_timeout : ℕ
default_shutdown_timeout = 5000

abbrev pub known_global_nodes : List Text
known_global_nodes = codes "proc" ∷ codes "scrollback" ∷ codes "shutdown-timeout" ∷ []

abbrev pub known_proc_nodes : List Text
known_proc_nodes =
    codes "autostart"
    ∷ codes "autorestart"
    ∷ codes "cmd"
    ∷ codes "cwd"
    ∷ codes "env"
    ∷ codes "scrollback"
    ∷ codes "shell"
    ∷ codes "unfocus-key"
    ∷ []

-- The names of the nodes, from the first on; `seen` is the set of those that may not come again.
unfoldable pub reject_unknown :
    List Text → List Text → Context → List Text → List Text → Result ConfigError (Unit {0})
reject_unknown known allow_repeated context seen [] = ok tt
reject_unknown known allow_repeated context seen (name ∷ names) =
    let repeated = contains name allow_repeated in
    let rest =
      reject_unknown known allow_repeated context (if repeated then seen else name ∷ seen) names in
    if not (contains name known)
    then err (unknown_node name context)
    else if not repeated && contains name seen
    then err (duplicate_node name context)
    else rest

-- The texts of all values, if each is one.
all_some : List (Option Text) → Option (List Text)
all_some [] = some []
all_some (none ∷ os) = none
all_some (some t ∷ os) = elim (all_some os) [ none ↦ none | some ts ↦ some (t ∷ ts) ]

module _ (kdl : Kdl) where
  abbrev pub names_of : List kdl.Node → List Text
  names_of nodes = map kdl.node_name nodes

  unfoldable pub reject_unknown_nodes :
      List kdl.Node → List Text → List Text → Context → Result ConfigError (Unit {0})
  unfolding reject_unknown
  reject_unknown_nodes nodes known allow_repeated context =
      reject_unknown known allow_repeated context [] (names_of nodes)

  abbrev pub positional : List kdl.Entry → List kdl.Entry
  positional [] = []
  positional (e ∷ es) = if is_some (kdl.entry_name e) then positional es else e ∷ positional es

  program_of : Text → Option (List Text) → Result ConfigError (Text × List Text)
  program_of proc none = err (cmd_not_strings proc)
  program_of proc (some []) = err (empty_cmd proc)
  program_of proc (some (program ∷ args)) = ok (program, args)

  unfoldable pub parse_cmd : kdl.Node → Text → Result ConfigError (Text × List Text)
  unfolding program_of all_some
  parse_cmd node proc =
      let arguments = positional (kdl.entries node) in
      if is_empty arguments
      then err (empty_cmd proc)
      else program_of proc (all_some (map (λ e. kdl.as_string (kdl.entry_value e)) arguments))

  unfoldable pub parse_shell : Option Text → kdl.Node → Text → Result ConfigError (Text × List Text)
  parse_shell shell node proc = do
    v ← ok_or (kdl.first node) (shell_not_string proc)
    val ← ok_or (kdl.as_string v) (shell_not_string proc)
    if is_empty val
        then err (empty_shell proc)
        else ok (get_or shell (codes "sh"), codes "-c" ∷ val ∷ [])

  command_of :
      Option Text → Option kdl.Node → Option kdl.Node → Text → Result ConfigError (Text × List Text)
  unfolding parse_cmd parse_shell
  command_of variable (some cmd) (some shell) proc = err (both_commands proc)
  command_of variable none none proc = err (no_command proc)
  command_of variable (some cmd) none proc = parse_cmd cmd proc
  command_of variable none (some shell) proc = parse_shell variable shell proc

  unfoldable pub parse_command :
      Option Text → kdl.Document → Text → Result ConfigError (Text × List Text)
  unfolding command_of
  parse_command variable doc proc =
      command_of variable (kdl.get doc (codes "cmd")) (kdl.get doc (codes "shell")) proc

  -- The loop over the variables of `env`; `seen` is the set of their names so far.
  unfoldable pub env_of : List Text → List kdl.Node → Result ConfigError (List (Text × Text))
  env_of seen [] = ok []
  env_of seen (child ∷ children) = do
    key ←
        (if contains (kdl.node_name child) seen
          then err (duplicate_env (kdl.node_name child))
          else ok (kdl.node_name child))
    v ← ok_or (kdl.first child) (env_not_string key)
    val ← ok_or (kdl.as_string v) (env_not_string key)
    rest ← env_of (key ∷ seen) children
    ok ((key, val) ∷ rest)

  unfoldable pub env_at : Option kdl.Node → Result ConfigError (List (Text × Text))
  unfolding env_of
  env_at none = ok []
  env_at (some node) = do
    block ← ok_or (kdl.children node) env_no_block
    env_of [] (kdl.nodes block)

  unfoldable pub parse_env : kdl.Document → Result ConfigError (List (Text × Text))
  parse_env doc = env_at (kdl.get doc (codes "env"))

  cwd_of : Option Text → Option kdl.Value → Option Text
  cwd_of home none = none
  cwd_of home (some v) = elim (kdl.as_string v) [
    | none ↦ none
    | some path ↦ some (expand_tilde home path)
  ]

  unfoldable pub proc_of :
      Option Text → Option Text → Text → kdl.Document → Result ConfigError ProcConfig
  unfolding cwd_of
  proc_of home shell name children = do
    (program, args) ← parse_command shell children name
    env ← parse_env children
    autostart ← parse_bool_field kdl children (codes "autostart")
    autorestart ← parse_bool_field kdl children (codes "autorestart")
    unfocus_key ← parse_unfocus_key kdl children
    scrollback ← parse_positive_int kdl children (codes "scrollback")
    ok (record {
      name = name;
      autostart = get_or autostart true;
      autorestart = get_or autorestart true;
      program = program;
      args = args;
      cwd = cwd_of home (kdl.get_arg children (codes "cwd"));
      env = env;
      scrollback = scrollback;
      unfocus_key = unfocus_key;
    })

  unfoldable pub parse_proc : Option Text → Option Text → kdl.Node → Result ConfigError ProcConfig
  unfolding proc_of
  parse_proc home shell node = do
    v ← ok_or (kdl.first node) no_name
    name ← ok_or (kdl.as_string v) no_name
    named ← (if is_empty name then err empty_name else ok name)
    children ← ok_or (kdl.children node) (no_body named)
    checked ← reject_unknown_nodes (kdl.nodes children) known_proc_nodes [] (in_proc named)
    proc_of home shell named children

  -- The loop over the processes; `seen` is the set of their names so far.
  unfoldable pub procs_of :
      Option Text → Option Text → List Text → List kdl.Node → Result ConfigError (List ProcConfig)
  unfolding parse_proc
  procs_of home shell seen [] = ok []
  procs_of home shell seen (node ∷ nodes) = do
    proc ← parse_proc home shell node
    named ← (if contains proc.name seen then err (duplicate_proc proc.name) else ok proc)
    rest ← procs_of home shell (named.name ∷ seen) nodes
    ok (named ∷ rest)

  abbrev pub proc_nodes : List kdl.Node → List kdl.Node
  proc_nodes [] = []
  proc_nodes (n ∷ ns) =
      if text_eq (kdl.node_name n) (codes "proc") then n ∷ proc_nodes ns else proc_nodes ns

  unfoldable pub at_least_one : List kdl.Node → Result ConfigError (List kdl.Node)
  at_least_one [] = err no_procs
  at_least_one (n ∷ ns) = ok (n ∷ ns)

  -- Of `shutdown-timeout`, which is in seconds.
  abbrev timeout_of : Option ℕ → ℕ
  timeout_of none = default_shutdown_timeout
  timeout_of (some s) = s * 1000

  unfoldable pub parse_document :
      Option Text → Option Text → kdl.Document → Result ConfigError Config
  unfolding procs_of at_least_one
  parse_document home shell doc = do
    checked ← reject_unknown_nodes (kdl.nodes doc) known_global_nodes (codes "proc" ∷ []) top_level
    scrollback ← parse_positive_int kdl doc (codes "scrollback")
    timeout ← parse_nonneg_int kdl doc (codes "shutdown-timeout")
    found ← at_least_one (proc_nodes (kdl.nodes doc))
    procs ← procs_of home shell [] found
    ok (record {
      scrollback = get_or scrollback default_scrollback;
      shutdown_timeout = timeout_of timeout;
      procs = procs;
    })

  unfoldable pub parse : Option Text → Option Text → Text → Result ConfigError Config
  unfolding parse_document
  parse home shell input = ok_or (kdl.read input) invalid_document >>= parse_document home shell
