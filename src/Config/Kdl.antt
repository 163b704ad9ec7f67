-- ===== src/Config/Kdl.antt =====
-- The crate kdl, a parameter of the model: a parsed document and its accessors, as src/config.rs calls
-- them.
use mtack.Base.{ℕ, Bool, List, Option, Text}

-- `negsuc n` is -(n + 1).
pub data ℤ : Type 0 where
  pos : ℕ → ℤ
  negsuc : ℕ → ℤ

pub record Kdl : Type 1 where
  pub Document : Type 0
  pub Node : Type 0
  pub Entry : Type 0
  pub Value : Type 0
  -- `str::parse`; `none` is a syntax error.
  pub read : Text → Option Document
  pub nodes : Document → List Node
  -- The node of a document with a name, and the first argument of that node.
  pub get : Document → Text → Option Node
  pub get_arg : Document → Text → Option Value
  pub node_name : Node → Text
  -- The first argument (`node.get(0)`), and all entries, arguments and properties.
  pub first : Node → Option Value
  pub entries : Node → List Entry
  pub children : Node → Option Document
  pub entry_name : Entry → Option Text
  pub entry_value : Entry → Value
  pub as_string : Value → Option Text
  pub as_integer : Value → Option ℤ
  pub as_bool : Value → Option Bool
