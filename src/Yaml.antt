-- ===== src/Yaml.antt =====
-- The part of the package serde_yaml that the program uses: reading a document, and the accessors of
-- its `Value`. The package is not in the repository, so its values and functions are parameters.
pub mod Sample
use runlane.Prelude.{ℕ, String, Option, List, Result}

pub record Yaml (Value : Type 0) : Type 0 where
  -- `serde_yaml::from_str`, with the text of its error
  pub from_str : String → Result String Value
  -- `value.get(key)`
  pub get : Value → String → Option Value
  pub as_str : Value → Option String
  pub as_u64 : Value → Option ℕ
  pub as_sequence : Value → Option (List Value)
  -- `as_mapping`, as the pairs that its iterator yields
  pub as_mapping : Value → Option (List (Value × Value))
