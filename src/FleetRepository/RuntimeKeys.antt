-- ===== src/FleetRepository/RuntimeKeys.antt =====
-- Which runtime fields the check of a fleet document finds.
use mathlib.Core.List.{Mem}
use runlane.Prelude.{◌<◌, ◌≡◌, String, some, List}
use runlane.FleetRepository.Documents.{mapping_variant, sequence_variant, Reader}

module _ {Value : Type 0} (reader : Reader Value) where
  -- what is inside a value is less deep than the value
  pub record Finite : Type 0 where
    pub in_mapping :
        (value : Value) (pairs : List (Value × Value)) (k v : Value)
        → reader.variant value ≡ mapping_variant pairs
        → Mem (k, v) pairs
        → reader.depth v < reader.depth value
    pub in_sequence :
        (value : Value) (items : List Value) (item : Value)
        → reader.variant value ≡ sequence_variant items
        → Mem item items
        → reader.depth item < reader.depth value

  -- A key that is a text stands in a value: it is a key of a mapping there, or it is in an item of a
  -- sequence, or in what a mapping has under another key that is a text.
  pub data Stands (key : String) : Value → Type 0 where
    is_key :
        (value : Value) (pairs : List (Value × Value)) (k v : Value)
        → reader.variant value ≡ mapping_variant pairs
        → Mem (k, v) pairs
        → reader.as_str k ≡ some key
        → Stands key value
    under_key :
        (value : Value) (pairs : List (Value × Value)) (k v : Value) (name : String)
        → reader.variant value ≡ mapping_variant pairs
        → Mem (k, v) pairs
        → reader.as_str k ≡ some name
        → Stands key v
        → Stands key value
    in_item :
        (value : Value) (items : List Value) (item : Value)
        → reader.variant value ≡ sequence_variant items
        → Mem item items
        → Stands key item
        → Stands key value
