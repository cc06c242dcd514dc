-- ===== src/Yaml/Sample.antt =====
-- A small reader of documents, with which the parameters of the other modules are instantiated in
-- tests: documents are given by name.
use runlane.Prelude.{
  ℕ, String, Option, none, some, List, [], ◌∷◌, ◌==◌, Result, ok, err, if◌then◌else◌,
}
use runlane.Yaml.{Yaml}

mutual
  pub data Sample : Type 0 where
    text : String → Sample
    number : ℕ → Sample
    object : Fields → Sample
    items : Items → Sample

  pub data Fields : Type 0 where
    end : Fields
    field : String → Sample → Fields → Fields

  pub data Items : Type 0 where
    last : Items
    item : Sample → Items → Items

abbrev pub list_of : Items → List Sample
list_of last = []
list_of (item s rest) = s ∷ list_of rest

abbrev pub pairs_of : Fields → List (Sample × Sample)
pairs_of end = []
pairs_of (field key s rest) = (text key, s) ∷ pairs_of rest

abbrev pub value_at : String → Fields → Option Sample
value_at key end = none
value_at key (field k s rest) = if k == key then some s else value_at key rest

abbrev pub sample_get : Sample → String → Option Sample
sample_get (object fields) key = value_at key fields
sample_get _ key = none

abbrev pub sample_text : Sample → Option String
sample_text (text s) = some s
sample_text _ = none

abbrev pub sample_number : Sample → Option ℕ
sample_number (number n) = some n
sample_number _ = none

abbrev pub sample_items : Sample → Option (List Sample)
sample_items (items i) = some (list_of i)
sample_items _ = none

abbrev pub sample_pairs : Sample → Option (List (Sample × Sample))
sample_pairs (object fields) = some (pairs_of fields)
sample_pairs _ = none

abbrev named : Fields → String → Result String Sample
named end name = err "no such document"
named (field k s rest) name = if k == name then ok s else named rest name

abbrev pub sample_yaml : Fields → Yaml Sample
sample_yaml documents = record {
  from_str = named documents;
  get = sample_get;
  as_str = sample_text;
  as_u64 = sample_number;
  as_sequence = sample_items;
  as_mapping = sample_pairs;
}
