-- ===== src/HelperProcess/OptionOrder.antt =====
-- The settings of the helper's `execute`, and the loop that reads them.
use runlane.Prelude.{
  ℕ, zero, suc, ◌+◌, ◌≤◌, ◌≡◌, refl, sym, ap, ◌∙◌, inl, inr, String, true, some, List, [], ◌∷◌,
  ◌++◌, length, length-append, ◌==◌, eq_iff, Result, ok, ◌>>=◌, arith, Bool-cases, Option-cases,
  Result-cases, ok_or,
}
use runlane.Text.Numbers.{parse_u64}
use runlane.HelperProcess.Options.{
  next_value, ExecuteFields, execute_option, option_loop, take_value,
}

-- an option of `execute`, with its value
pub data Setting : Type 0 where
  lease_file_is request_file_is allowlist_file_is node_id_is : String → Setting
  now_is : (text : String) (now : ℕ) → parse_u64 text ≡ some now → Setting
  dry_run_is_set : Setting

-- how it is written
abbrev pub written : Setting → List String
written (lease_file_is value) = "--lease-file" ∷ value ∷ []
written (request_file_is value) = "--request-file" ∷ value ∷ []
written (allowlist_file_is value) = "--allowlist-file" ∷ value ∷ []
written (node_id_is value) = "--node-id" ∷ value ∷ []
written (now_is text now reads) = "--now" ∷ text ∷ []
written dry_run_is_set = "--dry-run" ∷ []

-- what it sets
abbrev pub set : Setting → ExecuteFields → ExecuteFields
set (lease_file_is value) fields = record fields { lease_file = some value }
set (request_file_is value) fields = record fields { request_file = some value }
set (allowlist_file_is value) fields = record fields { allowlist_file = some value }
set (node_id_is value) fields = record fields { node_id = some value }
set (now_is text now reads) fields = record fields { now_unix_seconds = some now }
set dry_run_is_set fields = record fields { dry_run = true }

abbrev pub all_written : List Setting → List String
all_written [] = []
all_written (s ∷ settings) = written s ++ all_written settings

-- in order, so that the last one counts
abbrev pub set_all : List Setting → ExecuteFields → ExecuteFields
set_all [] fields = fields
set_all (s ∷ settings) fields = set_all settings (set s fields)

-- An option that takes a value takes the argument after it.
pub take_value-ok :
    {A : Type 0} (option : String) (assign : String → Result String A) (args : List String)
    (next : A) (rest : List String)
    → take_value args option assign ≡ ok (next, rest)
    → (value : String) × (args ≡ value ∷ rest) × (assign value ≡ ok next)
unfolding next_value
take_value-ok option assign [] next rest h = absurd (ground arith)
take_value-ok option assign (value ∷ args) next rest h = elim (Result-cases (assign value)) [
  | inl (a, e) ↦ (value, ground arith, ground arith)
  | inr (a, e) ↦ absurd (ground arith)
]

-- A pass reads one setting.
pub record Reads (option : String) (args : List String) (fields next : ExecuteFields)
    (rest : List String) : Type 0 where
  pub setting : Setting
  pub is_written : option ∷ args ≡ written setting ++ rest
  pub is_set : next ≡ set setting fields

module _ (option : String) (args : List String) (fields next : ExecuteFields)
    (rest : List String) where
  value-Reads :
      (name : String) (setting_of : String → Setting)
      → ((value : String) → written (setting_of value) ≡ name ∷ value ∷ [])
      → (option == name) ≡ true
      → take_value args name (λ value. ok (set (setting_of value) fields)) ≡ ok (next, rest)
      → Reads option args fields next rest
  value-Reads name setting_of form e h =
      let (value, same, assigned) =
        take_value-ok name (λ value. ok (set (setting_of value) fields)) args next rest h in
      record {
        setting = setting_of value;
        is_written = rw (form value, same, (eq_iff option name).0 e) refl;
        is_set = ground arith;
      }

  now-Reads :
      (option == "--now") ≡ true
      → take_value args "--now" (λ value. do
        now ← ok_or (parse_u64 value) "--now must be an unsigned integer"
        ok (record fields { now_unix_seconds = some now }))
        ≡ ok (next, rest)
      → Reads option args fields next rest
  now-Reads e h =
      let (value, same, assigned) =
        take_value-ok "--now"
          (λ value. do
            now ← ok_or (parse_u64 value) "--now must be an unsigned integer"
            ok (record fields { now_unix_seconds = some now }))
          args next rest h in
      elim (Option-cases (parse_u64 value)) [
        | inl bad ↦ absurd (ground arith)
        | inr (now, reads) ↦ record {
          setting = now_is value now reads;
          is_written = rw (same, (eq_iff option "--now").0 e) refl;
          is_set = ground arith;
        }
      ]

  pub option-Reads :
      execute_option option args fields ≡ ok (next, rest) → Reads option args fields next rest
  unfolding execute_option
  option-Reads h = elim (Bool-cases (option == "--lease-file")) [
    | inl e ↦ value-Reads "--lease-file" lease_file_is (λ value. refl) e (ground arith)
    | inr not_lease ↦ elim (Bool-cases (option == "--request-file")) [
      | inl e ↦ value-Reads "--request-file" request_file_is (λ value. refl) e (ground arith)
      | inr not_request ↦ elim (Bool-cases (option == "--allowlist-file")) [
        | inl e ↦ value-Reads "--allowlist-file" allowlist_file_is (λ value. refl) e (ground arith)
        | inr not_allowlist ↦ elim (Bool-cases (option == "--node-id")) [
          | inl e ↦ value-Reads "--node-id" node_id_is (λ value. refl) e (ground arith)
          | inr not_node ↦ elim (Bool-cases (option == "--now")) [
            | inl e ↦ now-Reads e (ground arith)
            | inr not_now ↦ elim (Bool-cases (option == "--dry-run")) [
              | inl e ↦ record {
                setting = dry_run_is_set;
                is_written =
                    rw (sym ((eq_iff option "--dry-run").0 e))
                      (ap (λ xs. option ∷ xs) (ground arith));
                is_set = ground arith;
              }
              | inr unknown ↦ absurd (ground arith)
            ]
          ]
        ]
      ]
    ]
  ]

-- a pass on a written setting
option-written :
    (s : Setting) (rest : List String) (fields last : ExecuteFields) (fuel : ℕ)
    → length (written s) + length rest ≤ fuel
    → ((fuel' : ℕ)
        → length rest ≤ fuel'
        → option_loop execute_option fuel' rest (set s fields) ≡ ok last)
    → option_loop execute_option fuel (written s ++ rest) fields ≡ ok last
unfolding option_loop execute_option next_value
option-written (lease_file_is value) rest fields last zero le h = absurd (omega arith)
option-written (request_file_is value) rest fields last zero le h = absurd (omega arith)
option-written (allowlist_file_is value) rest fields last zero le h = absurd (omega arith)
option-written (node_id_is value) rest fields last zero le h = absurd (omega arith)
option-written (now_is text now reads) rest fields last zero le h = absurd (omega arith)
option-written dry_run_is_set rest fields last zero le h = absurd (omega arith)
option-written (lease_file_is value) rest fields last (suc fuel) le h = h fuel (omega arith)
option-written (request_file_is value) rest fields last (suc fuel) le h = h fuel (omega arith)
option-written (allowlist_file_is value) rest fields last (suc fuel) le h = h fuel (omega arith)
option-written (node_id_is value) rest fields last (suc fuel) le h = h fuel (omega arith)
option-written (now_is text now reads) rest fields last (suc fuel) le h =
    rw reads (h fuel (omega arith))
option-written dry_run_is_set rest fields last (suc fuel) le h = h fuel (omega arith)

pub loop-written :
    (settings : List Setting) (fields : ExecuteFields) (fuel : ℕ)
    → length (all_written settings) ≤ fuel
    → option_loop execute_option fuel (all_written settings) fields ≡ ok (set_all settings fields)
unfolding option_loop
loop-written [] fields zero le = refl
loop-written [] fields (suc fuel) le = refl
loop-written (s ∷ settings) fields fuel le =
    option-written s (all_written settings) fields (set_all settings (set s fields)) fuel
      (omega (arith, le, length-append (written s) (all_written settings)))
      (loop-written settings (set s fields))

-- What a loop that succeeds has read.
pub record IsRead (args : List String) (fields last : ExecuteFields) : Type 0 where
  pub settings : List Setting
  pub are_written : args ≡ all_written settings
  pub are_set : last ≡ set_all settings fields

pub loop-IsRead :
    (fuel : ℕ) (args : List String) (fields last : ExecuteFields)
    → option_loop execute_option fuel args fields ≡ ok last
    → IsRead args fields last
unfolding option_loop
loop-IsRead zero [] fields last h = record {
  settings = [];
  are_written = refl;
  are_set = ground arith;
}
loop-IsRead (suc fuel) [] fields last h = record {
  settings = [];
  are_written = refl;
  are_set = ground arith;
}
loop-IsRead zero (option ∷ args) fields last h = absurd (ground arith)
loop-IsRead (suc fuel) (option ∷ args) fields last h =
    elim (Result-cases (execute_option option args fields)) [
      | inr (e, failed) ↦ absurd (ground arith)
      | inl ((next, rest), passed) ↦
          let first = option-Reads option args fields next rest passed in
          let more = loop-IsRead fuel rest next last (ground arith) in
          record {
            settings = first.setting ∷ more.settings;
            are_written =
                first.is_written ∙ ap (λ xs. written first.setting ++ xs) more.are_written;
            are_set = rw (sym first.is_set) more.are_set;
          }
    ]
