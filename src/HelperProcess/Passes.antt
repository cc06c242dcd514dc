-- ===== src/HelperProcess/Passes.antt =====
-- The passes of the two option loops, and that they end.
use runlane.Prelude.{
  err, ℕ, zero, suc, ◌≤◌, ◌≡◌, refl, String, List, [], ◌∷◌, length, Result, ok, ◌>>=◌, arith,
  Option-cases, Result-cases, inl, inr,
}
use runlane.Text.Numbers.{parse_u32, parse_u64}
use runlane.HelperProcess.Options.{
  ExecuteFields, no_execute_fields, execute_option, option_loop, finish_execute, parse_execute,
  next_value, PreflightFields, parse_octal_mode, preflight_option, no_preflight_fields,
  finish_preflight, parse_preflight,
}

-- A loop over arguments without a bound on its passes, with their number: it ends where no argument
-- is left or a pass fails, and else goes on with the arguments that the pass leaves.
pub data Passes {A : Type 0} (pass : String → List String → A → Result String (A × List String))
    : ℕ → List String → A → Result String A → Type 0 where
  ends : (fields : A) → Passes pass 0 [] fields (ok fields)
  fails :
      (option : String) (args : List String) (fields : A) (e : String)
      → pass option args fields ≡ err e
      → Passes pass 1 (option ∷ args) fields (err e)
  goes :
      (option : String) (args : List String) (fields next : A) (rest : List String) (n : ℕ)
      (last : Result String A)
      → pass option args fields ≡ ok (next, rest)
      → Passes pass n rest next last
      → Passes pass (suc n) (option ∷ args) fields last

-- the passes leave no more arguments than they are given
execute_option-shorter :
    (option : String) (args : List String) (fields next : ExecuteFields) (rest : List String)
    → execute_option option args fields ≡ ok (next, rest)
    → length rest ≤ length args
unfolding execute_option next_value
execute_option-shorter option [] fields next rest h = ground arith
execute_option-shorter option (value ∷ args) fields next rest h =
    elim (Option-cases (parse_u64 value)) [ inl e ↦ ground arith | inr (now, e) ↦ ground arith ]

preflight_option-shorter :
    (debug_str : String → String) (option : String) (args : List String)
    (fields next : PreflightFields) (rest : List String)
    → preflight_option debug_str option args fields ≡ ok (next, rest)
    → length rest ≤ length args
unfolding preflight_option next_value
preflight_option-shorter debug_str option [] fields next rest h = absurd (ground arith)
preflight_option-shorter debug_str option (value ∷ args) fields next rest h =
    elim (Option-cases (parse_u32 value)) [
      | inl e ↦ elim (Result-cases (parse_octal_mode debug_str value)) [
        | inl (mode, f) ↦ ground arith
        | inr (bad, f) ↦ ground arith
      ]
      | inr (uid, e) ↦ elim (Result-cases (parse_octal_mode debug_str value)) [
        | inl (mode, f) ↦ ground arith
        | inr (bad, f) ↦ ground arith
      ]
    ]

module _ {A : Type 0} (pass : String → List String → A → Result String (A × List String))
    (shorter : (option : String) (args : List String) (fields next : A) (rest : List String)
      → pass option args fields ≡ ok (next, rest)
      → length rest ≤ length args) where
  loop-Passes :
      (fuel : ℕ) (args : List String) (fields : A)
      → length args ≤ fuel
      → (n : ℕ) × (n ≤ length args) × Passes pass n args fields (option_loop pass fuel args fields)
  unfolding option_loop
  loop-Passes zero [] fields le = (0, omega arith, ends fields)
  loop-Passes (suc fuel) [] fields le = (0, omega arith, ends fields)
  loop-Passes zero (option ∷ args) fields le = absurd (omega arith)
  loop-Passes (suc fuel) (option ∷ args) fields le = elim (Result-cases (pass option args fields)) [
    | inr (e, failed) ↦ (1, omega arith, rw failed (fails option args fields e failed))
    | inl ((next, rest), passed) ↦
        let less = shorter option args fields next rest passed in
        let (n, bound, later) = loop-Passes fuel rest next (omega arith) in
        (suc n, omega arith, rw passed (goes option args fields next rest n _ passed later))
  ]

-- Both option loops end by themselves, after as many passes as there are arguments at most, and what
-- they end with is what the options are made from.
pub parse-Passes :
    (debug_str : String → String) (args : List String)
    → ((last : Result String ExecuteFields) × (n : ℕ) × (n ≤ length args)
        × Passes execute_option n args no_execute_fields last
        × (parse_execute args ≡ last >>= finish_execute))
      × ((last : Result String PreflightFields) × (n : ℕ) × (n ≤ length args)
          × Passes (preflight_option debug_str) n args no_preflight_fields last
          × (parse_preflight debug_str args ≡ last >>= finish_preflight))
unfolding parse_execute parse_preflight
parse-Passes debug_str args =
    let preflight = preflight_option debug_str in
    let (n, bound, passes) =
      loop-Passes execute_option execute_option-shorter (length args) args no_execute_fields
        (omega arith) in
    let (m, bound', passes') =
      loop-Passes preflight (preflight_option-shorter debug_str) (length args) args
        no_preflight_fields (omega arith) in
    (
      (option_loop execute_option (length args) args no_execute_fields, n, bound, passes, refl),
      (option_loop preflight (length args) args no_preflight_fields, m, bound', passes', refl),
    )
