-- ===== src/HelperProcess/CommandLines.antt =====
-- Which command lines the helper reads, and as which options.
use mathlib.Core.List.{append_assoc}
use runlane.Prelude.{
  ◌≡◌, ◌↔◌, refl, sym, String, true, List, [], ◌∷◌, ◌++◌, length, ok, arith, Result-cases, inl, inr,
}
use runlane.HelperProcess.Options.{
  ExecuteFields, ExecuteOptions, no_execute_fields, execute_option, option_loop, finish_execute,
  parse_execute,
}
use runlane.HelperProcess.OptionOrder.{
  Setting, dry_run_is_set, written, set, all_written, set_all, loop-written, loop-IsRead,
}

-- The options of `execute` are read from a command line exactly when it is a sequence of settings,
-- in any order and with repetitions, of which the last one of each kind counts, and the five
-- options with a value that the process needs are among them.
pub parse_execute_iff :
    (args : List String) (options : ExecuteOptions)
    → (parse_execute args ≡ ok options) ↔ (
        (settings : List Setting) × (args ≡ all_written settings)
        × (finish_execute (set_all settings no_execute_fields) ≡ ok options))
unfolding parse_execute
parse_execute_iff args options = (
  λ h. elim (Result-cases (option_loop execute_option (length args) args no_execute_fields)) [
    | inr (e, failed) ↦ absurd (ground arith)
    | inl (last, read) ↦
        let found = loop-IsRead (length args) args no_execute_fields last read in
        (found.settings, found.are_written, rw (sym found.are_set) (ground arith))
  ],
  λ (settings, form, finished).
      rw
        (
          form,
          loop-written settings no_execute_fields (length (all_written settings)) (omega arith),
        )
        finished,
)

all_written-append :
    (settings more : List Setting)
    → all_written (settings ++ more) ≡ all_written settings ++ all_written more
all_written-append [] more = refl
all_written-append (s ∷ settings) more =
    rw (all_written-append settings more)
      (sym (append_assoc (written s) (all_written settings) (all_written more)))

set_all-append :
    (settings more : List Setting) (fields : ExecuteFields)
    → set_all (settings ++ more) fields ≡ set_all more (set_all settings fields)
set_all-append [] more fields = refl
set_all-append (s ∷ settings) more fields = set_all-append settings more (set s fields)

finish_execute-dry :
    (fields : ExecuteFields) (options : ExecuteOptions)
    → finish_execute fields ≡ ok options
    → finish_execute (record fields { dry_run = true }) ≡ ok (record options { dry_run = true })
finish_execute-dry fields options h = ground arith

-- `--dry-run` after a command line that is read turns its options into a dry run.
pub parse_execute-dry :
    (args : List String) (options : ExecuteOptions)
    → parse_execute args ≡ ok options
    → parse_execute (args ++ "--dry-run" ∷ []) ≡ ok (record options { dry_run = true })
parse_execute-dry args options h =
    let (settings, form, finished) = (parse_execute_iff args options).0 h in
    (parse_execute_iff (args ++ "--dry-run" ∷ []) (record options { dry_run = true })).1 (
      settings ++ dry_run_is_set ∷ [],
      rw (form, all_written-append settings (dry_run_is_set ∷ [])) refl,
      rw (set_all-append settings (dry_run_is_set ∷ []) no_execute_fields)
          (finish_execute-dry (set_all settings no_execute_fields) options finished),
    )
