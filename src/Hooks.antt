-- ===== src/Hooks.antt =====
-- Hook scripts (dsvn-core/src/hooks.rs): the text that a hook reads, and what its exit means. The
-- process itself is a parameter, `Scripts`, which says how a script of a given name ends on a given
-- input; what it prints is taken as text.
use dsvn.Prelude.{ℕ, ℤ, String, negsuc, Bool, true, false, Option, none, some, List, [], ◌∷◌, ◌++◌}
use dsvn.Bytes.{Bytes, ascii, trim}
use dsvn.Decimal.{decimal, decimal_signed}

-- How `Command::new(hook).spawn()` and `wait_with_output()` end.
pub data Outcome : Type 0 where
  not_installed : Outcome
  not_spawned : Bytes → Outcome
  not_awaited : Bytes → Outcome
  exited : Bool → Option ℤ → (stdout stderr : Bytes) → Outcome

abbrev pub Scripts : Type 0
Scripts = (name stdin : Bytes) → Outcome

-- `Result<()>` with the text of the error.
pub data Verdict : Type 0 where
  accepted : Verdict
  rejected : Bytes → Verdict

exit_code : Option ℤ → ℤ
exit_code none = negsuc 0
exit_code (some c) = c

-- The message of a failed hook: its stderr, else its stdout, else its exit code.
failure_message : Bytes → Option ℤ → (stdout stderr : Bytes) → Bytes
failure_message name code [] [] =
    ascii "Hook '" ++ (name ++ (ascii "' exited with code " ++ decimal_signed (exit_code code)))
failure_message name code (c ∷ stdout) [] = c ∷ stdout
failure_message name code stdout (c ∷ stderr) = c ∷ stderr

verdict : Bytes → Outcome → Verdict
verdict name not_installed = accepted
verdict name (not_spawned e) =
    rejected (ascii "Failed to execute hook '" ++ (name ++ (ascii "': " ++ e)))
verdict name (not_awaited e) =
    rejected (ascii "Failed to wait for hook '" ++ (name ++ (ascii "': " ++ e)))
verdict name (exited true code stdout stderr) = accepted
verdict name (exited false code stdout stderr) = rejected (
    ascii "Hook '"
    ++ (name
        ++ (ascii "' rejected the operation: " ++ trim (failure_message name code stdout stderr))))

unfoldable pub run_hook : Scripts → Bytes → Bytes → Verdict
unfolding verdict failure_message exit_code
run_hook scripts name stdin_data = verdict name (scripts name stdin_data)

abbrev line : String → Bytes → Bytes
line label value = ascii label ++ (value ++ ascii "\n")

file_lines : List (Bytes × Bytes) → Bytes
file_lines [] = []
file_lines ((action, path) ∷ files) =
    (action ++ (ascii " " ++ (path ++ ascii "\n"))) ++ file_lines files

commit_header : ℕ → (author log date : Bytes) → Bytes
commit_header rev author log date =
    line "REVISION: " (decimal rev)
    ++ (line "AUTHOR: " author ++ (line "DATE: " date ++ line "LOG: " log))

unfoldable pub pre_commit_input : ℕ → (author log date : Bytes) → List (Bytes × Bytes) → Bytes
unfolding commit_header file_lines
pre_commit_input rev author log date files =
    commit_header rev author log date ++ (ascii "FILES:\n" ++ file_lines files)

unfoldable pub run_pre_commit :
    Scripts → ℕ → (author log date : Bytes) → List (Bytes × Bytes) → Verdict
unfolding run_hook
run_pre_commit scripts rev author log date files =
    run_hook scripts (ascii "pre-commit") (pre_commit_input rev author log date files)

-- The error of a post hook is logged and dropped.
swallow : Verdict → Verdict
swallow v = accepted

unfoldable pub run_post_commit : Scripts → ℕ → (author log date : Bytes) → Verdict
unfolding run_hook swallow commit_header
run_post_commit scripts rev author log date =
    swallow (run_hook scripts (ascii "post-commit") (commit_header rev author log date))

revprop_header : ℕ → (author prop_name action : Bytes) → Bytes
revprop_header rev author prop_name action =
    line "REVISION: " (decimal rev)
    ++ (line "AUTHOR: " author ++ (line "PROPNAME: " prop_name ++ line "ACTION: " action))

unfoldable pub run_pre_revprop_change :
    Scripts → ℕ → (author prop_name action prop_value : Bytes) → Verdict
unfolding run_hook revprop_header
run_pre_revprop_change scripts rev author prop_name action prop_value =
    run_hook scripts (ascii "pre-revprop-change")
      (revprop_header rev author prop_name action ++ line "VALUE: " prop_value)

unfoldable pub run_post_revprop_change : Scripts → ℕ → (author prop_name action : Bytes) → Verdict
unfolding run_hook swallow revprop_header
run_post_revprop_change scripts rev author prop_name action =
    swallow
      (run_hook scripts (ascii "post-revprop-change") (revprop_header rev author prop_name action))
