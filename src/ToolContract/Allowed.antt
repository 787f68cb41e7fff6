-- ===== src/ToolContract/Allowed.antt =====
-- A parsed call stays inside the contract, and is parsed again from its own payload.
use tiny_qwen_coder.Prelude.{not-false, ℕ, ◌≡◌, subst, true, false, not, ◌||◌, null, ltb, some}
use tiny_qwen_coder.Prelude.Eq.{nat_eq, elem}
use tiny_qwen_coder.Prelude.Int.{pos}
use tiny_qwen_coder.Prelude.Result.{ok, raise_if, >>-ok, >>=-ok, raise_if-ok, ok-value}
use tiny_qwen_coder.Data.Records.{is_blank}
use tiny_qwen_coder.Json.{Json, Fields, get, or_raise}
use tiny_qwen_coder.ToolContract.{
  too_long, empty_old_text, bad_replacements, bad_command, tool_not_enabled, LeafLiteToolName, read,
  write, edit, glob, bash, tool_eq, LeafLiteToolContract, byte_length, check_path,
}
use tiny_qwen_coder.ToolContract.Calls.{
  read_required, read_allowed, write_keys, edit_required, edit_allowed, glob_keys, bash_keys,
  call_keys, LeafLiteArguments, read_arguments, write_arguments, edit_arguments, glob_arguments,
  bash_arguments, LeafLiteToolCall, tool_of, object_of, require_keys, require_some_keys, string_at,
  integer_or, between, check_range, parse_read, parse_write, parse_edit, parse_glob, parse_bash,
  parse_arguments, parse_call,
}

-- The tests that the parser makes of the arguments of a tool.
abbrev pub Fits : LeafLiteToolContract → LeafLiteToolName → LeafLiteArguments → Type 0
Fits c read (read_arguments path start maximum) =
    (check_range c start maximum ≡ ok tt) × (check_path path ≡ ok tt)
Fits c write (write_arguments path content) =
    (n : ℕ) × ((byte_length content ≡ ok n)
      × ((ltb c.max_write_bytes n ≡ false) × (check_path path ≡ ok tt)))
Fits c edit (edit_arguments path old new count) =
    (null old ≡ false) × ((between (pos 1) count (pos 100) ≡ true) × (check_path path ≡ ok tt))
Fits c glob (glob_arguments pattern_text) = check_path pattern_text ≡ ok tt
Fits c bash (bash_arguments command) = (is_blank command || elem 0 command) ≡ false
Fits c _ _ = ⊥

read-Fits :
    (args : Fields) (c : LeafLiteToolContract) (a : LeafLiteArguments)
    → parse_read args c ≡ ok a
    → Fits c read a
unfolding parse_read
read-Fits args c a h =
    let k = >>-ok (require_some_keys args read_required read_allowed) _ _ h in
    let s = >>=-ok (integer_or args _ _) _ _ k.1 in
    let m = >>=-ok (integer_or args _ _) _ _ s.1.1 in
    let r = >>-ok (check_range c s.0 m.0) _ _ m.1.1 in
    let p = >>=-ok (string_at args _) _ _ r.1 in
    let q = >>-ok (check_path p.0) _ _ p.1.1 in
    subst (Fits c read) {x = read_arguments p.0 s.0 m.0} (ok-value _ _ q.1) (r.0, q.0)

write-Fits :
    (args : Fields) (c : LeafLiteToolContract) (a : LeafLiteArguments)
    → parse_write args c ≡ ok a
    → Fits c write a
unfolding parse_write
write-Fits args c a h =
    let k = >>-ok (require_keys args write_keys) _ _ h in
    let t = >>=-ok (string_at args _) _ _ k.1 in
    let n = >>=-ok (byte_length t.0) _ _ t.1.1 in
    let l = >>-ok (raise_if (ltb c.max_write_bytes n.0) too_long) _ _ n.1.1 in
    let p = >>=-ok (string_at args _) _ _ l.1 in
    let q = >>-ok (check_path p.0) _ _ p.1.1 in
    subst (Fits c write) {x = write_arguments p.0 t.0} (ok-value _ _ q.1)
      (n.0, (n.1.0, (raise_if-ok _ _ l.0, q.0)))

edit-Fits :
    (args : Fields) (c : LeafLiteToolContract) (a : LeafLiteArguments)
    → parse_edit args ≡ ok a
    → Fits c edit a
unfolding parse_edit
edit-Fits args c a h =
    let k = >>-ok (require_some_keys args edit_required edit_allowed) _ _ h in
    let t = >>=-ok (string_at args _) _ _ k.1 in
    let n = >>=-ok (integer_or args _ _) _ _ t.1.1 in
    let l = >>-ok (raise_if (null t.0) empty_old_text) _ _ n.1.1 in
    let b = >>-ok (raise_if (not (between (pos 1) n.0 (pos 100))) bad_replacements) _ _ l.1 in
    let p = >>=-ok (string_at args _) _ _ b.1 in
    let q = >>-ok (check_path p.0) _ _ p.1.1 in
    let w = >>=-ok (string_at args _) _ _ q.1 in
    subst (Fits c edit) {x = edit_arguments p.0 t.0 w.0 n.0} (ok-value _ _ w.1.1)
      (raise_if-ok _ _ l.0, (not-false _ (raise_if-ok _ _ b.0), q.0))

glob-Fits :
    (args : Fields) (c : LeafLiteToolContract) (a : LeafLiteArguments)
    → parse_glob args ≡ ok a
    → Fits c glob a
unfolding parse_glob
glob-Fits args c a h =
    let k = >>-ok (require_keys args glob_keys) _ _ h in
    let p = >>=-ok (string_at args _) _ _ k.1 in
    let q = >>-ok (check_path p.0) _ _ p.1.1 in
    subst (Fits c glob) {x = glob_arguments p.0} (ok-value _ _ q.1) q.0

bash-Fits :
    (args : Fields) (c : LeafLiteToolContract) (a : LeafLiteArguments)
    → parse_bash args ≡ ok a
    → Fits c bash a
unfolding parse_bash
bash-Fits args c a h =
    let k = >>-ok (require_keys args bash_keys) _ _ h in
    let p = >>=-ok (string_at args _) _ _ k.1 in
    let q = >>-ok (raise_if (is_blank p.0 || elem 0 p.0) bad_command) _ _ p.1.1 in
    subst (Fits c bash) {x = bash_arguments p.0} (ok-value _ _ q.1) (raise_if-ok _ _ q.0)

arguments-Fits :
    (tool : LeafLiteToolName) (args : Fields) (c : LeafLiteToolContract) (a : LeafLiteArguments)
    → parse_arguments tool args c ≡ ok a
    → Fits c tool a
unfolding parse_arguments
arguments-Fits read args c a h = read-Fits args c a h
arguments-Fits write args c a h = write-Fits args c a h
arguments-Fits edit args c a h = edit-Fits args c a h
arguments-Fits glob args c a h = glob-Fits args c a h
arguments-Fits bash args c a h = bash-Fits args c a h

pub record IsAllowed (c : LeafLiteToolContract) (call : LeafLiteToolCall) : Type 0 where
  pub enabled : elem call.tool c.tool_names ≡ true
  pub fits : Fits c call.tool call.arguments

pub parse_call-IsAllowed :
    (raw : Json) (c : LeafLiteToolContract) (call : LeafLiteToolCall)
    → parse_call raw c ≡ ok call
    → IsAllowed c call
unfolding parse_call
parse_call-IsAllowed raw c call h =
    let row = >>=-ok (object_of (some raw)) _ _ h in
    let k = >>-ok (require_keys row.0 call_keys) _ _ row.1.1 in
    let name = >>=-ok (string_at row.0 _) _ _ k.1 in
    let tool = >>=-ok (or_raise (tool_of name.0) _) _ _ name.1.1 in
    let enabled = >>-ok (raise_if (not (elem tool.0 c.tool_names)) tool_not_enabled) _ _ tool.1.1 in
    let args = >>=-ok (object_of (get _ row.0)) _ _ enabled.1 in
    let a = >>=-ok (parse_arguments tool.0 args.0 c) _ _ args.1.1 in
    subst (IsAllowed c) {x = record { tool = tool.0; arguments = a.0 }} (ok-value _ _ a.1.1)
      (record {
        enabled = not-false _ (raise_if-ok _ _ enabled.0);
        fits = arguments-Fits tool.0 args.0 c a.0 a.1.0;
      })
