-- ===== src/ToolContract/Safe.antt =====
-- What a parsed call may do.
use tiny_qwen_coder.Prelude.{
  ℕ, ◌≡◌, ◌≤◌, refl, Bool, true, false, not, ◌||◌, List, null, length, Option, arith,
}
use tiny_qwen_coder.Prelude.Eq.{elem, nat_eq}
use tiny_qwen_coder.Prelude.Int.{ℤ, pos, negsuc, int_ltb}
use tiny_qwen_coder.Prelude.Result.{ok, >>=-ok, raise_if-ok}
use tiny_qwen_coder.TextNormalization.{Text, utf8_encodable}
use tiny_qwen_coder.Data.Records.{is_blank}
use tiny_qwen_coder.Utf8.{encode}
use tiny_qwen_coder.Json.{Json, or_raise}
use tiny_qwen_coder.ToolContract.{
  bad_range, not_json, LeafLiteToolName, read, write, edit, glob, bash, tool_eq,
  LeafLiteToolContract, byte_length, check_path,
}
use tiny_qwen_coder.ToolContract.Paths.{IsRelativePath, check_path-IsRelativePath_iff}
use tiny_qwen_coder.ToolContract.Calls.{
  LeafLiteArguments, read_arguments, write_arguments, edit_arguments, glob_arguments,
  bash_arguments, LeafLiteToolCall, between, check_range, parse_call, parse_leaf_lite_tool_call,
}
use tiny_qwen_coder.ToolContract.Allowed.{Fits, parse_call-IsAllowed}

-- A number between two bounds, both included.
pub record Between (low : ℕ) (n : ℤ) (high : ℕ) : Type 0 where
  pub value : ℕ
  pub is_value : n ≡ pos value
  pub above : low ≤ value
  pub below : value ≤ high

abbrev pub IsInside : Text → Type 0
IsInside path = (parts : List Text) × IsRelativePath path parts

-- What the arguments of a tool are held to. The texts of an edit are not bounded, and a command may
-- be any text that is not blank and has no NUL.
abbrev pub Permits : LeafLiteToolContract → LeafLiteToolName → LeafLiteArguments → Type 0
Permits c read (read_arguments path start maximum) =
    IsInside path × ((n : ℕ) × ((start ≡ pos n) × (1 ≤ n))) × Between 1 maximum c.read_max_lines
Permits c write (write_arguments path content) =
    IsInside path
    × ((utf8_encodable content ≡ true) × (length (encode content) ≤ c.max_write_bytes))
Permits c edit (edit_arguments path old new count) =
    IsInside path × (null old ≡ false) × Between 1 count 100
Permits c glob (glob_arguments pattern_text) = IsInside pattern_text
Permits c bash (bash_arguments command) = (is_blank command ≡ false) × (elem 0 command ≡ false)
Permits c _ _ = ⊥

pub record IsPermitted (c : LeafLiteToolContract) (call : LeafLiteToolCall) : Type 0 where
  pub enabled : elem call.tool c.tool_names ≡ true
  pub arguments : Permits c call.tool call.arguments

between-Between : (n : ℤ) (high : ℕ) → between (pos 1) n (pos high) ≡ true → Between 1 n high
unfolding int_ltb
between-Between (pos n) high h = record {
  value = n;
  is_value = refl;
  above = ground arith;
  below = ground arith;
}
between-Between (negsuc n) high h = absurd (ground arith)

range-parts : (a b : Bool) → (a || not b) ≡ false → (a ≡ false) × (b ≡ true)
range-parts a b h = ground arith

check_range-tests :
    (c : LeafLiteToolContract) (start maximum : ℤ)
    → check_range c start maximum ≡ ok tt
    → (int_ltb start (pos 1) ≡ false) × (between (pos 1) maximum (pos c.read_max_lines) ≡ true)
unfolding int_ltb
check_range-tests c start maximum h =
    range-parts (int_ltb start (pos 1)) (between (pos 1) maximum (pos c.read_max_lines))
      (raise_if-ok _ bad_range h)

from_one : (n : ℤ) → int_ltb n (pos 1) ≡ false → (m : ℕ) × ((n ≡ pos m) × (1 ≤ m))
unfolding int_ltb
from_one (pos n) h = (n, (refl, ground arith))
from_one (negsuc n) h = absurd (ground arith)

byte_length-encode :
    (t : Text) (n : ℕ) → byte_length t ≡ ok n → (utf8_encodable t ≡ true) × (n ≡ length (encode t))
unfolding byte_length
byte_length-encode t n h = ground arith

inside : (t : Text) → check_path t ≡ ok tt → IsInside t
inside t h = (check_path-IsRelativePath_iff t).0 h

Fits-Permits :
    (c : LeafLiteToolContract) (t : LeafLiteToolName) (a : LeafLiteArguments)
    → Fits c t a
    → Permits c t a
Fits-Permits c read (read_arguments path start maximum) h =
    let tests = check_range-tests c start maximum h.0 in
    (inside path h.1, from_one start tests.0, between-Between maximum c.read_max_lines tests.1)
Fits-Permits c write (write_arguments path content) h =
    let (encodable, size) = byte_length-encode content h.0 h.1.0 in
    (inside path h.1.1.1, (encodable, ground (arith, size, h.1.1.0)))
Fits-Permits c edit (edit_arguments path old new count) h =
    (inside path h.1.1, h.0, between-Between count 100 h.1.0)
Fits-Permits c glob (glob_arguments pattern_text) h = inside pattern_text h
Fits-Permits c bash (bash_arguments command) h = ground arith
Fits-Permits c read (write_arguments p t) h = absurd h
Fits-Permits c read (edit_arguments p o n k) h = absurd h
Fits-Permits c read (glob_arguments p) h = absurd h
Fits-Permits c read (bash_arguments k) h = absurd h
Fits-Permits c write (read_arguments p s m) h = absurd h
Fits-Permits c write (edit_arguments p o n k) h = absurd h
Fits-Permits c write (glob_arguments p) h = absurd h
Fits-Permits c write (bash_arguments k) h = absurd h
Fits-Permits c edit (read_arguments p s m) h = absurd h
Fits-Permits c edit (write_arguments p t) h = absurd h
Fits-Permits c edit (glob_arguments p) h = absurd h
Fits-Permits c edit (bash_arguments k) h = absurd h
Fits-Permits c glob (read_arguments p s m) h = absurd h
Fits-Permits c glob (write_arguments p t) h = absurd h
Fits-Permits c glob (edit_arguments p o n k) h = absurd h
Fits-Permits c glob (bash_arguments k) h = absurd h
Fits-Permits c bash (read_arguments p s m) h = absurd h
Fits-Permits c bash (write_arguments p t) h = absurd h
Fits-Permits c bash (edit_arguments p o n k) h = absurd h
Fits-Permits c bash (glob_arguments p) h = absurd h

-- A parsed call has a tool that the contract enables, with the arguments of that tool. The paths of
-- read, write and edit and the pattern of glob are relative, without `..` and outside the reserved
-- names. A read starts at line one or later and takes at most `read_max_lines`, the content of a
-- write has at most `max_write_bytes` in UTF-8, and an edit replaces a text that is not empty one
-- to 100 times. Of a command only that it is not blank and has no NUL.
pub parse_leaf_lite_tool_call-IsPermitted :
    (dumps : Json → Text) (loads : Text → Option Json) (c : LeafLiteToolContract) (t : Text)
    (call : LeafLiteToolCall)
    → parse_leaf_lite_tool_call dumps loads t c ≡ ok call
    → IsPermitted c call
unfolding parse_leaf_lite_tool_call
parse_leaf_lite_tool_call-IsPermitted dumps loads c t call h =
    let raw = >>=-ok (or_raise (loads t) not_json) (λ raw. parse_call raw c) call h in
    let allowed = parse_call-IsAllowed raw.0 c call raw.1.1 in
    record {
      enabled = allowed.enabled;
      arguments = Fits-Permits c call.tool call.arguments allowed.fits;
    }
