-- ===== src/ToolContract/Paths.antt =====
-- The paths that a tool call may name.
use tiny_qwen_coder.Prelude.{
  ℕ, ◌≡◌, ◌↔◌, refl, sym, ap, subst, ◌∙◌, Bool, true, false, not, ◌||◌, List, [], ◌∷◌, ◌++◌, null,
  All, arith, Bool-cases, inl, inr,
}
use tiny_qwen_coder.Prelude.Eq.{◌==◌, nat_eq, list_eq, elem, ==_refl, eq_of_==}
use tiny_qwen_coder.Prelude.Result.{ok, raise_if, >>-ok, raise_if-ok}
use tiny_qwen_coder.TextNormalization.{Text}
use tiny_qwen_coder.Data.Records.{is_blank}
use tiny_qwen_coder.ToolContract.{
  bad_path_text, bad_path, slash, prepend, split, dot, dots, keep_parts, path_parts, join, as_posix,
  is_absolute, reserved, check_first_part, check_path,
}

-- A name between two slashes.
pub record IsPlain (p : Text) : Type 0 where
  pub nonempty : null p ≡ false
  pub one_part : elem slash p ≡ false
  pub not_dot : (p == dot) ≡ false
  pub not_dots : (p == dots) ≡ false

abbrev pub IsOpen : List Text → Type 0
IsOpen [] = ⊥
IsOpen (p ∷ ps) = elem p reserved ≡ false

-- Plain names with one slash between them, the first of them not reserved, in a text with no NUL and
-- no backslash that is not blank.
pub record IsRelativePath (t : Text) (parts : List Text) : Type 0 where
  pub text : (is_blank t || elem 0 t || elem b'\\' t) ≡ false
  pub joined : t ≡ join parts
  pub plain : All IsPlain parts
  pub allowed : IsOpen parts

prepend-no_slash :
    (c : ℕ) (ps : List Text)
    → (c == slash) ≡ false
    → All (λ p. elem slash p ≡ false) ps
    → All (λ p. elem slash p ≡ false) (prepend c ps)
unfolding elem
prepend-no_slash c [] e h = (rw e, tt)
prepend-no_slash c (p ∷ ps) e h = (rw (e, h.0), h.1)

split-no_slash : (t : Text) → All (λ p. elem slash p ≡ false) (split t)
unfolding split elem
split-no_slash [] = (refl, tt)
split-no_slash (c ∷ t) = elim (Bool-cases (c == slash)) [
  | inl e ↦ rw e (refl, split-no_slash t)
  | inr e ↦ rw e (prepend-no_slash c (split t) e (split-no_slash t))
]

||-false : (a b : Bool) → (a || b) ≡ false → (a ≡ false) × (b ≡ false)
||-false a b h = ground arith

IsPlain-kept :
    (ps : List Text)
    → All (λ p. elem slash p ≡ false) ps
    → elem dots (keep_parts ps) ≡ false
    → All IsPlain (keep_parts ps)
unfolding elem
IsPlain-kept [] h k = tt
IsPlain-kept (p ∷ ps) h k = elim (Bool-cases (null p || p == dot)) [
  | inl e ↦ rw e (IsPlain-kept ps h.1 (rw e at k))
  | inr e ↦
      let named = ||-false (null p) (p == dot) e in
      let rest = ||-false (p == dots) (elem dots (keep_parts ps)) (rw e at k) in
      rw e (
        record { nonempty = named.0; one_part = h.0; not_dot = named.1; not_dots = rest.0 },
        IsPlain-kept ps h.1 rest.1,
      )
]

split-plain : (p : Text) → elem slash p ≡ false → split p ≡ p ∷ []
unfolding split elem
split-plain [] h = refl
split-plain (c ∷ p) h = ground (arith, split-plain p)

split-append : (p t : Text) → elem slash p ≡ false → split (p ++ slash ∷ t) ≡ p ∷ split t
unfolding split elem
split-append [] t h = refl
split-append (c ∷ p) t h =
    let parts = ||-false (c == slash) (elem slash p) h in rw (parts.0, split-append p t parts.1)

keep-plain : (ps : List Text) → All IsPlain ps → keep_parts ps ≡ ps
keep-plain [] h = refl
keep-plain (p ∷ ps) h = rw (h.0.nonempty, h.0.not_dot, keep-plain ps h.1)

split-join : (p : Text) (ps : List Text) → All IsPlain (p ∷ ps) → split (join (p ∷ ps)) ≡ p ∷ ps
unfolding join
split-join p [] h = split-plain p h.0.one_part
split-join p (q ∷ ps) h =
    split-append p (join (q ∷ ps)) h.0.one_part ∙ ap (λ r. p ∷ r) (split-join q ps h.1)

join-relative : (p : Text) (ps : List Text) → IsPlain p → is_absolute (join (p ∷ ps)) ≡ false
unfolding join elem
join-relative [] ps h = absurd (ground (arith, h.nonempty))
join-relative (c ∷ p) [] h = ground (arith, h.one_part)
join-relative (c ∷ p) (q ∷ ps) h = ground (arith, h.one_part)

no_dots-plain : (ps : List Text) → All IsPlain ps → elem dots ps ≡ false
unfolding elem
no_dots-plain [] h = refl
no_dots-plain (p ∷ ps) h = rw (h.0.not_dots, no_dots-plain ps h.1)

path_parts-IsPlain : (t : Text) → elem dots (path_parts t) ≡ false → All IsPlain (path_parts t)
unfolding path_parts
path_parts-IsPlain t h = IsPlain-kept (split t) (split-no_slash t) h

||-three : (a b c : Bool) → (a || not b || c) ≡ false → (a ≡ false) × ((b ≡ true) × (c ≡ false))
||-three a b c h = ground arith

-- What the three tests of the path say.
record Accepted (t : Text) : Type 0 where
  text : (is_blank t || elem 0 t || elem b'\\' t) ≡ false
  relative : is_absolute t ≡ false
  normal : (t == as_posix (path_parts t)) ≡ true
  inside : elem dots (path_parts t) ≡ false
  first : check_first_part (path_parts t) ≡ ok tt

check_path-Accepted : (t : Text) → check_path t ≡ ok tt → Accepted t
unfolding check_path
check_path-Accepted t h =
    let a = >>-ok (raise_if (is_blank t || elem 0 t || elem b'\\' t) bad_path_text) _ _ h in
    let b =
      >>-ok
        (raise_if (is_absolute t || not (t == as_posix (path_parts t)) || elem dots (path_parts t))
          bad_path)
        _ _ a.1 in
    let tests =
      ||-three (is_absolute t) (t == as_posix (path_parts t)) (elem dots (path_parts t))
        (raise_if-ok _ _ b.0) in
    record {
      text = raise_if-ok _ _ a.0;
      relative = tests.0;
      normal = tests.1.0;
      inside = tests.1.1;
      first = b.1;
    }

Accepted-check_path : (t : Text) → Accepted t → check_path t ≡ ok tt
unfolding check_path
Accepted-check_path t a = rw (a.text, a.relative, a.normal, a.inside, a.first)

IsOpen-check : (parts : List Text) → check_first_part parts ≡ ok tt → IsOpen parts
unfolding check_first_part
IsOpen-check [] h = absurd (ground arith)
IsOpen-check (p ∷ ps) h = raise_if-ok _ _ h

check-IsOpen : (parts : List Text) → IsOpen parts → check_first_part parts ≡ ok tt
unfolding check_first_part
check-IsOpen [] h = absurd h
check-IsOpen (p ∷ ps) h = rw h

posix-join : (parts : List Text) → IsOpen parts → as_posix parts ≡ join parts
unfolding as_posix
posix-join [] h = absurd h
posix-join (p ∷ ps) h = refl

path_parts-join :
    (parts : List Text) → IsOpen parts → All IsPlain parts → path_parts (join parts) ≡ parts
unfolding path_parts
path_parts-join [] h k = absurd h
path_parts-join (p ∷ ps) h k = rw (split-join p ps k) (keep-plain (p ∷ ps) k)

relative-join :
    (parts : List Text) → IsOpen parts → All IsPlain parts → is_absolute (join parts) ≡ false
relative-join [] h k = absurd h
relative-join (p ∷ ps) h k = join-relative p ps k.0

joined-Accepted : (t : Text) (parts : List Text) → IsRelativePath t parts → Accepted t
joined-Accepted t parts r =
    let same : path_parts t ≡ parts =
      ap path_parts r.joined ∙ path_parts-join parts r.allowed r.plain in
    record {
      text = r.text;
      relative = ap is_absolute r.joined ∙ relative-join parts r.allowed r.plain;
      normal =
          rw same (
            subst (λ u. (t == u) ≡ true) (r.joined ∙ sym (posix-join parts r.allowed)) (==_refl t));
      inside = rw same (no_dots-plain parts r.plain);
      first = rw same (check-IsOpen parts r.allowed);
    }

-- The path check accepts exactly the relative paths: plain names joined by one slash each, none of
-- them `.` or `..`, the first not reserved, in a text that is not blank and has no NUL and no
-- backslash.
pub check_path-IsRelativePath_iff :
    (t : Text) → (check_path t ≡ ok tt) ↔ ((parts : List Text) × IsRelativePath t parts)
check_path-IsRelativePath_iff t = (
  λ h.
      let a = check_path-Accepted t h in
      let allowed = IsOpen-check (path_parts t) a.first in
      (
        path_parts t,
        record {
          text = a.text;
          joined =
              eq_of_== t (as_posix (path_parts t)) a.normal ∙ posix-join (path_parts t) allowed;
          plain = path_parts-IsPlain t a.inside;
          allowed = allowed;
        },
      ),
  λ r. Accepted-check_path t (joined-Accepted t r.0 r.1),
)
