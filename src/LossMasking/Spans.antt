-- ===== src/LossMasking/Spans.antt =====
-- The spans of a loss mask are its runs of selected tokens.
use tiny_qwen_coder.Prelude.{
  ℕ, zero, suc, ◌+◌, ◌≡◌, ◌<◌, ◌≤◌, refl, Bool, true, false, ◌&&◌, ◌||◌, List, [], ◌∷◌, ◌++◌,
  Option, none, some, ltb, leb, if◌then◌else◌, nat_beq, arith, ◌∙◌, ap,
}
use tiny_qwen_coder.Prelude.Result.{ok}
use tiny_qwen_coder.LossMasking.{LossMaskSpan, check_span, spans_from, loss_spans}

abbrev pub masked : List Bool → ℕ → Bool
masked [] i = false
masked (b ∷ mask) zero = b
masked (b ∷ mask) (suc i) = masked mask i

-- How many spans hold an index.
unfoldable pub span_count : ℕ → List LossMaskSpan → ℕ
span_count i [] = 0
span_count i (s ∷ spans) = (if leb s.start i && ltb i s.end then 1 else 0) + span_count i spans

-- Spans that are not empty, from an index on, with an index between any two of them.
abbrev pub Separated : ℕ → List LossMaskSpan → Type 0
Separated n [] = Unit
Separated n (s ∷ spans) = (n ≤ s.start) × ((s.start < s.end) × Separated (suc s.end) spans)

-- The mask of the indices from `n` on, and the span that is open there.
in_mask : ℕ → List Bool → ℕ → Bool
in_mask n [] i = false
in_mask n (b ∷ mask) i = (b && nat_beq i n) || in_mask (suc n) mask i

opened : Option ℕ → ℕ → ℕ → ℕ
opened none n i = 0
opened (some s) n i = if leb s i && ltb i n then 1 else 0

low : Option ℕ → ℕ → ℕ
low none n = n
low (some s) n = s

abbrev Before : Option ℕ → ℕ → Type 0
Before none n = Unit
Before (some s) n = s < n

in_mask-below : (n : ℕ) (mask : List Bool) (i : ℕ) → i < n → in_mask n mask i ≡ false
unfolding in_mask
in_mask-below n [] i h = refl
in_mask-below n (b ∷ mask) i h = ground (arith, in_mask-below (suc n) mask i (omega (arith, h)))

in_mask-suc : (n : ℕ) (mask : List Bool) (i : ℕ) → in_mask (suc n) mask (suc i) ≡ in_mask n mask i
unfolding in_mask
in_mask-suc n [] i = refl
in_mask-suc n (b ∷ mask) i = ground (arith, in_mask-suc (suc n) mask i)

in_mask-masked : (mask : List Bool) (i : ℕ) → in_mask 0 mask i ≡ masked mask i
unfolding in_mask
in_mask-masked [] i = refl
in_mask-masked (b ∷ mask) zero = ground (arith, in_mask-below 1 mask 0 (omega arith))
in_mask-masked (b ∷ mask) (suc i) = ground (arith, in_mask-suc 0 mask i, in_mask-masked mask i)

record SpansOf (n : ℕ) (o : Option ℕ) (mask : List Bool) : Type 0 where
  spans : List LossMaskSpan
  found : spans_from n o (mask ++ (false ∷ [])) ≡ ok spans
  separated : Separated (low o n) spans
  counted : (i : ℕ) → span_count i spans ≡ opened o n i + (if in_mask n mask i then 1 else 0)

closed : ℕ → ℕ → List LossMaskSpan → List LossMaskSpan
closed s n spans = record { start = s; end = n } ∷ spans

Separated-weaker :
    (m n : ℕ) (spans : List LossMaskSpan) → m ≤ n → Separated n spans → Separated m spans
Separated-weaker m n [] h k = tt
Separated-weaker m n (s ∷ spans) h k = (omega (arith, h, k.0), k.1)

span-ok : (s n : ℕ) → s < n → check_span (record { start = s; end = n }) ≡ ok tt
unfolding check_span
span-ok s n h = ground arith

-- One more selected token in a span that opens at `n`, and in one that is open.
count-open :
    (n i : ℕ) (m : Bool)
    → (i < suc n → m ≡ false)
    → (if leb n i && ltb i (suc n) then 1 else 0) + (if m then 1 else 0)
      ≡ 0 + (if nat_beq i n || m then 1 else 0)
count-open n i m h = ground arith

count-longer :
    (s n i : ℕ) (m : Bool)
    → s < n
    → (i < suc n → m ≡ false)
    → (if leb s i && ltb i (suc n) then 1 else 0) + (if m then 1 else 0)
      ≡ (if leb s i && ltb i n then 1 else 0) + (if nat_beq i n || m then 1 else 0)
count-longer s n i m h k = ground arith

zero_add : (m : Bool) → 0 + (if m then 1 else 0) ≡ (if m then 1 else 0)
zero_add m = ground arith

spans_of : (n : ℕ) (o : Option ℕ) (mask : List Bool) → Before o n → SpansOf n o mask
unfolding spans_from span_count opened low in_mask closed
spans_of n none [] h = record { spans = []; found = refl; separated = tt; counted = λ i. refl }
spans_of n (some s) [] h = record {
  spans = closed s n [];
  found = ground arith;
  separated = (omega arith, (h, tt));
  counted = λ i. refl;
}
spans_of n none (true ∷ mask) h =
    let rest = spans_of (suc n) (some n) mask (omega arith) in
    record {
      spans = rest.spans;
      found = rest.found;
      separated = rest.separated;
      counted = λ i.
          rest.counted i ∙ count-open n i (in_mask (suc n) mask i) (in_mask-below (suc n) mask i);
    }
spans_of n none (false ∷ mask) h =
    let rest = spans_of (suc n) none mask tt in
    record {
      spans = rest.spans;
      found = rest.found;
      separated = Separated-weaker n (suc n) rest.spans (omega arith) rest.separated;
      counted = λ i. rest.counted i;
    }
spans_of n (some s) (true ∷ mask) h =
    let rest = spans_of (suc n) (some s) mask (omega (arith, h)) in
    record {
      spans = rest.spans;
      found = rest.found;
      separated = rest.separated;
      counted = λ i.
          rest.counted i
          ∙ count-longer s n i (in_mask (suc n) mask i) h (in_mask-below (suc n) mask i);
    }
spans_of n (some s) (false ∷ mask) h =
    let rest = spans_of (suc n) none mask tt in
    record {
      spans = closed s n rest.spans;
      found = rw (span-ok s n h, rest.found);
      separated = (omega arith, (h, rest.separated));
      counted = λ i.
          ap (λ c. (if leb s i && ltb i n then 1 else 0) + c)
            (rest.counted i ∙ zero_add (in_mask (suc n) mask i));
    }

-- For every mask the spans are found; they are not empty, in order and never adjacent, and a token
-- is in one of them, and in no other, when it is selected, and in none when it is not.
pub loss_spans-runs :
    (mask : List Bool)
    → (spans : List LossMaskSpan) × ((loss_spans mask ≡ ok spans)
        × (Separated 0 spans × ((i : ℕ) → span_count i spans ≡ (if masked mask i then 1 else 0))))
unfolding loss_spans opened low
loss_spans-runs mask =
    let found = spans_of 0 none mask tt in
    (
      found.spans,
      (found.found, (found.separated, λ i. ground (arith, found.counted i, in_mask-masked mask i))),
    )
