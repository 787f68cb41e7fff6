-- ===== src/Data/LengthFiltering/Ordered.antt =====
-- Sorted lists of numbers: what sorting keeps, and their first and last elements.
use tiny_qwen_coder.Prelude.{
  ℕ, zero, suc, ◌<◌, ◌≤◌, min, max, ◌≡◌, refl, ap, ◌∙◌, Bool, true, not, ◌&&◌, ◌||◌, List, [], ◌∷◌,
  some, last?, length, get_elem?, leb, arith,
}
use tiny_qwen_coder.Prelude.Eq.{◌==◌, nat_eq, elem, distinct}
use tiny_qwen_coder.Prelude.Sort.{insert_sorted, sorted}
use tiny_qwen_coder.Data.LengthFiltering.Distribution.{least, greatest}

pub elem-insert : (y a : ℕ) (xs : List ℕ) → elem y (insert_sorted leb a xs) ≡ (a == y || elem y xs)
unfolding insert_sorted elem
elem-insert y a [] = refl
elem-insert y a (x ∷ xs) = ground (arith, elem-insert y a xs)

pub elem-sorted : (y : ℕ) (xs : List ℕ) → elem y (sorted leb xs) ≡ elem y xs
unfolding sorted elem
elem-sorted y [] = refl
elem-sorted y (x ∷ xs) = elem-insert y x (sorted leb xs) ∙ ap (λ b. x == y || b) (elem-sorted y xs)

distinct-insert :
    (a : ℕ) (xs : List ℕ) → distinct (insert_sorted leb a xs) ≡ (not (elem a xs) && distinct xs)
unfolding insert_sorted elem distinct
distinct-insert a [] = refl
distinct-insert a (x ∷ xs) = ground (arith, distinct-insert a xs, elem-insert x a xs)

pub distinct-sorted : (xs : List ℕ) → distinct (sorted leb xs) ≡ distinct xs
unfolding sorted distinct
distinct-sorted [] = refl
distinct-sorted (x ∷ xs) =
    distinct-insert x (sorted leb xs) ∙ rw (elem-sorted x xs, distinct-sorted xs)

length-insert : (a : ℕ) (xs : List ℕ) → length (insert_sorted leb a xs) ≡ suc (length xs)
unfolding insert_sorted
length-insert a [] = refl
length-insert a (x ∷ xs) = ground (arith, length-insert a xs)

pub length-sorted : (xs : List ℕ) → length (sorted leb xs) ≡ length xs
unfolding sorted
length-sorted [] = refl
length-sorted (x ∷ xs) = length-insert x (sorted leb xs) ∙ ap suc (length-sorted xs)

-- `k` is at most every element.
abbrev pub below : ℕ → List ℕ → Bool
below k [] = true
below k (x ∷ xs) = leb k x && below k xs

unfoldable pub ordered : List ℕ → Bool
ordered [] = true
ordered (x ∷ xs) = below x xs && ordered xs

below_trans : (k j : ℕ) (xs : List ℕ) → k ≤ j → below j xs ≡ true → below k xs ≡ true
below_trans k j [] h b = refl
below_trans k j (x ∷ xs) h b = ground (arith, below_trans k j xs h)

below-insert : (k a : ℕ) (xs : List ℕ) → below k (insert_sorted leb a xs) ≡ (leb k a && below k xs)
unfolding insert_sorted
below-insert k a [] = refl
below-insert k a (x ∷ xs) = ground (arith, below-insert k a xs)

ordered-insert : (a : ℕ) (xs : List ℕ) → ordered xs ≡ true → ordered (insert_sorted leb a xs) ≡ true
unfolding insert_sorted ordered
ordered-insert a [] h = refl
ordered-insert a (x ∷ xs) h =
    ground (arith, ordered-insert a xs, below-insert x a xs, below_trans a x xs)

pub ordered-sorted : (xs : List ℕ) → ordered (sorted leb xs) ≡ true
unfolding sorted ordered
ordered-sorted [] = refl
ordered-sorted (x ∷ xs) = ordered-insert x (sorted leb xs) (ordered-sorted xs)

insert-below : (x : ℕ) (xs : List ℕ) → below x xs ≡ true → insert_sorted leb x xs ≡ x ∷ xs
unfolding insert_sorted
insert-below x [] h = refl
insert-below x (y ∷ xs) h = ground arith

pub sorted-ordered : (xs : List ℕ) → ordered xs ≡ true → sorted leb xs ≡ xs
unfolding sorted ordered
sorted-ordered [] h = refl
sorted-ordered (x ∷ xs) h = rw (sorted-ordered xs (ground arith)) (insert-below x xs (ground arith))

pub below-elem : (k y : ℕ) (xs : List ℕ) → below k xs ≡ true → elem y xs ≡ true → k ≤ y
unfolding elem
below-elem k y [] h e = ground arith
below-elem k y (x ∷ xs) h e = ground (arith, below-elem k y xs)

-- The last element of an ordered list.
pub ordered-last :
    (xs : List ℕ) (m y : ℕ) → ordered xs ≡ true → last? xs ≡ some m → elem y xs ≡ true → y ≤ m
unfolding ordered elem
ordered-last [] m y h l e = ground arith
ordered-last (x ∷ []) m y h l e = ground arith
ordered-last (x ∷ z ∷ xs) m y h l e = ground (
  arith,
  ordered-last (z ∷ xs) m y (ground arith) l,
  ordered-last (z ∷ xs) m z (ground arith) l (ground arith),
)

pub elem-last : (xs : List ℕ) (m : ℕ) → last? xs ≡ some m → elem m xs ≡ true
unfolding elem
elem-last [] m l = ground arith
elem-last (x ∷ []) m l = ground arith
elem-last (x ∷ z ∷ xs) m l = ground (arith, elem-last (z ∷ xs) m l)

pub least-le : (n y : ℕ) (xs : List ℕ) → elem y (n ∷ xs) ≡ true → least n xs ≤ y
unfolding elem
least-le n y [] e = ground arith
least-le n y (x ∷ xs) e =
    ground (arith, least-le (min n x) y xs, least-le (min n x) (min n x) xs (ground arith))

pub elem-least : (n : ℕ) (xs : List ℕ) → elem (least n xs) (n ∷ xs) ≡ true
unfolding elem
elem-least n [] = ground arith
elem-least n (x ∷ xs) = ground (arith, elem-least (min n x) xs)

pub le-greatest : (n y : ℕ) (xs : List ℕ) → elem y (n ∷ xs) ≡ true → y ≤ greatest n xs
unfolding elem
le-greatest n y [] e = ground arith
le-greatest n y (x ∷ xs) e =
    ground (arith, le-greatest (max n x) y xs, le-greatest (max n x) (max n x) xs (ground arith))

pub elem-greatest : (n : ℕ) (xs : List ℕ) → elem (greatest n xs) (n ∷ xs) ≡ true
unfolding elem
elem-greatest n [] = ground arith
elem-greatest n (x ∷ xs) = ground (arith, elem-greatest (max n x) xs)

pub get_elem?-some : (xs : List ℕ) (i : ℕ) → i < length xs → (x : ℕ) × (get_elem? xs i ≡ some x)
get_elem?-some [] i h = absurd (omega (arith, h))
get_elem?-some (x ∷ xs) zero h = (x, refl)
get_elem?-some (x ∷ xs) (suc i) h = get_elem?-some xs i (omega (arith, h))
