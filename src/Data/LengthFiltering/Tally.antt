-- ===== src/Data/LengthFiltering/Tally.antt =====
-- The bars of a histogram over distinct lengths count every value once.
use tiny_qwen_coder.Prelude.{
  ℕ, ◌+◌, ◌<◌, ◌≡◌, refl, true, List, [], ◌∷◌, all, map, length, arith, ◌∙◌, ap, if◌then◌else◌,
}
use tiny_qwen_coder.Prelude.Eq.{◌==◌, nat_eq, elem, distinct}
use tiny_qwen_coder.Prelude.Result.{ok}
use tiny_qwen_coder.Data.LengthFiltering.{check_length_count, sum_of, token_counts}
use tiny_qwen_coder.Data.LengthFiltering.Distribution.{count_of, bar, bars}

unfoldable tally : List ℕ → List ℕ → ℕ
tally [] xs = 0
tally (k ∷ ks) xs = count_of k xs + tally ks xs

unfoldable hits : List ℕ → ℕ → ℕ
hits [] x = 0
hits (k ∷ ks) x = (if x == k then 1 else 0) + hits ks x

tally-nil : (ks : List ℕ) → tally ks [] ≡ 0
unfolding tally count_of
tally-nil [] = refl
tally-nil (k ∷ ks) = omega (arith, tally-nil ks)

tally-cons : (ks : List ℕ) (x : ℕ) (xs : List ℕ) → tally ks (x ∷ xs) ≡ hits ks x + tally ks xs
unfolding tally count_of hits
tally-cons [] x xs = omega arith
tally-cons (k ∷ ks) x xs = omega (arith, tally-cons ks x xs)

hits-distinct :
    (ks : List ℕ) (x : ℕ) → distinct ks ≡ true → hits ks x ≡ (if elem x ks then 1 else 0)
unfolding hits distinct elem
hits-distinct [] x h = refl
hits-distinct (k ∷ ks) x h = ground (arith, hits-distinct ks x)

tally-length :
    (ks xs : List ℕ) → distinct ks ≡ true → all (λ x. elem x ks) xs ≡ true → tally ks xs ≡ length xs
tally-length ks [] h a = tally-nil ks
tally-length ks (x ∷ xs) h a =
    ground (arith, tally-cons ks x xs, hits-distinct ks x h, tally-length ks xs h)

sum_of-tally : (values ks : List ℕ) → sum_of (map (bar values) ks) ≡ tally ks values
unfolding tally
sum_of-tally values [] = refl
sum_of-tally values (k ∷ ks) = omega (arith, sum_of-tally values ks)

pub sum_of-bars :
    (values ks : List ℕ)
    → distinct ks ≡ true
    → all (λ x. elem x ks) values ≡ true
    → sum_of (map (bar values) ks) ≡ length values
sum_of-bars values ks h a = sum_of-tally values ks ∙ tally-length ks values h a

pub token_counts-bars : (values ks : List ℕ) → token_counts (map (bar values) ks) ≡ ks
token_counts-bars values [] = refl
token_counts-bars values (k ∷ ks) = ap (λ t. k ∷ t) (token_counts-bars values ks)

count_of-elem : (n : ℕ) (xs : List ℕ) → elem n xs ≡ true → 0 < count_of n xs
unfolding count_of elem
count_of-elem n [] h = ground arith
count_of-elem n (x ∷ xs) h = ground (arith, count_of-elem n xs)

count-ok :
    (n : ℕ) (values : List ℕ) → 0 < count_of n values → check_length_count (bar values n) ≡ ok tt
unfolding check_length_count
count-ok n values h = ground arith

pub bars-ok :
    (values ks : List ℕ)
    → all (λ n. elem n values) ks ≡ true
    → bars values ks ≡ ok (map (bar values) ks)
unfolding bars
bars-ok values [] h = refl
bars-ok values (k ∷ ks) h =
    let here : elem k values ≡ true = ground arith in
    let rest : all (λ n. elem n values) ks ≡ true = ground arith in
    rw (count-ok k values (count_of-elem k values here), bars-ok values ks rest)

pub all-elem :
    (xs ys : List ℕ)
    → ((y : ℕ) → elem y ys ≡ true → elem y xs ≡ true)
    → all (λ y. elem y xs) ys ≡ true
unfolding elem
all-elem xs [] h = refl
all-elem xs (y ∷ ys) h = rw (h y (ground arith)) (all-elem xs ys (λ z e. h z (ground arith)))
