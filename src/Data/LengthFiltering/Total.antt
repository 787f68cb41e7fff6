-- ===== src/Data/LengthFiltering/Total.antt =====
-- Any lengths have a distribution.
use tiny_qwen_coder.Prelude.{
  ℕ, suc, ◌-◌, ◌≤◌, max, ◌≡◌, refl, ap, ◌∙◌, sym, true, false, List, [], ◌∷◌, some, map, null,
  last?, length, leb, arith,
}
use tiny_qwen_coder.Prelude.Eq.{
  ◌==◌, ==_refl, nat_eq, list_eq, list_beq, option_eq, elem, distinct, from_keys, elem-from_keys,
  distinct-from_keys,
}
use tiny_qwen_coder.Prelude.Sort.{sorted}
use tiny_qwen_coder.Prelude.Result.{ok}
use tiny_qwen_coder.Data.LengthFiltering.{TokenLengthDistribution, check_distribution, first_tokens}
use tiny_qwen_coder.Data.LengthFiltering.Distribution.{
  Percentile, p50, p90, p95, p99, bar, lengths_seen, least, greatest, nearest_rank,
  token_length_distribution,
}
use tiny_qwen_coder.Data.LengthFiltering.Ordered.{
  elem-sorted, distinct-sorted, length-sorted, ordered, ordered-sorted, sorted-ordered, below-elem,
  ordered-last, elem-last, least-le, elem-least, le-greatest, elem-greatest, get_elem?-some,
}
use tiny_qwen_coder.Data.LengthFiltering.Tally.{sum_of-bars, token_counts-bars, bars-ok, all-elem}

elem-lengths_seen : (y : ℕ) (values : List ℕ) → elem y (lengths_seen values) ≡ elem y values
unfolding elem
elem-lengths_seen y values =
    elem-sorted y (from_keys [] values) ∙ (elem-from_keys y [] values ∙ ground arith)

distinct-lengths_seen : (values : List ℕ) → distinct (lengths_seen values) ≡ true
distinct-lengths_seen values = distinct-sorted (from_keys [] values) ∙ distinct-from_keys [] values

-- The two ends of the bars are the least and the greatest value.
first-least :
    (v ks : List ℕ) (x : ℕ) (xs : List ℕ)
    → ordered ks ≡ true
    → ((y : ℕ) → elem y ks ≡ elem y (x ∷ xs))
    → first_tokens (map (bar v) ks) ≡ some (least x xs)
unfolding ordered elem
first-least v [] x xs h e = ground (arith, e x)
first-least v (k ∷ ks) x xs h e =
    let m = least x xs in
    let low : m ≤ k = least-le x k xs (sym (e k) ∙ ground arith) in
    let here : elem m (k ∷ ks) ≡ true = e m ∙ elem-least x xs in
    let high = below-elem k m ks (ground arith) in ground (arith, low, here, high)

last-some : (k : ℕ) (ks : List ℕ) → (m : ℕ) × (last? (k ∷ ks) ≡ some m)
last-some k [] = (k, refl)
last-some k (j ∷ ks) = last-some j ks

last-greatest :
    (ks : List ℕ) (x : ℕ) (xs : List ℕ)
    → ordered ks ≡ true
    → ((y : ℕ) → elem y ks ≡ elem y (x ∷ xs))
    → last? ks ≡ some (greatest x xs)
unfolding elem
last-greatest [] x xs h e = ground (arith, e x)
last-greatest (k ∷ ks) x xs h e =
    let (m, l) = last-some k ks in
    let g = greatest x xs in
    let high = ordered-last (k ∷ ks) m g h l (e g ∙ elem-greatest x xs) in
    let low = le-greatest x m xs (sym (e m) ∙ elem-last (k ∷ ks) m l) in
    l ∙ ap (λ n. some n) (omega (arith, high, low))

suc-nonzero : (n : ℕ) → (suc n == 0) ≡ false
suc-nonzero n = ground arith

bars-null :
    (v ks : List ℕ) (n : ℕ) → first_tokens (map (bar v) ks) ≡ some n → null (map (bar v) ks) ≡ false
bars-null v [] n h = ground arith
bars-null v (k ∷ ks) n h = refl

module _ (rank : Percentile → ℕ → ℕ) (in_range : (p : Percentile) (n : ℕ) → rank p n ≤ n) where
  nearest_rank-ok :
      (x : ℕ) (xs : List ℕ) (p : Percentile) → (n : ℕ) × (nearest_rank rank (x ∷ xs) p ≡ ok n)
  unfolding nearest_rank
  nearest_rank-ok x xs p =
      let values = x ∷ xs in
      let size : length (sorted leb values) ≡ suc (length xs) = length-sorted values in
      let found =
        get_elem?-some (sorted leb values) (max 0 (rank p (length (sorted leb values)) - 1))
          (omega (arith, size, in_range p (length (sorted leb values)))) in
      (found.0, rw found.1)

  module _ (Float : Type 0) (mean : List ℕ → Float) where
    abbrev described : ℕ → List ℕ → ℕ → ℕ → ℕ → ℕ → TokenLengthDistribution Float
    described x xs a b c d = record {
      count = length (x ∷ xs);
      minimum = some (least x xs);
      maximum = some (greatest x xs);
      mean = some (mean (x ∷ xs));
      percentiles = some a ∷ some b ∷ some c ∷ some d ∷ [];
      histogram = map (bar (x ∷ xs)) (lengths_seen (x ∷ xs));
    }

    described-ok :
        (x : ℕ) (xs : List ℕ) (a b c d : ℕ) → check_distribution (described x xs a b c d) ≡ ok tt
    unfolding check_distribution
    described-ok x xs a b c d =
        let values = x ∷ xs in
        let ks = lengths_seen values in
        let order = ordered-sorted (from_keys [] values) in
        let same : (y : ℕ) → elem y ks ≡ elem y values = λ y. elem-lengths_seen y values in
        let first = first-least values ks x xs order same in
        rw
          (
            sum_of-bars values ks (distinct-lengths_seen values)
                (all-elem ks values (λ y e. same y ∙ e)),
            ==_refl (suc (length xs)),
            token_counts-bars values ks,
            sorted-ordered ks order,
            ==_refl ks,
            suc-nonzero (length xs),
            bars-null values ks (least x xs) first,
            first,
            ==_refl (some (least x xs)),
            ap (λ l. last? l) (token_counts-bars values ks) ∙ last-greatest ks x xs order same,
            ==_refl (some (greatest x xs)),
          )
          (ground arith)

    distribution-steps :
        (x : ℕ) (xs : List ℕ) (a b c d : ℕ)
        → nearest_rank rank (x ∷ xs) p50 ≡ ok a
        → nearest_rank rank (x ∷ xs) p90 ≡ ok b
        → nearest_rank rank (x ∷ xs) p95 ≡ ok c
        → nearest_rank rank (x ∷ xs) p99 ≡ ok d
        → token_length_distribution rank Float mean (x ∷ xs) ≡ ok (described x xs a b c d)
    unfolding token_length_distribution
    distribution-steps x xs a b c d ha hb hc hd =
        let values = x ∷ xs in
        let ks = lengths_seen values in
        rw (
          bars-ok values ks (all-elem values ks (λ y e. sym (elem-lengths_seen y values) ∙ e)),
          ha,
          hb,
          hc,
          hd,
          described-ok x xs a b c d,
        )

    -- If the rank of a percentile is at most the number of values, the distribution of any lengths
    -- is built and passes its check. It counts the values, and its histogram has one bar for each
    -- length that occurs, in increasing order, with the number of its occurrences.
    pub token_length_distribution-total :
        (values : List ℕ)
        → (d : TokenLengthDistribution Float) × ((token_length_distribution rank Float mean values
              ≡ ok d)
            × ((d.count ≡ length values) × (d.histogram ≡ map (bar values) (lengths_seen values))))
    unfolding token_length_distribution check_distribution sorted from_keys list_beq
    token_length_distribution-total [] = (_, (refl, (refl, refl)))
    token_length_distribution-total (x ∷ xs) =
        let (a, ha) = nearest_rank-ok x xs p50 in
        let (b, hb) = nearest_rank-ok x xs p90 in
        let (c, hc) = nearest_rank-ok x xs p95 in
        let (d, hd) = nearest_rank-ok x xs p99 in
        (described x xs a b c d, (distribution-steps x xs a b c d ha hb hc hd, (refl, refl)))
