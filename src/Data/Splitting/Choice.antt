-- ===== src/Data/Splitting/Choice.antt =====
-- The number of groups that `_choose_validation_group_count` chooses is the best prefix.
use native.Mathlib.Decide.{ℕ_discrete}
use tiny_qwen_coder.Prelude.{
  ℕ, ◌+◌, ◌-◌, ◌≤◌, ◌<◌, ◌≡◌, refl, sym, ◌∙◌, ap, subst, true, false, List, [], ◌∷◌, ◌++◌, Option,
  none, some, length, length-append, append_assoc, take, take-length-append, ltb, ltb→lt, lt→ltb,
  arith, Bool-cases, inl, inr,
}
use tiny_qwen_coder.Prelude.Eq.{nat_eq}
use tiny_qwen_coder.Prelude.Result.{ok}
use tiny_qwen_coder.Data.Splitting.{LinkedPromptGroup}
use tiny_qwen_coder.Data.Splitting.Run.{
  distance, Key, key_of, key_less, better, choose_from, choose_validation_group_count,
}

-- The records in a list of groups.
abbrev pub records_in : List LinkedPromptGroup → ℕ
records_in [] = 0
records_in (g ∷ gs) = length g.unique_indices + records_in gs

-- `a` is no farther from the target than `b`, and above it, at the same distance, only if `b` is.
abbrev NoWorse : Key → Key → Type 0
NoWorse a b = (a.off ≤ b.off) × (a.off ≡ b.off → a.over ≡ true → b.over ≡ true)

NoWorse-refl : (a : Key) → NoWorse a a
NoWorse-refl a = (omega arith, λ e o. o)

NoWorse-trans : (a b c : Key) → NoWorse a b → NoWorse b c → NoWorse a c
NoWorse-trans a b c h k = (omega arith, λ e o. k.1 (omega arith) (h.1 (omega arith) o))

NoWorse-less : (a b : Key) → key_less a b ≡ true → NoWorse a b
unfolding key_less
NoWorse-less a b h = (ground arith, λ e o. ground arith)

NoWorse-not_less : (a b : Key) → key_less a b ≡ false → NoWorse b a
unfolding key_less
NoWorse-not_less a b h = (ground arith, λ e o. ground arith)

records_in-snoc :
    (pre : List LinkedPromptGroup) (g : LinkedPromptGroup)
    → records_in (pre ++ (g ∷ [])) ≡ records_in pre + length g.unique_indices
records_in-snoc [] g = omega arith
records_in-snoc (x ∷ pre) g = omega (arith, records_in-snoc pre g)

choose_from-last :
    (target count cumulative : ℕ) (g : LinkedPromptGroup) (best : Option Key)
    → choose_from target count cumulative (g ∷ []) best ≡ best
unfolding choose_from
choose_from-last target count cumulative g best = refl

choose_from-cons :
    (target count cumulative : ℕ) (g h : LinkedPromptGroup) (gs : List LinkedPromptGroup)
    (best : Option Key)
    → choose_from target count cumulative (g ∷ h ∷ gs) best
      ≡ choose_from target
          (count + 1)
          (cumulative + length g.unique_indices)
          (h ∷ gs)
          (better best (key_of target (cumulative + length g.unique_indices) count))
unfolding choose_from
choose_from-cons target count cumulative g h gs best = refl

module _ (full : List LinkedPromptGroup) (target : ℕ) where
  -- The key of a prefix.
  abbrev prefix_key : ℕ → Key
  prefix_key k = key_of target (records_in (take k full)) k

  record IsBest (n : ℕ) (r : Key) : Type 0 where
    lower : 1 ≤ r.group_count
    upper : r.group_count < length full
    own : r ≡ prefix_key r.group_count
    best : (k : ℕ) → 1 ≤ k → k ≤ n → NoWorse r (prefix_key k)

  take-next :
      (pre : List LinkedPromptGroup) (g : LinkedPromptGroup) (gs : List LinkedPromptGroup)
      → pre ++ (g ∷ gs) ≡ full
      → take (length pre + 1) full ≡ pre ++ (g ∷ [])
  take-next pre g gs e =
      let counted : length (pre ++ (g ∷ [])) ≡ length pre + 1 = length-append pre (g ∷ []) in
      rw (← counted, ← e, ← append_assoc pre (g ∷ []) gs) (take-length-append (pre ++ (g ∷ [])) gs)

  key-next :
      (pre : List LinkedPromptGroup) (g : LinkedPromptGroup) (gs : List LinkedPromptGroup)
      → pre ++ (g ∷ gs) ≡ full
      → key_of target (records_in pre + length g.unique_indices) (length pre + 1)
        ≡ prefix_key (length pre + 1)
  key-next pre g gs e = rw (take-next pre g gs e, records_in-snoc pre g)

  best-next :
      (n : ℕ) (r s : Key)
      → ((k : ℕ) → 1 ≤ k → k ≤ n → NoWorse r (prefix_key k))
      → NoWorse s r
      → NoWorse s (prefix_key (n + 1))
      → (k : ℕ) → 1 ≤ k
      → k ≤ n + 1
      → NoWorse s (prefix_key k)
  best-next n r s old sr new k low high = elim (ℕ_discrete k (n + 1)) [
    | yes e ↦ rw e new
    | no e ↦ NoWorse-trans s r (prefix_key k) sr (old k low (omega arith))
  ]

  next-IsBest :
      (n : ℕ) (r : Key)
      → IsBest n r
      → n + 1 < length full
      → (s : Key) × (better (some r) (prefix_key (n + 1)) ≡ some s) × IsBest (n + 1) s
  next-IsBest n r b h = elim (Bool-cases (key_less (prefix_key (n + 1)) r)) [
    | inl e ↦
        let s = prefix_key (n + 1) in
        (
          s,
          rw e,
          record {
            lower = omega arith;
            upper = h;
            own = refl;
            best = best-next n r s b.best (NoWorse-less s r e) (NoWorse-refl s);
          },
        )
    | inr e ↦
        let s = prefix_key (n + 1) in
        (
          r,
          rw e,
          record {
            lower = b.lower;
            upper = b.upper;
            own = b.own;
            best = best-next n r r b.best (NoWorse-refl r) (NoWorse-not_less s r e);
          },
        )
  ]

  choose_from-IsBest :
      (pre gs : List LinkedPromptGroup) (r : Key)
      → pre ++ gs ≡ full
      → IsBest (length pre) r
      → length pre < length full
      → (s : Key) × (choose_from target (length pre + 1) (records_in pre) gs (some r) ≡ some s)
        × IsBest (length full - 1) s
  choose_from-IsBest pre [] r e b h =
      absurd (omega (arith, length-append pre [], ap (λ l. length l) e))
  choose_from-IsBest pre (g ∷ []) r e b h =
      let last : length pre ≡ length full - 1 =
        omega (arith, length-append pre (g ∷ []), ap (λ l. length l) e) in
      (
        r,
        choose_from-last target (length pre + 1) (records_in pre) g (some r),
        subst (λ n. IsBest n r) last b,
      )
  choose_from-IsBest pre (g ∷ h ∷ gs) r e b lt =
      let more = g ∷ h ∷ gs in
      let later = pre ++ (g ∷ []) in
      let room : length pre + 1 < length full =
        omega (arith, length-append pre more, ap (λ l. length l) e) in
      let (s, chosen, best) = next-IsBest (length pre) r b room in
      let counted : length later ≡ length pre + 1 = length-append pre (g ∷ []) in
      let better_next : better (some r)
            (key_of target (records_in pre + length g.unique_indices) (length pre + 1))
          ≡ some s =
        ap (better (some r)) (key-next pre g (h ∷ gs) e) ∙ chosen in
      let (t, rest, final) =
        choose_from-IsBest later (h ∷ gs) s (append_assoc pre (g ∷ []) (h ∷ gs) ∙ e)
          (subst (λ n. IsBest n s) (sym counted) best) (rw counted room) in
      (
        t,
        choose_from-cons target (length pre + 1) (records_in pre) g h gs (some r)
            ∙ rw (better_next, ← records_in-snoc pre g, ← counted) rest,
        final,
      )

first-IsBest :
    (full : List LinkedPromptGroup) (target : ℕ)
    → 1 < length full
    → IsBest full target 1 (prefix_key full target 1)
first-IsBest full target h = record {
  lower = omega arith;
  upper = h;
  own = refl;
  best = λ k low high.
      let same : k ≡ 1 = omega arith in rw same (NoWorse-refl (prefix_key full target 1));
}

choose_from-first :
    (target : ℕ) (g h : LinkedPromptGroup) (gs : List LinkedPromptGroup)
    → choose_from target 1 0 (g ∷ h ∷ gs) none
      ≡ choose_from target
          (1 + 1)
          (length g.unique_indices + 0)
          (h ∷ gs)
          (some (prefix_key (g ∷ h ∷ gs) target 1))
choose_from-first target g h gs =
    let same : 0 + length g.unique_indices ≡ length g.unique_indices + 0 = omega arith in
    choose_from-cons target 1 0 g h gs none
    ∙ ap (λ (n : ℕ). choose_from target (1 + 1) n (h ∷ gs) (some (key_of target n 1))) same

closest :
    (full : List LinkedPromptGroup) (target c k : ℕ)
    → NoWorse (prefix_key full target c) (prefix_key full target k)
    → (distance (records_in (take c full)) target ≤ distance (records_in (take k full)) target)
      × (distance (records_in (take c full)) target ≡ distance (records_in (take k full)) target
          → target < records_in (take c full)
          → target < records_in (take k full))
closest full target c k h = (h.0, λ e o. ltb→lt target _ (h.1 e (lt→ltb target _ o)))

-- Of two groups or more the code takes at least one and leaves at least one, and no other such
-- prefix comes closer to the target; one that comes as close and stays at or below the target is
-- preferred to one above it.
pub choose_validation_group_count-best :
    (groups : List LinkedPromptGroup) (target : ℕ)
    → 2 ≤ length groups
    → (c : ℕ) × (choose_validation_group_count groups target ≡ ok c)
      × (1 ≤ c)
      × (c < length groups)
      × ((k : ℕ)
          → 1 ≤ k
          → k < length groups
          → (distance (records_in (take c groups)) target
              ≤ distance (records_in (take k groups)) target)
            × (distance (records_in (take c groups)) target
                  ≡ distance (records_in (take k groups)) target
                → target < records_in (take c groups)
                → target < records_in (take k groups)))
unfolding choose_validation_group_count
choose_validation_group_count-best [] target h = absurd (omega arith)
choose_validation_group_count-best (g ∷ []) target h = absurd (omega arith)
choose_validation_group_count-best (g ∷ h ∷ gs) target two =
    let full = g ∷ h ∷ gs in
    let (s, chosen, best) =
      choose_from-IsBest full target (g ∷ []) (h ∷ gs) (prefix_key full target 1) refl
        (first-IsBest full target (omega arith)) (omega arith) in
    let enough : ltb (length full) 2 ≡ false = ground arith in
    (
      s.group_count,
      rw (enough, choose_from-first target g h gs, chosen),
      best.lower,
      best.upper,
      λ k low high. closest full target s.group_count k (
          subst (λ r. NoWorse r (prefix_key full target k)) best.own
            (best.best k low (omega arith))),
    )
