-- ===== src/TokenLedger/Preserved.antt =====
-- Every operation of the ledger keeps its records a chain that a snapshot accepts.
use tiny_qwen_coder.Prelude.{
  leb, take, drop, ◌≡◌, refl, false, not, ◌||◌, List, [], ◌∷◌, ◌++◌, length, last?, All, All-append,
  Option, none, some, arith, subst,
}
use tiny_qwen_coder.Prelude.Eq.{◌==◌, ==_refl, nat_eq, list_eq}
use tiny_qwen_coder.Prelude.Int.{ℤ, pos, int_eq}
use tiny_qwen_coder.Prelude.Result.{Result, ok, raise_if, >>-ok, >>=-ok, raise_if-ok, ok-value}
use tiny_qwen_coder.TextNormalization.{Text}
use tiny_qwen_coder.TokenLedger.{
  PromptAppendSource, is_initial, LedgerIdentity, AssistantTokenSegment, awaiting_output,
  awaiting_prompt_append, state_beq, PromptTokenRecord, check_prompt, AssistantOutputRecord,
  check_output, check_trimmed, wrong_state, history_fork, check_tokens,
}
use tiny_qwen_coder.TokenLedger.Session.{
  Ledger, expected_state, ledger_state, new_ledger, record_assistant_output, append_prompt_delta,
  adopt_verified_next_prompt, require_append, history, exact_segments, first_prompt, next_output,
  next_prompt,
}
use tiny_qwen_coder.TokenLedger.Chain.{
  check_first_prompt, check_next_prompt, check_prompts, check_outputs, check_chain,
}
use tiny_qwen_coder.TokenLedger.Extended.{chain-output, chain-prompt}

abbrev pub ValidPrompt : PromptTokenRecord → Type 0
ValidPrompt p = check_prompt p ≡ ok tt

abbrev pub ValidOutput : AssistantOutputRecord → Type 0
ValidOutput o = check_output o ≡ ok tt

pub record IsConsistent (l : Ledger) : Type 0 where
  pub session : check_trimmed l.session_id ≡ ok tt
  pub chain : check_chain l.prompts l.outputs (ledger_state l) ≡ ok tt
  pub prompts : All ValidPrompt l.prompts
  pub outputs : All ValidOutput l.outputs

-- The ledgers that the constructor and the operations give.
pub data Reachable : Ledger → Type 0 where
  started :
      {l : Ledger} (session_id : Text) (identity : LedgerIdentity) (ids : List ℤ)
      → new_ledger session_id identity ids ≡ ok l
      → Reachable l
  recorded :
      (l : Ledger) {next : Ledger} (o : AssistantOutputRecord) (ids : List ℤ)
      (segments : Option (List AssistantTokenSegment))
      → Reachable l
      → record_assistant_output l ids segments ≡ ok (o, next)
      → Reachable next
  appended :
      (l : Ledger) {next : Ledger} (p : PromptTokenRecord) (ids : List ℤ)
      (source : PromptAppendSource)
      → Reachable l
      → append_prompt_delta l ids source ≡ ok (p, next)
      → Reachable next
  adopted :
      (l : Ledger) {next : Ledger} (p : PromptTokenRecord) (ids : List ℤ)
      (source : PromptAppendSource)
      → Reachable l
      → adopt_verified_next_prompt l ids source ≡ ok (p, next)
      → Reachable next

-- What a prompt that was built from the history of the ledger has to satisfy.
next_prompt-check :
    (l : Ledger) (a : PromptTokenRecord) (b : AssistantOutputRecord) (delta : List ℤ)
    (source : PromptAppendSource)
    → is_initial source ≡ false
    → check_next_prompt
        (length l.prompts)
        a
        b
        (next_prompt l source (a.prompt_ids ++ b.output_ids) delta)
      ≡ ok tt
unfolding check_next_prompt
next_prompt-check l a b delta source e =
    rw (==_refl (pos (length l.prompts)), e, ==_refl ((a.prompt_ids ++ b.output_ids) ++ delta))

-- The last turn, which the history is made of.
pub record LastTurn (a : Option PromptTokenRecord) (b : Option AssistantOutputRecord)
    (prefix : List ℤ) : Type 0 where
  pub prompt : PromptTokenRecord
  pub output : AssistantOutputRecord
  pub has_prompt : a ≡ some prompt
  pub has_output : b ≡ some output
  pub joined : prompt.prompt_ids ++ output.output_ids ≡ prefix

pub history-ok :
    (a : Option PromptTokenRecord) (b : Option AssistantOutputRecord) (prefix : List ℤ)
    → history a b ≡ ok prefix
    → LastTurn a b prefix
unfolding history
history-ok (some p) (some o) prefix h = record {
  prompt = p;
  output = o;
  has_prompt = refl;
  has_output = refl;
  joined = ground arith;
}
history-ok none b prefix h = absurd (ground arith)
history-ok (some p) none prefix h = absurd (ground arith)

pub ok-second {ℓ κ} :
    {E : Type 0} {A : Type ℓ} {B : Type κ} (a c : A) (b d : B)
    → ◌≡◌ {A = Result E (A × B)} (ok (a, b)) (ok (c, d))
    → b ≡ d
ok-second a c b d h = ground arith

first-chain :
    (ids : List ℤ)
    → check_chain (first_prompt ids ∷ []) [] (expected_state (first_prompt ids ∷ []) []) ≡ ok tt
unfolding check_chain check_first_prompt check_prompts check_outputs state_beq is_initial
first-chain ids = rw (==_refl ids)

pub started-IsConsistent :
    (l : Ledger) (session_id : Text) (identity : LedgerIdentity) (ids : List ℤ)
    → new_ledger session_id identity ids ≡ ok l
    → IsConsistent l
unfolding new_ledger ledger_state
started-IsConsistent l session_id identity ids h =
    let a = >>-ok (check_trimmed session_id) _ _ h in
    let b = >>-ok (check_tokens ids) _ _ a.1 in
    let c = >>-ok (check_prompt (first_prompt ids)) _ _ b.1 in
    subst IsConsistent (ok-value _ _ c.1)
      (record { session = a.0; chain = first-chain ids; prompts = (c.0, tt); outputs = tt })

module _ (l next : Ledger) (well : IsConsistent l) where
  recorded-IsConsistent :
      (o : AssistantOutputRecord) (ids : List ℤ) (segments : Option (List AssistantTokenSegment))
      → record_assistant_output l ids segments ≡ ok (o, next)
      → IsConsistent next
  unfolding record_assistant_output ledger_state
  recorded-IsConsistent o ids segments h =
      let a =
        >>-ok (raise_if (not (state_beq (ledger_state l) awaiting_output)) wrong_state) _ _ h in
      let b = >>-ok (check_tokens ids) _ _ a.1 in
      let c = >>=-ok (exact_segments ids segments) _ _ b.1 in
      let d = >>-ok (check_output (next_output l ids c.0)) _ _ c.1.1 in
      subst IsConsistent (ok-second _ _ _ _ d.1) (record {
        session = well.session;
        chain =
            chain-output l.prompts l.outputs (next_output l ids c.0) well.chain (ground arith) refl;
        prompts = well.prompts;
        outputs = All-append ValidOutput l.outputs _ well.outputs (d.0, tt);
      })

  appended-IsConsistent :
      (p : PromptTokenRecord) (ids : List ℤ) (source : PromptAppendSource)
      → append_prompt_delta l ids source ≡ ok (p, next)
      → IsConsistent next
  unfolding append_prompt_delta require_append ledger_state
  appended-IsConsistent p ids source h =
      let a = >>-ok (require_append l source) _ _ h in
      let s =
        >>-ok (raise_if (not (state_beq (ledger_state l) awaiting_prompt_append)) wrong_state) _ _
          a.0 in
      let b = >>-ok (check_tokens ids) _ _ a.1 in
      let c = >>=-ok (history (last? l.prompts) (last? l.outputs)) _ _ b.1 in
      let d = >>-ok (check_prompt (next_prompt l source c.0 ids)) _ _ c.1.1 in
      let turn = history-ok (last? l.prompts) (last? l.outputs) c.0 c.1.0 in
      subst IsConsistent (ok-second _ _ _ _ d.1) (record {
        session = well.session;
        chain =
            chain-prompt l.prompts l.outputs turn.prompt (next_prompt l source c.0 ids) turn.output
              well.chain (ground arith) turn.has_prompt turn.has_output
              (subst
                (λ prefix.
                  check_next_prompt (length l.prompts) turn.prompt turn.output
                    (next_prompt l source prefix ids)
                  ≡ ok tt)
                turn.joined
                (next_prompt-check l turn.prompt turn.output ids source (raise_if-ok _ _ s.1)));
        prompts = All-append ValidPrompt l.prompts _ well.prompts (d.0, tt);
        outputs = well.outputs;
      })

  adopted-IsConsistent :
      (p : PromptTokenRecord) (ids : List ℤ) (source : PromptAppendSource)
      → adopt_verified_next_prompt l ids source ≡ ok (p, next)
      → IsConsistent next
  unfolding adopt_verified_next_prompt
  adopted-IsConsistent p ids source h =
      let a = >>-ok (require_append l source) _ _ h in
      let b = >>-ok (check_tokens ids) _ _ a.1 in
      let c = >>=-ok (history (last? l.prompts) (last? l.outputs)) _ _ b.1 in
      let d =
        >>-ok
          (raise_if (leb (length ids) (length c.0) || not (take (length c.0) ids == c.0))
            history_fork)
          _ _ c.1.1 in
      appended-IsConsistent p (drop (length c.0) ids) source d.1

-- The records of every reachable ledger pass all the checks.
pub Reachable→IsConsistent : (l : Ledger) → Reachable l → IsConsistent l
Reachable→IsConsistent l (started s i ids h) = started-IsConsistent l s i ids h
Reachable→IsConsistent l (recorded before o ids segments r h) =
    recorded-IsConsistent before l (Reachable→IsConsistent before r) o ids segments h
Reachable→IsConsistent l (appended before p ids source r h) =
    appended-IsConsistent before l (Reachable→IsConsistent before r) p ids source h
Reachable→IsConsistent l (adopted before p ids source r h) =
    adopted-IsConsistent before l (Reachable→IsConsistent before r) p ids source h
