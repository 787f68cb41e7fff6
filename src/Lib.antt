-- ===== src/Lib.antt =====
-- Tiny Qwen Coder prepares data for, trains and evaluates programming-language adapters of one base
-- model. This library models the parts that decide what enters a training set, how a training or
-- validation partition is chosen, which tokens are trained on, what a multi-turn token history may
-- hold, how a rollout is aligned with it, which tool calls and results pass, and which adapter is
-- recommended. All paths below are from src/tiny_qwen_coder.
--
-- The data path runs filter, deduplication, split, each on the report of the one before:
--   TextNormalization    data/text_normalization.py: a text is a list of code points, surrogates
--                        included, so that a text that UTF-8 cannot encode is an error value
--   Data.Records         data/records.py: the normalised training record and its checks
--   Data.Filtering       data/filtering.py: `filter_required_content` as a loop over a state of
--                        accepted and rejected records and counters
--   Data.Deduplication   data/deduplication.py: Payload is the canonical JSON text that is hashed,
--                        Run the loop with its two tables; SHA-256 is a parameter
--   Data.Splitting       data/splitting.py, with the seed check of reproducibility.py in
--                        Reproducibility; the seeded shuffle is a parameter that permutes, the
--                        floating-point target a parameter
--   Data.LengthFiltering data/length_filtering.py: Run is the filter over a tokenizer, Distribution the
--                        histogram and the percentiles; the tokenizer and floats are parameters, and
--                        lengths and bounds are natural numbers, so that none is negative
--   LossMasking          training/loss_masking.py: masks, labels, spans, the fallback
--                        and the report (Report, Built); the tokenizer and TRL are
--                        parameters
--   TokenLedger          pvrl/token_ledger.py: Session holds the operations of the class
--                        `ExactQwen35TokenLedger` as functions to the ledger after them, Chain the
--                        snapshot with its check; token ids and indices are integers of both signs;
--                        Persisted is the JSON view of a snapshot and its reading (RoundTrip)
--   TrajectoryAlignment  pvrl/trajectory_alignment.py on the snapshots of TokenLedger: Derived is the
--                        derivation of the training arrays, Bound the checked trajectory and what is
--                        bound to it; SHA-256 and floats are parameters. Described and Run describe the
--                        arrays without the loop
--   Identities           identities.py: the base model, its revision and the adapter
--   ToolContract         pvrl/tool_contract.py: Paths and Calls check the path and the arguments of a
--                        tool call, Allowed the tool policy, Results builds, cuts and reads a result;
--                        `PurePosixPath` is written out, the limits of a result are numbers
--   Json, Utf8           the JSON values that both read, and UTF-8 as the byte limits count it
--   Promotion            evaluation/promotion.py: the policy, the evidence, the eight gates and the
--                        decision, with the texts of the gates; the floating-point gain is abstract
--   Prelude              the shared names, Boolean tests, lists, equality as an interface, results
--   Tests                runs at small inputs
--
-- A `raise` is an `err` of the component's error type, a `__post_init__` is a function `check_x`, a
-- dataclass is a record, and a Python loop is recursion on the list that it goes through, so that no
-- fuel is needed; the one fuel, in the decimal digits of Promotion.Decision, is the number plus one,
-- which is more than its digits. A dictionary that is only written and looked up is an association
-- list.
--
-- Not modelled: tests of the Python type of a value, which typed definitions make impossible; the
-- text of JSON, of which the values are modelled and `dumps` and `loads` are parameters; YAML; files,
-- processes and the network; the benchmark runners, the training loops, the model loading and the
-- sandbox, which call libraries and services.
pub mod Prelude
pub mod TextNormalization
pub mod Reproducibility
pub mod Data
pub mod Utf8
pub mod Json
pub mod Identities
pub mod TokenLedger
pub mod TrajectoryAlignment
pub mod ToolContract
pub mod Promotion
pub mod LossMasking
mod Tests
