-- ===== src/Batch/Run.antt =====
-- The serial run of the batches: internal/core/io_tunnel/model_serverless_batch.go,
-- processServerlessBatches, serverlessBatchErrorDetails and closeServerlessBatchResponse.
-- What ctx.Err() says before a batch, and what the invocation of a batch returns, are arguments.
-- The session's action, which each error repeats, and the clock are left out.
pub mod Tokens
pub mod Embedding
use dify_plugin_daemon.Common.{
  ℕ, suc, ◌+◌, ◌≡◌, refl, ap, Bool, Option, none, some, List, [], ◌∷◌, ◌++◌, Option-cases,
  if◌then◌else◌, ◌⊎◌, inl, inr, arith,
}
use dify_plugin_daemon.Batch.Split.{TextRequestBatch}

-- The reason of a serverlessBatchResultMismatchError; `unnamed` is the empty one.
pub data Reason : Type 0 where
  token_count response_count embedding_count missing_usage_field : Reason
  model unit_price price_unit currency final_embedding_count final_token_count unnamed : Reason

-- serverlessBatchResultMismatchError
pub record Mismatch : Type 0 where
  pub batch_index : ℕ
  pub expected_items : ℕ
  pub actual_items : ℕ
  pub response_count : ℕ
  pub reason : Reason

-- A canceled or expired context, a mismatch, an error of the runtime by its number, and the panic of
-- a read through a nil pointer.
pub data BatchError : Type 0 where
  canceled deadline_exceeded nil_dereference : BatchError
  mismatch : Mismatch → BatchError
  runtime : ℕ → BatchError

pub data Result (A : Type 0) : Type 0 where
  err : BatchError → Result A
  ok : A → Result A

infixl 4 ◌>>=◌
abbrev pub ◌>>=◌ : {Old New : Type 0} → Result Old → (Old → Result New) → Result New
err problem >>= next = err problem
ok value >>= next = next value

-- The value that a chain of two handed on.
pub handed_on :
    {Old New : Type 0} (first : Result Old) (next : Old → Result New) {end : New}
    → (first >>= next) ≡ ok end
    → (value : Old) × (first ≡ ok value) × (next value ≡ ok end)
handed_on (err problem) next done = cc
handed_on (ok value) next done = (value, refl, done)

pub data Outcome : Type 0 where
  unset succeeded failed was_canceled : Outcome

pub data ErrorType : Type 0 where
  no_error canceled_type deadline_type mismatch_type runtime_type : ErrorType

-- serverlessBatchErrorDetails
pub serverless_batch_error_details : BatchError → Outcome × ErrorType
serverless_batch_error_details canceled = (was_canceled, canceled_type)
serverless_batch_error_details deadline_exceeded = (was_canceled, deadline_type)
serverless_batch_error_details (mismatch m) = (failed, mismatch_type)
serverless_batch_error_details nil_dereference = (failed, runtime_type)
serverless_batch_error_details (runtime n) = (failed, runtime_type)

-- serverlessBatchResultLog
pub record BatchResultLog : Type 0 where
  pub batch_index : ℕ
  pub batch_count : ℕ
  pub item_offset : ℕ
  pub item_count : ℕ
  pub payload_bytes : ℕ
  pub max_request_bytes : ℕ
  pub outcome : Outcome
  pub error_type : ErrorType

-- The lines of logServerlessBatchResult and the reasons of recordServerlessBatchMismatch, in order.
pub record Records : Type 0 where
  pub results : List BatchResultLog
  pub mismatches : List Reason

pub mismatch_reasons : BatchError → List Reason
mismatch_reasons (mismatch m) = m.reason ∷ []
mismatch_reasons canceled = []
mismatch_reasons deadline_exceeded = []
mismatch_reasons nil_dereference = []
mismatch_reasons (runtime n) = []

-- What a coordinator leaves behind: the value written to the response stream, the error that the
-- stream is closed with, and what the outcome tracker was told. The stream is closed in each case.
pub record Finish (Response : Type 0) : Type 0 where
  pub written : Option Response
  pub closed_with : Option BatchError
  pub outcome : Outcome
  pub records : Records

-- closeServerlessBatchResponse; `gone` says that the context is done.
pub close_batch_response : {Response : Type 0} → Bool → BatchError → Records → Finish Response
close_batch_response gone e r = record {
  written = none;
  closed_with = some e;
  outcome = if gone then unset else failed;
  records = r;
}

-- The mismatch that a coordinator finds at its end.
pub close_final_mismatch : {Response : Type 0} → Reason → Mismatch → Records → Finish Response
close_final_mismatch reason m r = record {
  written = none;
  closed_with = some (mismatch m);
  outcome = failed;
  records = record r { mismatches = r.mismatches ++ reason ∷ [] };
}

-- The merged response is written; `gone` says that the context is done after the write.
pub write_response : {Response : Type 0} → Bool → Response → Records → Finish Response
write_response gone v r = record {
  written = some v;
  closed_with = none;
  outcome = if gone then unset else succeeded;
  records = r;
}

abbrev pub no_records : Records
no_records = record { results = []; mismatches = [] }

module _ {Request Response S : Type 0} (invoke : ℕ → Request → Result (List Response))
    (consume : ℕ → ℕ → List Response → S → Result S) where
  -- Each batch in order was invoked once, and its results taken in.
  abbrev pub Consumed : ℕ → List (TextRequestBatch Request) → S → S → Type 0
  Consumed i [] s s' = s ≡ s'
  Consumed i (x ∷ xs) s s' =
      (rs : List Response) × (mid : S) × (invoke i x.request ≡ ok rs)
      × (consume i x.item_count rs s ≡ ok mid)
      × Consumed (i + 1) xs mid s'

module _ {Request Response S : Type 0} (ctx_err : ℕ → Option BatchError)
    (invoke : ℕ → Request → Result (List Response)) (consume : ℕ → ℕ → List Response → S → Result S)
    (batch_count : ℕ) where
  pub log_batch : ℕ → TextRequestBatch Request → Outcome × ErrorType → BatchResultLog
  log_batch i batch details = record {
    batch_index = i;
    batch_count = batch_count;
    item_offset = batch.item_offset;
    item_count = batch.item_count;
    payload_bytes = batch.payload_bytes;
    max_request_bytes = batch.max_request_bytes;
    outcome = details.0;
    error_type = details.1;
  }

  -- The body of the loop up to the logging: the invocation of batch `i` and its consumer.
  pub run_batch : ℕ → TextRequestBatch Request → S → Result S
  run_batch i batch s = do
    batch_results ← invoke i batch.request
    consume i batch.item_count batch_results s

  -- processServerlessBatches from batch `i` on.
  pub process_batches : ℕ → List (TextRequestBatch Request) → S → Records → Result S × Records
  unfolding run_batch log_batch
  process_batches i [] s r = (ok s, r)
  process_batches i (batch ∷ batches) s r = elim (ctx_err i) [
    | some e ↦ (err e, r)
    | none ↦ elim (run_batch i batch s) [
      | err e ↦ (
        err e,
        record {
          results = r.results ++ log_batch i batch (serverless_batch_error_details e) ∷ [];
          mismatches = r.mismatches ++ mismatch_reasons e;
        },
      )
      | ok s' ↦
          process_batches (i + 1) batches s'
            (record r { results = r.results ++ log_batch i batch (succeeded, no_error) ∷ [] })
    ]
  ]

  Result-cases :
      {A : Type 0} (m : Result A) → ((a : A) × (m ≡ ok a)) ⊎ ((e : BatchError) × (m ≡ err e))
  Result-cases (ok a) = inl (a, refl)
  Result-cases (err e) = inr (e, refl)

  -- A run that ends well took in the results of every batch, in order.
  pub process_batches-Consumed :
      (i : ℕ) (xs : List (TextRequestBatch Request)) (s s' : S) (r : Records)
      → (process_batches i xs s r).0 ≡ ok s'
      → Consumed invoke consume i xs s s'
  unfolding process_batches
  process_batches-Consumed i [] s s' r h = cc
  process_batches-Consumed i (x ∷ xs) s s' r h = elim (Option-cases (ctx_err i)) [
    | inr (e, stop) ↦ cc (rw (stop, process_batches) at h)
    | inl go ↦ elim (Result-cases (run_batch i x s)) [
      | inr (e, stop) ↦ cc (rw (stop, process_batches) at (rw (go, process_batches) at h))
      | inl (mid, done) ↦
          let (rs, invoked, taken) =
            handed_on (invoke i x.request) (λ rs. consume i x.item_count rs s) done in
          (
            rs,
            mid,
            invoked,
            taken,
            process_batches-Consumed (i + 1) xs mid s'
                (record r { results = r.results ++ log_batch i x (succeeded, no_error) ∷ [] })
                (rw (done, process_batches) at (rw (go, process_batches) at h)),
          )
    ]
  ]

  -- Where the context stays alive, the batches are run to the end.
  pub process_batches_alive :
      ((i : ℕ) → ctx_err i ≡ none)
      → (i : ℕ) (xs : List (TextRequestBatch Request)) (s s' : S) (r : Records)
      → Consumed invoke consume i xs s s'
      → (process_batches i xs s r).0 ≡ ok s'
  unfolding process_batches
  process_batches_alive alive i [] s s' r h = ap ok h
  process_batches_alive alive i (x ∷ xs) s s' r (rs, mid, invoked, taken, rest) =
      rw (alive i, process_batches)
        (rw (invoked, process_batches)
          (rw (taken, process_batches) (process_batches_alive alive (i + 1) xs mid s' _ rest)))
