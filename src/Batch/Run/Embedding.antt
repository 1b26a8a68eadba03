-- ===== src/Batch/Run/Embedding.antt =====
-- The embeddings of a batched request:
-- internal/core/io_tunnel/model_serverless_batch.go, coordinateTextEmbeddingBatches and
-- mergeTextEmbeddingResult. Decimals and float64 are arguments, a pointer is an Option, and an `int`
-- of tokens is its pattern of 64 bits, so that -1 is 2 ^ 64 - 1 and a sum wraps as in Go.
pub mod Merge
mod Tests
use Prim.Native.String.{String}
use text.Mathlib.Text.{◌==◌ as str_eq}
use dify_plugin_daemon.Common.{
  ℕ, ◌+◌, ◌%◌, ◌^◌, Bool, Option, none, some, List, [], ◌∷◌, ◌++◌, length, ◌==◌, if◌then◌else◌,
}
use dify_plugin_daemon.Batch.Split.{TextRequestBatch}
use dify_plugin_daemon.Batch.Run.{
  Result, ok, err, ◌>>=◌, BatchError, nil_dereference, mismatch, Reason, response_count,
  embedding_count, missing_usage_field, model, unit_price, price_unit, currency,
  final_embedding_count, Finish, close_batch_response, close_final_mismatch, write_response,
  no_records, process_batches, Records,
}

-- The sum of two ints.
pub add_int : ℕ → ℕ → ℕ
add_int m n = (m + n) % 2 ^ 64

-- What the code uses of decimal.Decimal and of float64.
pub record Numbers : Type 1 where
  pub Decimal : Type 0
  pub Float : Type 0
  pub add : Decimal → Decimal → Decimal
  pub equal : Decimal → Decimal → Bool
  pub add_float : Float → Float → Float

module _ (numbers : Numbers) where
  open numbers use {Decimal, Float, add, equal, add_float}

  -- EmbeddingUsage
  pub record EmbeddingUsage : Type 0 where
    pub tokens : Option ℕ
    pub total_tokens : Option ℕ
    pub unit_price : Decimal
    pub price_unit : Decimal
    pub total_price : Decimal
    pub currency : Option String
    pub latency : Option Float

  -- TextEmbeddingResult
  pub record TextEmbeddingResult : Type 0 where
    pub model : String
    pub embeddings : List (List Float)
    pub usage : EmbeddingUsage

  pub merge_mismatch : {A : Type 0} → ℕ → ℕ → ℕ → Reason → Result A
  merge_mismatch i expected actual reason = err (
      mismatch (record {
        batch_index = i;
        expected_items = expected;
        actual_items = actual;
        response_count = 1;
        reason = reason;
      }))

  -- The read through a pointer.
  pub deref : {A : Type 0} → Option A → Result A
  deref none = err nil_dereference
  deref (some a) = ok a

  pub has_usage : EmbeddingUsage → Bool
  has_usage u = elim u.tokens [
    | none ↦ Bool.false
    | some _ ↦ elim u.total_tokens [
      | none ↦ Bool.false
      | some _ ↦ elim u.currency [
        | none ↦ Bool.false
        | some _ ↦ elim u.latency [ none ↦ Bool.false | some _ ↦ Bool.true ]
      ]
    ]
  ]

  -- The last part of mergeTextEmbeddingResult: the batch goes into the result so far.
  pub merge_into : ℕ → ℕ → TextEmbeddingResult → TextEmbeddingResult → Result TextEmbeddingResult
  unfolding merge_mismatch deref add_int
  merge_into i expected merged r =
      if str_eq r.model merged.model
      then (if equal r.usage.unit_price merged.usage.unit_price
          then (if equal r.usage.price_unit merged.usage.price_unit
              then (do
                currency_r ← deref r.usage.currency
                currency_m ← deref merged.usage.currency
                (if str_eq currency_r currency_m
                    then (do
                      tokens_m ← deref merged.usage.tokens
                      tokens_r ← deref r.usage.tokens
                      total_m ← deref merged.usage.total_tokens
                      total_r ← deref r.usage.total_tokens
                      latency_m ← deref merged.usage.latency
                      latency_r ← deref r.usage.latency
                      ok (record {
                        model = merged.model;
                        embeddings = merged.embeddings ++ r.embeddings;
                        usage = record {
                          tokens = some (add_int tokens_m tokens_r);
                          total_tokens = some (add_int total_m total_r);
                          unit_price = merged.usage.unit_price;
                          price_unit = merged.usage.price_unit;
                          total_price = add merged.usage.total_price r.usage.total_price;
                          currency = merged.usage.currency;
                          latency = some (add_float latency_m latency_r);
                        };
                      }))
                    else merge_mismatch i expected expected currency))
              else merge_mismatch i expected expected price_unit)
          else merge_mismatch i expected expected unit_price)
      else merge_mismatch i expected expected model

  -- mergeTextEmbeddingResult; the first batch is copied.
  pub merge_text_embedding_result :
      ℕ → ℕ → Option TextEmbeddingResult → TextEmbeddingResult → Result TextEmbeddingResult
  unfolding has_usage merge_into
  merge_text_embedding_result i expected merged r =
      if length r.embeddings == expected
      then (if has_usage r.usage
          then elim merged [ none ↦ ok r | some m ↦ merge_into i expected m r ]
          else merge_mismatch i expected (length r.embeddings) missing_usage_field)
      else merge_mismatch i expected (length r.embeddings) embedding_count

  pub response_mismatch : ℕ → ℕ → ℕ → Result (Option TextEmbeddingResult)
  response_mismatch i expected count = err (
      mismatch (record {
        batch_index = i;
        expected_items = expected;
        actual_items = 0;
        response_count = count;
        reason = response_count;
      }))

  -- The consumer of coordinateTextEmbeddingBatches.
  pub consume_embeddings :
      ℕ
      → ℕ
      → List TextEmbeddingResult
      → Option TextEmbeddingResult
      → Result (Option TextEmbeddingResult)
  unfolding merge_text_embedding_result response_mismatch
  consume_embeddings i expected [] merged = response_mismatch i expected 0
  consume_embeddings i expected (r ∷ []) merged =
      merge_text_embedding_result i expected merged r >>= λ m. ok (some m)
  consume_embeddings i expected (r ∷ r' ∷ rs) merged =
      response_mismatch i expected (length (r ∷ r' ∷ rs))

  pub close_final_embedding : ℕ → ℕ → ℕ → Records → Finish TextEmbeddingResult
  close_final_embedding batch_count total actual r =
      close_final_mismatch final_embedding_count
        (record {
          batch_index = batch_count;
          expected_items = total;
          actual_items = actual;
          response_count = 1;
          reason = final_embedding_count;
        })
        r

  -- What follows the loop, on its result. `total` is the number of texts.
  pub finish_embeddings :
      Bool
      → Bool
      → ℕ
      → ℕ
      → Result (Option TextEmbeddingResult) × Records
      → Finish TextEmbeddingResult
  unfolding close_final_embedding
  finish_embeddings gone_on_error gone_after_write batch_count total (err e, r) =
      close_batch_response gone_on_error e r
  finish_embeddings gone_on_error gone_after_write batch_count total (ok none, r) =
      close_final_embedding batch_count total 0 r
  finish_embeddings gone_on_error gone_after_write batch_count total (ok (some m), r) =
      if length m.embeddings == total
      then write_response gone_after_write m r
      else close_final_embedding batch_count total (length m.embeddings) r

  -- coordinateTextEmbeddingBatches
  pub coordinate_text_embedding_batches :
      {Request : Type 0}
      → (ℕ → Option BatchError)
      → (ℕ → Request → Result (List TextEmbeddingResult))
      → Bool
      → Bool
      → ℕ
      → List (TextRequestBatch Request)
      → Finish TextEmbeddingResult
  unfolding finish_embeddings consume_embeddings
  coordinate_text_embedding_batches ctx_err invoke gone_on_error gone_after_write total batches =
      finish_embeddings gone_on_error gone_after_write (length batches) total (
        process_batches ctx_err invoke consume_embeddings (length batches) 0 batches none
          no_records)
