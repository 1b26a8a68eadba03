-- ===== src/Batch/Run/Tokens.antt =====
-- The token counts of a batched request:
-- internal/core/io_tunnel/model_serverless_batch.go, coordinateTokenCountBatches.
mod Tests
use dify_plugin_daemon.Common.{
  ℕ, ◌+◌, ◌≡◌, refl, sym, ap, ◌∙◌, Bool, none, some, Option, List, [], ◌∷◌, ◌++◌, append_assoc,
  append-nil, arith, length, length-append, ◌==◌, if◌then◌else◌, subst,
}
use dify_plugin_daemon.Batch.Split.{TextRequestBatch}
use dify_plugin_daemon.Batch.Split.Tiling.{Tiles}
use dify_plugin_daemon.Batch.Run.{
  Result, ok, err, BatchError, mismatch, token_count, final_token_count, unnamed, Finish,
  close_batch_response, close_final_mismatch, write_response, no_records, process_batches, Consumed,
  process_batches-Consumed, process_batches_alive, Records,
}

-- GetTextEmbeddingNumTokensResponse
pub record NumTokensResponse : Type 0 where
  pub num_tokens : List ℕ

-- The count that a mismatch reports.
pub actual_items : List NumTokensResponse → ℕ
actual_items [] = 0
actual_items (r ∷ []) = length r.num_tokens
actual_items (r ∷ r' ∷ rs) = 0

pub token_mismatch : ℕ → ℕ → List NumTokensResponse → Result (List ℕ)
unfolding actual_items
token_mismatch i item_count rs = err (
    mismatch (record {
      batch_index = i;
      expected_items = item_count;
      actual_items = actual_items rs;
      response_count = length rs;
      reason = token_count;
    }))

-- The consumer of coordinateTokenCountBatches.
pub consume_token_counts : ℕ → ℕ → List NumTokensResponse → List ℕ → Result (List ℕ)
unfolding token_mismatch
consume_token_counts i item_count [] merged = token_mismatch i item_count []
consume_token_counts i item_count (r ∷ []) merged =
    if length r.num_tokens == item_count
    then ok (merged ++ r.num_tokens)
    else token_mismatch i item_count (r ∷ [])
consume_token_counts i item_count (r ∷ r' ∷ rs) merged = token_mismatch i item_count (r ∷ r' ∷ rs)

-- What follows the loop, on its result. `total` is the number of texts.
pub finish_token_counts : Bool → Bool → ℕ → ℕ → Result (List ℕ) × Records → Finish NumTokensResponse
finish_token_counts gone_on_error gone_after_write batch_count total (err e, r) =
    close_batch_response gone_on_error e r
finish_token_counts gone_on_error gone_after_write batch_count total (ok merged, r) =
    if length merged == total
    then write_response gone_after_write (record { num_tokens = merged }) r
    else close_final_mismatch final_token_count
        (record {
          batch_index = batch_count;
          expected_items = total;
          actual_items = length merged;
          response_count = 1;
          reason = unnamed;
        })
        r

-- The counts of several responses, in order.
abbrev pub all_tokens : List NumTokensResponse → List ℕ
all_tokens [] = []
all_tokens (r ∷ rs) = r.num_tokens ++ all_tokens rs

consume_ok :
    (i n : ℕ) (rs : List NumTokensResponse) (merged mid : List ℕ)
    → consume_token_counts i n rs merged ≡ ok mid
    → (r : NumTokensResponse) × (rs ≡ r ∷ [])
      × (length r.num_tokens ≡ n)
      × (mid ≡ merged ++ r.num_tokens)
unfolding consume_token_counts
consume_ok i n [] merged mid h = cc
consume_ok i n (r ∷ []) merged mid h = (r, refl, ground arith, ground arith)
consume_ok i n (r ∷ r' ∷ rs) merged mid h = cc

module _ {Request : Type 0} (invoke : ℕ → Request → Result (List NumTokensResponse)) where
  -- Batch after batch was answered by one response, with a count for each item of the batch.
  abbrev pub Answers : ℕ → List (TextRequestBatch Request) → List NumTokensResponse → Type 0
  Answers i [] [] = Unit
  Answers i [] (r ∷ rs) = ⊥
  Answers i (x ∷ xs) [] = ⊥
  Answers i (x ∷ xs) (r ∷ rs) =
      (invoke i x.request ≡ ok (r ∷ []))
      × (length r.num_tokens ≡ x.item_count)
      × Answers (i + 1) xs rs

  Consumed-Answers :
      (i : ℕ) (xs : List (TextRequestBatch Request)) (merged final : List ℕ)
      → Consumed invoke consume_token_counts i xs merged final
      → (rs : List NumTokensResponse) × Answers i xs rs × (final ≡ merged ++ all_tokens rs)
  Consumed-Answers i [] merged final h = ([], tt, sym h ∙ sym (append-nil merged))
  Consumed-Answers i (x ∷ xs) merged final (rs, mid, invoked, taken, rest) =
      let (r, one, len, e) = consume_ok i x.item_count rs merged mid taken in
      let (qs, answers, e') = Consumed-Answers (i + 1) xs mid final rest in
      (
        r ∷ qs,
        (rw one at invoked, len, answers),
        e' ∙ (ap (λ m. m ++ all_tokens qs) e ∙ append_assoc merged r.num_tokens (all_tokens qs)),
      )

  Answers-Consumed :
      (i : ℕ) (xs : List (TextRequestBatch Request)) (merged : List ℕ) (rs : List NumTokensResponse)
      → Answers i xs rs
      → Consumed invoke consume_token_counts i xs merged (merged ++ all_tokens rs)
  unfolding consume_token_counts
  Answers-Consumed i [] merged [] h = sym (append-nil merged)
  Answers-Consumed i [] merged (r ∷ rs) h = elim h [ ]
  Answers-Consumed i (x ∷ xs) merged [] h = elim h [ ]
  Answers-Consumed i (x ∷ xs) merged (r ∷ rs) (invoked, len, rest) = (
    r ∷ [],
    merged ++ r.num_tokens,
    invoked,
    ground arith,
    subst (Consumed invoke consume_token_counts (i + 1) xs (merged ++ r.num_tokens))
        (append_assoc merged r.num_tokens (all_tokens rs))
        (Answers-Consumed (i + 1) xs (merged ++ r.num_tokens) rs rest),
  )

  length-all_tokens :
      (payload : Request → ℕ) (slice : ℕ → ℕ → Request) (max_bytes i a b : ℕ)
      (xs : List (TextRequestBatch Request)) (rs : List NumTokensResponse)
      → Tiles payload slice max_bytes a xs b
      → Answers i xs rs
      → a + length (all_tokens rs) ≡ b
  length-all_tokens payload slice max_bytes i a b [] [] t h = omega arith
  length-all_tokens payload slice max_bytes i a b [] (r ∷ rs) t h = elim h [ ]
  length-all_tokens payload slice max_bytes i a b (x ∷ xs) [] t h = elim h [ ]
  length-all_tokens payload slice max_bytes i a b (x ∷ xs) (r ∷ rs) t h = omega (
    arith,
    length-append r.num_tokens (all_tokens rs),
    length-all_tokens payload slice max_bytes (i + 1) (a + x.item_count) b xs rs t.1 h.2,
  )

finish_token_counts-written :
    (g w : Bool) (n total : ℕ) (p : Result (List ℕ) × Records) (v : NumTokensResponse)
    → (finish_token_counts g w n total p).written ≡ some v
    → (p.0 ≡ ok v.num_tokens) × (length v.num_tokens ≡ total)
unfolding finish_token_counts close_batch_response close_final_mismatch write_response
finish_token_counts-written g w n total (err e, r) v h = cc
finish_token_counts-written g w n total (ok merged, r) v h = (ground arith, ground arith)

finish_token_counts_complete :
    (g w : Bool) (n total : ℕ) (p : Result (List ℕ) × Records) (merged : List ℕ)
    → p.0 ≡ ok merged
    → length merged ≡ total
    → let f = finish_token_counts g w n total p in
      (f.written ≡ some (record { num_tokens = merged })) × (f.closed_with ≡ none)
unfolding finish_token_counts write_response
finish_token_counts_complete g w n total (err e, r) merged h l = absurd (cc)
finish_token_counts_complete g w n total (ok m, r) merged h l = (ground arith, ground arith)

module _ {Request : Type 0} (ctx_err : ℕ → Option BatchError)
    (invoke : ℕ → Request → Result (List NumTokensResponse)) where
  -- coordinateTokenCountBatches
  pub coordinate_token_count_batches :
      Bool → Bool → ℕ → List (TextRequestBatch Request) → Finish NumTokensResponse
  unfolding finish_token_counts consume_token_counts
  coordinate_token_count_batches gone_on_error gone_after_write total batches =
      finish_token_counts gone_on_error gone_after_write (length batches) total (
        process_batches ctx_err invoke consume_token_counts (length batches) 0 batches []
          no_records)

  -- A response that is written holds the counts of all batches, in order, each batch having been
  -- answered by one response with one count for each of its items.
  pub coordinate_token_count_batches-Answers :
      (gone_on_error gone_after_write : Bool) (total : ℕ) (xs : List (TextRequestBatch Request))
      (v : NumTokensResponse)
      → (coordinate_token_count_batches gone_on_error gone_after_write total xs).written ≡ some v
      → (rs : List NumTokensResponse) × Answers invoke 0 xs rs × (v.num_tokens ≡ all_tokens rs)
  unfolding coordinate_token_count_batches
  coordinate_token_count_batches-Answers g w total xs v h =
      let (done, len) = finish_token_counts-written g w (length xs) total _ v h in
      Consumed-Answers invoke 0 xs [] v.num_tokens (
        process_batches-Consumed ctx_err invoke consume_token_counts (length xs) 0 xs []
          v.num_tokens no_records done)

  -- Batches that tile `total` texts, each answered by one response with one count for each of its
  -- items, in a context that stays alive: the counts of all of them are written, in order, one for
  -- each text, and the stream is closed without an error.
  pub coordinate_token_count_batches_complete :
      (payload : Request → ℕ) (slice : ℕ → ℕ → Request) (max_bytes total : ℕ)
      (gone_on_error gone_after_write : Bool) (xs : List (TextRequestBatch Request))
      (rs : List NumTokensResponse)
      → Tiles payload slice max_bytes 0 xs total
      → Answers invoke 0 xs rs
      → ((i : ℕ) → ctx_err i ≡ none)
      → let f = coordinate_token_count_batches gone_on_error gone_after_write total xs in
        (f.written ≡ some (record { num_tokens = all_tokens rs }))
        × (length (all_tokens rs) ≡ total)
        × (f.closed_with ≡ none)
  unfolding coordinate_token_count_batches
  coordinate_token_count_batches_complete payload slice max_bytes total g w xs rs t answers alive =
      let len : length (all_tokens rs) ≡ total =
        omega (arith, length-all_tokens invoke payload slice max_bytes 0 0 total xs rs t answers) in
      let (written, closed) =
        finish_token_counts_complete g w (length xs) total _ (all_tokens rs)
          (process_batches_alive ctx_err invoke consume_token_counts (length xs) alive 0 xs []
            (all_tokens rs) no_records (Answers-Consumed invoke 0 xs [] rs answers))
          len in
      (written, len, closed)
