-- ===== src/Batch/Run/Tokens/Tests.antt =====
-- The token counts of three texts in two batches.
use dify_plugin_daemon.Common.{
  ℕ, zero, suc, false, Option, none, some, List, [], ◌∷◌, ◌≡◌, refl, length, arith,
}
use dify_plugin_daemon.Batch.Split.{TextRequestBatch}
use dify_plugin_daemon.Batch.Split.Tiling.{Tiles}
use dify_plugin_daemon.Batch.Run.{
  Result, ok, BatchError, process_batches, run_batch, write_response,
}
use dify_plugin_daemon.Batch.Run.Tokens.{
  NumTokensResponse, coordinate_token_count_batches, consume_token_counts, finish_token_counts,
  Answers, all_tokens, coordinate_token_count_batches-Answers,
  coordinate_token_count_batches_complete,
}

abbrev range : ℕ → ℕ → ℕ × ℕ
range a b = (a, b)

abbrev request_bytes : ℕ × ℕ → ℕ
request_bytes r = 10

abbrev two_batches : List (TextRequestBatch (ℕ × ℕ))
two_batches =
    record {
      request = (0, 2);
      payload_bytes = 10;
      max_request_bytes = 18;
      item_offset = 0;
      item_count = 2;
    }
    ∷ record {
      request = (2, 3);
      payload_bytes = 10;
      max_request_bytes = 18;
      item_offset = 2;
      item_count = 1;
    }
    ∷ []

abbrev counts : List ℕ → NumTokensResponse
counts ns = record { num_tokens = ns }

abbrev plugin : ℕ → ℕ × ℕ → Result (List NumTokensResponse)
plugin zero r = ok (counts (5 ∷ 6 ∷ []) ∷ [])
plugin (suc i) r = ok (counts (7 ∷ []) ∷ [])

abbrev alive : ℕ → Option BatchError
alive i = none

two_batches-Tiles : Tiles request_bytes range 18 0 two_batches 3
two_batches-Tiles = (
  record {
    offset = refl;
    nonempty = omega arith;
    sliced = refl;
    sized = refl;
    limit = refl;
    fits = omega arith;
  },
  (
    record {
      offset = refl;
      nonempty = omega arith;
      sliced = refl;
      sized = refl;
      limit = refl;
      fits = omega arith;
    },
    refl,
  ),
)

coordinate_token_count_batches-Answers_example :
    (rs : List NumTokensResponse) × Answers plugin 0 two_batches rs
    × (5 ∷ 6 ∷ 7 ∷ [] ≡ all_tokens rs)
unfolding coordinate_token_count_batches consume_token_counts finish_token_counts process_batches
    run_batch write_response
coordinate_token_count_batches-Answers_example =
    coordinate_token_count_batches-Answers alive plugin false false 3 two_batches
      (counts (5 ∷ 6 ∷ 7 ∷ [])) refl

coordinate_token_count_batches_complete_example :
    let f = coordinate_token_count_batches alive plugin false false 3 two_batches in
    (f.written ≡ some (counts (5 ∷ 6 ∷ 7 ∷ [])))
    × (length (all_tokens (counts (5 ∷ 6 ∷ []) ∷ counts (7 ∷ []) ∷ [])) ≡ 3)
    × (f.closed_with ≡ none)
coordinate_token_count_batches_complete_example =
    coordinate_token_count_batches_complete alive plugin request_bytes range 18 3 false false
      two_batches (counts (5 ∷ 6 ∷ []) ∷ counts (7 ∷ []) ∷ []) two_batches-Tiles
      ((refl, refl, (refl, refl, tt))) (λ i. refl)
