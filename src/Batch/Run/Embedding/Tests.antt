-- ===== src/Batch/Run/Embedding/Tests.antt =====
-- The embeddings of two texts in two batches.
use dify_plugin_daemon.Common.{
  ℕ, ◌+◌, ◌==◌, false, Option, none, some, List, [], ◌∷◌, ◌≡◌, refl, length,
}
use dify_plugin_daemon.Batch.Split.{TextRequestBatch}
use dify_plugin_daemon.Batch.Run.{
  Result, ok, BatchError, process_batches, run_batch, write_response,
}
use dify_plugin_daemon.Batch.Run.Embedding.{
  Numbers, EmbeddingUsage, TextEmbeddingResult, coordinate_text_embedding_batches,
  consume_embeddings, finish_embeddings, merge_text_embedding_result, merge_into, has_usage, deref,
}
use dify_plugin_daemon.Batch.Run.Embedding.Merge.{
  EmbeddingAnswers, Extends, coordinate_text_embedding_batches-Extends,
}

abbrev naturals : Numbers
naturals = record {
  Decimal = ℕ;
  Float = ℕ;
  add = λ a b. a + b;
  equal = λ a b. a == b;
  add_float = λ a b. a + b;
}

abbrev one_batch : ℕ → TextRequestBatch ℕ
one_batch i = record {
  request = i;
  payload_bytes = 10;
  max_request_bytes = 18;
  item_offset = i;
  item_count = 1;
}

abbrev usage : ℕ → EmbeddingUsage naturals
usage n = record {
  tokens = some n;
  total_tokens = some n;
  unit_price = 2;
  price_unit = 1;
  total_price = 2 + n;
  currency = some "USD";
  latency = some 3;
}

abbrev embedding : ℕ → TextEmbeddingResult naturals
embedding n = record { model = "m"; embeddings = (n ∷ []) ∷ []; usage = usage n }

abbrev plugin : ℕ → ℕ → Result (List (TextEmbeddingResult naturals))
plugin i r = ok (embedding r ∷ [])

abbrev alive : ℕ → Option BatchError
alive i = none

abbrev merged : TextEmbeddingResult naturals
merged = record {
  model = "m";
  embeddings = (4 ∷ []) ∷ (5 ∷ []) ∷ [];
  usage = record {
    tokens = some 9;
    total_tokens = some 9;
    unit_price = 2;
    price_unit = 1;
    total_price = 13;
    currency = some "USD";
    latency = some 6;
  };
}

coordinate_text_embedding_batches-Extends_example :
    (first : TextEmbeddingResult naturals) × (rest : List (TextEmbeddingResult naturals))
    × EmbeddingAnswers naturals plugin 0 (one_batch 4 ∷ one_batch 5 ∷ []) (first ∷ rest)
    × Extends naturals first rest merged
    × (length merged.embeddings ≡ 2)
unfolding coordinate_text_embedding_batches consume_embeddings finish_embeddings
    merge_text_embedding_result merge_into has_usage deref process_batches run_batch write_response
coordinate_text_embedding_batches-Extends_example =
    coordinate_text_embedding_batches-Extends naturals plugin alive false false 2
      (one_batch 4 ∷ one_batch 5 ∷ []) merged refl
