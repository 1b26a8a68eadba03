-- ===== src/Batch/Split/Tests.antt =====
-- The splitting of three texts of three bytes each, a message being ten bytes without them.
use dify_plugin_daemon.Common.{
  ℕ, ◌+◌, ◌-◌, ◌*◌, ◌≤◌, ◌<◌, Option, some, List, [], ◌∷◌, ◌≡◌, refl, ltb, if◌then◌else◌, arith,
}
use dify_plugin_daemon.Batch.Split.{
  ok, payload_too_large, TextRequestBatch, split_text_request, scan_items, scan_item, start_next,
  next_bytes, cut_batch, cut_rest, oversized_text_item_error,
}
use dify_plugin_daemon.Batch.Split.Tiling.{Tiles, split_text_request-Tiles}
use dify_plugin_daemon.Batch.Split.Estimate.{
  AllInit, IsFull, IsOversized, Additive, EmptySlices, split_text_request-IsFull,
  split_text_request-IsOversized, split_text_request-total,
}

abbrev request_bytes : ℕ × ℕ → ℕ
request_bytes r = 10 + (4 * (r.1 - r.0) - 1)

abbrev range : ℕ → ℕ → ℕ × ℕ
range a b = (a, b)

abbrev text_bytes : ℕ → Option ℕ
text_bytes text = some 3

abbrev three_texts : List ℕ
three_texts = 1 ∷ 2 ∷ 3 ∷ []

abbrev two_batches : List (TextRequestBatch (ℕ × ℕ))
two_batches =
    record {
      request = (0, 2);
      payload_bytes = 17;
      max_request_bytes = 18;
      item_offset = 0;
      item_count = 2;
    }
    ∷ record {
      request = (2, 3);
      payload_bytes = 13;
      max_request_bytes = 18;
      item_offset = 2;
      item_count = 1;
    }
    ∷ []

grows :
    (i a : ℕ)
    → a ≤ i
    → request_bytes (range a (i + 1)) ≡ request_bytes (range a i) + 3 + (if ltb a i then 1 else 0)
grows i a h = ground arith

three_texts-Additive : Additive request_bytes range text_bytes 0 three_texts
three_texts-Additive = ((3, refl, grows 0), ((3, refl, grows 1), ((3, refl, grows 2), tt)))

range-EmptySlices : EmptySlices request_bytes range
range-EmptySlices a = ground arith

one_item : (j : ℕ) → j < 3 → request_bytes (range j (j + 1)) ≤ 18
one_item j h = ground arith

split_text_request-Tiles_example : Tiles request_bytes range 18 0 two_batches 3
unfolding split_text_request scan_items scan_item start_next next_bytes cut_batch cut_rest
split_text_request-Tiles_example =
    split_text_request-Tiles request_bytes range 18 text_bytes three_texts two_batches refl

split_text_request-IsFull_example : AllInit (IsFull request_bytes range 18) two_batches
unfolding split_text_request scan_items scan_item start_next next_bytes cut_batch cut_rest
split_text_request-IsFull_example =
    split_text_request-IsFull request_bytes range 18 text_bytes three_texts range-EmptySlices
      three_texts-Additive two_batches refl

split_text_request-IsOversized_example :
    IsOversized request_bytes range 12 3 (payload_too_large 13 12 (some 0))
unfolding split_text_request scan_items scan_item start_next next_bytes cut_batch cut_rest
    oversized_text_item_error
split_text_request-IsOversized_example =
    split_text_request-IsOversized request_bytes range 12 text_bytes three_texts range-EmptySlices
      three_texts-Additive (payload_too_large 13 12 (some 0)) refl

split_text_request-total_example :
    (xs : List (TextRequestBatch (ℕ × ℕ))) × (split_text_request request_bytes range 18 text_bytes
        three_texts
      ≡ ok xs)
split_text_request-total_example =
    split_text_request-total request_bytes range 18 text_bytes three_texts range-EmptySlices
      three_texts-Additive (omega arith) one_item
