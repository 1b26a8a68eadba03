-- ===== src/Batch/Split.antt =====
-- How a text request is cut into batches that fit the serverless request limit:
-- internal/core/io_tunnel/model_serverless_batch.go, splitTextRequest and its helpers.
-- The size of a marshalled message is an argument, since json and the session build it; an `int`
-- of a size or of an index does not wrap.
pub mod Tiling
pub mod Estimate
mod Tests
use dify_plugin_daemon.Common.{
  ℕ, suc, ◌+◌, ◌-◌, Bool, Option, none, some, List, [], ◌∷◌, ◌++◌, ltb, leb, ◌==◌, if◌then◌else◌,
  length, ◌≡◌, refl, true, false, subst,
}

-- ServerlessPayloadTooLargeError, the error of a failed marshal with its item, and the error of a
-- batch whose real size passes the estimate.
pub data SplitError : Type 0 where
  payload_too_large : ℕ → ℕ → Option ℕ → SplitError
  marshal_failed : ℕ → SplitError
  estimate_mismatch : ℕ → ℕ → SplitError

pub data Result (A : Type 0) : Type 0 where
  err : SplitError → Result A
  ok : A → Result A

infixl 4 ◌>>=◌
abbrev pub ◌>>=◌ : {Old New : Type 0} → Result Old → (Old → Result New) → Result New
err problem >>= next = err problem
ok value >>= next = next value

-- What a result promises: `P` of a value, `Q` of an error.
abbrev pub Post : {A : Type 0} → (A → Type 0) → (SplitError → Type 0) → Result A → Type 0
Post P Q (ok a) = P a
Post P Q (err e) = Q e

pub Post->>= :
    {A B : Type 0} (P : A → Type 0) (R : B → Type 0) (Q : SplitError → Type 0) (m : Result A)
    (f : A → Result B)
    → Post P Q m
    → ((a : A) → P a → Post R Q (f a))
    → Post R Q (m >>= f)
Post->>= P R Q (ok a) f h k = k a h
Post->>= P R Q (err e) f h k = h

pub Post-if :
    {A : Type 0} (P : A → Type 0) (Q : SplitError → Type 0) (b : Bool) (m k : Result A)
    → (b ≡ true → Post P Q m)
    → (b ≡ false → Post P Q k)
    → Post P Q (if b then m else k)
Post-if P Q true m k h g = h refl
Post-if P Q false m k h g = g refl

pub Post-ok :
    {A : Type 0} (P : A → Type 0) (Q : SplitError → Type 0) {m : Result A} {a : A}
    → m ≡ ok a
    → Post P Q m
    → P a
Post-ok P Q e h = subst (Post P Q) e h

pub Post-err :
    {A : Type 0} (P : A → Type 0) (Q : SplitError → Type 0) {m : Result A} {e : SplitError}
    → m ≡ err e
    → Post P Q m
    → Q e
Post-err P Q e h = subst (Post P Q) e h

-- textRequestBatch
pub record TextRequestBatch (Request : Type 0) : Type 0 where
  pub request : Request
  pub payload_bytes : ℕ
  pub max_request_bytes : ℕ
  pub item_offset : ℕ
  pub item_count : ℕ

-- The variables of the loop of splitTextRequest.
pub record Scan (Request : Type 0) : Type 0 where
  pub batches : List (TextRequestBatch Request)
  pub start : ℕ
  pub estimated : ℕ

-- `payload` gives the length of the message for a request, `slice` the request for a range of texts.
module _ {Request : Type 0} (payload : Request → ℕ) (slice : ℕ → ℕ → Request) (max_bytes : ℕ) where
  -- oversizedTextItemError
  pub oversized_text_item_error : ℕ → SplitError
  oversized_text_item_error i = payload_too_large (payload (slice i (i + 1))) max_bytes (some i)

  -- The two places that cut the items from `start` to `end` off as a batch.
  pub cut_batch : ℕ → ℕ → Result (TextRequestBatch Request)
  cut_batch start end =
      let batch_request = slice start end in
      let bytes = payload batch_request in
      if ltb max_bytes bytes
      then err (estimate_mismatch bytes max_bytes)
      else ok (record {
        request = batch_request;
        payload_bytes = bytes;
        max_request_bytes = max_bytes;
        item_offset = start;
        item_count = end - start;
      })

  -- What the loop body does when item `i`, of `n` bytes, no longer fits.
  pub start_next : ℕ → ℕ → Scan Request → Result (Scan Request)
  unfolding cut_batch oversized_text_item_error
  start_next i n s = if i == s.start then err (oversized_text_item_error i) else do
    batch ← cut_batch s.start i
    let estimated = payload (slice 0 0) + n
    (if ltb max_bytes estimated
        then err (oversized_text_item_error i)
        else ok (record { batches = s.batches ++ batch ∷ []; start = i; estimated = estimated }))

  pub next_bytes : ℕ → ℕ → Scan Request → ℕ
  next_bytes i n s = s.estimated + n + (if ltb s.start i then 1 else 0)

  -- The loop body; `marshal` gives the length of a marshalled text.
  pub scan_item :
      {Text : Type 0} → (Text → Option ℕ) → ℕ → Text → Scan Request → Result (Scan Request)
  unfolding start_next next_bytes
  scan_item marshal i text s = elim (marshal text) [
    | none ↦ err (marshal_failed i)
    | some n ↦
        if leb (next_bytes i n s) max_bytes
        then ok (record s { estimated = next_bytes i n s })
        else start_next i n s
  ]

  pub scan_items :
      {Text : Type 0} → (Text → Option ℕ) → ℕ → List Text → Scan Request → Result (Scan Request)
  unfolding scan_item
  scan_items marshal i [] s = ok s
  scan_items marshal i (text ∷ texts) s = do
    s' ← scan_item marshal i text s
    scan_items marshal (i + 1) texts s'

  -- The batch of the items that the loop leaves over.
  pub cut_rest : ℕ → Scan Request → Result (List (TextRequestBatch Request))
  unfolding cut_batch
  cut_rest total s =
      if ltb s.start total
      then (do batch ← cut_batch s.start total; ok (s.batches ++ batch ∷ []))
      else ok s.batches

  -- The variables of the loop before its first round.
  abbrev pub start_scan : Scan Request
  start_scan = record { batches = []; start = 0; estimated = payload (slice 0 0) }

  -- splitTextRequest
  pub split_text_request :
      {Text : Type 0} → (Text → Option ℕ) → List Text → Result (List (TextRequestBatch Request))
  unfolding scan_items cut_rest
  split_text_request marshal texts =
      let empty_bytes = payload (slice 0 0) in
      if ltb max_bytes empty_bytes
      then err (payload_too_large empty_bytes max_bytes none)
      else do s ← scan_items marshal 0 texts start_scan; cut_rest (length texts) s
