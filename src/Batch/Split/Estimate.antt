-- ===== src/Batch/Split/Estimate.antt =====
-- The running estimate of splitTextRequest is exact where a message grows with each text by the
-- marshalled text and a comma, as the encoding of an array does; so no batch is refused for its
-- size, the only error is an item that is too large by itself, and each batch is as long as can be.
use dify_plugin_daemon.Common.{
  ℕ, ◌+◌, ◌-◌, ◌≤◌, ◌<◌, ◌≡◌, refl, Option, none, some, List, [], ◌∷◌, ◌++◌, All, All-append, arith,
  length, ltb, leb, ◌==◌, if◌then◌else◌, subst,
}
use dify_plugin_daemon.Batch.Split.{
  TextRequestBatch, Scan, SplitError, payload_too_large, marshal_failed, estimate_mismatch, Result,
  ok, err, Post, Post->>=, Post-if, Post-ok, Post-err, cut_batch, start_next, next_bytes, scan_item,
  scan_items, cut_rest, start_scan, split_text_request, oversized_text_item_error,
}

-- All entries but the last.
abbrev pub AllInit : {A : Type 0} → (A → Type 0) → List A → Type 0
AllInit P [] = Unit
AllInit P (x ∷ []) = Unit
AllInit P (x ∷ y ∷ xs) = P x × AllInit P (y ∷ xs)

AllInit-snoc :
    {A : Type 0} (P : A → Type 0) (xs : List A) (y : A) → All P xs → AllInit P (xs ++ y ∷ [])
AllInit-snoc P [] y h = tt
AllInit-snoc P (x ∷ []) y h = (h.0, tt)
AllInit-snoc P (x ∷ z ∷ xs) y h = (h.0, AllInit-snoc P (z ∷ xs) y h.1)

AllInit-All : {A : Type 0} (P : A → Type 0) (xs : List A) → All P xs → AllInit P xs
AllInit-All P [] h = tt
AllInit-All P (x ∷ []) h = tt
AllInit-All P (x ∷ y ∷ xs) h = (h.0, AllInit-All P (y ∷ xs) h.1)

module _ {Request : Type 0} (payload : Request → ℕ) (slice : ℕ → ℕ → Request) where
  -- Each text marshals, and adds its bytes, and a comma unless it is the first, to the message.
  abbrev pub Additive : {Text : Type 0} → (Text → Option ℕ) → ℕ → List Text → Type 0
  Additive marshal i [] = Unit
  Additive marshal i (text ∷ texts) =
      ((n : ℕ) × (marshal text ≡ some n)
        × ((a : ℕ)
            → a ≤ i
            → payload (slice a (i + 1)) ≡ payload (slice a i) + n + (if ltb a i then 1 else 0)))
      × Additive marshal (i + 1) texts

  abbrev pub EmptySlices : Type 0
  EmptySlices = (a : ℕ) → payload (slice a a) ≡ payload (slice 0 0)

module _ {Request : Type 0} (payload : Request → ℕ) (slice : ℕ → ℕ → Request) (max_bytes : ℕ) where
  -- The error names a request that is over the limit: the empty one, or that of one item.
  abbrev pub IsOversized : ℕ → SplitError → Type 0
  IsOversized total (payload_too_large b m none) =
      (m ≡ max_bytes) × (b ≡ payload (slice 0 0)) × (max_bytes < b)
  IsOversized total (payload_too_large b m (some j)) =
      (m ≡ max_bytes) × (j < total) × (b ≡ payload (slice j (j + 1))) × (max_bytes < b)
  IsOversized total (marshal_failed j) = ⊥
  IsOversized total (estimate_mismatch b m) = ⊥

  -- One more item would pass the limit.
  abbrev pub IsFull : TextRequestBatch Request → Type 0
  IsFull x = max_bytes < payload (slice x.item_offset (x.item_offset + x.item_count + 1))

  record Exact (i : ℕ) (s : Scan Request) : Type 0 where
    exact : s.estimated ≡ payload (slice s.start i)
    within : s.estimated ≤ max_bytes
    behind : s.start ≤ i
    full : All IsFull s.batches

  module _ (empties : EmptySlices payload slice) (total : ℕ) where
    cut_batch-Exact :
        (start end : ℕ)
        → payload (slice start end) ≤ max_bytes
        → Post
            (λ x. (x.item_offset ≡ start) × (x.item_count ≡ end - start))
            (IsOversized total)
            (cut_batch payload slice max_bytes start end)
    unfolding cut_batch
    cut_batch-Exact start end h =
        Post-if _ (IsOversized total) (ltb max_bytes (payload (slice start end))) _ _
          (λ e. absurd (ground arith)) (λ e. (refl, refl))

    -- Item `i` of `n` bytes makes the message grow as expected.
    abbrev Grows : ℕ → ℕ → Type 0
    Grows i n =
        (a : ℕ)
        → a ≤ i
        → payload (slice a (i + 1)) ≡ payload (slice a i) + n + (if ltb a i then 1 else 0)

    start_next-Exact :
        (i n : ℕ) (s : Scan Request)
        → i < total
        → Grows i n
        → Exact i s
        → max_bytes < payload (slice s.start (i + 1))
        → Post (Exact (i + 1)) (IsOversized total) (start_next payload slice max_bytes i n s)
    unfolding start_next oversized_text_item_error
    start_next-Exact i n s lt grows v over =
        Post-if (Exact (i + 1)) (IsOversized total) (i == s.start) _ _
          (λ e. (
            refl,
            lt,
            refl,
            subst (λ a. max_bytes < payload (slice a (i + 1))) (ground arith) over,
          ))
          (λ e.
            Post->>= _ (Exact (i + 1)) (IsOversized total)
              (cut_batch payload slice max_bytes s.start i) _
              (cut_batch-Exact s.start i (omega (arith, v.exact)))
              (λ x h.
                Post-if (Exact (i + 1)) (IsOversized total)
                  (ltb max_bytes (payload (slice 0 0) + n)) _ _
                  (λ big. (refl, lt, refl, ground (arith, grows i, empties i)))
                  (λ small. record {
                    exact = ground (arith, grows i, empties i);
                    within = ground arith;
                    behind = omega arith;
                    full = All-append IsFull s.batches (x ∷ []) v.full (ground arith, tt);
                  })))

    scan_item-Exact :
        {Text : Type 0} (marshal : Text → Option ℕ) (i n : ℕ) (text : Text) (s : Scan Request)
        → i < total
        → marshal text ≡ some n
        → Grows i n
        → Exact i s
        → Post
            (Exact (i + 1))
            (IsOversized total)
            (scan_item payload slice max_bytes marshal i text s)
    unfolding scan_item
    scan_item-Exact marshal i n text s lt m grows v =
        rw (m, scan_item)
          (Post-if (Exact (i + 1)) (IsOversized total)
            (leb (next_bytes payload slice max_bytes i n s) max_bytes) _ _
            (λ e. record {
              exact = ground (arith, grows s.start);
              within = ground arith;
              behind = omega arith;
              full = v.full;
            })
            (λ e. start_next-Exact i n s lt grows v (ground (arith, grows s.start))))

    scan_items-Exact :
        {Text : Type 0} (marshal : Text → Option ℕ) (i : ℕ) (texts : List Text) (s : Scan Request)
        → i + length texts ≡ total
        → Additive payload slice marshal i texts
        → Exact i s
        → Post
            (Exact total)
            (IsOversized total)
            (scan_items payload slice max_bytes marshal i texts s)
    unfolding scan_items
    scan_items-Exact marshal i [] s e a v = subst (λ k. Exact k s) (omega arith) v
    scan_items-Exact marshal i (text ∷ texts) s e a v =
        Post->>= (Exact (i + 1)) (Exact total) (IsOversized total)
          (scan_item payload slice max_bytes marshal i text s) _
          (scan_item-Exact marshal i a.0.0 text s (omega arith) a.0.1 a.0.2 v)
          (λ s' v'. scan_items-Exact marshal (i + 1) texts s' (omega arith) a.1 v')

    cut_rest-Exact :
        (s : Scan Request)
        → Exact total s
        → Post (AllInit IsFull) (IsOversized total) (cut_rest payload slice max_bytes total s)
    unfolding cut_rest
    cut_rest-Exact s v =
        Post-if (AllInit IsFull) (IsOversized total) (ltb s.start total) _ _
          (λ e.
            Post->>= _ (AllInit IsFull) (IsOversized total)
              (cut_batch payload slice max_bytes s.start total) _
              (cut_batch-Exact s.start total (omega (arith, v.exact)))
              (λ x h. AllInit-snoc IsFull s.batches x v.full))
          (λ e. AllInit-All IsFull s.batches v.full)

  module _ {Text : Type 0} (marshal : Text → Option ℕ) (texts : List Text)
      (empties : EmptySlices payload slice)
      (additive : Additive payload slice marshal 0 texts) where
    split_text_request-Exact :
        Post
          (AllInit IsFull)
          (IsOversized (length texts))
          (split_text_request payload slice max_bytes marshal texts)
    unfolding split_text_request
    split_text_request-Exact =
        Post-if (AllInit IsFull) (IsOversized (length texts)) (ltb max_bytes (payload (slice 0 0)))
          _ _ (λ e. (refl, refl, ground arith))
          (λ e.
            Post->>= (Exact (length texts)) (AllInit IsFull) (IsOversized (length texts))
              (scan_items payload slice max_bytes marshal 0 texts
                (start_scan payload slice max_bytes))
              (cut_rest payload slice max_bytes (length texts))
              (scan_items-Exact empties (length texts) marshal 0 texts _ (omega arith) additive
                (record { exact = refl; within = ground arith; behind = omega arith; full = tt }))
              (λ s v. cut_rest-Exact empties (length texts) s v))

    -- Where each text adds its marshalled bytes and a comma to the message: every batch of a split
    -- that succeeds, but the last one, would pass the limit with one more item.
    pub split_text_request-IsFull :
        (xs : List (TextRequestBatch Request))
        → split_text_request payload slice max_bytes marshal texts ≡ ok xs
        → AllInit IsFull xs
    split_text_request-IsFull xs e =
        Post-ok (AllInit IsFull) (IsOversized (length texts)) e split_text_request-Exact

    -- Where each text adds its marshalled bytes and a comma to the message: a split that fails
    -- reports that the empty request, or the request for the one item it names, is over the limit,
    -- with its real size; a wrong estimate is never the error.
    pub split_text_request-IsOversized :
        (e : SplitError)
        → split_text_request payload slice max_bytes marshal texts ≡ err e
        → IsOversized (length texts) e
    split_text_request-IsOversized e h =
        Post-err (AllInit IsFull) (IsOversized (length texts)) h split_text_request-Exact

    Fits-total :
        (r : Result (List (TextRequestBatch Request)))
        → payload (slice 0 0) ≤ max_bytes
        → ((j : ℕ) → j < length texts → payload (slice j (j + 1)) ≤ max_bytes)
        → Post (AllInit IsFull) (IsOversized (length texts)) r
        → (xs : List (TextRequestBatch Request)) × (r ≡ ok xs)
    Fits-total (ok xs) fits each h = (xs, refl)
    Fits-total (err (payload_too_large b m none)) fits each h = absurd (omega arith)
    Fits-total (err (payload_too_large b m (some j))) fits each h =
        absurd (omega (arith, each j h.1))
    Fits-total (err (marshal_failed j)) fits each h = absurd h
    Fits-total (err (estimate_mismatch b m)) fits each h = absurd h

    -- Where each text adds its marshalled bytes and a comma to the message, and the empty request
    -- and the request for each single item are within the limit, the split succeeds.
    pub split_text_request-total :
        payload (slice 0 0) ≤ max_bytes
        → ((j : ℕ) → j < length texts → payload (slice j (j + 1)) ≤ max_bytes)
        → (xs : List (TextRequestBatch Request)) × (split_text_request payload slice max_bytes
              marshal texts
            ≡ ok xs)
    split_text_request-total fits each = Fits-total _ fits each split_text_request-Exact
