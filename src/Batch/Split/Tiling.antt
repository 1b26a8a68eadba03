-- ===== src/Batch/Split/Tiling.antt =====
-- The batches that splitTextRequest returns tile the list of texts.
use dify_plugin_daemon.Common.{
  ℕ, ◌+◌, ◌-◌, ◌≤◌, ◌<◌, ◌≡◌, refl, sym, ap, Option, List, [], ◌∷◌, ◌++◌, arith, length, ltb, leb,
  ◌==◌, inl, inr, Option-cases, subst,
}
use dify_plugin_daemon.Batch.Split.{
  TextRequestBatch, Scan, SplitError, ok, Post, Post->>=, Post-if, Post-ok, cut_batch, start_next,
  next_bytes, scan_item, scan_items, cut_rest, start_scan, split_text_request,
}

module _ {Request : Type 0} (payload : Request → ℕ) (slice : ℕ → ℕ → Request) (max_bytes : ℕ) where
  -- A batch of the items from `a` on, of its real size, within the limit.
  pub record Covers (a : ℕ) (x : TextRequestBatch Request) : Type 0 where
    pub offset : x.item_offset ≡ a
    pub nonempty : 0 < x.item_count
    pub sliced : x.request ≡ slice a (a + x.item_count)
    pub sized : x.payload_bytes ≡ payload x.request
    pub limit : x.max_request_bytes ≡ max_bytes
    pub fits : x.payload_bytes ≤ max_bytes

  -- Adjacent batches from `a` to `b`.
  abbrev pub Tiles : ℕ → List (TextRequestBatch Request) → ℕ → Type 0
  Tiles a [] b = a ≡ b
  Tiles a (x ∷ xs) b = Covers a x × Tiles (a + x.item_count) xs b

  Tiles-snoc :
      (a b : ℕ) (xs : List (TextRequestBatch Request)) (y : TextRequestBatch Request)
      → Tiles a xs b
      → Covers b y
      → Tiles a (xs ++ y ∷ []) (b + y.item_count)
  Tiles-snoc a b [] y t v = subst (λ c. Tiles c (y ∷ []) (b + y.item_count)) (sym t) (v, refl)
  Tiles-snoc a b (x ∷ xs) y t v = (t.0, Tiles-snoc (a + x.item_count) b xs y t.1 v)

  -- Nothing is said of an error.
  abbrev Any : SplitError → Type 0
  Any e = Unit

  -- A batch that is cut off covers its items.
  cut_batch-Covers :
      (start end : ℕ)
      → start < end
      → Post
          (λ x. Covers start x × (x.item_count ≡ end - start))
          Any
          (cut_batch payload slice max_bytes start end)
  unfolding cut_batch
  cut_batch-Covers start end h =
      Post-if _ Any (ltb max_bytes (payload (slice start end))) _ _ (λ e. tt)
        (λ e. (
          record {
            offset = refl;
            nonempty = omega arith;
            sliced = ap (slice start) (omega arith);
            sized = refl;
            limit = refl;
            fits = ground arith;
          },
          refl,
        ))

  record Inv (i : ℕ) (s : Scan Request) : Type 0 where
    tiled : Tiles 0 s.batches s.start
    behind : s.start ≤ i

  start_next-Inv :
      (i n : ℕ) (s : Scan Request)
      → Inv i s
      → Post (Inv (i + 1)) Any (start_next payload slice max_bytes i n s)
  unfolding start_next
  start_next-Inv i n s v =
      Post-if (Inv (i + 1)) Any (i == s.start) _ _ (λ e. tt)
        (λ e.
          Post->>= _ (Inv (i + 1)) Any (cut_batch payload slice max_bytes s.start i) _
            (cut_batch-Covers s.start i (ground arith))
            (λ x h.
              Post-if (Inv (i + 1)) Any (ltb max_bytes (payload (slice 0 0) + n)) _ _ (λ _. tt)
                (λ _. record {
                  tiled =
                      subst (Tiles 0 (s.batches ++ x ∷ [])) (omega arith)
                        (Tiles-snoc 0 s.start s.batches x v.tiled h.0);
                  behind = omega arith;
                })))

  module _ {Text : Type 0} (marshal : Text → Option ℕ) where
    scan_item-Inv :
        (i : ℕ) (text : Text) (s : Scan Request)
        → Inv i s
        → Post (Inv (i + 1)) Any (scan_item payload slice max_bytes marshal i text s)
    unfolding scan_item
    scan_item-Inv i text s v = elim (Option-cases (marshal text)) [
      | inl e ↦ rw (e, scan_item) tt
      | inr (n, e) ↦
          rw (e, scan_item)
            (Post-if (Inv (i + 1)) Any (leb (next_bytes payload slice max_bytes i n s) max_bytes) _
              _ (λ _. record { tiled = v.tiled; behind = omega arith })
              (λ _. start_next-Inv i n s v))
    ]

    scan_items-Inv :
        (i total : ℕ) (texts : List Text) (s : Scan Request)
        → i + length texts ≡ total
        → Inv i s
        → Post (Inv total) Any (scan_items payload slice max_bytes marshal i texts s)
    unfolding scan_items
    scan_items-Inv i total [] s e v = record { tiled = v.tiled; behind = omega arith }
    scan_items-Inv i total (text ∷ texts) s e v =
        Post->>= (Inv (i + 1)) (Inv total) Any (scan_item payload slice max_bytes marshal i text s)
          _ (scan_item-Inv i text s v)
          (λ s' v'. scan_items-Inv (i + 1) total texts s' (omega arith) v')

    cut_rest-Tiles :
        (total : ℕ) (s : Scan Request)
        → Inv total s
        → Post (λ xs. Tiles 0 xs total) Any (cut_rest payload slice max_bytes total s)
    unfolding cut_rest
    cut_rest-Tiles total s v =
        Post-if (λ xs. Tiles 0 xs total) Any (ltb s.start total) _ _
          (λ e.
            Post->>= _ (λ xs. Tiles 0 xs total) Any
              (cut_batch payload slice max_bytes s.start total) _
              (cut_batch-Covers s.start total (ground arith))
              (λ x h.
                subst (Tiles 0 (s.batches ++ x ∷ [])) (omega arith)
                  (Tiles-snoc 0 s.start s.batches x v.tiled h.0)))
          (λ e. subst (Tiles 0 s.batches) (ground arith) v.tiled)

    -- The batches of a split that succeeds tile the texts: the first starts at item 0, each starts
    -- where the one before ends, the last ends with the list, and each one holds at least one item,
    -- is the request for just its items, and has its real payload size, within the limit.
    pub split_text_request-Tiles :
        (texts : List Text) (xs : List (TextRequestBatch Request))
        → split_text_request payload slice max_bytes marshal texts ≡ ok xs
        → Tiles 0 xs (length texts)
    unfolding split_text_request
    split_text_request-Tiles texts xs e =
        Post-ok (λ ys. Tiles 0 ys (length texts)) Any e
          (Post-if _ Any (ltb max_bytes (payload (slice 0 0))) _ _ (λ _. tt)
            (λ _.
              Post->>= (Inv (length texts)) (λ ys. Tiles 0 ys (length texts)) Any
                (scan_items payload slice max_bytes marshal 0 texts
                  (start_scan payload slice max_bytes))
                (cut_rest payload slice max_bytes (length texts))
                (scan_items-Inv 0 (length texts) texts _ (omega arith)
                  (record { tiled = refl; behind = omega arith }))
                (λ s v. cut_rest-Tiles (length texts) s v)))
