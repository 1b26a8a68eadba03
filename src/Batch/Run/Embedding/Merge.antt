-- ===== src/Batch/Run/Embedding/Merge.antt =====
-- What the merged embedding result holds.
use Prim.Native.String.{String}
use text.Mathlib.TextEquality.{eq_iff}
use dify_plugin_daemon.Common.{
  ℕ, ◌+◌, ◌≡◌, refl, sym, ap, ◌∙◌, Bool, Option, none, some, List, [], ◌∷◌, ◌++◌, All, append_assoc,
  append-nil, arith, length, subst,
}
use dify_plugin_daemon.Batch.Split.{TextRequestBatch}
use dify_plugin_daemon.Batch.Run.{
  Result, ok, err, BatchError, close_batch_response, close_final_mismatch, write_response,
  no_records, Consumed, handed_on, process_batches-Consumed, Records,
}
use dify_plugin_daemon.Batch.Run.Embedding.{
  Numbers, add_int, TextEmbeddingResult, merge_text_embedding_result, consume_embeddings,
  finish_embeddings, coordinate_text_embedding_batches,
}

-- The number behind a pointer; 0 for nil.
abbrev pub count : Option ℕ → ℕ
count none = 0
count (some n) = n

-- The text behind a pointer.
abbrev text_of : Option String → String
text_of none = ""
text_of (some s) = s

module _ (numbers : Numbers) where
  abbrev pub all_embeddings : List (TextEmbeddingResult numbers) → List (List numbers.Float)
  all_embeddings [] = []
  all_embeddings (r ∷ rs) = r.embeddings ++ all_embeddings rs

  -- The tokens of results added to a count, in order.
  abbrev pub sum_tokens : ℕ → List (TextEmbeddingResult numbers) → ℕ
  sum_tokens n [] = n
  sum_tokens n (r ∷ rs) = sum_tokens (add_int n (count r.usage.tokens)) rs

  abbrev pub sum_total_tokens : ℕ → List (TextEmbeddingResult numbers) → ℕ
  sum_total_tokens n [] = n
  sum_total_tokens n (r ∷ rs) = sum_total_tokens (add_int n (count r.usage.total_tokens)) rs

  -- The results `rs` are merged behind `m`: one model and currency, the embeddings in order, and
  -- the sums of the tokens as ints.
  pub record Extends (m : TextEmbeddingResult numbers) (rs : List (TextEmbeddingResult numbers))
      (final : TextEmbeddingResult numbers) : Type 0 where
    pub embeddings : final.embeddings ≡ m.embeddings ++ all_embeddings rs
    pub model : final.model ≡ m.model
    pub models : All (λ r. r.model ≡ m.model) rs
    pub currency : final.usage.currency ≡ m.usage.currency
    pub currencies : All (λ r. r.usage.currency ≡ m.usage.currency) rs
    pub tokens : count final.usage.tokens ≡ sum_tokens (count m.usage.tokens) rs
    pub total_tokens :
        count final.usage.total_tokens ≡ sum_total_tokens (count m.usage.total_tokens) rs

  -- One batch of `n` items goes into the result so far.
  merge_ok :
      (i n : ℕ) (m r mid : TextEmbeddingResult numbers)
      → merge_text_embedding_result numbers i n (some m) r ≡ ok mid
      → (length r.embeddings ≡ n)
        × (mid.embeddings ≡ m.embeddings ++ r.embeddings)
        × (r.model ≡ m.model)
        × (mid.model ≡ m.model)
        × (r.usage.currency ≡ m.usage.currency)
        × (mid.usage.currency ≡ m.usage.currency)
        × (count mid.usage.tokens ≡ add_int (count m.usage.tokens) (count r.usage.tokens))
        × (count mid.usage.total_tokens
            ≡ add_int (count m.usage.total_tokens) (count r.usage.total_tokens))
  unfolding merge_text_embedding_result
  merge_ok i n m r mid h =
      ground (
        arith,
        eq_iff r.model m.model,
        eq_iff (text_of r.usage.currency) (text_of m.usage.currency),
      )

  -- The first batch of `n` items is copied.
  merge_first :
      (i n : ℕ) (r mid : TextEmbeddingResult numbers)
      → merge_text_embedding_result numbers i n none r ≡ ok mid
      → (length r.embeddings ≡ n) × (mid ≡ r)
  unfolding merge_text_embedding_result
  merge_first i n r mid h = (ground arith, ground arith)

  consume_one :
      (i n : ℕ) (rs : List (TextEmbeddingResult numbers))
      (merged : Option (TextEmbeddingResult numbers)) (mid : Option (TextEmbeddingResult numbers))
      → consume_embeddings numbers i n rs merged ≡ ok mid
      → (r m : TextEmbeddingResult numbers) × (rs ≡ r ∷ [])
        × (mid ≡ some m)
        × (merge_text_embedding_result numbers i n merged r ≡ ok m)
  unfolding consume_embeddings
  consume_one i n [] merged mid h = cc
  consume_one i n (r ∷ []) merged mid h =
      let (m, done, e) =
        handed_on (merge_text_embedding_result numbers i n merged r) (λ m. ok (some m)) h in
      (r, m, refl, cc e, done)
  consume_one i n (r ∷ r' ∷ rs) merged mid h = cc

  -- Batch after batch was answered by one response, with an embedding for each item of the batch.
  abbrev pub EmbeddingAnswers :
      {Request : Type 0}
      → (ℕ → Request → Result (List (TextEmbeddingResult numbers)))
      → ℕ
      → List (TextRequestBatch Request)
      → List (TextEmbeddingResult numbers)
      → Type 0
  EmbeddingAnswers invoke i [] [] = Unit
  EmbeddingAnswers invoke i [] (r ∷ rs) = ⊥
  EmbeddingAnswers invoke i (x ∷ xs) [] = ⊥
  EmbeddingAnswers invoke i (x ∷ xs) (r ∷ rs) =
      (invoke i x.request ≡ ok (r ∷ []))
      × (length r.embeddings ≡ x.item_count)
      × EmbeddingAnswers invoke (i + 1) xs rs

  Extends-cons :
      (m r mid f : TextEmbeddingResult numbers) (rs : List (TextEmbeddingResult numbers))
      → Extends mid rs f
      → mid.embeddings ≡ m.embeddings ++ r.embeddings
      → r.model ≡ m.model
      → mid.model ≡ m.model
      → r.usage.currency ≡ m.usage.currency
      → mid.usage.currency ≡ m.usage.currency
      → count mid.usage.tokens ≡ add_int (count m.usage.tokens) (count r.usage.tokens)
      → count mid.usage.total_tokens
        ≡ add_int (count m.usage.total_tokens) (count r.usage.total_tokens)
      → Extends m (r ∷ rs) f
  Extends-cons m r mid f rs x e rm mm rc mc t tt' = record {
    embeddings =
        x.embeddings
        ∙ (ap (λ l. l ++ all_embeddings rs) e ∙ append_assoc m.embeddings r.embeddings _);
    model = x.model ∙ mm;
    models = (rm, subst (λ k. All (λ q. q.model ≡ k) rs) mm x.models);
    currency = x.currency ∙ mc;
    currencies = (rc, subst (λ k. All (λ q. q.usage.currency ≡ k) rs) mc x.currencies);
    tokens = x.tokens ∙ ap (λ n. sum_tokens n rs) t;
    total_tokens = x.total_tokens ∙ ap (λ n. sum_total_tokens n rs) tt';
  }

  finish_embeddings-written :
      (g w : Bool) (n total : ℕ) (p : Result (Option (TextEmbeddingResult numbers)) × Records)
      (v : TextEmbeddingResult numbers)
      → (finish_embeddings numbers g w n total p).written ≡ some v
      → (p.0 ≡ ok (some v)) × (length v.embeddings ≡ total)
  unfolding finish_embeddings close_batch_response close_final_mismatch write_response
  finish_embeddings-written g w n total (err e, r) v h = cc
  finish_embeddings-written g w n total (ok none, r) v h = cc
  finish_embeddings-written g w n total (ok (some m), r) v h = (ground arith, ground arith)

  module _ {Request : Type 0}
      (invoke : ℕ → Request → Result (List (TextEmbeddingResult numbers))) where
    Consumed-Extends :
        (i : ℕ) (xs : List (TextRequestBatch Request)) (m final : TextEmbeddingResult numbers)
        → Consumed invoke (consume_embeddings numbers) i xs (some m) (some final)
        → (rs : List (TextEmbeddingResult numbers)) × EmbeddingAnswers invoke i xs rs
          × Extends m rs final
    Consumed-Extends i [] m final h =
        let same : m ≡ final = cc h in
        (
          [],
          tt,
          subst (Extends m []) same (record {
            embeddings = sym (append-nil m.embeddings);
            model = refl;
            models = tt;
            currency = refl;
            currencies = tt;
            tokens = refl;
            total_tokens = refl;
          }),
        )
    Consumed-Extends i (x ∷ xs) m final (rs, mid, invoked, taken, rest) =
        let (r, mid', one, e, done) = consume_one i x.item_count rs (some m) mid taken in
        let (qs, answers, ext) = Consumed-Extends (i + 1) xs mid' final (
          subst (λ k. Consumed invoke (consume_embeddings numbers) (i + 1) xs k (some final)) e
            rest) in
        let (len, emb, rm, mm, rc, mc, t, tt') = merge_ok i x.item_count m r mid' done in
        (
          r ∷ qs,
          (rw one at invoked, len, answers),
          Extends-cons m r mid' final qs ext emb rm mm rc mc t tt',
        )

    Consumed-first_answer :
        (i : ℕ) (xs : List (TextRequestBatch Request)) (v : TextEmbeddingResult numbers)
        → Consumed invoke (consume_embeddings numbers) i xs none (some v)
        → (first : TextEmbeddingResult numbers) × (rest : List (TextEmbeddingResult numbers))
          × EmbeddingAnswers invoke i xs (first ∷ rest)
          × Extends first rest v
    Consumed-first_answer i [] v h = cc
    Consumed-first_answer i (x ∷ xs) v (rs, mid, invoked, taken, rest) =
        let (r, mid', one, e, done) = consume_one i x.item_count rs none mid taken in
        let (len, same) = merge_first i x.item_count r mid' done in
        let (qs, answers, ext) = Consumed-Extends (i + 1) xs r v (
          subst (λ k. Consumed invoke (consume_embeddings numbers) (i + 1) xs k (some v))
            (e ∙ ap some same) rest) in
        (r, qs, (rw one at invoked, len, answers), ext)

    -- A response that is written is the first batch's, extended by those of the other batches in
    -- order: each batch was answered by one response with one embedding for each of its items, all
    -- of one model and one currency; the embeddings stand in order, and the tokens are summed up as
    -- ints of 64 bits.
    pub coordinate_text_embedding_batches-Extends :
        (ctx_err : ℕ → Option BatchError) (gone_on_error gone_after_write : Bool) (total : ℕ)
        (xs : List (TextRequestBatch Request)) (v : TextEmbeddingResult numbers)
        → (coordinate_text_embedding_batches numbers ctx_err invoke gone_on_error gone_after_write
            total xs).written
          ≡ some v
        → (first : TextEmbeddingResult numbers) × (rest : List (TextEmbeddingResult numbers))
          × EmbeddingAnswers invoke 0 xs (first ∷ rest)
          × Extends first rest v
          × (length v.embeddings ≡ total)
    unfolding coordinate_text_embedding_batches
    coordinate_text_embedding_batches-Extends ctx_err g w total xs v h =
        let (done, len) = finish_embeddings-written g w (length xs) total _ v h in
        let (first, rest, answers, ext) = Consumed-first_answer 0 xs v (
          process_batches-Consumed ctx_err invoke (consume_embeddings numbers) (length xs) 0 xs none
            (some v) no_records done) in
        (first, rest, answers, ext, len)
