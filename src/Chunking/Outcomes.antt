-- ===== src/Chunking/Outcomes.antt =====
-- The loop never runs out of fuel, and never gives a chunk that is larger than the caller allows.
use dify_plugin_daemon.Common.{
  ℕ, zero, suc, ◌<◌, ◌≤◌, ◌≢◌, Option, none, some, List, length, arith, inl, inr,
}
use dify_plugin_daemon.Chunking.{
  Reader, read_chunk, Outcome, stuck, process_chunk, end_round, chunking_loop,
  length_prefixed_chunking,
}
use dify_plugin_daemon.Chunking.Loop.{read_chunk-length, Round-cases}

module _ {State Failure : Type 0} (magic_number max_chunk_size : ℕ)
    (processor : State → List ℕ → State × Option Failure) where
  process_chunk-ne-stuck :
      (next : Reader → State → State × Outcome Failure) (rest : Reader)
      (processed : State × Option Failure)
      → ((state : State) → (next rest state).1 ≢ stuck)
      → (process_chunk next rest processed).1 ≢ stuck
  unfolding process_chunk
  process_chunk-ne-stuck next rest (state, none) h = h state
  process_chunk-ne-stuck next rest (state, some e) h = λ x. cc

  chunking_loop-ne-stuck :
      (fuel : ℕ) (reader : Reader) (state : State)
      → length reader.bytes < fuel
      → (chunking_loop magic_number max_chunk_size processor fuel reader state).1 ≢ stuck
  unfolding chunking_loop end_round
  chunking_loop-ne-stuck zero reader state h = absurd (omega (arith, h))
  chunking_loop-ne-stuck (suc fuel) reader state h =
      elim (Round-cases {Failure = Failure} magic_number max_chunk_size
        (read_chunk magic_number max_chunk_size reader)) [
          | inl r ↦ rw r (λ x. cc)
          | inr (inl (e, r)) ↦ rw r (λ x. cc)
          | inr (inr (bytes, rest, r)) ↦
              let (size, fits) =
                read_chunk-length magic_number max_chunk_size reader rest bytes r in
              rw r (
                process_chunk-ne-stuck (chunking_loop magic_number max_chunk_size processor fuel)
                  rest (processor state bytes)
                  (λ after. chunking_loop-ne-stuck fuel rest after (omega (arith, h, size))))
        ]

  -- LengthPrefixedChunking returns on each input: its loop never runs out of fuel, whatever the
  -- bytes and the processor.
  pub length_prefixed_chunking-ne-stuck :
      (reader : Reader) (state : State)
      → (length_prefixed_chunking magic_number max_chunk_size processor reader state).1 ≢ stuck
  unfolding length_prefixed_chunking
  length_prefixed_chunking-ne-stuck reader state =
      chunking_loop-ne-stuck (suc (length reader.bytes)) reader state (omega arith)

  -- What any number of rounds keeps.
  module _ (Good : State → Type 0)
      (kept : (state : State) (bytes : List ℕ)
        → Good state
        → length bytes ≤ max_chunk_size
        → Good (processor state bytes).0) where
    process_chunk-Good :
        (next : Reader → State → State × Outcome Failure) (rest : Reader)
        (processed : State × Option Failure)
        → ((state : State) → Good state → Good (next rest state).0)
        → Good processed.0
        → Good (process_chunk next rest processed).0
    unfolding process_chunk
    process_chunk-Good next rest (state, none) h good = h state good
    process_chunk-Good next rest (state, some e) h good = good

    chunking_loop-Good :
        (fuel : ℕ) (reader : Reader) (state : State)
        → Good state
        → Good (chunking_loop magic_number max_chunk_size processor fuel reader state).0
    unfolding chunking_loop end_round
    chunking_loop-Good zero reader state good = good
    chunking_loop-Good (suc fuel) reader state good =
        elim (Round-cases {Failure = Failure} magic_number max_chunk_size
          (read_chunk magic_number max_chunk_size reader)) [
            | inl r ↦ rw r good
            | inr (inl (e, r)) ↦ rw r good
            | inr (inr (bytes, rest, r)) ↦
                let (size, fits) =
                  read_chunk-length magic_number max_chunk_size reader rest bytes r in
                rw r (
                  process_chunk-Good (chunking_loop magic_number max_chunk_size processor fuel) rest
                    (processor state bytes) (λ after. chunking_loop-Good fuel rest after)
                    (kept state bytes good fits))
          ]

    -- The processor never gets a chunk above the maximum, also on input that is not well formed:
    -- what it keeps on chunks within the maximum holds when LengthPrefixedChunking ends.
    pub length_prefixed_chunking-bounded :
        (reader : Reader) (state : State)
        → Good state
        → Good (length_prefixed_chunking magic_number max_chunk_size processor reader state).0
    unfolding length_prefixed_chunking
    length_prefixed_chunking-bounded reader state good =
        chunking_loop-Good (suc (length reader.bytes)) reader state good
