-- ===== src/Chunking/Loop.antt =====
-- The whole loop: which chunks the processor gets, and how the loop ends.
use dify_plugin_daemon.Common.{
  ℕ, zero, suc, ◌+◌, ◌^◌, ◌<◌, ◌≤◌, ◌≡◌, refl, ap, ◌∙◌, Option, none, some, List, [], ◌∷◌, length,
  length-append, arith, All, ◌⊎◌, inl, inr,
}
use dify_plugin_daemon.Chunking.{
  Reader, read_full, Round, finished, refused, chunk, read_chunk, Outcome, ChunkingError,
  process_chunk, end_round, chunking_loop, length_prefixed_chunking,
}
use dify_plugin_daemon.Chunking.Frames.{Frame, encode_frames, Fits, go_on, process_all}
use dify_plugin_daemon.Chunking.Steps.{read_chunk-frame}
use dify_plugin_daemon.Chunking.Inversion.{Took, read_part-got, header_of, system_header_of}

module _ {Failure : Type 0} (magic_number max_chunk_size : ℕ) where
  -- A round takes the 14 bytes of the headers and the data.
  pub read_chunk-length :
      (reader rest : Reader) (bytes : List ℕ)
      → read_chunk {Failure = Failure} magic_number max_chunk_size reader ≡ chunk bytes rest
      → (length reader.bytes ≡ 14 + length bytes + length rest.bytes)
        × (length bytes ≤ max_chunk_size)
  unfolding read_chunk read_full Took
  read_chunk-length reader rest bytes h =
      let (sys, after, sys_read, magic, size, h1) =
        system_header_of magic_number max_chunk_size (read_full 4 reader) rest bytes h in
      let (header, after', header_read, allowed, took) =
        header_of magic_number max_chunk_size (read_full 10 after) rest bytes h1 in
      let (sys_at, sys_size, sys_fault) = read_part-got 4 _ reader after sys sys_read in
      let (header_at, header_size, header_fault) =
        read_part-got 10 _ after after' header header_read in
      let (data_at, data_size, data_fault) = took in
      let all_bytes : length reader.bytes ≡ length sys + length after.bytes =
        ap length sys_at ∙ length-append sys after.bytes in
      let after_bytes : length after.bytes ≡ length header + length after'.bytes =
        ap length header_at ∙ length-append header after'.bytes in
      let data_length : length after'.bytes ≡ length bytes + length rest.bytes =
        ap length data_at ∙ length-append bytes rest.bytes in
      (
        omega (arith, all_bytes, after_bytes, data_length, sys_size, header_size),
        omega (arith, data_size, allowed),
      )

  pub Round-cases :
      (round : Round Failure)
      → (round ≡ finished)
        ⊎ ((e : ChunkingError Failure) × (round ≡ refused e))
        ⊎ ((bytes : List ℕ) × (rest : Reader) × (round ≡ chunk bytes rest))
  Round-cases finished = inl refl
  Round-cases (refused e) = inr (inl (e, refl))
  Round-cases (chunk bytes rest) = inr (inr (bytes, rest, refl))

-- Two ways to go on that agree behind a chunk.
process_chunk-agree :
    {State Failure : Type 0} (next other : Reader → State → State × Outcome Failure) (rest : Reader)
    (processed : State × Option Failure)
    → ((state : State) → next rest state ≡ other rest state)
    → process_chunk next rest processed ≡ process_chunk other rest processed
unfolding process_chunk
process_chunk-agree next other rest (state, none) agree = agree state
process_chunk-agree next other rest (state, some e) agree = refl

process_chunk-go_on :
    {State Failure : Type 0} (next : Reader → State → State × Outcome Failure) (rest : Reader)
    (middle : Reader) (others : State → State × Option Failure) (processed : State × Option Failure)
    → ((state : State) → next middle state ≡ process_chunk next rest (others state))
    → process_chunk next middle processed ≡ process_chunk next rest (go_on others processed)
unfolding process_chunk go_on
process_chunk-go_on next rest middle others (state, none) agree = agree state
process_chunk-go_on next rest middle others (state, some e) agree = refl

module _ {State Failure : Type 0} (magic_number max_chunk_size : ℕ)
    (processor : State → List ℕ → State × Option Failure) where
  abbrev looped : ℕ → Reader → State → State × Outcome Failure
  looped fuel = chunking_loop magic_number max_chunk_size processor fuel

  abbrev whole : Reader → State → State × Outcome Failure
  whole = length_prefixed_chunking magic_number max_chunk_size processor

  -- More fuel than the input has bytes changes nothing.
  chunking_loop-fuel :
      (fuel other : ℕ) (reader : Reader) (state : State)
      → length reader.bytes < fuel
      → length reader.bytes < other
      → chunking_loop magic_number max_chunk_size processor fuel reader state
        ≡ chunking_loop magic_number max_chunk_size processor other reader state
  unfolding chunking_loop end_round
  chunking_loop-fuel zero other reader state h h' = absurd (omega (arith, h))
  chunking_loop-fuel (suc fuel) zero reader state h h' = absurd (omega (arith, h'))
  chunking_loop-fuel (suc fuel) (suc other) reader state h h' =
      elim (Round-cases {Failure = Failure} magic_number max_chunk_size
        (read_chunk magic_number max_chunk_size reader)) [
          | inl r ↦ rw r refl
          | inr (inl (e, r)) ↦ rw r refl
          | inr (inr (bytes, rest, r)) ↦
              let (size, fits) =
                read_chunk-length magic_number max_chunk_size reader rest bytes r in
              rw r (
                process_chunk-agree (looped fuel) (looped other) rest (processor state bytes)
                  (λ after.
                    chunking_loop-fuel fuel other rest after (omega (arith, h, size))
                      (omega (arith, h', size))))
        ]

  -- The loop without its fuel.
  chunking_step :
      (reader : Reader) (state : State)
      → length_prefixed_chunking magic_number max_chunk_size processor reader state
        ≡ end_round magic_number max_chunk_size processor
            (length_prefixed_chunking magic_number max_chunk_size processor)
            (read_chunk magic_number max_chunk_size reader)
            state
  unfolding length_prefixed_chunking chunking_loop end_round
  chunking_step reader state =
      elim (Round-cases {Failure = Failure} magic_number max_chunk_size
        (read_chunk magic_number max_chunk_size reader)) [
          | inl r ↦ rw r refl
          | inr (inl (e, r)) ↦ rw r refl
          | inr (inr (bytes, rest, r)) ↦
              let (size, fits) =
                read_chunk-length magic_number max_chunk_size reader rest bytes r in
              rw r (
                process_chunk-agree (looped (length reader.bytes)) whole rest
                  (processor state bytes)
                  (λ after.
                    chunking_loop-fuel _ (suc (length rest.bytes)) rest after (omega (arith, size))
                      (omega arith)))
        ]

  -- When the input starts with frames that fit, whatever their reserved bytes, the processor gets
  -- their data one after another; if it accepts them all, the function goes on behind them as on
  -- an input of its own, and otherwise it ends with the processor's error.
  pub length_prefixed_chunking-encode_frames :
      (frames : List Frame) (rest : List ℕ) (fault : Option ℕ) (state : State)
      → max_chunk_size < 2 ^ 32
      → All (Fits max_chunk_size) frames
      → length_prefixed_chunking magic_number max_chunk_size processor
          (record { bytes = encode_frames magic_number frames rest; fault = fault })
          state
        ≡ process_chunk
            (length_prefixed_chunking magic_number max_chunk_size processor)
            (record { bytes = rest; fault = fault })
            (process_all processor frames state)
  unfolding encode_frames process_all process_chunk end_round
  length_prefixed_chunking-encode_frames [] rest fault state small fits = refl
  length_prefixed_chunking-encode_frames (frame ∷ frames) rest fault state small fits =
      chunking_step _ state
      ∙ rw
          (read_chunk-frame {Failure = Failure} magic_number max_chunk_size frame
            (encode_frames magic_number frames rest) fault small fits.0)
          (process_chunk-go_on whole (record { bytes = rest; fault = fault }) _
            (process_all processor frames) (processor state frame.data_bytes)
            (λ after. length_prefixed_chunking-encode_frames frames rest fault after small fits.1))
