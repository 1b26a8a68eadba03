-- ===== src/Chunking/Completed.antt =====
-- The loop completes only behind whole frames.
use dify_plugin_daemon.Common.{
  ℕ, zero, suc, ◌≡◌, ◌≢◌, refl, sym, ap, ◌∙◌, subst, Option, none, some, List, [], ◌∷◌, length,
  arith, All, inl, inr,
}
use dify_plugin_daemon.Chunking.{
  Reader, Read, ReadError, eof, unexpected_eof, broken, got, short, read_part, read_full,
  read_full_error, copy_n, data_read, read_data, header_read, system_header_read, uint16, uint32,
  finished, chunk, read_chunk, Outcome, completed, process_chunk, end_round, chunking_loop,
  length_prefixed_chunking,
}
use dify_plugin_daemon.Chunking.Frames.{
  Frame, encode_frame, encode_frames, Fits, IsByte, go_on, process_all,
}
use dify_plugin_daemon.Chunking.Decode.{read_chunk-chunk, encode_frame-IsByte}
use dify_plugin_daemon.Chunking.Loop.{Round-cases}

short_error :
    (e x : ReadError) (fault : Option ℕ) (parts : Option (List ℕ × List ℕ))
    → read_part e fault parts ≡ short x
    → e ≡ x
unfolding read_part
short_error e x fault none h = cc
short_error e x fault (some (front, back)) h = cc

eof_only_at_end :
    (bytes : List ℕ) (fault : Option ℕ)
    → read_full_error bytes fault ≡ eof
    → (bytes ≡ []) × (fault ≡ none)
unfolding read_full_error
eof_only_at_end bytes (some f) h = cc
eof_only_at_end [] none h = (refl, refl)
eof_only_at_end (b ∷ bs) none h = cc

module _ {Failure : Type 0} (magic_number max_chunk_size : ℕ) where
  data_read-ne-finished :
      (read : Read) → data_read {Failure = Failure} magic_number max_chunk_size read ≢ finished
  unfolding data_read
  data_read-ne-finished (short e) h = cc
  data_read-ne-finished (got bytes reader) h = cc

  header_read-ne-finished :
      (read : Read) → header_read {Failure = Failure} magic_number max_chunk_size read ≢ finished
  unfolding header_read read_data
  header_read-ne-finished (short e) h = cc
  header_read-ne-finished (got header reader) h =
      ground (arith, data_read-ne-finished (copy_n (uint32 0 header) reader))

  system_header_read-finished :
      (read : Read)
      → system_header_read {Failure = Failure} magic_number max_chunk_size read ≡ finished
      → read ≡ short eof
  unfolding system_header_read
  system_header_read-finished (short eof) h = refl
  system_header_read-finished (short unexpected_eof) h = cc
  system_header_read-finished (short (broken n)) h = cc
  system_header_read-finished (got bytes reader) h =
      ground (arith, header_read-ne-finished (read_full (uint16 2 bytes) reader))

  -- The normal end is the end of the input, with no error of the reader.
  read_chunk-finished :
      (reader : Reader)
      → read_chunk {Failure = Failure} magic_number max_chunk_size reader ≡ finished
      → (reader.bytes ≡ []) × (reader.fault ≡ none)
  unfolding read_chunk read_full
  read_chunk-finished reader h =
      eof_only_at_end reader.bytes reader.fault
        (short_error _ _ _ _ (system_header_read-finished (read_full 4 reader) h))

module _ {State Failure : Type 0} (magic_number max_chunk_size : ℕ)
    (processor : State → List ℕ → State × Option Failure) where
  process_chunk-completed :
      (next : Reader → State → State × Outcome Failure) (rest : Reader)
      (processed : State × Option Failure)
      → (process_chunk next rest processed).1 ≡ completed
      → (processed.1 ≡ none)
        × ((next rest processed.0).1 ≡ completed)
        × (process_chunk next rest processed ≡ next rest processed.0)
  unfolding process_chunk
  process_chunk-completed next rest (state, none) h = (refl, h, refl)
  process_chunk-completed next rest (state, some e) h = cc

  go_on-accepted :
      (next : State → State × Option Failure) (processed : State × Option Failure)
      → processed.1 ≡ none
      → go_on next processed ≡ next processed.0
  unfolding go_on
  go_on-accepted next (state, none) h = refl
  go_on-accepted next (state, some e) h = cc

  -- The input of a run that completed.
  unfoldable pub Framed : Reader → State → State × Outcome Failure → Type 0
  Framed reader state result =
      (frames : List Frame) × All (Fits max_chunk_size) frames
      × (reader.bytes ≡ encode_frames magic_number frames [])
      × (reader.fault ≡ none)
      × (process_all processor frames state ≡ (result.0, none))

  chunk-Framed :
      (next : Reader → State → State × Outcome Failure) (reader rest : Reader) (bytes : List ℕ)
      (state : State)
      → All IsByte reader.bytes
      → read_chunk {Failure = Failure} magic_number max_chunk_size reader ≡ chunk bytes rest
      → ((after : State)
          → All IsByte rest.bytes
          → (next rest after).1 ≡ completed
          → Framed rest after (next rest after))
      → (process_chunk next rest (processor state bytes)).1 ≡ completed
      → Framed reader state (process_chunk next rest (processor state bytes))
  unfolding Framed encode_frames process_all go_on
  chunk-Framed next reader rest bytes state good r hyp h =
      let (accepted, went_on, same) = process_chunk-completed next rest (processor state bytes) h in
      let (frame, frame_data, frame_fits, at, fault) =
        read_chunk-chunk magic_number max_chunk_size reader rest bytes good r in
      let good_rest =
        encode_frame-IsByte magic_number frame rest.bytes (subst (All IsByte) at good) in
      let (frames, fits, rest_at, no_fault, processed) =
        hyp (processor state bytes).0 good_rest went_on in
      (
        frame ∷ frames,
        (frame_fits, fits),
        at ∙ ap (λ (behind : List ℕ). encode_frame magic_number frame behind) rest_at,
        sym fault ∙ no_fault,
        rw (same, frame_data)
            (go_on-accepted (process_all processor frames) (processor state bytes) accepted
              ∙ processed),
      )

  chunking_loop-completed :
      (fuel : ℕ) (reader : Reader) (state : State)
      → All IsByte reader.bytes
      → (chunking_loop magic_number max_chunk_size processor fuel reader state).1 ≡ completed
      → Framed reader state (chunking_loop magic_number max_chunk_size processor fuel reader state)
  unfolding chunking_loop end_round
  chunking_loop-completed zero reader state good h = cc
  chunking_loop-completed (suc fuel) reader state good h =
      elim (Round-cases {Failure = Failure} magic_number max_chunk_size
        (read_chunk magic_number max_chunk_size reader)) [
          | inl r ↦
              let (at, no_fault) =
                read_chunk-finished {Failure = Failure} magic_number max_chunk_size reader r in
              rw r (unfold Framed encode_frames process_all in ([], tt, at, no_fault, refl))
          | inr (inl (e, r)) ↦ absurd (let h' = rw r at h in cc)
          | inr (inr (bytes, rest, r)) ↦ rw r (
              chunk-Framed (chunking_loop magic_number max_chunk_size processor fuel) reader rest
                bytes state good r (chunking_loop-completed fuel rest) (rw r at h))
        ]

  -- LengthPrefixedChunking completes, on bytes, only when the input is a sequence of whole frames
  -- that fit, followed by the end and no error of the reader, and the processor accepted the data
  -- of each frame, in their order; the final state is what the processor made of them.
  pub length_prefixed_chunking-completed :
      (reader : Reader) (state : State)
      → All IsByte reader.bytes
      → (length_prefixed_chunking magic_number max_chunk_size processor reader state).1 ≡ completed
      → Framed reader state
          (length_prefixed_chunking magic_number max_chunk_size processor reader state)
  unfolding length_prefixed_chunking
  length_prefixed_chunking-completed reader state good h =
      chunking_loop-completed (suc (length reader.bytes)) reader state good h
