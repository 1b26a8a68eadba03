-- ===== src/Chunking/Tests.antt =====
-- Messages with the magic number 0xa5 and at most four bytes of data, kept by the processor.
use dify_plugin_daemon.Common.{
  ℕ, ◌≤◌, ◌≡◌, ◌≢◌, refl, Option, none, some, List, [], ◌∷◌, ◌++◌, length, arith, All, All-append,
}
use dify_plugin_daemon.Chunking.{
  Reader, Outcome, completed, failed, stuck, unexpected_eof, no_system_header, data_too_long,
  magic_number_mismatch, processing_failed, prepend, split_at, read_full_error, copy_error,
  read_part, read_full, copy_n, byte_at, uint16, uint32, data_read, read_data, header_read,
  system_header_read, read_chunk, process_chunk, end_round, chunking_loop, length_prefixed_chunking,
}
use dify_plugin_daemon.Chunking.Frames.{
  Frame, padded, little_endian, encode_frame, encode_frames, Fits, IsByte, process_all,
}
use dify_plugin_daemon.Chunking.Loop.{length_prefixed_chunking-encode_frames}
use dify_plugin_daemon.Chunking.Outcomes.{
  length_prefixed_chunking-ne-stuck, length_prefixed_chunking-bounded,
}
use dify_plugin_daemon.Chunking.Completed.{length_prefixed_chunking-completed, Framed}

-- A processor that fails on an empty chunk and keeps the others.
keep : List (List ℕ) → List ℕ → List (List ℕ) × Option ℕ
keep kept [] = (kept, some 7)
keep kept (b ∷ bs) = (kept ++ ((b ∷ bs) ∷ []), none)

abbrev frame : List ℕ → Frame
frame bytes = record { flags = 0; padding = (0, 0, 0, 0, 0, 9); data_bytes = bytes }

abbrev reader : List ℕ → Reader
reader bytes = record { bytes = bytes; fault = none }

abbrev two_frames : List Frame
two_frames = frame (1 ∷ 2 ∷ []) ∷ frame (3 ∷ []) ∷ []

run : List ℕ → List (List ℕ) × Outcome ℕ
unfolding length_prefixed_chunking
run bytes = length_prefixed_chunking 0xa5 4 keep (reader bytes) []

input : List ℕ → List ℕ
unfolding encode_frames
input rest = encode_frames 0xa5 two_frames rest

two_chunks : run (input []) ≡ ((1 ∷ 2 ∷ []) ∷ (3 ∷ []) ∷ [], completed)
unfolding run input keep prepend split_at read_full_error copy_error read_part read_full copy_n
    byte_at uint16 uint32 data_read read_data header_read system_header_read read_chunk
    process_chunk end_round chunking_loop length_prefixed_chunking padded little_endian encode_frame
    encode_frames
two_chunks = refl

cut_header :
    run (input (0xa5 ∷ []))
    ≡ ((1 ∷ 2 ∷ []) ∷ (3 ∷ []) ∷ [], failed (no_system_header unexpected_eof))
unfolding run input keep prepend split_at read_full_error copy_error read_part read_full copy_n
    byte_at uint16 uint32 data_read read_data header_read system_header_read read_chunk
    process_chunk end_round chunking_loop length_prefixed_chunking padded little_endian encode_frame
    encode_frames
cut_header = refl

-- The length of the data is above the maximum, 4; the data is not read.
too_long :
    run (encode_frame 0xa5 (frame (1 ∷ 2 ∷ 3 ∷ 4 ∷ 5 ∷ [])) []) ≡ ([], failed (data_too_long 5))
unfolding run input keep prepend split_at read_full_error copy_error read_part read_full copy_n
    byte_at uint16 uint32 data_read read_data header_read system_header_read read_chunk
    process_chunk end_round chunking_loop length_prefixed_chunking padded little_endian encode_frame
    encode_frames
too_long = refl

wrong_magic :
    run (encode_frame 0xa4 (frame (1 ∷ [])) []) ≡ ([], failed (magic_number_mismatch 0xa4))
unfolding run input keep prepend split_at read_full_error copy_error read_part read_full copy_n
    byte_at uint16 uint32 data_read read_data header_read system_header_read read_chunk
    process_chunk end_round chunking_loop length_prefixed_chunking padded little_endian encode_frame
    encode_frames
wrong_magic = refl

-- An empty chunk reaches the processor.
empty_chunk : run (encode_frame 0xa5 (frame []) []) ≡ ([], failed (processing_failed 7))
unfolding run input keep prepend split_at read_full_error copy_error read_part read_full copy_n
    byte_at uint16 uint32 data_read read_data header_read system_header_read read_chunk
    process_chunk end_round chunking_loop length_prefixed_chunking padded little_endian encode_frame
    encode_frames
empty_chunk = refl

two_frames-Fits : All (Fits 4) two_frames
unfolding Fits
two_frames-Fits = (omega arith, (omega arith, tt))

length_prefixed_chunking-encode_frames_example :
    length_prefixed_chunking 0xa5 4 keep (reader (encode_frames 0xa5 two_frames (1 ∷ []))) []
    ≡ process_chunk
        (length_prefixed_chunking 0xa5 4 keep)
        (reader (1 ∷ []))
        (process_all keep two_frames [])
length_prefixed_chunking-encode_frames_example =
    length_prefixed_chunking-encode_frames 0xa5 4 keep two_frames (1 ∷ []) none [] (omega arith)
      two_frames-Fits

length_prefixed_chunking-ne-stuck_example :
    (length_prefixed_chunking 0xa5 4 keep (reader (0xa5 ∷ 0 ∷ 10 ∷ [])) []).1 ≢ stuck
length_prefixed_chunking-ne-stuck_example =
    length_prefixed_chunking-ne-stuck 0xa5 4 keep (reader (0xa5 ∷ 0 ∷ 10 ∷ [])) []

abbrev Small : List (List ℕ) → Type 0
Small = All (λ (bytes : List ℕ). length bytes ≤ 4)

keep-Small :
    (kept : List (List ℕ)) (bytes : List ℕ)
    → Small kept
    → length bytes ≤ 4
    → Small (keep kept bytes).0
unfolding keep
keep-Small kept [] h small = h
keep-Small kept (b ∷ bs) h small =
    All-append (λ (bytes : List ℕ). length bytes ≤ 4) kept ((b ∷ bs) ∷ []) h (small, tt)

length_prefixed_chunking-bounded_example :
    Small (length_prefixed_chunking 0xa5 4 keep (reader (encode_frames 0xa5 two_frames [])) []).0
length_prefixed_chunking-bounded_example =
    length_prefixed_chunking-bounded 0xa5 4 keep Small keep-Small
      (reader (encode_frames 0xa5 two_frames [])) [] tt

abbrev frames_input : Reader
frames_input = reader (0xa5 ∷ 0 ∷ 10 ∷ 0 ∷ 1 ∷ 0 ∷ 0 ∷ 0 ∷ 0 ∷ 0 ∷ 0 ∷ 0 ∷ 0 ∷ 9 ∷ 77 ∷ [])

frames_input-IsByte : All IsByte frames_input.bytes
frames_input-IsByte = ground arith

frames_input-completed : (length_prefixed_chunking 0xa5 4 keep frames_input []).1 ≡ completed
unfolding run input keep prepend split_at read_full_error copy_error read_part read_full copy_n
    byte_at uint16 uint32 data_read read_data header_read system_header_read read_chunk
    process_chunk end_round chunking_loop length_prefixed_chunking padded little_endian encode_frame
    encode_frames
frames_input-completed = refl

length_prefixed_chunking-completed_example :
    Framed 0xa5 4 keep frames_input [] (length_prefixed_chunking 0xa5 4 keep frames_input [])
length_prefixed_chunking-completed_example =
    length_prefixed_chunking-completed 0xa5 4 keep frames_input [] frames_input-IsByte
      frames_input-completed
