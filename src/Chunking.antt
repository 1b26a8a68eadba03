-- ===== src/Chunking.antt =====
-- LengthPrefixedChunking of pkg/utils/parser/chunking.go, by which the daemon reads the messages of a
-- plugin. A byte is a number, and a reader is the bytes that it still gives, with the error that
-- follows them in place of the end. The bytes that the processor gets are copied; in the source they
-- are a slice of a buffer that the next round writes again.
pub mod Frames
pub mod Steps
pub mod Inversion
pub mod Decode
pub mod Loop
pub mod Outcomes
pub mod Completed
mod Tests
use dify_plugin_daemon.Common.{
  ℕ, zero, suc, ◌+◌, ◌*◌, Bool, Option, none, some, List, [], ◌∷◌, ltb, ◌==◌, if◌then◌else◌, length,
}

-- The errors of io.ReadFull and io.CopyN. `broken` is any other error of the reader.
pub data ReadError : Type 0 where
  eof unexpected_eof : ReadError
  broken : ℕ → ReadError

pub record Reader : Type 0 where
  pub bytes : List ℕ
  pub fault : Option ℕ

-- A read that gets all its bytes leaves the reader behind them.
pub data Read : Type 0 where
  got : List ℕ → Reader → Read
  short : ReadError → Read

unfoldable pub prepend : ℕ → Option (List ℕ × List ℕ) → Option (List ℕ × List ℕ)
prepend b none = none
prepend b (some (front, back)) = some (b ∷ front, back)

-- The first `n` bytes and the others, where there are as many.
unfoldable pub split_at : ℕ → List ℕ → Option (List ℕ × List ℕ)
split_at zero bs = some ([], bs)
split_at (suc n) [] = none
split_at (suc n) (b ∷ bs) = prepend b (split_at n bs)

-- Why io.ReadFull got fewer bytes: only where it got none at all is the end of the input an EOF.
unfoldable pub read_full_error : List ℕ → Option ℕ → ReadError
read_full_error bytes (some fault) = broken fault
read_full_error [] none = eof
read_full_error (b ∷ bs) none = unexpected_eof

-- io.CopyN gives an EOF for each input that is too short.
unfoldable pub copy_error : Option ℕ → ReadError
copy_error (some fault) = broken fault
copy_error none = eof

unfoldable pub read_part : ReadError → Option ℕ → Option (List ℕ × List ℕ) → Read
read_part e fault none = short e
read_part e fault (some (front, back)) = got front (record { bytes = back; fault = fault })

unfoldable pub read_full : ℕ → Reader → Read
unfolding read_part read_full_error split_at
read_full n reader =
    read_part (read_full_error reader.bytes reader.fault) reader.fault (split_at n reader.bytes)

unfoldable pub copy_n : ℕ → Reader → Read
unfolding read_part copy_error split_at
copy_n n reader = read_part (copy_error reader.fault) reader.fault (split_at n reader.bytes)

-- An index of a slice that is known to be long enough.
unfoldable pub byte_at : ℕ → List ℕ → ℕ
byte_at i [] = 0
byte_at zero (b ∷ bs) = b
byte_at (suc i) (b ∷ bs) = byte_at i bs

-- binary.LittleEndian.Uint16 and Uint32, from the byte at `i` on.
unfoldable pub uint16 : ℕ → List ℕ → ℕ
unfolding byte_at
uint16 i bs = byte_at i bs + 256 * byte_at (suc i) bs

unfoldable pub uint32 : ℕ → List ℕ → ℕ
unfolding byte_at uint16
uint32 i bs = uint16 i bs + 65536 * uint16 (suc (suc i)) bs

-- The errors that the function returns. `Failure` is the error type of the processor.
pub data ChunkingError (Failure : Type 0) : Type 0 where
  no_system_header no_header no_data : ReadError → ChunkingError Failure
  magic_number_mismatch header_length_mismatch data_too_long : ℕ → ChunkingError Failure
  processing_failed : Failure → ChunkingError Failure

-- What one round reads: the normal end, an error, or a chunk and the reader behind it.
pub data Round (Failure : Type 0) : Type 0 where
  finished : Round Failure
  refused : ChunkingError Failure → Round Failure
  chunk : List ℕ → Reader → Round Failure

-- How the function ends. `stuck` is no outcome in Go: the loop ran out of fuel.
pub data Outcome (Failure : Type 0) : Type 0 where
  completed : Outcome Failure
  failed : ChunkingError Failure → Outcome Failure
  stuck : Outcome Failure

module _ {Failure : Type 0} (magic_number max_chunk_size : ℕ) where
  unfoldable pub data_read : Read → Round Failure
  data_read (short e) = refused (no_data e)
  data_read (got bytes reader) = chunk bytes reader

  unfoldable pub read_data : ℕ → Reader → Round Failure
  unfolding data_read copy_n
  read_data data_length reader =
      if ltb max_chunk_size data_length
      then refused (data_too_long data_length)
      else data_read (copy_n data_length reader)

  unfoldable pub header_read : Read → Round Failure
  unfolding read_data uint32
  header_read (short e) = refused (no_header e)
  header_read (got header reader) = read_data (uint32 0 header) reader

  -- The checks of the magic number and of the length of the header.
  unfoldable pub system_header_read : Read → Round Failure
  unfolding header_read uint16 byte_at read_full
  system_header_read (short eof) = finished
  system_header_read (short e) = refused (no_system_header e)
  system_header_read (got system_header reader) =
      if byte_at 0 system_header == magic_number
      then (if uint16 2 system_header == 0xa
          then header_read (read_full (uint16 2 system_header) reader)
          else refused (header_length_mismatch (uint16 2 system_header)))
      else refused (magic_number_mismatch (byte_at 0 system_header))

  unfoldable pub read_chunk : Reader → Round Failure
  unfolding system_header_read read_full
  read_chunk reader = system_header_read (read_full 4 reader)

module _ {State Failure : Type 0} where
  -- The loop goes on behind a chunk that the processor accepts, and ends with its error.
  unfoldable pub process_chunk :
      (Reader → State → State × Outcome Failure)
      → Reader
      → State × Option Failure
      → State × Outcome Failure
  process_chunk next rest (state, none) = next rest state
  process_chunk next rest (state, some e) = (state, failed (processing_failed e))

-- A processor is a function of a state, `State`, that the caller keeps.
module _ {State Failure : Type 0} (magic_number max_chunk_size : ℕ)
    (processor : State → List ℕ → State × Option Failure) where
  unfoldable pub end_round :
      (Reader → State → State × Outcome Failure) → Round Failure → State → State × Outcome Failure
  unfolding process_chunk
  end_round next finished state = (state, completed)
  end_round next (refused e) state = (state, failed e)
  end_round next (chunk bytes rest) state = process_chunk next rest (processor state bytes)

  unfoldable pub chunking_loop : ℕ → Reader → State → State × Outcome Failure
  unfolding end_round read_chunk
  chunking_loop zero reader state = (state, stuck)
  chunking_loop (suc fuel) reader state =
      end_round (chunking_loop fuel) (read_chunk magic_number max_chunk_size reader) state

  -- Each round but the last takes 14 bytes or more.
  unfoldable pub length_prefixed_chunking : Reader → State → State × Outcome Failure
  unfolding chunking_loop
  length_prefixed_chunking reader state = chunking_loop (suc (length reader.bytes)) reader state
