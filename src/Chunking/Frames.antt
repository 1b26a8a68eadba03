-- ===== src/Chunking/Frames.antt =====
-- The format that the comment above LengthPrefixedChunking in pkg/utils/parser/chunking.go gives, as
-- an encoder that is independent of the reader.
use dify_plugin_daemon.Common.{
  ℕ, ◌/◌, ◌%◌, ◌<◌, ◌≤◌, Option, none, some, List, [], ◌∷◌, ◌++◌, length,
}

-- A message: its data, and the seven reserved bytes, which may be anything.
pub record Frame : Type 0 where
  pub flags : ℕ
  pub padding : ℕ × ℕ × ℕ × ℕ × ℕ × ℕ
  pub data_bytes : List ℕ

unfoldable pub padded : ℕ × ℕ × ℕ × ℕ × ℕ × ℕ → List ℕ → List ℕ
padded (a, b, c, d, e, f) rest = a ∷ b ∷ c ∷ d ∷ e ∷ f ∷ rest

-- A length in four bytes, lowest first.
unfoldable pub little_endian : ℕ → List ℕ → List ℕ
little_endian n rest = (n % 256) ∷ (n / 256 % 256) ∷ (n / 65536 % 256) ∷ (n / 16777216 % 256) ∷ rest

-- The bytes of a frame in front of `rest`.
unfoldable pub encode_frame : ℕ → Frame → List ℕ → List ℕ
unfolding padded little_endian
encode_frame magic_number frame rest =
    magic_number
    ∷ frame.flags
    ∷ 10
    ∷ 0
    ∷ little_endian (length frame.data_bytes) (padded frame.padding (frame.data_bytes ++ rest))

unfoldable pub encode_frames : ℕ → List Frame → List ℕ → List ℕ
unfolding encode_frame
encode_frames magic_number [] rest = rest
encode_frames magic_number (frame ∷ frames) rest =
    encode_frame magic_number frame (encode_frames magic_number frames rest)

unfoldable pub Fits : ℕ → Frame → Type 0
Fits max_chunk_size frame = length frame.data_bytes ≤ max_chunk_size

module _ {State Failure : Type 0} where
  unfoldable pub go_on :
      (State → State × Option Failure) → State × Option Failure → State × Option Failure
  go_on next (state, some e) = (state, some e)
  go_on next (state, none) = next state

-- The processor on one chunk after another, until it fails.
module _ {State Failure : Type 0} (processor : State → List ℕ → State × Option Failure) where
  unfoldable pub process_all : List Frame → State → State × Option Failure
  unfolding go_on
  process_all [] state = (state, none)
  process_all (frame ∷ frames) state = go_on (process_all frames) (processor state frame.data_bytes)

abbrev pub IsByte : ℕ → Type 0
IsByte b = b < 256
