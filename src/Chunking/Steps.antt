-- ===== src/Chunking/Steps.antt =====
-- What one round of the loop reads.
use dify_plugin_daemon.Common.{
  ℕ, ◌^◌, ◌<◌, ◌≤◌, ◌≡◌, refl, ap, Option, some, List, [], ◌∷◌, ◌++◌, length, arith,
}
use dify_plugin_daemon.Chunking.{
  got, split_at, prepend, read_part, read_full, copy_n, byte_at, uint16, uint32, chunk, data_read,
  read_data, header_read, system_header_read, read_chunk,
}
use dify_plugin_daemon.Chunking.Frames.{Frame, padded, little_endian, encode_frame, Fits}

split_at-append :
    (front back : List ℕ) → split_at (length front) (front ++ back) ≡ some (front, back)
unfolding split_at prepend
split_at-append [] back = refl
split_at-append (b ∷ front) back = rw (split_at-append front back) refl

pub copy_n-append :
    (front back : List ℕ) (fault : Option ℕ)
    → copy_n (length front) (record { bytes = front ++ back; fault = fault })
      ≡ got front (record { bytes = back; fault = fault })
unfolding copy_n read_part
copy_n-append front back fault = rw (split_at-append front back) refl

-- The header with the length `n` gives `n` back.
uint32-little_endian : (n : ℕ) (rest : List ℕ) → n < 2 ^ 32 → uint32 0 (little_endian n rest) ≡ n
unfolding uint32 uint16 byte_at little_endian
uint32-little_endian n rest h = omega arith

module _ {Failure : Type 0} (magic_number max_chunk_size : ℕ) where
  -- The data of an announced length, when that many bytes follow and the length is allowed.
  read_data-append :
      (n : ℕ) (front back : List ℕ) (fault : Option ℕ)
      → n ≡ length front
      → length front ≤ max_chunk_size
      → read_data {Failure = Failure} magic_number max_chunk_size n
          (record { bytes = front ++ back; fault = fault })
        ≡ chunk front (record { bytes = back; fault = fault })
  unfolding read_data data_read
  read_data-append n front back fault e fits = ground (
    arith,
    copy_n-append front back fault,
    ap (λ (k : ℕ). copy_n k (record { bytes = front ++ back; fault = fault })) e,
  )

  -- A frame is read as its data, and the reader is left behind it.
  pub read_chunk-frame :
      (frame : Frame) (rest : List ℕ) (fault : Option ℕ)
      → max_chunk_size < 2 ^ 32
      → Fits max_chunk_size frame
      → read_chunk {Failure = Failure} magic_number max_chunk_size
          (record { bytes = encode_frame magic_number frame rest; fault = fault })
        ≡ chunk frame.data_bytes (record { bytes = rest; fault = fault })
  unfolding read_chunk system_header_read header_read read_full read_part split_at prepend byte_at
      uint16 encode_frame padded little_endian Fits
  read_chunk-frame frame rest fault small fits = ground (
    arith,
    read_data-append _ frame.data_bytes rest fault
        (uint32-little_endian (length frame.data_bytes) _ (omega arith)) fits,
  )
