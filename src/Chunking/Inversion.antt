-- ===== src/Chunking/Inversion.antt =====
-- What the input looks like when a round has read a chunk.
use dify_plugin_daemon.Common.{
  ℕ, zero, suc, ◌≤◌, ◌≡◌, refl, Option, none, some, List, [], ◌∷◌, ◌++◌, length, arith,
  Option-cases, inl, inr,
}
use dify_plugin_daemon.Chunking.{
  Reader, Read, ReadError, got, short, eof, unexpected_eof, broken, split_at, prepend, read_part,
  read_full, copy_n, copy_error, byte_at, uint16, uint32, chunk, data_read, read_data, header_read,
  system_header_read,
}

prepend-some :
    (b : ℕ) (o : Option (List ℕ × List ℕ)) (front back : List ℕ)
    → prepend b o ≡ some (front, back)
    → (more : List ℕ) × (o ≡ some (more, back)) × (front ≡ b ∷ more)
unfolding prepend
prepend-some b none front back e = cc
prepend-some b (some (more, others)) front back e = (more, grind arith, grind arith)

pub split_at-some :
    (n : ℕ) (bs front back : List ℕ)
    → split_at n bs ≡ some (front, back)
    → (bs ≡ front ++ back) × (length front ≡ n)
unfolding split_at
split_at-some zero bs front back e = grind arith
split_at-some (suc n) [] front back e = cc
split_at-some (suc n) (b ∷ bs) front back e =
    let (more, split, joined) = prepend-some b (split_at n bs) front back e in
    grind (arith, split_at-some n bs more back split)

-- A read that got its bytes, `front`, took them from the front of the input.
unfoldable pub Took : ℕ → Reader → List ℕ → Reader → Type 0
Took n reader front rest =
    (reader.bytes ≡ front ++ rest.bytes) × (length front ≡ n) × (rest.fault ≡ reader.fault)

pub read_part-got :
    (n : ℕ) (e : ReadError) (reader rest : Reader) (front : List ℕ)
    → read_part e reader.fault (split_at n reader.bytes) ≡ got front rest
    → Took n reader front rest
unfolding Took read_part
read_part-got n e reader rest front h = elim (Option-cases (split_at n reader.bytes)) [
  | inl missing ↦ grind (arith, missing, h)
  | inr ((front', back), split) ↦
      grind (arith, split, h, split_at-some n reader.bytes front' back split)
]

module _ {Failure : Type 0} (magic_number max_chunk_size : ℕ) where
  data_of :
      (read : Read) (bytes : List ℕ) (rest : Reader)
      → data_read {Failure = Failure} magic_number max_chunk_size read ≡ chunk bytes rest
      → read ≡ got bytes rest
  unfolding data_read
  data_of (short e) bytes rest h = cc
  data_of (got front reader) bytes rest h = cc

  read_data-chunk :
      (n : ℕ) (reader rest : Reader) (bytes : List ℕ)
      → read_data {Failure = Failure} magic_number max_chunk_size n reader ≡ chunk bytes rest
      → (n ≤ max_chunk_size) × Took n reader bytes rest
  unfolding read_data copy_n
  read_data-chunk n reader rest bytes h = ground (
    arith,
    h,
    data_of (copy_n n reader) bytes rest,
    read_part-got n (copy_error reader.fault) reader rest bytes,
  )

  pub header_of :
      (read : Read) (rest : Reader) (bytes : List ℕ)
      → header_read {Failure = Failure} magic_number max_chunk_size read ≡ chunk bytes rest
      → (header : List ℕ) × (after : Reader) × (read ≡ got header after)
        × (uint32 0 header ≤ max_chunk_size)
        × Took (uint32 0 header) after bytes rest
  unfolding header_read
  header_of (short e) rest bytes h = cc
  header_of (got header after) rest bytes h =
      let (allowed, took) = read_data-chunk (uint32 0 header) after rest bytes h in
      (header, after, refl, allowed, took)

  pub system_header_of :
      (read : Read) (rest : Reader) (bytes : List ℕ)
      → system_header_read {Failure = Failure} magic_number max_chunk_size read ≡ chunk bytes rest
      → (system_header : List ℕ) × (after : Reader) × (read ≡ got system_header after)
        × (byte_at 0 system_header ≡ magic_number)
        × (uint16 2 system_header ≡ 10)
        × (header_read {Failure = Failure} magic_number max_chunk_size (read_full 10 after)
            ≡ chunk bytes rest)
  unfolding system_header_read
  system_header_of (short eof) rest bytes h = cc
  system_header_of (short unexpected_eof) rest bytes h = cc
  system_header_of (short (broken n)) rest bytes h = cc
  system_header_of (got system_header after) rest bytes h =
      (system_header, after, refl, ground arith, ground arith, ground arith)
