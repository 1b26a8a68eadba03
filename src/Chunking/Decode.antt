-- ===== src/Chunking/Decode.antt =====
-- Every chunk that a round reads is the data of a frame in front of the input.
use dify_plugin_daemon.Common.{
  ℕ, zero, suc, ◌+◌, ◌*◌, ◌/◌, ◌%◌, ◌≡◌, refl, sym, ap, ◌∙◌, subst, List, [], ◌∷◌, ◌++◌, length,
  arith, All,
}
use dify_plugin_daemon.Chunking.{Reader, byte_at, uint16, uint32, chunk, read_full, read_chunk}
use dify_plugin_daemon.Chunking.Frames.{Frame, padded, little_endian, encode_frame, Fits, IsByte}
use dify_plugin_daemon.Chunking.Inversion.{Took, read_part-got, header_of, system_header_of}

listing : ℕ → (ℕ → ℕ) → List ℕ
listing zero f = []
listing (suc n) f = f 0 ∷ listing n (λ i. f (suc i))

listing-byte_at : (bs : List ℕ) → bs ≡ listing (length bs) (λ i. byte_at i bs)
unfolding listing byte_at
listing-byte_at [] = refl
listing-byte_at (b ∷ bs) = ap (λ (more : List ℕ). b ∷ more) (listing-byte_at bs)

listed : (n : ℕ) (bs : List ℕ) → length bs ≡ n → bs ≡ listing n (λ i. byte_at i bs)
listed n bs e = subst (λ (k : ℕ). bs ≡ listing k (λ i. byte_at i bs)) e (listing-byte_at bs)

system_header_bytes :
    (magic_number : ℕ) (bs : List ℕ)
    → length bs ≡ 4
    → All IsByte bs
    → byte_at 0 bs ≡ magic_number
    → uint16 2 bs ≡ 10
    → bs ≡ magic_number ∷ byte_at 1 bs ∷ 10 ∷ 0 ∷ []
unfolding listing uint16
system_header_bytes magic_number bs e bytes magic size =
    let shape = listed 4 bs e in
    let bounds = subst (All IsByte) shape bytes in grind (arith, shape, magic, size, bounds)

little_endian-bytes :
    (a b c d : ℕ) (rest : List ℕ)
    → IsByte a
    → IsByte b
    → IsByte c
    → IsByte d
    → little_endian (a + 256 * b + 65536 * (c + 256 * d)) rest ≡ a ∷ b ∷ c ∷ d ∷ rest
unfolding little_endian
little_endian-bytes a b c d rest ha hb hc hd =
    let n = a + 256 * b + 65536 * (c + 256 * d) in
    let lowest : n % 256 ≡ a = omega (arith, ha) in
    let second : n / 256 % 256 ≡ b = omega (arith, ha, hb) in
    let third : n / 65536 % 256 ≡ c = omega (arith, ha, hb, hc) in
    let highest : n / 16777216 % 256 ≡ d = omega (arith, ha, hb, hc, hd) in
    rw (lowest, second, third, highest) refl

abbrev padding_of : List ℕ → ℕ × ℕ × ℕ × ℕ × ℕ × ℕ
padding_of bs = (byte_at 4 bs, byte_at 5 bs, byte_at 6 bs, byte_at 7 bs, byte_at 8 bs, byte_at 9 bs)

header_bytes :
    (bs : List ℕ)
    → length bs ≡ 10
    → All IsByte bs
    → bs ≡ little_endian (uint32 0 bs) (padded (padding_of bs) [])
unfolding listing uint16 uint32 little_endian padded
header_bytes bs e bytes =
    let shape = listed 10 bs e in
    let bounds = subst (All IsByte) shape bytes in
    shape ∙ sym (little_endian-bytes _ _ _ _ _ bounds.0 bounds.1.0 bounds.1.1.0 bounds.1.1.1.0)

pub All-front : (front back : List ℕ) → All IsByte (front ++ back) → All IsByte front
All-front [] back h = tt
All-front (b ∷ front) back h = (h.0, All-front front back h.1)

pub All-back : (front back : List ℕ) → All IsByte (front ++ back) → All IsByte back
All-back [] back h = h
All-back (b ∷ front) back h = All-back front back h.1

-- The three parts of a frame, put together.
joined :
    (magic_number : ℕ) (sys header bytes input after_sys after_header rest : List ℕ)
    → sys ≡ magic_number ∷ byte_at 1 sys ∷ 10 ∷ 0 ∷ []
    → header ≡ little_endian (uint32 0 header) (padded (padding_of header) [])
    → input ≡ sys ++ after_sys
    → after_sys ≡ header ++ after_header
    → after_header ≡ bytes ++ rest
    → length bytes ≡ uint32 0 header
    → input
      ≡ encode_frame magic_number
          (record { flags = byte_at 1 sys; padding = padding_of header; data_bytes = bytes })
          rest
unfolding encode_frame little_endian padded
joined magic_number sys header bytes input after_sys after_header rest s h i1 i2 i3 n =
    let front = ap (λ (part : List ℕ). part ++ after_sys) s in
    let middle = ap (λ (part : List ℕ). part ++ after_header) h in
    let size = ap (λ (k : ℕ). little_endian k (padded (padding_of header) (bytes ++ rest))) n in
    grind (arith, front, middle, size, i1, i2, i3)

module _ {Failure : Type 0} (magic_number max_chunk_size : ℕ) where
  -- A chunk is the data of a frame that fits, in front of what the reader still has.
  pub read_chunk-chunk :
      (reader rest : Reader) (bytes : List ℕ)
      → All IsByte reader.bytes
      → read_chunk {Failure = Failure} magic_number max_chunk_size reader ≡ chunk bytes rest
      → (frame : Frame) × (frame.data_bytes ≡ bytes)
        × Fits max_chunk_size frame
        × (reader.bytes ≡ encode_frame magic_number frame rest.bytes)
        × (rest.fault ≡ reader.fault)
  unfolding read_chunk read_full Took Fits
  read_chunk-chunk reader rest bytes good h =
      let (sys, after, sys_read, magic, size, h1) =
        system_header_of magic_number max_chunk_size (read_full 4 reader) rest bytes h in
      let (header, after', header_read, allowed, took) =
        header_of magic_number max_chunk_size (read_full 10 after) rest bytes h1 in
      let (sys_at, sys_size, sys_fault) = read_part-got 4 _ reader after sys sys_read in
      let (header_at, header_size, header_fault) =
        read_part-got 10 _ after after' header header_read in
      let (data_at, data_size, data_fault) = took in
      let good_input = subst (All IsByte) sys_at good in
      let good_after = subst (All IsByte) header_at (All-back sys after.bytes good_input) in
      let sys_shape =
        system_header_bytes magic_number sys sys_size (All-front sys after.bytes good_input) magic
          size in
      let header_shape =
        header_bytes header header_size (All-front header after'.bytes good_after) in
      (
        record { flags = byte_at 1 sys; padding = padding_of header; data_bytes = bytes },
        refl,
        omega (arith, allowed, data_size),
        joined magic_number sys header bytes reader.bytes after.bytes after'.bytes rest.bytes
            sys_shape header_shape sys_at header_at data_at data_size,
        data_fault ∙ header_fault ∙ sys_fault,
      )

pub encode_frame-IsByte :
    (magic_number : ℕ) (frame : Frame) (rest : List ℕ)
    → All IsByte (encode_frame magic_number frame rest)
    → All IsByte rest
unfolding encode_frame little_endian padded
encode_frame-IsByte magic_number frame rest h =
    let behind_header = h.1.1.1.1.1.1.1.1 in
    All-back frame.data_bytes rest behind_header.1.1.1.1.1.1
