-- ===== src/Compress/Compressor.antt =====
-- crates/remoteway-compress/src/compressor.rs and the wrappers of lz4.rs. The crates lz4_flex and
-- zstd are not of this repository: their functions are the fields of `Codecs`.
use remote_way.Prelude.{◌≡◌, refl, List, ℕ, Option, none, some}

pub data CompressorError : Type 0 where
  lz4 zstd : CompressorError

pub data Result {ℓ} (A : Type ℓ) : Type ℓ where
  ok : A → Result A
  err : CompressorError → Result A

-- `uncompressed` is the variant `None`.
pub data CompressorKind : Type 0 where
  uncompressed lz4 zstd : CompressorKind

-- `none` is an error of the codec.
pub record Codecs : Type 0 where
  pub lz4_compress : List ℕ → List ℕ
  pub lz4_decompress : List ℕ → Option (List ℕ)
  pub zstd_encode : List ℕ → Option (List ℕ)
  pub zstd_decode : List ℕ → Option (List ℕ)

-- The codecs are lossless, and encoding in memory does not fail.
pub record Lossless (c : Codecs) : Type 0 where
  pub lz4_back : (bytes : List ℕ) → c.lz4_decompress (c.lz4_compress bytes) ≡ some bytes
  pub zstd_back :
      (bytes packed : List ℕ)
      → c.zstd_encode bytes ≡ some packed
      → c.zstd_decode packed ≡ some bytes
  pub zstd_total : (bytes : List ℕ) → (packed : List ℕ) × (c.zstd_encode bytes ≡ some packed)

abbrev pub or_fail : CompressorError → Option (List ℕ) → Result (List ℕ)
or_fail e none = err e
or_fail e (some bytes) = ok bytes

module _ (c : Codecs) where
  unfoldable pub compress : CompressorKind → List ℕ → Result (List ℕ)
  compress CompressorKind.uncompressed bytes = ok bytes
  compress CompressorKind.lz4 bytes = ok (c.lz4_compress bytes)
  compress CompressorKind.zstd bytes = or_fail CompressorError.zstd (c.zstd_encode bytes)

  unfoldable pub decompress : CompressorKind → List ℕ → Result (List ℕ)
  decompress CompressorKind.uncompressed bytes = ok bytes
  decompress CompressorKind.lz4 bytes = or_fail CompressorError.lz4 (c.lz4_decompress bytes)
  decompress CompressorKind.zstd bytes = or_fail CompressorError.zstd (c.zstd_decode bytes)

  -- With lossless codecs each kind compresses any bytes without an error, and decompresses them to
  -- what they were.
  pub decompress-compress :
      (kind : CompressorKind) (bytes : List ℕ)
      → Lossless c
      → (packed : List ℕ) × (compress kind bytes ≡ ok packed) × (decompress kind packed ≡ ok bytes)
  unfolding compress decompress
  decompress-compress CompressorKind.uncompressed bytes l = (bytes, refl, refl)
  decompress-compress CompressorKind.lz4 bytes l =
      (c.lz4_compress bytes, refl, rw (l.lz4_back bytes))
  decompress-compress CompressorKind.zstd bytes l =
      let (packed, e) = l.zstd_total bytes in (packed, rw e, rw (l.zstd_back bytes packed e))
