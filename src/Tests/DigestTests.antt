-- ===== src/Tests/DigestTests.antt =====
-- The published test vectors.
use sentin_npu.Audit.Digest
use sentin_npu.Audit.Digest.{digest, padded}
use sentin_npu.Audit.Digest.Padding.{padded-injective}
use sentin_npu.Audit.Digest.Shape.{IsHexDigit, digest-IsHexDigit}
use sentin_npu.Prelude.{◌≡◌, ◌%◌, refl, arith, codes, [], length, take, drop, All}

digest_abc :
    digest (codes "abc")
    ≡ codes "sha256:ba7816bf8f01cfea414140de5dae2223b00361a396177a9cb410ff61f20015ad"
unfolding Digest.to_be_bytes Digest.pad_zeros Digest.padded Digest.words Digest.schedule
    Digest.rounds Digest.compress Digest.blocks Digest.words_bytes Digest.sha256 Digest.hex
    Digest.digest
digest_abc = refl

digest_empty :
    digest [] ≡ codes "sha256:e3b0c44298fc1c149afbf4c8996fb92427ae41e4649b934ca495991b7852b855"
unfolding Digest.to_be_bytes Digest.pad_zeros Digest.padded Digest.words Digest.schedule
    Digest.rounds Digest.compress Digest.blocks Digest.words_bytes Digest.sha256 Digest.hex
    Digest.digest
digest_empty = refl

-- Two blocks.
digest_long :
    digest (codes "abcdbcdecdefdefgefghfghighijhijkijkljklmklmnlmnomnopnopq")
    ≡ codes "sha256:248d6a61d20638b8e5c026930c3e6039a33ce45964ff2167f6ecedd419db06c1"
unfolding Digest.to_be_bytes Digest.pad_zeros Digest.padded Digest.words Digest.schedule
    Digest.rounds Digest.compress Digest.blocks Digest.words_bytes Digest.sha256 Digest.hex
    Digest.digest
digest_long = refl

digest-IsHexDigit_example :
    (length (digest (codes "abc")) ≡ 71)
    × (take 7 (digest (codes "abc")) ≡ codes "sha256:")
    × All IsHexDigit (drop 7 (digest (codes "abc")))
digest-IsHexDigit_example = digest-IsHexDigit (codes "abc")

padded-injective_example : (length (padded (codes "abc")) % 64 ≡ 0) × (codes "abc" ≡ codes "abc")
padded-injective_example =
    padded-injective (codes "abc") (codes "abc") (omega arith) (omega arith) refl
