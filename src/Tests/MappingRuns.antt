-- ===== src/Tests/MappingRuns.antt =====
-- Runs of the digests and of the table of verification.
use db_sanitizer.Base.{◌≡◌, ◌⊎◌, refl, arith}
use db_sanitizer.Base.Text.{codes}
use db_sanitizer.Errors.{ok}
use db_sanitizer.Mapping.HmacKey.{encode, source_hmac}
use db_sanitizer.Mapping.HmacKey.Payload.{PayloadsCollide, source_hmac-separates}
use db_sanitizer.Tests.Samples.{crypto, secret, hex}

digested : source_hmac crypto secret (codes "g") (codes "x") ≡ ok (hex (codes "a"))
unfolding source_hmac encode
digested = refl

source_hmac-separates_example :
    ((codes "g" ≡ codes "g") × (codes "x" ≡ codes "x"))
    ⊎ PayloadsCollide crypto secret (codes "g") (codes "x") (codes "g") (codes "x")
source_hmac-separates_example =
    source_hmac-separates crypto secret (codes "g") (codes "g") (codes "x") (codes "x")
      (hex (codes "a")) (omega arith, tt) (omega arith, tt)
      (omega arith, (omega arith, (omega arith, tt)))
      (omega arith, (omega arith, (omega arith, tt))) digested digested
