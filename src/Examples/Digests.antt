-- ===== src/Examples/Digests.antt =====
-- A digest that is known, and its form.
use runi.Prelude.{◌≡◌, ◌≢◌, refl, ap, arith, bytes, length}
use runi.Sha256.{sha256, padded}
use runi.Sha256.Shape.{AllHex, sha256-AllHex, padded_distinct}

digest_of_abc :
    sha256 (bytes "abc") ≡ bytes "ba7816bf8f01cfea414140de5dae2223b00361a396177a9cb410ff61f20015ad"
unfolding sha256 bytes
digest_of_abc = refl

sha256-AllHex_example : (length (sha256 (bytes "abc")) ≡ 64) × AllHex (sha256 (bytes "abc"))
sha256-AllHex_example = sha256-AllHex (bytes "abc")

padded_distinct_example : padded (bytes "ab") ≢ padded (bytes "abc")
unfolding bytes
padded_distinct_example =
    padded_distinct (bytes "ab") (bytes "abc") (omega arith) (omega arith)
      λ e. let sizes = ap length e in omega arith
