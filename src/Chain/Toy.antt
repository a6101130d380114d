-- ===== src/Chain/Toy.antt =====
-- A digest to run the chain of storage/evidence_chain.py with.
use linux_xai_security_assis.Base.{
  ℕ, zero, suc, ◌+◌, ◌*◌, ◌/◌, ◌%◌, ◌^◌, ◌≡◌, refl, [], ◌∷◌, arith, Text, All, length, ltb,
  if◌then◌else◌,
}
use linux_xai_security_assis.Chain.Writer.{IsHexDigit, IsHexDigest}

-- A checksum in the shape of a digest stands in for SHA-256.
checksum : ℕ → Text → ℕ
checksum acc [] = acc
checksum acc (c ∷ cs) = checksum ((acc * 257 + c) % 2 ^ 60) cs

hex_digits : ℕ → ℕ → Text
hex_digits zero n = []
hex_digits (suc k) n =
    (if ltb (n % 16) 10 then 48 + n % 16 else 87 + n % 16) ∷ hex_digits k (n / 16)

unfoldable pub toy_sha256 : Text → Text
unfolding checksum hex_digits
toy_sha256 t = hex_digits 64 (checksum 7 t)

length-hex_digits : (k n : ℕ) → length (hex_digits k n) ≡ k
unfolding hex_digits
length-hex_digits zero n = refl
length-hex_digits (suc k) n = ground (arith, length-hex_digits k (n / 16))

hex_digits-IsHexDigit : (k n : ℕ) → All IsHexDigit (hex_digits k n)
unfolding hex_digits
hex_digits-IsHexDigit zero n = tt
hex_digits-IsHexDigit (suc k) n = (ground arith, hex_digits-IsHexDigit k (n / 16))

pub toy-IsHexDigest : IsHexDigest toy_sha256
unfolding toy_sha256
toy-IsHexDigest = record {
  size = λ t. length-hex_digits 64 (checksum 7 t);
  digits = λ t. hex_digits-IsHexDigit 64 (checksum 7 t);
}
