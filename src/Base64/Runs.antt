-- ===== src/Base64/Runs.antt =====
-- The theorems on a text with padding.
use kan_mine.Prelude.{◌≡◌, [], ◌∷◌, some, codes, arith, refl}
use kan_mine.Base64.{letter, base64_encode, base64}
use kan_mine.Base64.RoundTrip.{decode, decode-base64_encode}
use kan_mine.Base64.Agree.{base64-base64_encode}

encoded : base64_encode (codes "Pearl") ≡ codes "UGVhcmw="
unfolding base64_encode letter
encoded = refl

decode-base64_encode_example : decode (base64_encode (80 ∷ 255 ∷ [])) ≡ some (80 ∷ 255 ∷ [])
decode-base64_encode_example = decode-base64_encode (80 ∷ 255 ∷ []) (omega arith, (omega arith, tt))

base64-base64_encode_example : base64 (codes "user:pass") ≡ base64_encode (codes "user:pass")
base64-base64_encode_example = base64-base64_encode (codes "user:pass")
