-- ===== src/Profile/Tests.antt =====
-- Runs of the profile checks, and their theorems at concrete inputs.
use wire_app.Common.{[], ◌∷◌, arith, ◌≡◌, refl, none, some, text, strip_prefix}
use wire_app.Common.Whitespace.{trim, trim_start, trim_end, trim_from, skip_space}
use wire_app.Profile.{sanitize_accent_color, expand_hex}
use wire_app.Profile.Base64.{
  base64_encode, base64_decode, symbol, decode_from, char_value, shift_in,
}
use wire_app.Profile.Base64.RoundTrip.{base64_decode-base64_encode}

short_accepted : sanitize_accent_color (text "  #5af ") ≡ some (text "#55AAFF")
unfolding sanitize_accent_color expand_hex strip_prefix trim trim_start trim_end trim_from
    skip_space
short_accepted = refl

bogus_refused : sanitize_accent_color (text "bogus") ≡ none
unfolding sanitize_accent_color expand_hex strip_prefix trim trim_start trim_end trim_from
    skip_space
bogus_refused = refl

padded : base64_encode (255 ∷ 16 ∷ []) ≡ text "/xA="
unfolding base64_encode symbol
padded = refl

spaced_read : base64_decode (text "/x\nA= ignored") ≡ some (255 ∷ 16 ∷ [])
unfolding base64_decode decode_from char_value shift_in
spaced_read = refl

sign_refused : base64_decode (text "/x-A") ≡ none
unfolding base64_decode decode_from char_value shift_in
sign_refused = refl

base64_decode-base64_encode_example :
    base64_decode (base64_encode (255 ∷ 0 ∷ 137 ∷ 80 ∷ 7 ∷ [])) ≡ some (255 ∷ 0 ∷ 137 ∷ 80 ∷ 7 ∷ [])
base64_decode-base64_encode_example =
    base64_decode-base64_encode (255 ∷ 0 ∷ 137 ∷ 80 ∷ 7 ∷ [])
      (omega arith, (omega arith, (omega arith, (omega arith, (omega arith, tt)))))
