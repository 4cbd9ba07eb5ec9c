-- ===== src/Percent/Tests.antt =====
-- The encoding of a concrete text.
use rust_rtb_bidder.Base.{◌≡◌, refl}
use rust_rtb_bidder.Percent.{
  utf8, as_bytes, as_char, is_safe, hex_digit, encode_byte, encode_bytes, percent_encode,
}

encodes : percent_encode "a&é" ≡ "a%26%C3%A9"
unfolding percent_encode encode_bytes encode_byte hex_digit is_safe as_char as_bytes utf8
encodes = refl
