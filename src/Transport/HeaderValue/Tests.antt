-- ===== src/Transport/HeaderValue/Tests.antt =====
-- Header values at concrete inputs.
use velocity_mcp.Base.{[], arith, ◌↔◌, ◌∷◌, ◌≡◌}
use velocity_mcp.Bytes.{AreBytes, Bytes, codes}
use velocity_mcp.Transport.HeaderValue.{decode_header_value, encode_header_value, ok}
use velocity_mcp.Transport.HeaderValue.RoundTrip.{decode-encode_header_value}
use velocity_mcp.Transport.HeaderValue.Canonical.{States, decode_header_value_iff}

abbrev title : Bytes
title = 0xC3 ∷ 0xA9 ∷ 32 ∷ []

title-AreBytes : AreBytes title
title-AreBytes = (omega arith, (omega arith, (omega arith, tt)))

decode-encode_header_value_example : decode_header_value (encode_header_value title) ≡ ok title
decode-encode_header_value_example = decode-encode_header_value title title-AreBytes

decode_header_value_iff_example :
    (decode_header_value (codes "=?base64?w6kg?=") ≡ ok title)
    ↔ States (codes "=?base64?w6kg?=") title
decode_header_value_iff_example = decode_header_value_iff (codes "=?base64?w6kg?=") title
