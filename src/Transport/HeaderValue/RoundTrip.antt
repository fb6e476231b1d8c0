-- ===== src/Transport/HeaderValue/RoundTrip.antt =====
-- Encoding and decoding header values.
use velocity_mcp.Bytes.Laws.{has_prefix-append, has_suffix-append, slice-append}
use velocity_mcp.Base.{All-append, append_assoc, arith, length-append, refl, subst, true, ◌++◌, ◌≡◌}
use velocity_mcp.Bytes.{AreBytes, Bytes, has_prefix, has_suffix}
use velocity_mcp.Base64
use velocity_mcp.Base64.RoundTrip.{AreVisible, decode-encode, encode-AreVisible}
use velocity_mcp.Transport.HeaderValue.{
  base64_prefix, base64_suffix, decode_header_value, encode_header_value, is_literal_header_value,
  is_sentinel_wrapped, ok, payload, wrap,
}
use velocity_mcp.Transport.HeaderValue.Literal.{is_literal-AreVisible}

AreVisible-prefix : AreVisible base64_prefix
AreVisible-prefix = omega arith

AreVisible-suffix : AreVisible base64_suffix
AreVisible-suffix = omega arith

wrap-AreVisible : (value : Bytes) → AreVisible (wrap value)
unfolding wrap
wrap-AreVisible value =
    All-append _ base64_prefix _ AreVisible-prefix
      (All-append _ (Base64.encode value) base64_suffix (encode-AreVisible value) AreVisible-suffix)

pub wrap-is_literal : (value : Bytes) → is_literal_header_value (wrap value) ≡ true
unfolding wrap
wrap-is_literal value = is_literal-AreVisible (wrap value) (λ e. cc) (wrap-AreVisible value)

wrap-is_wrapped : (value : Bytes) → is_sentinel_wrapped (wrap value) ≡ true
unfolding wrap is_sentinel_wrapped
wrap-is_wrapped value =
    let e = Base64.encode value in
    let whole = base64_prefix ++ (e ++ base64_suffix) in
    let starts : has_prefix whole base64_prefix ≡ true = has_prefix-append base64_prefix _ in
    let ends : has_suffix whole base64_suffix ≡ true =
      subst (λ t. has_suffix t base64_suffix ≡ true) (append_assoc base64_prefix e base64_suffix)
        (has_suffix-append (base64_prefix ++ e) base64_suffix) in
    rw (starts, ends) (ground (arith, length-append e base64_suffix))

payload-wrap : (value : Bytes) → payload (wrap value) ≡ Base64.encode value
unfolding wrap payload
payload-wrap value = slice-append base64_prefix (Base64.encode value) base64_suffix

-- Decoding a wrapped value is decoding its base64 payload.
pub decode-wrap : (value : Bytes) → AreBytes value → decode_header_value (wrap value) ≡ ok value
unfolding decode_header_value
decode-wrap value h =
    rw (wrap-is_literal value, wrap-is_wrapped value, payload-wrap value)
      (rw (decode-encode true value h) refl)

-- Decoding recovers every value that was encoded: the encoding is total.
pub decode-encode_header_value :
    (value : Bytes) → AreBytes value → decode_header_value (encode_header_value value) ≡ ok value
unfolding decode_header_value encode_header_value
decode-encode_header_value value h = ground (arith, decode-wrap value h)

-- What is written into a header is always a field value: it can break no header.
pub encode_header_value-is_literal :
    (value : Bytes) → is_literal_header_value (encode_header_value value) ≡ true
unfolding encode_header_value
encode_header_value-is_literal value = ground (arith, wrap-is_literal value)
