-- ===== src/Transport/HeaderValue/Canonical.antt =====
-- A value has one wrapped spelling.
use velocity_mcp.Base.{
  All, All-drop, All-take, Bool-cases, Option, ap, arith, false, inl, inr, length, none, some, sym,
  true, ◌++◌, ◌↔◌, ◌∙◌, ◌≡◌,
}
use velocity_mcp.Bytes.{AreBytes, Bytes}
use velocity_mcp.Bytes.Laws.{slice-split}
use velocity_mcp.Base64
use velocity_mcp.Base64.Canonical.{encode-decode_quads}
use velocity_mcp.Transport.HeaderValue.{
  base64_prefix, base64_suffix, decode_header_value, is_literal_header_value, is_sentinel_wrapped,
  of_base64, ok, payload, wrap,
}
use velocity_mcp.Transport.HeaderValue.Literal.{IsField, is_literal-IsField, without_breaks-IsField}
use velocity_mcp.Transport.HeaderValue.RoundTrip.{decode-wrap}

is_sentinel_wrapped-split :
    (header : Bytes)
    → is_sentinel_wrapped header ≡ true
    → header ≡ base64_prefix ++ (payload header ++ base64_suffix)
unfolding is_sentinel_wrapped payload
is_sentinel_wrapped-split header h =
    slice-split header base64_prefix base64_suffix (ground arith) (ground arith) (ground arith)

payload-IsField :
    (header : Bytes) → is_literal_header_value header ≡ true → All IsField (payload header)
unfolding payload
payload-IsField header h =
    All-take IsField _ _
      (All-drop IsField (length base64_prefix) header (is_literal-IsField header h))

decode-payload :
    (header value : Bytes)
    → is_literal_header_value header ≡ true
    → Base64.decode true (payload header) ≡ some value
    → (Base64.encode value ≡ payload header) × AreBytes value
unfolding Base64.decode
decode-payload header value literal h =
    encode-decode_quads (payload header) value
      (rw (without_breaks-IsField (payload header) (payload-IsField header literal)) at h)

of_base64-ok : (o : Option Bytes) (value : Bytes) → of_base64 o ≡ ok value → o ≡ some value
of_base64-ok none value h = cc
of_base64-ok (some v) value h = cc

wrapped-ok :
    (header value : Bytes)
    → is_sentinel_wrapped header ≡ true
    → is_literal_header_value header ≡ true
    → of_base64 (Base64.decode true (payload header)) ≡ ok value
    → (header ≡ wrap value) × AreBytes value
unfolding wrap
wrapped-ok header value wrapped literal h =
    let (e, bytes) = decode-payload header value literal (of_base64-ok _ value h) in
    (
      is_sentinel_wrapped-split header wrapped
          ∙ ap (λ t. base64_prefix ++ (t ++ base64_suffix)) (sym e),
      bytes,
    )

-- How a header states a value: as it stands, or in its one wrapped spelling.
pub data States (header value : Bytes) : Type 0 where
  plain :
      is_literal_header_value header ≡ true
      → is_sentinel_wrapped header ≡ false
      → header ≡ value
      → States header value
  wrapped : AreBytes value → header ≡ wrap value → States header value

decode_header_value-States :
    (header value : Bytes) → decode_header_value header ≡ ok value → States header value
unfolding decode_header_value
decode_header_value-States header value h = elim (Bool-cases (is_literal_header_value header)) [
  | inr bad ↦ absurd (ground (arith, h, bad))
  | inl literal ↦ elim (Bool-cases (is_sentinel_wrapped header)) [
    | inr bare ↦ plain literal bare (ground (arith, h, literal, bare))
    | inl around ↦
        let (e, bytes) = wrapped-ok header value around literal (rw (literal, around) at h) in
        wrapped bytes e
  ]
]

States-decode_header_value :
    {header value : Bytes} → States header value → decode_header_value header ≡ ok value
States-decode_header_value {header} (plain literal bare e) =
    unfold decode_header_value in rw (literal, bare) (ap ok e)
States-decode_header_value {value} (wrapped bytes e) = rw e (decode-wrap value bytes)

-- A header is read as a value exactly when it is that value, literal and not wrapped, or it is
-- the encoder's wrapped spelling of it.
pub decode_header_value_iff :
    (header value : Bytes) → (decode_header_value header ≡ ok value) ↔ States header value
decode_header_value_iff header value =
    (decode_header_value-States header value, States-decode_header_value)
