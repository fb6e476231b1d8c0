-- ===== src/Client/Headers/Delivery.antt =====
-- What a client writes into its headers, the server reads.
use velocity_mcp.Base.{
  Bool-cases, [], ap, ap₂, arith, false, if◌then◌else◌, inl, inr, length, not, refl, suc, sym, true,
  ℕ, ◌&&◌, ◌+◌, ◌-◌, ◌==◌, ◌∙◌, ◌∷◌, ◌≡◌,
}
use velocity_mcp.Bytes.{AreBytes, Bytes, equal, trim, trim_left, trim_right}
use velocity_mcp.Transport.HeaderValue.{
  decode_header_value, is_literal_header_value, is_sentinel_wrapped, literal_byte, literal_from, ok,
  spacing, trim_ows, wrap,
}
use velocity_mcp.Transport.HeaderValue.RoundTrip.{decode-wrap, wrap-is_literal}
use velocity_mcp.Client.Headers.{
  client_encode_header_value, is_base64_header_value, is_printable_field_value, printable_byte,
  printable_from,
}

printable_from-literal_from : (i n : ℕ) (s : Bytes) → printable_from i n s ≡ literal_from i n s
unfolding printable_from literal_from
printable_from-literal_from i n [] = refl
printable_from-literal_from i n (b ∷ s) =
    ap₂ (λ x y. x && y) (same_byte i n b) (printable_from-literal_from (suc i) n s)
  where
    same_byte : (i n b : ℕ) → printable_byte i n b ≡ literal_byte i n b
    same_byte i n b = ground arith

is_printable-is_literal : (s : Bytes) → is_printable_field_value s ≡ is_literal_header_value s
unfolding is_printable_field_value is_literal_header_value
is_printable-is_literal s =
    ap (λ b. if equal s [] then false else b) (printable_from-literal_from 0 (length s) s)

-- The server reads a value that the client encoded.
pub decode_header_value-client_encode_header_value :
    (value : Bytes)
    → AreBytes value
    → decode_header_value (client_encode_header_value value) ≡ ok value
unfolding client_encode_header_value
decode_header_value-client_encode_header_value value bytes =
    elim (Bool-cases (not (is_base64_header_value value) && is_printable_field_value value)) [
      | inr e ↦ rw e (unfold wrap in decode-wrap value bytes)
      | inl e ↦
          let literal : is_literal_header_value value ≡ true =
            sym (is_printable-is_literal value) ∙ (ground (arith, e)) in
          let bare : is_sentinel_wrapped value ≡ false =
            unfold is_sentinel_wrapped is_base64_header_value in ground (arith, e) in
          rw e (unfold decode_header_value in rw (literal, bare) refl)
    ]

pub client_encode-is_literal :
    (value : Bytes) → is_literal_header_value (client_encode_header_value value) ≡ true
unfolding client_encode_header_value
client_encode-is_literal value =
    elim (Bool-cases (not (is_base64_header_value value) && is_printable_field_value value)) [
      | inr e ↦ rw e (unfold wrap in wrap-is_literal value)
      | inl e ↦ rw e (sym (is_printable-is_literal value) ∙ (ground (arith, e)))
    ]

-- The edges of a literal value are no spacing, so that trimming leaves it.
trim_right-literal :
    (i n : ℕ) (s : Bytes) → i + length s ≡ n → literal_from i n s ≡ true → trim_right spacing s ≡ s
unfolding literal_from trim_right
trim_right-literal i n [] e h = refl
trim_right-literal i n (c ∷ []) e h =
    let last : (i == n - 1) ≡ true = ground (arith, e) in
    let bare : spacing c ≡ false = ground (arith, h, last) in rw bare refl
trim_right-literal i n (c ∷ d ∷ s) e h =
    rw (trim_right-literal (suc i) n (d ∷ s) (omega (arith, e)) (ground (arith, h))) refl

pub trim_ows-literal : (s : Bytes) → is_literal_header_value s ≡ true → trim_ows s ≡ s
unfolding trim_ows trim is_literal_header_value literal_from trim_left
trim_ows-literal [] h = absurd (unfold equal in cc h)
trim_ows-literal (c ∷ s) h =
    let filled : equal (c ∷ s) [] ≡ false = unfold equal in refl in
    let whole : literal_from 0 (length (c ∷ s)) (c ∷ s) ≡ true = rw filled at h in
    let bare : spacing c ≡ false = ground (arith, whole) in
    rw bare (trim_right-literal 0 (length (c ∷ s)) (c ∷ s) (omega arith) whole)
