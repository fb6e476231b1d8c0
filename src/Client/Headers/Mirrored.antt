-- ===== src/Client/Headers/Mirrored.antt =====
-- The server takes the headers that a client mirrors for the body that they mirror.
use velocity_mcp.Base.{
  Bool, List, Option, [], ap, arith, false, is_some, none, refl, some, some-eq, sym, true, ◌&&◌,
  ◌∙◌, ◌∷◌, ◌≡◌, ◌≢◌,
}
use velocity_mcp.Assoc.{Assoc, insert, lookup}
use velocity_mcp.Bytes.{AreBytes, Bytes, equal}
use velocity_mcp.Transport.HeaderValue.{is_literal_header_value}
use velocity_mcp.Transport.McpHeaders.{
  Headers, header_method, header_name, header_value, mirrored_header_mismatch, reads, stated_header,
}
use velocity_mcp.Transport.McpHeaders.Mirrors.{
  Agrees, Mirrored, mirrored_header_mismatch_iff, stated, unstated,
}
use velocity_mcp.Server.Meta.{MessageInfo}
use velocity_mcp.Client.Headers.{
  client_encode_header_value, headers_of, method_header, mirrored_headers, mirrored_name,
  name_header,
}
use velocity_mcp.Client.Headers.Delivery.{
  client_encode-is_literal, decode_header_value-client_encode_header_value, trim_ows-literal,
}

abbrev one_line : Option Bytes → List Bytes
one_line none = []
one_line (some v) = v ∷ []

-- A request that states each header of a map once.
abbrev pub sends : Assoc Bytes → Headers
sends m name = one_line (lookup name m)

stated-literal :
    (h : Headers) (name line : Bytes)
    → h name ≡ line ∷ []
    → is_literal_header_value line ≡ true
    → stated_header h name ≡ reads line
unfolding stated_header
stated-literal h name line e literal = rw e (ap reads (trim_ows-literal line literal))

literal-nonempty : (s : Bytes) → is_literal_header_value s ≡ true → s ≢ []
literal-nonempty [] h q = unfold is_literal_header_value equal in cc h
literal-nonempty (c ∷ s) h q = cc q

sends-method :
    (method : Bytes) (o : Option Bytes) → sends (headers_of method o) header_method ≡ method ∷ []
unfolding headers_of lookup insert header_method method_header name_header equal
sends-method method none = refl
sends-method method (some n) = refl

sends-name :
    (method : Bytes) (o : Option Bytes)
    → sends (headers_of method o) header_name
      ≡ elim o [ none ↦ [] | some n ↦ client_encode_header_value n ∷ [] ]
unfolding headers_of lookup insert header_name method_header name_header equal
sends-name method none = refl
sends-name method (some n) = refl

method_value :
    (method : Bytes)
    → is_literal_header_value method ≡ true
    → header_value header_method method false ≡ reads method
unfolding header_value
method_value method h = rw h refl

name_value :
    (n : Bytes)
    → AreBytes n
    → header_value header_name (client_encode_header_value n) true ≡ reads n
unfolding header_value
name_value n h = rw (decode_header_value-client_encode_header_value n h) refl

headers_of-Mirrored :
    (method : Bytes) (o : Option Bytes) (info : MessageInfo) (required : Bool)
    → is_literal_header_value method ≡ true
    → ((n : Bytes) → o ≡ some n → AreBytes n)
    → info.method ≡ method
    → info.name ≡ o
    → info.requires_name ≡ is_some o
    → Mirrored (sends (headers_of method o)) info required
headers_of-Mirrored method o info required literal bytes same_method same_name named = record {
  method_agrees =
      stated method method
        (stated-literal (sends (headers_of method o)) header_method method (sends-method method o)
          literal)
        (literal-nonempty method literal) (method_value method literal)
        (λ v e. sym same_method ∙ some-eq e);
  name_agrees = go o same_name named bytes (sends-name method o);
}
  where
    go :
        (p : Option Bytes)
        → info.name ≡ p
        → info.requires_name ≡ is_some p
        → ((n : Bytes) → p ≡ some n → AreBytes n)
        → sends (headers_of method o) header_name
          ≡ elim p [ none ↦ [] | some n ↦ client_encode_header_value n ∷ [] ]
        → Agrees
            (sends (headers_of method o))
            header_name
            info.name
            (required && info.requires_name)
            true
    go none e r b line = unstated (unfold stated_header in rw line refl) (rw r (ground arith))
    go (some n) e r b line =
        stated (client_encode_header_value n) n
          (stated-literal _ header_name (client_encode_header_value n) line
            (client_encode-is_literal n))
          (literal-nonempty (client_encode_header_value n) (client_encode-is_literal n))
          (name_value n (b n refl)) (λ v q. some-eq (sym e ∙ q))

-- The headers that a client mirrors for a request are no mismatch to a server that reads the same
-- method and name in its body, if the method is a literal field value, and the body is one that
-- names a target exactly when its method requires one.
pub mirrored_header_mismatch-mirrored_headers :
    (method params : Bytes) (info : MessageInfo) (required : Bool)
    → is_literal_header_value method ≡ true
    → ((n : Bytes) → mirrored_name method params ≡ some n → AreBytes n)
    → info.method ≡ method
    → info.name ≡ mirrored_name method params
    → info.requires_name ≡ is_some (mirrored_name method params)
    → mirrored_header_mismatch (sends (mirrored_headers method params)) info required ≡ none
unfolding mirrored_headers
mirrored_header_mismatch-mirrored_headers method params info required literal bytes same_method
      same_name named =
    (mirrored_header_mismatch_iff (sends (headers_of method (mirrored_name method params))) info
        required).1
      (headers_of-Mirrored method (mirrored_name method params) info required literal bytes
        same_method same_name named)
