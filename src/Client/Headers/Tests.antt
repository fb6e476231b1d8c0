-- ===== src/Client/Headers/Tests.antt =====
-- Client headers at concrete inputs.
use velocity_mcp.Base.{
  [], ap, arith, false, is_some, none, refl, some, some-eq, sym, true, ◌∙◌, ◌∷◌, ◌≡◌,
}
use velocity_mcp.Bytes.{AreBytes, Bytes, codes, equal}
use velocity_mcp.Jsonrpc.Parse.Tests.{parser}
use velocity_mcp.Transport.HeaderValue.{is_literal_header_value, literal_from}
use velocity_mcp.Transport.McpHeaders.{mirrored_header_mismatch}
use velocity_mcp.Server.Meta.{MessageInfo}
use velocity_mcp.Client.Headers.{mirrored_headers, mirrored_name, name_key_for}
use velocity_mcp.Client.Headers.Mirrored.{mirrored_header_mismatch-mirrored_headers, sends}

abbrev accented : Bytes
accented = 0xC3 ∷ 0xA9 ∷ []

accented-AreBytes : AreBytes accented
accented-AreBytes = (omega arith, (omega arith, tt))

abbrev call_params : Bytes
call_params = codes "{\"name\":\"\\u00e9\"}"

named_accented : mirrored_name (codes "tools/call") call_params ≡ some accented
unfolding parser mirrored_name name_key_for
named_accented = refl

named-AreBytes : (n : Bytes) → mirrored_name (codes "tools/call") call_params ≡ some n → AreBytes n
named-AreBytes n e =
    let same : accented ≡ n = some-eq (sym named_accented ∙ e) in rw (sym same) accented-AreBytes

abbrev call_info : MessageInfo
call_info = record {
  id = codes "1";
  method = codes "tools/call";
  legacy = false;
  protocol_version = none;
  name = some accented;
  requires_name = true;
}

method_is_literal : is_literal_header_value (codes "tools/call") ≡ true
unfolding is_literal_header_value literal_from equal
method_is_literal = refl

names_target : true ≡ is_some (mirrored_name (codes "tools/call") call_params)
names_target = ap is_some (sym named_accented)

mirrored_header_mismatch-mirrored_headers_example :
    mirrored_header_mismatch
      (sends (mirrored_headers (codes "tools/call") call_params))
      call_info
      true
    ≡ none
mirrored_header_mismatch-mirrored_headers_example =
    mirrored_header_mismatch-mirrored_headers (codes "tools/call") call_params call_info true
      method_is_literal named-AreBytes refl (sym named_accented) names_target
