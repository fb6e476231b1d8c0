-- ===== src/Server/Session/Tests.antt =====
-- Session ids at concrete inputs.
use velocity_mcp.Base.{refl, true, ◌++◌, ◌↔◌, ◌≡◌}
use velocity_mcp.Bytes.{Bytes, codes, equal, has_prefix, last_index}
use velocity_mcp.Bytes.Laws.{equal_iff}
use velocity_mcp.Server.Session.{
  is_visible_ascii, issued_session_id, session_tag, tag_session_id, to_hex,
}
use velocity_mcp.Server.Session.Tags.{IsIssued, issued_session_id_iff}

-- A stand-in for the HMAC.
abbrev test_sign : Bytes → Bytes → Bytes
test_sign key message = key ++ message

abbrev test_key : Bytes
test_key = codes "k"

abbrev test_id : Bytes
test_id = codes "ab.6b6162"

test_id_tagged : tag_session_id test_sign test_key (codes "ab") ≡ test_id
unfolding tag_session_id session_tag to_hex equal
test_id_tagged = refl

test_id_issued : issued_session_id test_sign equal test_key test_id ≡ true
unfolding issued_session_id session_tag to_hex equal is_visible_ascii last_index has_prefix
test_id_issued = refl

issued_session_id_iff_example :
    (issued_session_id test_sign equal test_key test_id ≡ true)
    ↔ IsIssued test_sign equal test_key test_id
issued_session_id_iff_example = issued_session_id_iff test_sign equal equal_iff test_key test_id
