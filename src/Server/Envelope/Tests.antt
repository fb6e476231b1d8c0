-- ===== src/Server/Envelope/Tests.antt =====
-- Envelopes at concrete inputs.
use velocity_mcp.Base.{[], refl, some, true, ◌∷◌, ◌≡◌}
use velocity_mcp.Bytes.{codes}
use velocity_mcp.Json.Decode.{RawMembers}
use velocity_mcp.Json.Number.{non_negative}
use velocity_mcp.Jsonrpc.{Request, version}
use velocity_mcp.Jsonrpc.Parse.{raw}
use velocity_mcp.Jsonrpc.Parse.Tests.{parser}
use velocity_mcp.Server.Context.{CacheHint, Context, public}
use velocity_mcp.Server.Caching.{cache_hint_for, declared_hint, is_cacheable, param_members}
use velocity_mcp.Server.Envelope.{apply_cache_hints, key_result_type, result_type_is_complete}
use velocity_mcp.Server.Envelope.Hints.{IsPriced, apply_cache_hints-IsPriced}
use velocity_mcp.Server.Handle.Tests.{test_context}

abbrev public_hint : CacheHint
public_hint = record { ttl = non_negative 5000000; scope = public }

abbrev cached_context : Context
cached_context = record (test_context []) { cache_hint = some public_hint }

abbrev list_request : Request
list_request = record {
  jsonrpc = version;
  id = record { raw = codes "1" };
  method = codes "tools/list";
  params = [];
}

abbrev list_result : RawMembers
list_result = (codes "resultType", codes "\"complete\"") ∷ (codes "ttlMs", codes "-1") ∷ []

list_hint : cache_hint_for cached_context list_request ≡ some public_hint
unfolding parser cache_hint_for is_cacheable param_members declared_hint
list_hint = refl

list_complete : result_type_is_complete (raw key_result_type list_result) ≡ true
unfolding parser result_type_is_complete key_result_type
list_complete = refl

apply_cache_hints-IsPriced_example :
    IsPriced public_hint list_result (apply_cache_hints cached_context list_request list_result)
apply_cache_hints-IsPriced_example =
    apply_cache_hints-IsPriced cached_context list_request list_result public_hint list_complete
      list_hint
