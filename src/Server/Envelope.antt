-- ===== src/Server/Envelope.antt =====
-- server/envelope.go: the members that the server adds to a successful result.
pub mod Hints
pub mod Tests
use velocity_mcp.Base.{
  Bool, Option, [], all, false, if◌then◌else◌, leb, length, none, not, some, ◌&&◌, ◌==◌, ◌>>=◌,
  ◌||◌,
}
use velocity_mcp.Bytes.{Bytes, codes, equal}
use velocity_mcp.Assoc.{has, insert, lookup}
use velocity_mcp.Json.Decode.{RawMembers, or_empty, unmarshal_members, unmarshal_string}
use velocity_mcp.Json.Encode.{marshal_members}
use velocity_mcp.Jsonrpc.{Request, Response, trim_space}
use velocity_mcp.Jsonrpc.Parse.{raw}
use velocity_mcp.Server.Context.{Context}
use velocity_mcp.Server.Caching.{cache_hint_for, members, zero_hint}
use velocity_mcp.Server.Meta.{key_meta, meta_key_server_info}

unfoldable pub key_result_type : Bytes
key_result_type = codes "resultType"

unfoldable pub key_ttl_ms : Bytes
key_ttl_ms = codes "ttlMs"

unfoldable pub key_cache_scope : Bytes
key_cache_scope = codes "cacheScope"

abbrev pub json_result_type_complete : Bytes
json_result_type_complete = codes "\"complete\""

-- The digits alone of an integer of zero or more.
unfoldable pub is_non_negative_integer : Bytes → Bool
is_non_negative_integer token =
    let t = trim_space token in
    if length t == 0 then false else all (λ c. leb b'0' c && leb c b'9') t

unfoldable pub is_cache_scope : Bytes → Bool
is_cache_scope token = elim (unmarshal_string token) [
  | none ↦ false
  | some scope ↦ equal scope (codes "public") || equal scope (codes "private")
]

unfoldable pub result_type_is_complete : Bytes → Bool
result_type_is_complete token = elim (unmarshal_string token) [
  | none ↦ false
  | some value ↦ equal value (codes "complete")
]

-- One switch of `applyCacheHints`: a member that is absent is set, one that the protocol does
-- not define is replaced, and any other is kept.
unfoldable pub price : Bytes → (Bytes → Bool) → Bytes → Bytes → RawMembers → RawMembers
price key defined value fallback result = elim (lookup key result) [
  | none ↦ insert key value result
  | some written ↦ if not (defined written) then insert key fallback result else result
]

unfoldable pub apply_cache_hints : Context → Request → RawMembers → RawMembers
apply_cache_hints c req result =
    if not (result_type_is_complete (raw key_result_type result))
    then result
    else elim (cache_hint_for c req) [
      | none ↦ result
      | some hint ↦
          price key_cache_scope is_cache_scope (members hint).1 (members zero_hint).1
            (price key_ttl_ms is_non_negative_integer (members hint).0 (members zero_hint).0 result)
    ]

-- The metadata that a handler wrote, where it is an object.
unfoldable pub written_meta : Bytes → RawMembers
written_meta existing =
    if length existing == 0
    then []
    else elim (unmarshal_members existing) [ none ↦ [] | some m ↦ or_empty m ]

unfoldable pub envelope_meta : Context → Bytes → Option Bytes
envelope_meta c existing =
    marshal_members (insert meta_key_server_info c.server_info (written_meta existing))

unfoldable pub with_result_type : RawMembers → RawMembers
with_result_type result =
    if not (has key_result_type result)
    then insert key_result_type json_result_type_complete result
    else result

-- The members of the decorated result; `none` where the metadata cannot be encoded.
unfoldable pub envelope_members : Context → Request → RawMembers → Option RawMembers
envelope_members c req result =
    let priced = apply_cache_hints c req (with_result_type result) in
    envelope_meta c (raw key_meta priced) >>= λ meta. some (insert key_meta meta priced)

-- The bytes of the decorated result; `none` leaves the handler's.
unfoldable pub envelope_result : Context → Request → Bytes → Option Bytes
envelope_result c req result =
    unmarshal_members result >>= λ m. m >>= λ ms. envelope_members c req ms >>= marshal_members

unfoldable pub envelope_response : Context → Request → Response → Response
envelope_response c req resp = elim resp.error [
  | some e ↦ resp
  | none ↦ if length resp.result == 0 then resp else elim (envelope_result c req resp.result) [
    | none ↦ resp
    | some encoded ↦ record resp { result = encoded }
  ]
]
