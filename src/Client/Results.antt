-- ===== src/Client/Results.antt =====
-- client/results.go and client/discover.go: what a server answers the handshakes with.
pub mod Chosen
use velocity_mcp.Base.{
  Bool, List, Option, [], if◌then◌else◌, length, none, some, ◌==◌, ◌>>=◌, ◌||◌, ◌∷◌,
}
use velocity_mcp.Bytes.{Bytes, codes}
use velocity_mcp.Assoc.{lookup}
use velocity_mcp.Json.{Field, Json, Members, arr, items, null, obj, parse, parse_fields, str}
use velocity_mcp.Json.Decode.{
  RawMembers, same_field, unmarshal_any, unmarshal_members, unmarshal_string,
}
use velocity_mcp.Server.Protocol.{contains_version, protocol_v20250618, protocol_v20251125}
use velocity_mcp.Server.Meta.{meta_key_server_info}

-- The members of a struct's text: none for a null.
abbrev struct_of : Json → Option (List Field) → Option (List Field)
struct_of null fields = some []
struct_of (obj ms) fields = fields
struct_of _ fields = none

unfoldable pub struct_fields : Bytes → Option (List Field)
struct_fields s = parse s >>= λ v. struct_of v (parse_fields s)

abbrev or_earlier : Bytes → Bytes → Bytes
or_earlier [] earlier = earlier
or_earlier (c ∷ later) earlier = c ∷ later

-- A field of raw JSON: the last member of its name.
unfoldable pub raw_field : Bytes → List Field → Bytes
raw_field name [] = []
raw_field name (f ∷ fs) =
    or_earlier (raw_field name fs) (if same_field name f.name then f.raw else [])

abbrev set_string : Bytes → Json → Option Bytes
set_string old null = some old
set_string old (str s) = some s
set_string old _ = none

-- A field of type string, from its value at first.
unfoldable pub string_field : Bytes → Bytes → List Field → Option Bytes
string_field name old [] = some old
string_field name old (f ∷ fs) =
    (if same_field name f.name then set_string old f.val else some old) >>= λ new.
    string_field name new fs

pub record Implementation : Type 0 where
  pub name : Bytes
  pub version : Bytes
  pub title : Bytes
  pub description : Bytes
  pub website_url : Bytes

abbrev pub no_implementation : Implementation
no_implementation = record {
  name = [];
  version = [];
  title = [];
  description = [];
  website_url = [];
}

-- `parseImplementation`.
unfoldable pub parse_implementation : Bytes → Option Implementation
parse_implementation raw = do
  fields ← struct_fields raw
  name ← string_field (codes "name") [] fields
  version ← string_field (codes "version") [] fields
  title ← string_field (codes "title") [] fields
  description ← string_field (codes "description") [] fields
  website_url ← string_field (codes "websiteUrl") [] fields
  if length name == 0 || length version == 0
      then none
      else some (record {
        name = name;
        version = version;
        title = title;
        description = description;
        website_url = website_url;
      })

-- `decodeMember` into a string that keeps its zero value if it cannot be read.
abbrev or_no_text : Option Bytes → Bytes
or_no_text none = []
or_no_text (some s) = s

abbrev object_only : Json → Option Members
object_only (obj ms) = some ms
object_only _ = none

abbrev array_only : Json → Option (List Json)
array_only (arr vs) = some (items vs)
array_only _ = none

unfoldable pub strings_of : List Json → List Bytes
strings_of [] = []
strings_of (str s ∷ vs) = s ∷ strings_of vs
strings_of (_ ∷ vs) = strings_of vs

abbrev pub initialize_versions : List Bytes
initialize_versions = protocol_v20251125 ∷ protocol_v20250618 ∷ []

unfoldable pub supports_initialize_version : Bytes → Bool
supports_initialize_version version = contains_version initialize_versions version

pub record InitializeResult : Type 0 where
  pub protocol_version : Bytes
  pub capabilities : Members
  pub server_info : Implementation
  pub instructions : Bytes

-- What `parseInitializeResult` reads, and its check of the version that the server chose.
unfoldable pub stated_initialize_result : Bytes → Option InitializeResult
stated_initialize_result raw = do
  fields ← struct_fields raw
  capabilities ← unmarshal_any (raw_field (codes "capabilities") fields) >>= object_only
  info ← parse_implementation (raw_field (codes "serverInfo") fields)
  some (record {
    protocol_version = or_no_text (unmarshal_string (raw_field (codes "protocolVersion") fields));
    capabilities = capabilities;
    server_info = info;
    instructions = or_no_text (unmarshal_string (raw_field (codes "instructions") fields));
  })

abbrev pub supported_only : InitializeResult → Option InitializeResult
supported_only r = if supports_initialize_version r.protocol_version then some r else none

-- `parseInitializeResult`; `none` for what it refuses.
unfoldable pub parse_initialize_result : Bytes → Option InitializeResult
parse_initialize_result raw = stated_initialize_result raw >>= supported_only

pub record DiscoverResult : Type 0 where
  pub supported_versions : List Bytes
  pub capabilities : Members
  pub server_info : Implementation
  pub instructions : Bytes

abbrev identity_of : Option (Option RawMembers) → Implementation
identity_of none = no_implementation
identity_of (some none) = no_implementation
identity_of (some (some meta)) = elim (lookup meta_key_server_info meta) [
  | none ↦ no_implementation
  | some raw ↦ elim (parse_implementation raw) [ none ↦ no_implementation | some info ↦ info ]
]

-- `parseDiscoverResult`; `none` for what it refuses.
unfoldable pub parse_discover_result : Bytes → Option DiscoverResult
parse_discover_result raw = do
  fields ← struct_fields raw
  offered ← unmarshal_any (raw_field (codes "supportedVersions") fields) >>= array_only
  capabilities ← unmarshal_any (raw_field (codes "capabilities") fields) >>= object_only
  some (record {
    supported_versions = strings_of offered;
    capabilities = capabilities;
    server_info = identity_of (unmarshal_members (raw_field (codes "_meta") fields));
    instructions = or_no_text (unmarshal_string (raw_field (codes "instructions") fields));
  })
