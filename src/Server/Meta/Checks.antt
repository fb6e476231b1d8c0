-- ===== src/Server/Meta/Checks.antt =====
-- Which requests pass the check of the protocol metadata, and what the others are told.
use velocity_mcp.Base.{
  Bool-cases, List, Option-cases, ap, arith, false, inl, inr, none, none-ne-some, refl, some,
  some-eq, subst, sym, true, ◌||◌, ◌↔◌, ◌≡◌, ◌⊎◌,
}
use velocity_mcp.Bytes.{Bytes, codes}
use velocity_mcp.Jsonrpc.{Error, Request, code_invalid_params, code_unsupported_protocol_version}
use velocity_mcp.Server.Protocol.{
  contains_version, default_versions, initialize_supported_versions, spoken_protocol_versions,
}
use velocity_mcp.Json.{arr, end, member, obj, str}
use velocity_mcp.Server.Protocol.Versions.{NoRepeat, spoken_protocol_versions_lem}
use velocity_mcp.Server.Meta.Validate.{
  check_meta, check_version, missing_protocol_version_error, strings,
  unsupported_protocol_version_error, validate_protocol_meta,
}
use velocity_mcp.Server.Meta.{
  is_legacy_meta, is_legacy_request, is_object_member, meta_key_client_capabilities,
  meta_key_protocol_version, meta_raw, request_meta, requires_protocol_meta, string_member,
}

-- A request that restates, in its metadata, a version that the server accepts and an object of
-- client capabilities.
pub record Declares (versions : List Bytes) (req : Request) : Type 0 where
  pub stated : Bytes
  pub states : string_member (meta_raw meta_key_protocol_version (request_meta req)) ≡ some stated
  pub is_accepted : contains_version versions stated ≡ true
  pub capable : is_object_member (meta_raw meta_key_client_capabilities (request_meta req)) ≡ true

-- A request of a client that predates the metadata: it carries neither member, and its method is
-- not one that arrived with them.
pub record IsLegacy (req : Request) : Type 0 where
  pub no_meta : is_legacy_meta (request_meta req) ≡ true
  pub older_method : requires_protocol_meta req.method ≡ false

is_legacy_request-IsLegacy :
    (req : Request) → is_legacy_request req.method (request_meta req) ≡ true → IsLegacy req
unfolding is_legacy_request
is_legacy_request-IsLegacy req h = ground arith

IsLegacy-is_legacy_request :
    (req : Request) → IsLegacy req → is_legacy_request req.method (request_meta req) ≡ true
unfolding is_legacy_request
IsLegacy-is_legacy_request req h = ground arith

check_version-none :
    (versions : List Bytes) (v : Bytes)
    → check_version versions v ≡ none
    → contains_version versions v ≡ true
unfolding check_version
check_version-none versions v h = ground arith

check_meta-none :
    (versions : List Bytes) (req : Request)
    → check_meta versions (request_meta req) ≡ none
    → Declares versions req
unfolding check_meta
check_meta-none versions req h =
    elim (Option-cases (string_member (meta_raw meta_key_protocol_version (request_meta req)))) [
      | inl e ↦ absurd (none-ne-some (sym (rw (e, check_meta) at h)))
      | inr (v, e) ↦
          let k = rw (e, check_meta) at h in
          elim (Bool-cases
            (is_object_member (meta_raw meta_key_client_capabilities (request_meta req)))) [
              | inr f ↦ absurd (none-ne-some (sym (rw f at k)))
              | inl f ↦ record {
                stated = v;
                states = e;
                is_accepted = check_version-none versions v (rw f at k);
                capable = f;
              }
            ]
    ]

Declares-check_meta :
    (versions : List Bytes) (req : Request)
    → Declares versions req
    → check_meta versions (request_meta req) ≡ none
unfolding check_meta check_version
Declares-check_meta versions req d = rw (d.states, check_meta, d.capable, d.is_accepted)

validate_sound :
    (versions : List Bytes) (req : Request)
    → validate_protocol_meta versions req ≡ none
    → IsLegacy req ⊎ Declares versions req
unfolding validate_protocol_meta
validate_sound versions req h =
    elim (Bool-cases (is_legacy_request req.method (request_meta req))) [
      | inl e ↦ inl (is_legacy_request-IsLegacy req e)
      | inr e ↦ inr (check_meta-none versions req (rw e at h))
    ]

validate_complete :
    (versions : List Bytes) (req : Request)
    → IsLegacy req ⊎ Declares versions req
    → validate_protocol_meta versions req ≡ none
unfolding validate_protocol_meta
validate_complete versions req (inl l) = rw (IsLegacy-is_legacy_request req l)
validate_complete versions req (inr d) = ground (arith, Declares-check_meta versions req d)

-- The check passes a request exactly when it is a legacy one or declares an accepted version and
-- its capabilities.
pub validate_protocol_meta_iff :
    (versions : List Bytes) (req : Request)
    → (validate_protocol_meta versions req ≡ none) ↔ (IsLegacy req ⊎ Declares versions req)
validate_protocol_meta_iff versions req =
    (validate_sound versions req, validate_complete versions req)

check_version-code :
    (versions : List Bytes) (v : Bytes) (e : Error)
    → check_version versions v ≡ some e
    → (contains_version versions v ≡ false)
      × (((e.code ≡ code_invalid_params)
            × (contains_version initialize_supported_versions v ≡ true))
          ⊎ ((e ≡ unsupported_protocol_version_error versions v)
              × (contains_version initialize_supported_versions v ≡ false)))
unfolding check_version
check_version-code versions v e h = ground arith

-- The error that lists the versions spoken in metadata and in the handshake, each once, and the one
-- requested.
pub record NamesSpoken (versions : List Bytes) (v : Bytes) (e : Error) : Type 0 where
  pub names : List Bytes
  pub coded : e.code ≡ code_unsupported_protocol_version
  pub lists :
      e.payload
      ≡ some (
          obj (
            member
              (codes "supported")
              (arr (strings names))
              (member (codes "requested") (str v) end)))
  pub once : NoRepeat names
  pub spoken :
      (w : Bytes)
      → contains_version names w ≡ (
          contains_version (default_versions versions) w
          || contains_version initialize_supported_versions w)

unsupported-NamesSpoken :
    (versions : List Bytes) (v : Bytes)
    → NamesSpoken versions v (unsupported_protocol_version_error versions v)
unfolding unsupported_protocol_version_error
unsupported-NamesSpoken versions v = record {
  names = spoken_protocol_versions versions;
  coded = refl;
  lists = refl;
  once = (spoken_protocol_versions_lem versions).0;
  spoken = (spoken_protocol_versions_lem versions).1;
}

-- Why a request is refused: a metadata member is missing, ill-typed or misplaced, or the version
-- stated is one that the server speaks in no form.
pub data MetaRefusal (versions : List Bytes) (req : Request) (e : Error) : Type 0 where
  malformed : e.code ≡ code_invalid_params → MetaRefusal versions req e
  unsupported :
      (v : Bytes)
      → string_member (meta_raw meta_key_protocol_version (request_meta req)) ≡ some v
      → NamesSpoken versions v e
      → contains_version versions v ≡ false
      → contains_version initialize_supported_versions v ≡ false
      → MetaRefusal versions req e

stated_refused :
    (versions : List Bytes) (req : Request) (e : Error) (v : Bytes)
    → string_member (meta_raw meta_key_protocol_version (request_meta req)) ≡ some v
    → check_version versions v ≡ some e
    → MetaRefusal versions req e
stated_refused versions req e v states h =
    let (outside, why) = check_version-code versions v e h in
    elim why [
      | inl (code, offered) ↦ malformed code
      | inr (is_e, unoffered) ↦
          unsupported v states
            (subst (NamesSpoken versions v) (sym is_e) (unsupported-NamesSpoken versions v)) outside
            unoffered
    ]

check_meta-refuses :
    (versions : List Bytes) (req : Request) (e : Error)
    → check_meta versions (request_meta req) ≡ some e
    → MetaRefusal versions req e
unfolding check_meta missing_protocol_version_error
check_meta-refuses versions req e h =
    elim (Option-cases (string_member (meta_raw meta_key_protocol_version (request_meta req)))) [
      | inl q ↦ malformed (ap (λ (x : Error). x.code) (sym (some-eq (rw (q, check_meta) at h))))
      | inr (v, q) ↦
          let k = rw (q, check_meta) at h in
          elim (Bool-cases
            (is_object_member (meta_raw meta_key_client_capabilities (request_meta req)))) [
              | inr f ↦ malformed (ap (λ (x : Error). x.code) (sym (some-eq (rw f at k))))
              | inl f ↦ stated_refused versions req e v q (rw f at k)
            ]
    ]

-- A request is refused as naming an unsupported version only if the version that it states is
-- one that the server speaks in no form, and the error then lists those that it does speak, which
-- are those of its metadata and of the handshake, each once. Every other refusal is of invalid params.
pub validate_protocol_meta-MetaRefusal :
    (versions : List Bytes) (req : Request) (e : Error)
    → validate_protocol_meta versions req ≡ some e
    → MetaRefusal versions req e
unfolding validate_protocol_meta
validate_protocol_meta-MetaRefusal versions req e h =
    elim (Bool-cases (is_legacy_request req.method (request_meta req))) [
      | inl l ↦ absurd (none-ne-some (rw l at h))
      | inr l ↦ check_meta-refuses versions req e (rw l at h)
    ]
