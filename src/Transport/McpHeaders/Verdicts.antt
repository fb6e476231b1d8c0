-- ===== src/Transport/McpHeaders/Verdicts.antt =====
-- The verdict of the middleware.
use velocity_mcp.Base.{
  Bool, Bool-cases, List, Option-cases, [], ap, false, if◌then◌else◌, inl, inr, none, refl, some,
  sym, true, ◌&&◌, ◌↔◌, ◌∙◌, ◌≡◌, ◌⊎◌,
}
use velocity_mcp.Bytes.{Bytes, equal}
use velocity_mcp.Bytes.Laws.{equal-eq, equal_iff}
use velocity_mcp.Jsonrpc.{Error, is_valid_request_id, unmarshal_id}
use velocity_mcp.Server.Protocol.{contains_version, initialize_supported_versions}
use velocity_mcp.Server.Meta.{MessageInfo, inspect_message}
use velocity_mcp.Transport.McpHeaders.{
  Headers, Reading, Verdict, check_header, check_info, complains, handed_on, header_mismatch,
  header_protocol_version, legacy_request, legacy_version, metadata_protocol_versions,
  mirrored_header_mismatch, modern_request, reads, serve_legacy, stated_protocol_version,
  validate_headers, write_header_error, write_header_mismatch,
}
use velocity_mcp.Transport.McpHeaders.Mirrors.{
  Agrees, Agrees-check_header, Mirrored, check_header-Agrees, mirrored_header_mismatch_iff,
}

-- A message that may pass: no request at all, a request with metadata whose three headers agree
-- with it, or a legacy one that declares no version or one of the handshake, and whose headers
-- agree with it as far as it states them.
pub data MayPass (h : Headers) (body : Bytes) : Type 0 where
  no_request : inspect_message body ≡ none → MayPass h body
  modern :
      (info : MessageInfo)
      → inspect_message body ≡ some info
      → info.legacy ≡ false
      → Agrees h header_protocol_version info.protocol_version true false
      → Mirrored h info true
      → MayPass h body
  legacy :
      (info : MessageInfo) (declared : Bytes)
      → inspect_message body ≡ some info
      → info.legacy ≡ true
      → stated_protocol_version h ≡ reads declared
      → (declared ≡ []) ⊎ (contains_version initialize_supported_versions declared ≡ true)
      → Mirrored h info false
      → MayPass h body

write_header_error-refuses :
    (raw_id : Bytes) (e : Error) → write_header_error raw_id e ≡ handed_on → ⊥
unfolding write_header_error
write_header_error-refuses raw_id e h =
    elim (Bool-cases ((unmarshal_id raw_id).1 && is_valid_request_id (unmarshal_id raw_id).0)) [
      | inl f ↦ absurd (cc (rw f at h))
      | inr f ↦ absurd (cc (rw f at h))
    ]

serve_legacy-handed_on :
    (h : Headers) (info : MessageInfo) → serve_legacy h info ≡ handed_on → Mirrored h info false
unfolding serve_legacy write_header_mismatch
serve_legacy-handed_on h info k = elim (Option-cases (mirrored_header_mismatch h info false)) [
  | inl e ↦ (mirrored_header_mismatch_iff h info false).0 e
  | inr (m, e) ↦ absurd (write_header_error-refuses info.id _ (rw (e, serve_legacy) at k))
]

legacy_version-handed_on :
    (h : Headers) (versions : List Bytes) (info : MessageInfo) (declared : Bytes)
    → legacy_version h versions info declared ≡ handed_on
    → ((declared ≡ []) ⊎ (contains_version initialize_supported_versions declared ≡ true))
      × Mirrored h info false
unfolding legacy_version write_header_mismatch
legacy_version-handed_on h versions info declared k = elim (Bool-cases (equal declared [])) [
  | inl e ↦ (inl (equal-eq declared [] e), serve_legacy-handed_on h info (rw e at k))
  | inr e ↦ elim (Bool-cases (contains_version initialize_supported_versions declared)) [
    | inl f ↦ (inr f, serve_legacy-handed_on h info (rw (e, f) at k))
    | inr f ↦ elim (Bool-cases (contains_version (metadata_protocol_versions versions) declared)) [
      | inr g ↦ absurd (write_header_error-refuses info.id _ (rw (e, f, g) at k))
      | inl g ↦ elim (Option-cases (mirrored_header_mismatch h info true)) [
        | inl n ↦ absurd (write_header_error-refuses info.id _ (rw (e, f, g, n) at k))
        | inr (m, n) ↦ absurd (write_header_error-refuses info.id _ (rw (e, f, g, n) at k))
      ]
    ]
  ]
]

pub check_info-eq :
    (h : Headers) (versions : List Bytes) (info : MessageInfo) {b : Bool}
    → info.legacy ≡ b
    → check_info h versions info
      ≡ (if b then legacy_request h versions info else modern_request h info)
unfolding check_info
check_info-eq h versions info e =
    ap (λ b. if b then legacy_request h versions info else modern_request h info) e

legacy_request-handed_on :
    (h : Headers) (versions : List Bytes) (info : MessageInfo)
    → legacy_request h versions info ≡ handed_on
    → (declared : Bytes) × (stated_protocol_version h ≡ reads declared)
      × ((declared ≡ []) ⊎ (contains_version initialize_supported_versions declared ≡ true))
      × Mirrored h info false
unfolding legacy_request write_header_mismatch
legacy_request-handed_on h versions info k = go (stated_protocol_version h) refl k
  where
    go :
        (r : Reading)
        → stated_protocol_version h ≡ r
        → ◌≡◌ {A = Verdict}
            (elim r [
              | complains message ↦ write_header_mismatch info.id message
              | reads declared ↦ legacy_version h versions info declared
            ])
            handed_on
        → (declared : Bytes) × (stated_protocol_version h ≡ reads declared)
          × ((declared ≡ []) ⊎ (contains_version initialize_supported_versions declared ≡ true))
          × Mirrored h info false
    go (complains m) e c = absurd (write_header_error-refuses info.id _ c)
    go (reads declared) e c =
        let (version_ok, m) = legacy_version-handed_on h versions info declared c in
        (declared, e, version_ok, m)

modern_request-handed_on :
    (h : Headers) (info : MessageInfo)
    → modern_request h info ≡ handed_on
    → Agrees h header_protocol_version info.protocol_version true false × Mirrored h info true
unfolding modern_request header_mismatch write_header_mismatch
modern_request-handed_on h info k =
    elim (Option-cases (check_header h header_protocol_version info.protocol_version true false)) [
      | inr (m, e) ↦
          absurd
            (write_header_error-refuses info.id _ (rw (e, header_mismatch, modern_request) at k))
      | inl e ↦ elim (Option-cases (mirrored_header_mismatch h info true)) [
        | inr (m, f) ↦
            absurd (
              write_header_error-refuses info.id _
                (rw (e, header_mismatch, modern_request, f) at k))
        | inl f ↦ (
          check_header-Agrees h header_protocol_version info.protocol_version true false e,
          (mirrored_header_mismatch_iff h info true).0 f,
        )
      ]
    ]

check_info-handed_on :
    (h : Headers) (versions : List Bytes) (body : Bytes) (info : MessageInfo)
    → inspect_message body ≡ some info
    → check_info h versions info ≡ handed_on
    → MayPass h body
check_info-handed_on h versions body info seen k = elim (Bool-cases info.legacy) [
  | inl old ↦
      let (declared, said, version_ok, mirrored) =
        legacy_request-handed_on h versions info (sym (check_info-eq h versions info old) ∙ k) in
      legacy info declared seen old said version_ok mirrored
  | inr new ↦
      let (version_ok, mirrored) =
        modern_request-handed_on h info (sym (check_info-eq h versions info new) ∙ k) in
      modern info seen new version_ok mirrored
]

legacy_version-passes :
    (h : Headers) (versions : List Bytes) (info : MessageInfo) (declared : Bytes)
    → (declared ≡ []) ⊎ (contains_version initialize_supported_versions declared ≡ true)
    → Mirrored h info false
    → legacy_version h versions info declared ≡ handed_on
unfolding legacy_version serve_legacy
legacy_version-passes h versions info declared (inl e) m =
    rw ((equal_iff declared []).1 e, (mirrored_header_mismatch_iff h info false).1 m, serve_legacy)
      refl
legacy_version-passes h versions info declared (inr e) m = elim (Bool-cases (equal declared [])) [
  | inl f ↦ rw (f, (mirrored_header_mismatch_iff h info false).1 m, serve_legacy) refl
  | inr f ↦ rw (f, e, (mirrored_header_mismatch_iff h info false).1 m, serve_legacy) refl
]

modern_request-passes :
    (h : Headers) (info : MessageInfo)
    → Agrees h header_protocol_version info.protocol_version true false
    → Mirrored h info true
    → modern_request h info ≡ handed_on
unfolding modern_request header_mismatch
modern_request-passes h info version_ok m =
    rw
      (
        Agrees-check_header h header_protocol_version info.protocol_version true false version_ok,
        header_mismatch,
        modern_request,
        (mirrored_header_mismatch_iff h info true).1 m,
      )
      refl

MayPass-handed_on :
    (h : Headers) (versions : List Bytes) (body : Bytes)
    → MayPass h body
    → validate_headers h versions body ≡ handed_on
unfolding validate_headers legacy_request
MayPass-handed_on h versions body (no_request e) = rw (e, validate_headers) refl
MayPass-handed_on h versions body (modern info seen new version_ok m) =
    rw (seen, validate_headers)
      (check_info-eq h versions info new ∙ modern_request-passes h info version_ok m)
MayPass-handed_on h versions body (legacy info declared seen old said version_ok m) =
    rw (seen, validate_headers)
      (check_info-eq h versions info old
        ∙ rw (said, legacy_request) (legacy_version-passes h versions info declared version_ok m))

-- The middleware hands on exactly the messages that may pass.
pub validate_headers_iff :
    (h : Headers) (versions : List Bytes) (body : Bytes)
    → (validate_headers h versions body ≡ handed_on) ↔ MayPass h body
unfolding validate_headers
validate_headers_iff h versions body = (
  λ k. elim (Option-cases (inspect_message body)) [
    | inl e ↦ no_request e
    | inr (info, e) ↦ check_info-handed_on h versions body info e (rw (e, validate_headers) at k)
  ],
  MayPass-handed_on h versions body,
)
