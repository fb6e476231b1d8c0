-- ===== src/Transport/McpHeaders/Refusals.antt =====
-- What the middleware answers to the messages that it refuses.
use velocity_mcp.Server.Meta.Inspect.{inspect_message-readable}
use velocity_mcp.Base.{
  Bool-cases, List, Option-cases, [], arith, false, inl, inr, refl, some, sym, true, ◌∙◌, ◌≡◌, ◌⊎◌,
}
use velocity_mcp.Bytes.{Bytes, equal}
use velocity_mcp.Jsonrpc.{
  Error, MessageId, code_header_mismatch, code_unsupported_protocol_version, is_valid_request_id,
  new_error, unmarshal_id,
}
use velocity_mcp.Server.Protocol.{contains_version, initialize_supported_versions}
use velocity_mcp.Server.Meta.{MessageInfo, inspect_message}
use velocity_mcp.Transport.McpHeaders.{
  Headers, Reading, Verdict, complains, header_mismatch, legacy_request, legacy_version,
  metadata_protocol_versions, mirrored_header_mismatch, modern_request, reads, refused_with,
  serve_legacy, stated_protocol_version, validate_headers, write_header_error,
  write_header_mismatch,
}
use velocity_mcp.Server.Meta.Validate.{
  missing_protocol_version_error, unsupported_protocol_version_error,
}
use velocity_mcp.Transport.McpHeaders.Verdicts.{check_info-eq}

-- The answer to a message: its id is the token of the message's id, and its error is of a header mismatch, of
-- an unsupported version, or, for a legacy message under a version of the metadata, of the missing
-- protocol version.
pub record IsRefused (body : Bytes) (id : MessageId) (e : Error) : Type 0 where
  pub info : MessageInfo
  pub seen : inspect_message body ≡ some info
  pub correlated : id.raw ≡ info.id
  pub code :
      (e.code ≡ code_header_mismatch)
      ⊎ (e.code ≡ code_unsupported_protocol_version)
      ⊎ (e ≡ missing_protocol_version_error)

write_header_error-id :
    (raw_id : Bytes) (x e : Error) (id : MessageId)
    → is_valid_request_id (record { raw = raw_id }) ≡ true
    → (unmarshal_id raw_id).1 ≡ true
    → write_header_error raw_id x ≡ refused_with id e
    → (id.raw ≡ raw_id) × (e ≡ x)
unfolding write_header_error unmarshal_id
write_header_error-id raw_id x e id v u h = ground arith

-- The codes of the errors that the middleware writes.
abbrev pub IsHeaderError : Error → Type 0
IsHeaderError e =
    (e.code ≡ code_header_mismatch)
    ⊎ (e.code ≡ code_unsupported_protocol_version)
    ⊎ (e ≡ missing_protocol_version_error)

module _ (body : Bytes) (info : MessageInfo) (seen : inspect_message body ≡ some info)
    (id : MessageId) (e : Error) where
  refuses :
      (x : Error)
      → IsHeaderError x
      → write_header_error info.id x ≡ refused_with id e
      → IsRefused body id e
  refuses x known h =
      let (valid_id, readable) = inspect_message-readable body info seen in
      let (same, is_x) = write_header_error-id info.id x e id valid_id readable h in
      record { info = info; seen = seen; correlated = same; code = rw is_x known }

  mismatch_refuses :
      (m : Bytes) → write_header_mismatch info.id m ≡ refused_with id e → IsRefused body id e
  unfolding write_header_mismatch
  mismatch_refuses m h = refuses (new_error code_header_mismatch m) (inl refl) h

  serve_legacy-IsRefused :
      (h : Headers) → serve_legacy h info ≡ refused_with id e → IsRefused body id e
  unfolding serve_legacy
  serve_legacy-IsRefused h k = elim (Option-cases (mirrored_header_mismatch h info false)) [
    | inl n ↦ absurd (cc (rw (n, serve_legacy) at k))
    | inr (m, n) ↦ mismatch_refuses m (rw (n, serve_legacy) at k)
  ]

  modern_request-IsRefused :
      (h : Headers) → modern_request h info ≡ refused_with id e → IsRefused body id e
  unfolding modern_request
  modern_request-IsRefused h k = elim (Option-cases (header_mismatch h info)) [
    | inl n ↦ absurd (cc (rw (n, modern_request) at k))
    | inr (m, n) ↦ mismatch_refuses m (rw (n, modern_request) at k)
  ]

  legacy_version-IsRefused :
      (h : Headers) (versions : List Bytes) (declared : Bytes)
      → legacy_version h versions info declared ≡ refused_with id e
      → IsRefused body id e
  unfolding legacy_version unsupported_protocol_version_error
  legacy_version-IsRefused h versions declared k = elim (Bool-cases (equal declared [])) [
    | inl a ↦ serve_legacy-IsRefused h (rw a at k)
    | inr a ↦ elim (Bool-cases (contains_version initialize_supported_versions declared)) [
      | inl b ↦ serve_legacy-IsRefused h (rw (a, b) at k)
      | inr b ↦
          elim (Bool-cases (contains_version (metadata_protocol_versions versions) declared)) [
            | inr c ↦ refuses _ (inr (inl refl)) (rw (a, b, c) at k)
            | inl c ↦ elim (Option-cases (mirrored_header_mismatch h info true)) [
              | inl n ↦
                  refuses missing_protocol_version_error (inr (inr refl)) (rw (a, b, c, n) at k)
              | inr (m, n) ↦ mismatch_refuses m (rw (a, b, c, n) at k)
            ]
          ]
    ]
  ]

  legacy_request-IsRefused :
      (h : Headers) (versions : List Bytes)
      → legacy_request h versions info ≡ refused_with id e
      → IsRefused body id e
  unfolding legacy_request
  legacy_request-IsRefused h versions k = go (stated_protocol_version h) k
    where
      go :
          (r : Reading)
          → ◌≡◌ {A = Verdict}
              (elim r [
                | complains message ↦ write_header_mismatch info.id message
                | reads declared ↦ legacy_version h versions info declared
              ])
              (refused_with id e)
          → IsRefused body id e
      go (complains m) c = mismatch_refuses m c
      go (reads declared) c = legacy_version-IsRefused h versions declared c

-- A refused message is one that the transport reads as a request. It is answered under the very id
-- that it states, and the error is a header mismatch, an unsupported version, or the missing
-- protocol version of its metadata.
pub validate_headers-IsRefused :
    (h : Headers) (versions : List Bytes) (body : Bytes) (id : MessageId) (e : Error)
    → validate_headers h versions body ≡ refused_with id e
    → IsRefused body id e
unfolding validate_headers
validate_headers-IsRefused h versions body id e k = elim (Option-cases (inspect_message body)) [
  | inl n ↦ absurd (cc (rw (n, validate_headers) at k))
  | inr (info, n) ↦
      let verdict = rw (n, validate_headers) at k in
      elim (Bool-cases info.legacy) [
        | inl old ↦
            legacy_request-IsRefused body info n id e h versions
              (sym (check_info-eq h versions info old) ∙ verdict)
        | inr new ↦
            modern_request-IsRefused body info n id e h
              (sym (check_info-eq h versions info new) ∙ verdict)
      ]
]
