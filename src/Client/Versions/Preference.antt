-- ===== src/Client/Versions/Preference.antt =====
-- The version that a client settles on among those offered.
use velocity_mcp.Base.{
  Bool-cases, List, Option, Option-cases, [], ap, arith, false, inl, inr, none, none-ne-some, refl,
  some, some-eq, sym, true, ◌++◌, ◌∷◌, ◌≡◌,
}
use velocity_mcp.Bytes.{Bytes, equal}
use velocity_mcp.Bytes.Laws.{equal_sym}
use velocity_mcp.Server.Protocol.{
  add_versions, contains_version, initialize_supported_versions, protocol_v20250618,
  protocol_v20251125, protocol_v20260728, spoken_protocol_versions,
}
use velocity_mcp.Server.Protocol.Versions.{spoken_protocol_versions_lem}
use velocity_mcp.Client.Versions.{
  client_supported_versions, first_offered, preferred_protocol_version, supports_protocol_version,
}

abbrev pub NoneOffered : List Bytes → List Bytes → Type 0
NoneOffered [] versions = Unit
NoneOffered (v ∷ vs) versions = (contains_version versions v ≡ false) × NoneOffered vs versions

-- The choice among the versions offered, for a client that supports a list of versions.
pub data IsChoice (supported versions : List Bytes) : Option Bytes → Type 0 where
  no_common : NoneOffered supported versions → IsChoice supported versions none
  newest_common :
      (newer older : List Bytes) (v : Bytes)
      → supported ≡ newer ++ v ∷ older
      → NoneOffered newer versions
      → contains_version versions v ≡ true
      → IsChoice supported versions (some v)

IsChoice-cons :
    (s : Bytes) (supported versions : List Bytes) (choice : Option Bytes)
    → contains_version versions s ≡ false
    → IsChoice supported versions choice
    → IsChoice (s ∷ supported) versions choice
IsChoice-cons s supported versions choice e (no_common h) = no_common (e, h)
IsChoice-cons s supported versions choice e (newest_common newer older v q h k) =
    newest_common (s ∷ newer) older v (ap (λ l. s ∷ l) q) (e, h) k

first_offered-IsChoice :
    (supported versions : List Bytes)
    → IsChoice supported versions (first_offered supported versions)
unfolding first_offered
first_offered-IsChoice [] versions = no_common tt
first_offered-IsChoice (s ∷ supported) versions = elim (Bool-cases (contains_version versions s)) [
  | inl e ↦ rw e (newest_common [] supported s refl tt e)
  | inr e ↦ rw e (
      IsChoice-cons s supported versions (first_offered supported versions) e
        (first_offered-IsChoice supported versions))
]

-- The client settles on the version offered that comes first in its own order of preference, and
-- on none only if no version that it supports is offered.
pub preferred_protocol_version-IsChoice :
    (versions : List Bytes)
    → IsChoice client_supported_versions versions (preferred_protocol_version versions)
unfolding preferred_protocol_version
preferred_protocol_version-IsChoice versions =
    first_offered-IsChoice client_supported_versions versions

IsChoice-none :
    (supported versions : List Bytes) (choice : Option Bytes)
    → IsChoice supported versions choice
    → choice ≡ none
    → NoneOffered supported versions
IsChoice-none supported versions choice (no_common h) e = h
IsChoice-none supported versions choice (newest_common newer older v q h k) e =
    absurd (none-ne-some (sym e))

IsChoice-contains :
    (supported versions : List Bytes) (choice : Option Bytes) (v : Bytes)
    → IsChoice supported versions choice
    → choice ≡ some v
    → contains_version versions v ≡ true
IsChoice-contains supported versions choice v (no_common h) e = absurd (none-ne-some e)
IsChoice-contains supported versions choice v (newest_common newer older w q h k) e =
    rw (some-eq e) at k

IsChoice-offered :
    (supported versions : List Bytes) (v : Bytes)
    → IsChoice supported versions (some v)
    → contains_version versions v ≡ true
IsChoice-offered supported versions v h = IsChoice-contains supported versions (some v) v h refl

spoken-handshake :
    (metadata : List Bytes)
    → contains_version (spoken_protocol_versions metadata) protocol_v20251125 ≡ true
spoken-handshake [] = unfold spoken_protocol_versions add_versions contains_version equal in refl
spoken-handshake (m ∷ metadata) =
    let offered : contains_version initialize_supported_versions protocol_v20251125 ≡ true =
      unfold contains_version equal in refl in
    let named = (spoken_protocol_versions_lem (m ∷ metadata)).1 protocol_v20251125 in
    ground (arith, named, offered)

-- Whatever versions a server accepts in a request's metadata, the client settles on one of those
-- that the list of supported versions of its errors names: of these, the first in its own order.
pub preferred_protocol_version-spoken_protocol_versions :
    (metadata : List Bytes)
    → (v : Bytes) × (preferred_protocol_version (spoken_protocol_versions metadata) ≡ some v)
      × (contains_version (spoken_protocol_versions metadata) v ≡ true)
      × IsChoice client_supported_versions (spoken_protocol_versions metadata) (some v)
preferred_protocol_version-spoken_protocol_versions metadata =
    let spoken = spoken_protocol_versions metadata in
    let choice = preferred_protocol_version-IsChoice spoken in
    elim (Option-cases (preferred_protocol_version spoken)) [
      | inl h ↦
          let (_, (missing, _)) =
            IsChoice-none client_supported_versions spoken (preferred_protocol_version spoken)
              choice h in
          absurd (cc (missing, spoken-handshake metadata))
      | inr (v, h) ↦
          let chosen : IsChoice client_supported_versions spoken (some v) = rw h at choice in
          (v, h, IsChoice-offered client_supported_versions spoken v chosen, chosen)
    ]

-- The client supports exactly the versions of its list.
pub supports_protocol_version_lem :
    (version : Bytes)
    → supports_protocol_version version ≡ contains_version client_supported_versions version
unfolding supports_protocol_version preferred_protocol_version first_offered contains_version
supports_protocol_version_lem version = ground (
  arith,
  equal_sym version protocol_v20260728,
  equal_sym version protocol_v20251125,
  equal_sym version protocol_v20250618,
)
