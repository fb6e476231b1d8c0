-- ===== src/Server/Protocol/Versions.antt =====
-- Which versions are offered and reported.
use velocity_mcp.Base.{
  Bool, Bool-cases, List, Option, [], ap, arith, false, inl, inr, none, refl, some, true, ◌++◌,
  ◌||◌, ◌∙◌, ◌∷◌, ◌≡◌,
}
use velocity_mcp.Bytes.{Bytes, equal}
use velocity_mcp.Server.Protocol.{
  add_versions, contains_version, default_versions, handshake_for, initialize,
  initialize_supported_versions, negotiate, protocol_v20250618, protocol_v20251125,
  spoken_protocol_versions,
}
use velocity_mcp.Bytes.Laws.{equal-eq, equal_sym}

offered-handshake :
    (v : Bytes)
    → contains_version initialize_supported_versions v ≡ true
    → handshake_for v ≡ initialize
unfolding contains_version handshake_for
offered-handshake v h = elim (Bool-cases (equal protocol_v20251125 v)) [
  | inl e ↦ rw (← equal-eq protocol_v20251125 v e) refl
  | inr e ↦
      let f : equal protocol_v20250618 v ≡ true = ground (arith, h, e) in
      rw (← equal-eq protocol_v20250618 v f) refl
]

-- Whether a version is requested that the handshake offers.
abbrev pub asks_offered : Option Bytes → Bool
asks_offered none = false
asks_offered (some v) = contains_version initialize_supported_versions v

-- What a handshake may settle on.
pub data Settled (requested : Option Bytes) (settled : Bytes) : Type 0 where
  as_asked : requested ≡ some settled → asks_offered requested ≡ true → Settled requested settled
  newest_offered :
      asks_offered requested ≡ false → settled ≡ protocol_v20251125 → Settled requested settled

-- The handshake settles on the version requested if it is one that it offers, and otherwise on
-- the newest that it offers. In both cases the version is one that it offers, and never the
-- discovery revision.
pub negotiate_lem :
    (requested : Option Bytes)
    → Settled requested (negotiate requested)
      × (contains_version initialize_supported_versions (negotiate requested) ≡ true)
      × (handshake_for (negotiate requested) ≡ initialize)
unfolding negotiate
negotiate_lem none =
    (newest_offered refl refl, unfold contains_version equal in refl, unfold handshake_for in refl)
negotiate_lem (some v) = elim (Bool-cases (contains_version initialize_supported_versions v)) [
  | inl e ↦ rw e (as_asked refl e, e, offered-handshake v e)
  | inr e ↦
      rw e
        (newest_offered e refl, unfold contains_version equal in refl, unfold handshake_for in refl)
]

contains-append :
    (xs : List Bytes) (w v : Bytes)
    → contains_version (xs ++ w ∷ []) v ≡ (contains_version xs v || equal w v)
unfolding contains_version
contains-append [] w v = ground arith
contains-append (x ∷ xs) w v = ground (arith, contains-append xs w v)

contains-add_versions :
    (xs ys : List Bytes) (v : Bytes)
    → contains_version (add_versions xs ys) v ≡ (contains_version xs v || contains_version ys v)
unfolding add_versions contains_version
contains-add_versions xs [] v = ground arith
contains-add_versions xs (y ∷ ys) v = elim (Bool-cases (contains_version xs y)) [
  | inl e ↦ rw (e, contains-add_versions xs ys v) (known e)
  | inr e ↦ rw (e, contains-add_versions (xs ++ y ∷ []) ys v, contains-append xs y v) (ground arith)
]
  where
    known :
        contains_version xs y ≡ true
        → (contains_version xs v || contains_version ys v)
          ≡ (contains_version xs v || contains_version (y ∷ ys) v)
    known e = elim (Bool-cases (equal y v)) [
      | inl f ↦ rw (← equal-eq y v f) (rw e refl)
      | inr f ↦ rw (f, contains_version) refl
    ]

abbrev pub NoRepeat : List Bytes → Type 0
NoRepeat [] = Unit
NoRepeat (v ∷ vs) = (contains_version vs v ≡ false) × NoRepeat vs

NoRepeat-append :
    (xs : List Bytes) (w : Bytes)
    → NoRepeat xs
    → contains_version xs w ≡ false
    → NoRepeat (xs ++ w ∷ [])
unfolding contains_version
NoRepeat-append [] w h k = (refl, tt)
NoRepeat-append (x ∷ xs) w (p, h) k =
    let other : equal x w ≡ false = ground (arith, k) in
    (
      ground (arith, contains-append xs w x, p, equal_sym x w, other),
      NoRepeat-append xs w h (ground (arith, k)),
    )

NoRepeat-add_versions : (xs ys : List Bytes) → NoRepeat xs → NoRepeat (add_versions xs ys)
unfolding add_versions
NoRepeat-add_versions xs [] h = h
NoRepeat-add_versions xs (y ∷ ys) h = elim (Bool-cases (contains_version xs y)) [
  | inl e ↦ rw e (NoRepeat-add_versions xs ys h)
  | inr e ↦ rw e (NoRepeat-add_versions (xs ++ y ∷ []) ys (NoRepeat-append xs y h e))
]

-- The supported list of an error names exactly the versions that the server accepts in a
-- request's metadata and those that the handshake negotiates, each once.
pub spoken_protocol_versions_lem :
    (metadata : List Bytes)
    → NoRepeat (spoken_protocol_versions metadata)
      × ((v : Bytes)
          → contains_version (spoken_protocol_versions metadata) v ≡ (
              contains_version (default_versions metadata) v
              || contains_version initialize_supported_versions v))
unfolding spoken_protocol_versions
spoken_protocol_versions_lem metadata =
    let own = add_versions [] (default_versions metadata) in
    (
      NoRepeat-add_versions own initialize_supported_versions
          (NoRepeat-add_versions [] (default_versions metadata) tt),
      λ v.
          contains-add_versions own initialize_supported_versions v
          ∙ ap (λ b. b || contains_version initialize_supported_versions v)
              (contains-add_versions [] (default_versions metadata) v
                ∙ unfold contains_version in refl),
    )
