-- ===== src/Server/Session/Tags.antt =====
-- Which session ids the server takes for its own.
use velocity_mcp.Base.{
  Bool, Bool-cases, Option-cases, [], ap, arith, drop, drop-drop, drop-length_append, false, inl,
  inr, length, ltb, not, refl, some, suc, sym, take, take-length_append, true, zero, ℕ, ◌++◌, ◌+◌,
  ◌==◌, ◌||◌, ◌↔◌, ◌∙◌, ◌∷◌, ◌≡◌, ◌≢◌, ◌≤◌,
}
use velocity_mcp.Bytes.{Bytes, contains_byte, equal, last_index}
use velocity_mcp.Bytes.Search.{last_index-at, last_index-split}
use velocity_mcp.Server.Session.{
  is_visible_ascii, issued_session_id, session_tag, session_tag_separator, tag_session_id, to_hex,
}
use velocity_mcp.Bytes.Laws.{equal_iff, equal_ne}

to_hex-no_separator : (s : Bytes) → contains_byte (to_hex s) b'.' ≡ false
unfolding to_hex contains_byte
to_hex-no_separator [] = refl
to_hex-no_separator (b ∷ s) = ground (arith, to_hex-no_separator s)

take-nonempty : (n : ℕ) (s : Bytes) → (n == 0) ≡ false → s ≢ [] → take n s ≢ []
take-nonempty zero s h ne = absurd (cc h)
take-nonempty (suc n) [] h ne = absurd (ne refl)
take-nonempty (suc n) (c ∷ s) h ne = λ q. cc q

has_length : (s : Bytes) → (length s == 0) ≡ false → s ≢ []
has_length s h e = ground (arith, ap length e)

nonempty_length : (s : Bytes) → s ≢ [] → (length s == 0) ≡ false
nonempty_length [] ne = absurd (ne refl)
nonempty_length (c ∷ s) ne = ground arith

no_end : (c : ℕ) (g t : Bytes) → g ++ c ∷ t ≡ [] → ⊥
no_end c [] t h = cc h
no_end c (x ∷ g) t h = cc h

module _ (sign : Bytes → Bytes → Bytes) (same : Bytes → Bytes → Bool) where
  -- An id that `tagSessionID` made of a generated one, and that the verifier is willing to hash.
  pub record IsIssued (key id : Bytes) : Type 0 where
    pub generated : Bytes
    pub nonempty : generated ≢ []
    pub has_key : key ≢ []
    pub tagged : id ≡ tag_session_id sign key generated
    pub short : length id ≤ 512
    pub visible : is_visible_ascii id ≡ true

  tagged-text :
      (key generated : Bytes)
      → generated ≢ []
      → key ≢ []
      → tag_session_id sign key generated ≡ generated ++ b'.' ∷ session_tag sign key generated
  unfolding tag_session_id
  tagged-text [] g ne k = absurd (k refl)
  tagged-text (x ∷ key) [] ne k = absurd (ne refl)
  tagged-text (x ∷ key) (c ∷ g) ne k = unfold equal in ground arith

  last_index-tag :
      (key g : Bytes)
      → last_index (g ++ b'.' ∷ session_tag sign key g) session_tag_separator ≡ some (length g)
  unfolding session_tag
  last_index-tag key g = last_index-at g (session_tag sign key g) b'.' (to_hex-no_separator _)

  module _ (exact : (x y : Bytes) → (same x y ≡ true) ↔ (x ≡ y)) (key : Bytes) where
    found_tag :
        (id : Bytes) (at : ℕ)
        → last_index id session_tag_separator ≡ some at
        → (at == 0) ≡ false
        → id ≢ []
        → key ≢ []
        → length id ≤ 512
        → is_visible_ascii id ≡ true
        → same (drop (at + 1) id) (session_tag sign key (take at id)) ≡ true
        → IsIssued key id
    found_tag id at found inside ne has_key short visible h =
        let cut = last_index-split id session_tag_separator found in
        let tag : drop (at + 1) id ≡ session_tag sign key (take at id) = (exact _ _).0 h in
        let nonempty : take at id ≢ [] = take-nonempty at id inside ne in
        record {
          generated = take at id;
          nonempty = nonempty;
          has_key = has_key;
          tagged =
              cut
              ∙ ap (λ t. take at id ++ b'.' ∷ t) tag
              ∙ sym (tagged-text key (take at id) nonempty has_key);
          short = short;
          visible = visible;
        }

    accepted_sound : (id : Bytes) → issued_session_id sign same key id ≡ true → IsIssued key id
    unfolding issued_session_id
    accepted_sound id h =
        let guards =
          equal id [] || ltb 512 (length id) || length key == 0 || not (is_visible_ascii id) in
        elim (Bool-cases guards) [
          | inl e ↦ absurd (cc (rw e at h))
          | inr e ↦ elim (Option-cases (last_index id session_tag_separator)) [
            | inl f ↦ absurd (cc (rw (e, f) at h))
            | inr (at, f) ↦ elim (Bool-cases (at == 0)) [
              | inl z ↦ absurd (cc (rw (e, f, z) at h))
              | inr z ↦
                  let ne : id ≢ [] = λ q. (ground (arith, e, (equal_iff id []).1 q)) in
                  found_tag id at f z ne (has_length key (ground arith)) (ground arith)
                    (ground arith) (rw (e, f, z) at h)
            ]
          ]
        ]

    accepted_complete : (id : Bytes) → IsIssued key id → issued_session_id sign same key id ≡ true
    unfolding issued_session_id
    accepted_complete id q =
        let g = q.generated in
        let tag = session_tag sign key g in
        let text : id ≡ g ++ b'.' ∷ tag = q.tagged ∙ tagged-text key g q.nonempty q.has_key in
        let found : last_index id session_tag_separator ≡ some (length g) =
          ap (λ s. last_index s session_tag_separator) text ∙ last_index-tag key g in
        let front : take (length g) id ≡ g =
          ap (take (length g)) text ∙ take-length_append g (b'.' ∷ tag) in
        let back : drop (length g + 1) id ≡ tag =
          ap (drop (length g + 1)) text
          ∙ sym (drop-drop 1 (length g) (g ++ b'.' ∷ tag))
          ∙ ap (drop 1) (drop-length_append g (b'.' ∷ tag)) in
        let inside : (length g == 0) ≡ false = nonempty_length g q.nonempty in
        let keyed : (length key == 0) ≡ false = nonempty_length key q.has_key in
        let filled : equal id [] ≡ false = equal_ne id [] (λ e. no_end _ g tag (sym text ∙ e)) in
        let fits : ltb 512 (length id) ≡ false = ground (arith, q.short) in
        rw (filled, fits, keyed, q.visible, found, inside)
          ((exact _ _).1 (back ∙ ap (session_tag sign key) (sym front)))

    -- Where the comparison is one of equality, the server takes for its own exactly the ids that it
    -- makes of a generated id under its key, in visible ASCII and of at most 512 bytes.
    pub issued_session_id_iff :
        (id : Bytes) → (issued_session_id sign same key id ≡ true) ↔ IsIssued key id
    issued_session_id_iff id = (accepted_sound id, accepted_complete id)
