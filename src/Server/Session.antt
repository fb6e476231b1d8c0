-- ===== src/Server/Session.antt =====
-- server/session.go: session ids that carry a tag made under the server's key. The HMAC of the
-- framework and its comparison in constant time are parameters.
pub mod Tags
pub mod Tests
use velocity_mcp.Base.{
  Bool, Option, [], drop, false, if◌then◌else◌, length, ltb, none, not, some, take, true, ℕ, ◌%◌,
  ◌++◌, ◌+◌, ◌/◌, ◌==◌, ◌||◌, ◌∷◌,
}
use velocity_mcp.Bytes.{Bytes, codes, equal, last_index}

abbrev pub session_tag_size : ℕ
session_tag_size = 16

abbrev pub session_tag_separator : Bytes
session_tag_separator = codes "."

abbrev pub min_session_key_size : ℕ
min_session_key_size = 32

abbrev pub max_session_id_length : ℕ
max_session_id_length = 512

unfoldable pub session_key_label : Bytes
session_key_label = codes "velocity-mcp session id key v1"

abbrev hex_digit : ℕ → ℕ
hex_digit v = if ltb v 10 then v + 48 else v + 87

-- `hex.EncodeToString`.
unfoldable pub to_hex : Bytes → Bytes
to_hex [] = []
to_hex (b ∷ s) = hex_digit (b / 16) ∷ hex_digit (b % 16) ∷ to_hex s

unfoldable pub is_visible_ascii : Bytes → Bool
is_visible_ascii [] = true
is_visible_ascii (b ∷ s) = if ltb b 0x21 || ltb 0x7E b then false else is_visible_ascii s

-- What the option leaves behind: the key, and the size of one that it refused.
pub record KeyState : Type 0 where
  pub session_key : Bytes
  pub refused : Option ℕ

module _ (sign : Bytes → Bytes → Bytes) where
  -- `WithSessionKey`.
  unfoldable pub with_session_key : Bytes → KeyState → KeyState
  with_session_key key s =
      if ltb (length key) min_session_key_size
      then record s { refused = some (length key) }
      else record s { session_key = sign key session_key_label }

  unfoldable pub session_tag : Bytes → Bytes → Bytes
  session_tag key id = to_hex (take session_tag_size (sign key id))

  unfoldable pub tag_session_id : Bytes → Bytes → Bytes
  tag_session_id key id =
      if equal id [] || length key == 0
      then id
      else id ++ (session_tag_separator ++ session_tag key id)

  -- `IssuedSessionID`, by the comparison of strings that it calls.
  unfoldable pub issued_session_id : (Bytes → Bytes → Bool) → Bytes → Bytes → Bool
  issued_session_id same key id =
      if equal id []
        || ltb max_session_id_length (length id)
        || length key == 0
        || not (is_visible_ascii id)
      then false
      else elim (last_index id session_tag_separator) [
        | none ↦ false
        | some at ↦
            if at == 0
            then false
            else same (drop (at + length session_tag_separator) id) (session_tag key (take at id))
      ]
