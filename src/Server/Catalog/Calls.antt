-- ===== src/Server/Catalog/Calls.antt =====
-- server/tool_catalog.go and ValidationMessage of server/invoke.go: the calls of a batch, read from
-- the arguments of `execute_tools`. The validator of the framework is a parameter: the messages
-- that it has for the name of an entry, by field.
pub mod Accepted
use velocity_mcp.Base.{
  Bool, List, Option, [], if◌then◌else◌, inl, inr, length, ltb, none, some, true, ℕ, ◌&&◌, ◌++◌,
  ◌+◌, ◌||◌, ◌∷◌, ◌⊎◌,
}
use velocity_mcp.Bytes.{Bytes, codes, equal}
use velocity_mcp.Assoc.{Assoc, insert, lookup}
use velocity_mcp.Json.{Json, Members, arr, end, find, member, nil, obj, str}
use velocity_mcp.Json.Encode.{print_decimal, sort_keys}
use velocity_mcp.Server.Catalog.Execute.{CatalogCall}

abbrev pub arguments_of : Option Json → Option Members
arguments_of none = some end
arguments_of (some (obj ms)) = some ms
arguments_of (some (arr nil)) = some end
arguments_of (some _) = none

-- `catalogCallArguments`; `none` for a member that is no object.
unfoldable pub catalog_call_arguments : Members → Option Members
unfolding find
catalog_call_arguments entry = arguments_of (find (codes "arguments") entry)

abbrev pub asserted_string : Option Json → Bytes
asserted_string (some (str s)) = s
asserted_string _ = []

abbrev pub is_call_key : Bytes → Bool
unfolding equal
is_call_key key = equal key (codes "name") || equal key (codes "arguments")

unfoldable pub only_call_keys : Members → Bool
unfolding is_call_key
only_call_keys end = true
only_call_keys (member key v ms) = is_call_key key && only_call_keys ms

abbrev pub Fields : Type 0
Fields = Assoc (List Bytes)

abbrev messages_of : Option (List Bytes) → List Bytes
messages_of none = []
messages_of (some messages) = messages

-- `fields[key] = append(fields[key], message)`.
unfoldable pub add_message : Bytes → Bytes → Fields → Fields
unfolding lookup insert
add_message key message fields = insert key (messages_of (lookup key fields) ++ message ∷ []) fields

unfoldable pub add_messages : (Bytes → Bytes) → Bytes → List Bytes → Fields → Fields
add_messages rename key [] fields = fields
add_messages rename key (message ∷ messages) fields =
    add_messages rename key messages (add_message key (rename message) fields)

-- What the source asks of the framework: the messages for the name of an entry, and the
-- replacement of the first occurrence of a text.
pub record Validator : Type 0 where
  pub name_errors : Members → Fields
  pub replace_first : Bytes → Bytes → Bytes → Bytes

abbrev pub the_field : Bytes → Bytes → Bytes
the_field key rest = codes "The " ++ (key ++ rest)

abbrev pub some_or : {A B : Type 0} → Option A → B → (A → B) → B
some_or none otherwise use_it = otherwise
some_or (some a) otherwise use_it = use_it a

module _ (v : Validator) where
  -- `catalogMergeFieldErrors`.
  unfoldable pub merge_field_errors : Bytes → Fields → Fields → Fields
  merge_field_errors prefix [] fields = fields
  merge_field_errors prefix ((field, messages) ∷ errors) fields = merge_field_errors prefix errors (
      add_messages
        (v.replace_first (the_field field (codes " ")) (the_field (prefix ++ field) (codes " ")))
        (prefix ++ field) messages fields)

  abbrev pub entry_key : ℕ → Bytes
  unfolding print_decimal
  entry_key i = codes "calls." ++ print_decimal i

  -- The checks of one entry that is an object, before that of its arguments.
  unfoldable pub check_entry : Bytes → Members → Fields → Fields
  check_entry key entry fields = merge_field_errors (key ++ codes ".") (v.name_errors entry) (
      if only_call_keys entry
      then fields
      else add_message key
          (the_field key (codes " field must only contain the name and arguments keys.")) fields)

  abbrev pub to_call : Members → Members → CatalogCall
  unfolding find
  to_call entry arguments = record {
    name = asserted_string (find (codes "name") entry);
    arguments = arguments;
  }

  -- The loop of `catalogParseCalls`: the messages and the calls behind those at hand.
  unfoldable pub parse_calls_from :
      ℕ → List Json → Fields → List CatalogCall → Fields × List CatalogCall
  parse_calls_from i [] fields calls = (fields, calls)
  parse_calls_from i (obj entry ∷ raw) fields calls =
      let key = entry_key i in
      let checked = check_entry key entry fields in
      let refused =
        parse_calls_from (i + 1) raw
          (add_message (key ++ codes ".arguments")
            (the_field (key ++ codes ".arguments") (codes " field must be an object.")) checked)
          calls in
      some_or (catalog_call_arguments entry) refused
        (λ arguments. parse_calls_from (i + 1) raw checked (calls ++ to_call entry arguments ∷ []))
  parse_calls_from i (_ ∷ raw) fields calls =
      parse_calls_from (i + 1) raw
        (add_message (entry_key i) (the_field (entry_key i) (codes " field must be an object."))
          fields)
        calls

  -- `catalogParseCalls`: the calls, or the messages of every entry that is refused.
  unfoldable pub parse_calls : List Json → Fields ⊎ List CatalogCall
  parse_calls raw =
      let (fields, calls) = parse_calls_from 0 raw [] [] in
      if ltb 0 (length fields) then inl fields else inr calls

-- `strings.Join(messages, " ")`.
abbrev joined_by_space : List Bytes → Bytes
joined_by_space [] = []
joined_by_space (m ∷ []) = m
joined_by_space (m ∷ ms) = m ++ b' ' ∷ joined_by_space ms

abbrev pub all_messages : Fields → List Bytes
all_messages [] = []
all_messages ((key, messages) ∷ fields) = messages ++ all_messages fields

-- `ValidationMessage`.
unfoldable pub validation_message : Fields → Bytes
unfolding sort_keys
validation_message fields = elim (all_messages (sort_keys fields)) [
  | [] ↦ codes "The given data was invalid."
  | m ∷ ms ↦ joined_by_space (m ∷ ms)
]
