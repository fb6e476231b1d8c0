-- ===== src/Server/Catalog/Calls/Accepted.antt =====
-- Which batches are accepted.
use velocity_mcp.Base.{
  Bool-cases, List, Option, Option-cases, [], ap, append-nil, append_assoc, arith, false, inl, inr,
  length, ltb, none, none-ne-some, refl, some, some-eq, subst, sym, true, ℕ, ◌++◌, ◌+◌, ◌↔◌, ◌∙◌,
  ◌∷◌, ◌≡◌, ◌≢◌, ◌⊎◌,
}
use velocity_mcp.Bytes.Laws.{equal-eq, equal_refl}
use velocity_mcp.Bytes.{Bytes, codes, equal}
use velocity_mcp.Assoc.{Assoc, insert}
use velocity_mcp.Json.{Json, Members, arr, bool, cons, end, find, member, nil, null, num, obj, str}
use velocity_mcp.Server.Catalog.Execute.Fitting.{inr-eq, inr-ne-inl}
use velocity_mcp.Server.Catalog.Execute.{CatalogCall}
use velocity_mcp.Server.Catalog.Calls.{
  Fields, Validator, add_message, add_messages, all_messages, arguments_of, asserted_string,
  catalog_call_arguments, check_entry, entry_key, merge_field_errors, only_call_keys, parse_calls,
  parse_calls_from, to_call,
}

-- A batch whose entries pass the checks of the code.
pub data Accepts (v : Validator) : List Json → List CatalogCall → Type 0 where
  nothing : Accepts v [] []
  one :
      (entry arguments : Members) (raw : List Json) (calls : List CatalogCall)
      → only_call_keys entry ≡ true
      → all_messages (v.name_errors entry) ≡ []
      → catalog_call_arguments entry ≡ some arguments
      → Accepts v raw calls
      → Accepts v (obj entry ∷ raw) (to_call v entry arguments ∷ calls)

insert-ne-nil : {V : Type 0} (key : Bytes) (a : V) (m : Assoc V) → insert key a m ≢ []
unfolding insert
insert-ne-nil key a [] h = cc
insert-ne-nil key a ((k, w) ∷ m) h = elim (Bool-cases (equal k key)) [
  | inl e ↦ cc (rw e at h)
  | inr e ↦ cc (rw e at h)
]

add_message-ne-nil : (key message : Bytes) (fields : Fields) → add_message key message fields ≢ []
unfolding add_message
add_message-ne-nil key message fields = insert-ne-nil key _ fields

add_messages-nil :
    (rename : Bytes → Bytes) (key : Bytes) (messages : List Bytes) (fields : Fields)
    → add_messages rename key messages fields ≡ []
    → (messages ≡ []) × (fields ≡ [])
unfolding add_messages
add_messages-nil rename key [] fields h = (refl, h)
add_messages-nil rename key (m ∷ messages) fields h = absurd (
    add_message-ne-nil key (rename m) fields
      (add_messages-nil rename key messages (add_message key (rename m) fields) h).1)

module _ (v : Validator) where
  merge_field_errors-nil :
      (prefix : Bytes) (errors fields : Fields)
      → merge_field_errors v prefix errors fields ≡ []
      → (all_messages errors ≡ []) × (fields ≡ [])
  unfolding merge_field_errors
  merge_field_errors-nil prefix [] fields h = (refl, h)
  merge_field_errors-nil prefix ((field, messages) ∷ errors) fields h =
      let (others, merged) = merge_field_errors-nil prefix errors _ h in
      let (own, before) = add_messages-nil _ (prefix ++ field) messages fields merged in
      (rw own others, before)

  merge_field_errors-none :
      (prefix : Bytes) (errors fields : Fields)
      → all_messages errors ≡ []
      → merge_field_errors v prefix errors fields ≡ fields
  unfolding merge_field_errors add_messages
  merge_field_errors-none prefix [] fields h = refl
  merge_field_errors-none prefix ((field, []) ∷ errors) fields h =
      merge_field_errors-none prefix errors fields h
  merge_field_errors-none prefix ((field, m ∷ messages) ∷ errors) fields h = cc

  check_entry-nil :
      (key : Bytes) (entry : Members) (fields : Fields)
      → check_entry v key entry fields ≡ []
      → (only_call_keys entry ≡ true) × (all_messages (v.name_errors entry) ≡ []) × (fields ≡ [])
  unfolding check_entry
  check_entry-nil key entry fields h =
      let (no_message, before) =
        merge_field_errors-nil (key ++ codes ".") (v.name_errors entry) _ h in
      elim (Bool-cases (only_call_keys entry)) [
        | inl e ↦ (e, no_message, rw e at before)
        | inr e ↦ absurd (add_message-ne-nil key _ fields (rw e at before))
      ]

  check_entry-none :
      (key : Bytes) (entry : Members) (fields : Fields)
      → only_call_keys entry ≡ true
      → all_messages (v.name_errors entry) ≡ []
      → check_entry v key entry fields ≡ fields
  unfolding check_entry
  check_entry-none key entry fields e h =
      rw e (merge_field_errors-none (key ++ codes ".") (v.name_errors entry) fields h)

  Accepts-parse_calls_from :
      (i : ℕ) (raw : List Json) (fields : Fields) (before calls : List CatalogCall)
      → Accepts v raw calls
      → parse_calls_from v i raw fields before ≡ (fields, before ++ calls)
  unfolding parse_calls_from
  Accepts-parse_calls_from i raw fields before calls nothing =
      ap (λ l. (fields, l)) (sym (append-nil before))
  Accepts-parse_calls_from i raw fields before calls (one entry arguments rest later e h a r) =
      rw (a, check_entry-none (entry_key v i) entry fields e h)
        (Accepts-parse_calls_from (i + 1) rest fields (before ++ to_call v entry arguments ∷ [])
            later r
          ∙ ap (λ l. (fields, l)) (append_assoc before (to_call v entry arguments ∷ []) later))

  -- The calls of a batch that has no message.
  pub record Read (i : ℕ) (raw : List Json) (fields : Fields) (before : List CatalogCall)
      : Type 0 where
    pub calls : List CatalogCall
    pub no_fields : fields ≡ []
    pub reads : Accepts v raw calls
    pub parsed : (parse_calls_from v i raw fields before).1 ≡ before ++ calls

  refused :
      {A : Type 0} (i : ℕ) (raw : List Json) (key message : Bytes) (fields : Fields)
      (before : List CatalogCall)
      → Read i raw (add_message key message fields) before
      → A
  refused i raw key message fields before r =
      absurd (add_message-ne-nil key message fields r.no_fields)

  parse_calls_from-Read :
      (i : ℕ) (raw : List Json) (fields : Fields) (before : List CatalogCall)
      → (parse_calls_from v i raw fields before).0 ≡ []
      → Read i raw fields before
  unfolding parse_calls_from
  parse_calls_from-Read i [] fields before h = record {
    calls = [];
    no_fields = h;
    reads = nothing;
    parsed = sym (append-nil before);
  }
  parse_calls_from-Read i (obj entry ∷ raw) fields before h =
      let key = entry_key v i in
      let checked = check_entry v key entry fields in
      elim (Option-cases (catalog_call_arguments entry)) [
        | inl e ↦
            refused (i + 1) raw _ _ checked before
              (parse_calls_from-Read (i + 1) raw _ before (rw e at h))
        | inr (arguments, e) ↦
            let r =
              parse_calls_from-Read (i + 1) raw checked (before ++ to_call v entry arguments ∷ [])
                (rw e at h) in
            let (only, no_message, no_field) = check_entry-nil key entry fields r.no_fields in
            record {
              calls = to_call v entry arguments ∷ r.calls;
              no_fields = no_field;
              reads = one entry arguments raw r.calls only no_message e r.reads;
              parsed =
                  rw e (r.parsed ∙ append_assoc before (to_call v entry arguments ∷ []) r.calls);
            }
      ]
  parse_calls_from-Read i (null ∷ raw) fields before h =
      refused (i + 1) raw _ _ fields before (parse_calls_from-Read (i + 1) raw _ before h)
  parse_calls_from-Read i (bool b ∷ raw) fields before h =
      refused (i + 1) raw _ _ fields before (parse_calls_from-Read (i + 1) raw _ before h)
  parse_calls_from-Read i (num r ∷ raw) fields before h =
      refused (i + 1) raw _ _ fields before (parse_calls_from-Read (i + 1) raw _ before h)
  parse_calls_from-Read i (str s ∷ raw) fields before h =
      refused (i + 1) raw _ _ fields before (parse_calls_from-Read (i + 1) raw _ before h)
  parse_calls_from-Read i (arr vs ∷ raw) fields before h =
      refused (i + 1) raw _ _ fields before (parse_calls_from-Read (i + 1) raw _ before h)

Fields-cases : (fields : Fields) → ltb 0 (length fields) ≡ false → fields ≡ []
Fields-cases [] h = refl
Fields-cases (f ∷ fields) h = absurd (ground (arith, h))

-- A batch is accepted exactly if the code of the checks of its entries passes them.
parse_calls-Accepts :
    (v : Validator) (raw : List Json) (calls : List CatalogCall)
    → (parse_calls v raw ≡ inr calls) ↔ Accepts v raw calls
unfolding parse_calls
parse_calls-Accepts v raw calls =
    (to, λ r. rw (Accepts-parse_calls_from v 0 raw [] [] calls r) refl)
  where
    to : parse_calls v raw ≡ inr calls → Accepts v raw calls
    to h = elim (Bool-cases (ltb 0 (length (parse_calls_from v 0 raw [] []).0))) [
      | inl e ↦ absurd (inr-ne-inl (sym (rw e at h)))
      | inr e ↦
          let r =
            parse_calls_from-Read v 0 raw [] []
              (Fields-cases (parse_calls_from v 0 raw [] []).0 e) in
          let same : r.calls ≡ calls = sym r.parsed ∙ inr-eq (rw e at h) in rw (← same) r.reads
    ]

-- The members of an entry that is a call.
abbrev pub OnlyCallKeys : Members → Type 0
OnlyCallKeys end = Unit
OnlyCallKeys (member key v ms) =
    ((key ≡ codes "name") ⊎ (key ≡ codes "arguments")) × OnlyCallKeys ms

-- The name that an entry states: empty if it states none, or one that is no string.
pub data StatesName (stated : Option Json) (name : Bytes) : Type 0 where
  named : (s : Bytes) → stated ≡ some (str s) → name ≡ s → StatesName stated name
  unnamed : ((s : Bytes) → stated ≢ some (str s)) → name ≡ [] → StatesName stated name

-- The arguments that an entry states: an object, an empty array, or nothing. Null is none of these.
pub data StatesArguments (stated : Option Json) (arguments : Members) : Type 0 where
  left_out : stated ≡ none → arguments ≡ end → StatesArguments stated arguments
  object :
      (ms : Members) → stated ≡ some (obj ms) → arguments ≡ ms → StatesArguments stated arguments
  empty_array : stated ≡ some (arr nil) → arguments ≡ end → StatesArguments stated arguments

only_call_keys-OnlyCallKeys : (ms : Members) → only_call_keys ms ≡ true → OnlyCallKeys ms
unfolding only_call_keys
only_call_keys-OnlyCallKeys end h = tt
only_call_keys-OnlyCallKeys (member key v ms) h = elim (Bool-cases (equal key (codes "name"))) [
  | inl e ↦
      (inl (equal-eq key (codes "name") e), only_call_keys-OnlyCallKeys ms (ground (arith, h)))
  | inr e ↦
      let f : equal key (codes "arguments") ≡ true = ground (arith, h, e) in
      (inr (equal-eq key (codes "arguments") f), only_call_keys-OnlyCallKeys ms (ground (arith, h)))
]

OnlyCallKeys-only_call_keys : (ms : Members) → OnlyCallKeys ms → only_call_keys ms ≡ true
unfolding only_call_keys
OnlyCallKeys-only_call_keys end h = refl
OnlyCallKeys-only_call_keys (member key v ms) (inl e, h) =
    let same : equal key (codes "name") ≡ true = rw e (equal_refl (codes "name")) in
    ground (arith, same, OnlyCallKeys-only_call_keys ms h)
OnlyCallKeys-only_call_keys (member key v ms) (inr e, h) =
    let same : equal key (codes "arguments") ≡ true = rw e (equal_refl (codes "arguments")) in
    ground (arith, same, OnlyCallKeys-only_call_keys ms h)

asserted_string-StatesName : (o : Option Json) → StatesName o (asserted_string o)
asserted_string-StatesName none = unnamed (λ s h. cc) refl
asserted_string-StatesName (some (str s)) = named s refl refl
asserted_string-StatesName (some null) = unnamed (λ s h. cc) refl
asserted_string-StatesName (some (bool b)) = unnamed (λ s h. cc) refl
asserted_string-StatesName (some (num r)) = unnamed (λ s h. cc) refl
asserted_string-StatesName (some (arr vs)) = unnamed (λ s h. cc) refl
asserted_string-StatesName (some (obj ms)) = unnamed (λ s h. cc) refl

StatesName-asserted_string :
    (o : Option Json) (name : Bytes) → StatesName o name → asserted_string o ≡ name
StatesName-asserted_string o name (named s e q) = rw (e, q) refl
StatesName-asserted_string o name (unnamed h q) = elim (asserted_string-StatesName o) [
  | named s e r ↦ absurd (h s e)
  | unnamed k r ↦ r ∙ sym q
]

arguments_of-StatesArguments :
    (o : Option Json) (a : Members) → arguments_of o ≡ some a → StatesArguments o a
arguments_of-StatesArguments none a h = left_out refl (sym (some-eq h))
arguments_of-StatesArguments (some (obj ms)) a h = object ms refl (sym (some-eq h))
arguments_of-StatesArguments (some (arr nil)) a h = empty_array refl (sym (some-eq h))
arguments_of-StatesArguments (some (arr (cons w vs))) a h = absurd (none-ne-some h)
arguments_of-StatesArguments (some null) a h = absurd (none-ne-some h)
arguments_of-StatesArguments (some (bool b)) a h = absurd (none-ne-some h)
arguments_of-StatesArguments (some (num r)) a h = absurd (none-ne-some h)
arguments_of-StatesArguments (some (str s)) a h = absurd (none-ne-some h)

StatesArguments-arguments_of :
    (o : Option Json) (a : Members) → StatesArguments o a → arguments_of o ≡ some a
StatesArguments-arguments_of o a (left_out e q) = rw (e, q) refl
StatesArguments-arguments_of o a (object ms e q) = rw (e, q) refl
StatesArguments-arguments_of o a (empty_array e q) = rw (e, q) refl

-- A batch whose entries are objects that have a name, which the validator accepts, and at most
-- arguments beside it, which are an object or an empty array; and the calls of these entries.
pub data Reads (v : Validator) : List Json → List CatalogCall → Type 0 where
  nothing_read : Reads v [] []
  one_read :
      (entry : Members) (call : CatalogCall) (raw : List Json) (calls : List CatalogCall)
      → OnlyCallKeys entry
      → all_messages (v.name_errors entry) ≡ []
      → StatesName (find (codes "name") entry) call.name
      → StatesArguments (find (codes "arguments") entry) call.arguments
      → Reads v raw calls
      → Reads v (obj entry ∷ raw) (call ∷ calls)

module _ (v : Validator) where
  Accepts-Reads :
      (raw : List Json) (calls : List CatalogCall) → Accepts v raw calls → Reads v raw calls
  unfolding catalog_call_arguments
  Accepts-Reads raw calls nothing = nothing_read
  Accepts-Reads raw calls (one entry arguments rest later e h a r) =
      one_read entry (to_call v entry arguments) rest later (only_call_keys-OnlyCallKeys entry e) h
        (asserted_string-StatesName (find (codes "name") entry))
        (arguments_of-StatesArguments (find (codes "arguments") entry) arguments a)
        (Accepts-Reads rest later r)

  Reads-Accepts :
      (raw : List Json) (calls : List CatalogCall) → Reads v raw calls → Accepts v raw calls
  unfolding catalog_call_arguments
  Reads-Accepts raw calls nothing_read = nothing
  Reads-Accepts raw calls (one_read entry call rest later e h name arguments r) =
      let same : to_call v entry call.arguments ≡ call =
        ap (λ (s : Bytes). record { name = s; arguments = call.arguments })
          (StatesName-asserted_string (find (codes "name") entry) call.name name) in
      subst (λ c. Accepts v (obj entry ∷ rest) (c ∷ later)) same
        (one entry call.arguments rest later (OnlyCallKeys-only_call_keys entry e) h
          (StatesArguments-arguments_of (find (codes "arguments") entry) call.arguments arguments)
          (Reads-Accepts rest later r))

-- A batch is accepted exactly if every entry is an object with a name that the validator accepts
-- and no other member than arguments, which are an object or an empty array if they are there, and
-- not null. The calls are those of the entries, in their order, with no arguments where they are
-- left out.
pub parse_calls_iff :
    (v : Validator) (raw : List Json) (calls : List CatalogCall)
    → (parse_calls v raw ≡ inr calls) ↔ Reads v raw calls
parse_calls_iff v raw calls =
    let (to, from) = parse_calls-Accepts v raw calls in
    (λ h. Accepts-Reads v raw calls (to h), λ r. from (Reads-Accepts v raw calls r))
