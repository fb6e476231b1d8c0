-- ===== src/Client/Unfinished.antt =====
-- client/unfinished.go: results that the server did not complete, and their continuation.
pub mod Continued
pub mod Tests
use velocity_mcp.Base.{
  Bool, List, Option, [], all, any, false, if◌then◌else◌, is_some, length, none, not, some, ℕ, ◌&&◌,
  ◌==◌, ◌>>=◌, ◌||◌, ◌∷◌,
}
use velocity_mcp.Bytes.{Bytes, codes, equal, trim}
use velocity_mcp.Assoc.{Assoc, insert, lookup}
use velocity_mcp.Json.{Members}
use velocity_mcp.Json.Number.{first_is}
use velocity_mcp.Json.Decode.{RawMembers, unmarshal_members, unmarshal_string}

abbrev pub is_json_space : ℕ → Bool
is_json_space c = c == b' ' || c == b'\t' || c == b'\n' || c == b'\r'

unfoldable pub trim_json_space : Bytes → Bytes
trim_json_space raw = trim is_json_space raw

unfoldable pub json_object : Bytes → Option RawMembers
json_object raw =
    let trimmed = trim_json_space raw in
    if first_is b'{' trimmed then (unmarshal_members trimmed >>= λ m. m) else none

unfoldable pub json_string : Bytes → Option Bytes
json_string raw =
    let trimmed = trim_json_space raw in
    if first_is b'"' trimmed then unmarshal_string trimmed else none

abbrev pub result_type_complete : Bytes
result_type_complete = codes "complete"

abbrev pub result_type_input_required : Bytes
result_type_input_required = codes "input_required"

abbrev pub answerable_input_methods : List Bytes
answerable_input_methods =
    codes "elicitation/create" ∷ codes "sampling/createMessage" ∷ codes "roots/list" ∷ []

-- `UnfinishedResultError`; its `ResultType` is always the one that asks for input.
pub record UnfinishedResult : Type 0 where
  pub method : Bytes
  pub input_requests : RawMembers
  pub request_state : Option Bytes
  pub raw_state : Bytes
  pub result : Bytes

-- What `unfinishedResult` reports: nothing, an invalid result, or one to continue from.
pub data Completion : Type 0 where
  finished_result : Completion
  invalid_result : Completion
  suspended : UnfinishedResult → Completion

abbrev pub raw_member : Bytes → RawMembers → Bytes
raw_member key members = elim (lookup key members) [ none ↦ [] | some raw ↦ raw ]

-- `answerableInputRequest`.
unfoldable pub answerable_input_request : Bytes → Bool
answerable_input_request raw = elim (json_object raw) [
  | none ↦ false
  | some members ↦ elim (json_string (raw_member (codes "method") members)) [
    | none ↦ false
    | some method ↦ any (λ m. equal m method) answerable_input_methods
  ]
]

-- The state token of a result and its spelling; `none` for one that is no string.
abbrev pub stated_token : Option Bytes → Option (Option Bytes × Bytes)
stated_token none = some (none, [])
stated_token (some raw) = json_string raw >>= λ state. some (some state, trim_json_space raw)

-- The input requests of a result; `none` for a member that is no object or that holds an entry
-- which no client can answer.
abbrev pub stated_requests : Option Bytes → Option RawMembers
stated_requests none = some []
stated_requests (some raw) = json_object raw >>= λ requests.
    if all (λ r. answerable_input_request r.1) requests then some requests else none

abbrev pub asks_for_nothing : Option Bytes → RawMembers → Bool
asks_for_nothing state requests = not (is_some state) && length requests == 0

-- The last check of `inputRequired`.
abbrev pub unfinished_with :
    Bytes → Bytes → Option Bytes × Bytes → RawMembers → Option UnfinishedResult
unfinished_with method raw token requests =
    if asks_for_nothing token.0 requests
    then none
    else some (record {
      method = method;
      input_requests = requests;
      request_state = token.0;
      raw_state = token.1;
      result = raw;
    })

abbrev pub or_invalid : Option UnfinishedResult → Completion
or_invalid none = invalid_result
or_invalid (some u) = suspended u

-- What `inputRequired` builds; `none` for an invalid result.
unfoldable pub input_required : Bytes → RawMembers → Bytes → Option UnfinishedResult
input_required method members raw = do
  token ← stated_token (lookup (codes "requestState") members)
  requests ← stated_requests (lookup (codes "inputRequests") members)
  unfinished_with method raw token requests

-- What a result of a stated type is; the token is that of its result type.
unfoldable pub of_result_type : Bytes → RawMembers → Bytes → Option Bytes → Completion
of_result_type method members raw none = finished_result
of_result_type method members raw (some stated) = elim (json_string stated) [
  | none ↦ invalid_result
  | some kind ↦
      if equal kind result_type_complete
      then finished_result
      else if equal kind result_type_input_required
      then or_invalid (input_required method members raw)
      else invalid_result
]

unfoldable pub unfinished_result : Bytes → Bytes → Completion
unfinished_result method raw = elim (json_object raw) [
  | none ↦ invalid_result
  | some members ↦ of_result_type method members raw (lookup (codes "resultType") members)
]

pub record Continuation : Type 0 where
  pub request_state : Option Bytes
  pub input_responses : Assoc Members
  pub raw_state : Bytes

-- `Continue`.
abbrev pub continue_with : UnfinishedResult → Assoc Members → Continuation
continue_with e responses = record {
  request_state = e.request_state;
  input_responses = responses;
  raw_state = e.raw_state;
}

-- A value of a request's params: JSON as it stands, a string, or the responses.
pub data Param : Type 0 where
  as_it_arrived : Bytes → Param
  string : Bytes → Param
  answers : Assoc Members → Param

abbrev pub spells : Option Bytes → Bytes → Bool
spells none state = false
spells (some arrived) state = equal arrived state

unfoldable pub state_on_the_wire : Bytes → Bytes → Param
state_on_the_wire state raw =
    if spells (json_string raw) state then as_it_arrived raw else string state

abbrev pub with_state : Continuation → Assoc Param → Assoc Param
with_state c params = elim c.request_state [
  | none ↦ params
  | some state ↦ insert (codes "requestState") (state_on_the_wire state c.raw_state) params
]

abbrev pub with_responses : Continuation → Assoc Param → Assoc Param
with_responses c params =
    if length c.input_responses == 0
    then params
    else insert (codes "inputResponses") (answers c.input_responses) params

-- `applyContinuation`; `none` for more than one.
unfoldable pub apply_continuation : Assoc Param → List Continuation → Option (Assoc Param)
apply_continuation params [] = some params
apply_continuation params (c ∷ []) = some (with_responses c (with_state c params))
apply_continuation params (c ∷ d ∷ more) = none
