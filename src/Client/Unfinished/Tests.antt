-- ===== src/Client/Unfinished/Tests.antt =====
-- Unfinished results, at concrete inputs.
use velocity_mcp.Client.Unfinished.{
  Param, UnfinishedResult, answerable_input_request, apply_continuation, continue_with,
  finished_result, input_required, json_object, json_string, of_result_type, string,
  trim_json_space, unfinished_result,
}
use velocity_mcp.Base.{[], false, refl, some, ◌↔◌, ◌∷◌, ◌≡◌}
use velocity_mcp.Bytes.{Bytes, codes, equal, has_prefix, trim, trim_left, trim_right}
use velocity_mcp.Assoc.{Assoc, insert, lookup}
use velocity_mcp.Json.Decode.{RawMembers, raw_members, unmarshal_members, unmarshal_string}
use velocity_mcp.Json.Text.{
  character, encode_rune, escape, literal, next_mode, unquote, unquote_from, utf8_tail,
}
use velocity_mcp.Client.Unfinished.Continued.{
  IsWhole, apply_continuation-continue_with, echoed, unfinished_result-IsWhole,
}
use velocity_mcp.Json.{
  parse, parse_fields, put, read_array, read_field, read_list, read_object, read_scalar, read_text,
  read_value, read_word, skip_space, to_items, to_members, whole,
}

abbrev paused : Bytes
paused = codes "{\"resultType\":\"input_required\",\"requestState\":\"s1\"}"

abbrev whole_result : Bytes
whole_result = codes "{\"resultType\":\"complete\"}"

abbrev paused_members : RawMembers
paused_members =
    (codes "resultType", codes "\"input_required\"") ∷ (codes "requestState", codes "\"s1\"") ∷ []

abbrev pause : UnfinishedResult
pause = record {
  method = codes "tools/call";
  input_requests = [];
  request_state = some (codes "s1");
  raw_state = codes "\"s1\"";
  result = paused;
}

abbrev call_params : Assoc Param
call_params = (codes "name", string (codes "echo")) ∷ []

apply_continuation-continue_with_example :
    (sent : Assoc Param) × (apply_continuation call_params (continue_with pause [] ∷ [])
      ≡ some sent)
    × (lookup (codes "requestState") sent
        ≡ echoed
            (lookup (codes "requestState") paused_members)
            (lookup (codes "requestState") call_params))
    × ((key : Bytes)
        → equal (codes "requestState") key ≡ false
        → equal (codes "inputResponses") key ≡ false
        → lookup key sent ≡ lookup key call_params)
unfolding json_object trim_json_space trim unmarshal_members parse velocity_mcp.Json.whole
    read_value skip_space read_object read_list read_field read_text read_scalar equal parse_fields
    unfinished_result of_result_type velocity_mcp.Assoc.insert lookup has_prefix trim_left
    trim_right answerable_input_request input_required json_string raw_members unmarshal_string
    character encode_rune escape literal next_mode unquote unquote_from utf8_tail put read_array
    read_word to_items to_members
apply_continuation-continue_with_example =
    apply_continuation-continue_with (codes "tools/call") paused paused_members pause call_params []
      refl refl

unfinished_result-IsWhole_example :
    (unfinished_result (codes "tools/call") whole_result ≡ finished_result) ↔ IsWhole whole_result
unfinished_result-IsWhole_example = unfinished_result-IsWhole (codes "tools/call") whole_result
