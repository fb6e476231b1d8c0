-- ===== src/Server/UriTemplate/Tests.antt =====
-- Templates at concrete inputs.
use velocity_mcp.Base.{[], refl, some, ◌∷◌, ◌≡◌}
use velocity_mcp.Assoc.{Assoc, insert}
use velocity_mcp.Bytes.{
  Bytes, codes, contains_byte, equal, has_prefix, has_suffix, index, last_index,
}
use velocity_mcp.Server.UriTemplate.{
  match_last, match_names, match_parsed, match_uri_template, parse_from, parse_template,
}
use velocity_mcp.Server.UriTemplate.Parsing.{Template, parse_template-Template}
use velocity_mcp.Server.UriTemplate.Matching.{IsMatch, match_uri_template-IsMatch}

abbrev file_template : Bytes
file_template = codes "file://{dir}/{+path}"

abbrev file_uri : Bytes
file_uri = codes "file://src/a/b.go"

abbrev file_vars : Assoc Bytes
file_vars = (codes "dir", codes "src") ∷ (codes "+path", codes "a/b.go") ∷ []

file_matches : match_uri_template file_template file_uri ≡ some file_vars
unfolding match_uri_template match_parsed match_names match_last parse_template parse_from index
    last_index has_prefix has_suffix contains_byte equal insert
file_matches = refl

parse_template-Template_example :
    Template file_template (parse_template file_template).0 (parse_template file_template).1
parse_template-Template_example = parse_template-Template file_template

match_uri_template-IsMatch_example : IsMatch file_template file_uri file_vars
match_uri_template-IsMatch_example =
    match_uri_template-IsMatch file_template file_uri file_vars file_matches
