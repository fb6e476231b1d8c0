-- ===== src/Server/UriTemplate/Matching.antt =====
-- What a match says of the uri.
use velocity_mcp.Base.{
  Bool-cases, List, [], ap, append-nil, arith, drop, false, inl, inr, length, none-ne-some, refl,
  some, some-eq, sym, ◌++◌, ◌==◌, ◌∙◌, ◌∷◌, ◌≡◌,
}
use velocity_mcp.Bytes.{Bytes, equal}
use velocity_mcp.Bytes.Laws.{equal-eq}
use velocity_mcp.Server.UriTemplate.Parsing.{
  Template, bare, parse_template-Template, placeholder, unterminated,
}
use velocity_mcp.Assoc.{Assoc}
use velocity_mcp.Server.UriTemplate.{head_or_empty, match_uri_template, parse_template}
use velocity_mcp.Server.UriTemplate.Filling.{AreSegments, bind, fill, match_parsed-Filled}

Template-no_names :
    {t : Bytes} {literals names : List Bytes}
    → Template t literals names
    → length names ≡ 0
    → head_or_empty literals ≡ t
Template-no_names (bare h) e = refl
Template-no_names (unterminated h k) e = refl
Template-no_names (placeholder h k l later) e = absurd (omega (arith, e))

-- How a uri matches a template.
pub record IsMatch (template uri : Bytes) (found : Assoc Bytes) : Type 0 where
  pub values : List Bytes
  pub count : length values ≡ length (parse_template template).1
  pub text :
      uri
      ≡ head_or_empty (parse_template template).0
        ++ fill (drop 1 (parse_template template).0) values
  pub segments : AreSegments values
  pub bound : found ≡ bind (parse_template template).1 values []

parsed-IsMatch :
    (template uri : Bytes) (found : Assoc Bytes) (literals names : List Bytes)
    → (parse_template template).0 ≡ literals
    → (parse_template template).1 ≡ names
    → match_uri_template template uri ≡ some found
    → IsMatch template uri found
unfolding match_uri_template
parsed-IsMatch template uri found literals [] el en h = elim (Bool-cases (equal template uri)) [
  | inr e ↦ absurd (none-ne-some (rw (en, e) at h))
  | inl e ↦
      let whole = Template-no_names (parse_template-Template template) (ap length en) in
      record {
        values = [];
        count = sym (ap length en);
        text = sym (append-nil _ ∙ whole ∙ equal-eq template uri e);
        segments = tt;
        bound = sym (some-eq (rw (en, e) at h)) ∙ rw en refl;
      }
]
parsed-IsMatch template uri found literals (name ∷ names) el en h =
    let z : (length (name ∷ names) == 0) ≡ false = ground arith in
    let (starts, filled) =
      match_parsed-Filled (parse_template template).0 name names uri found (rw (en, z) at h) in
    record {
      values = filled.values;
      count = filled.count ∙ sym (ap length en);
      text = starts ∙ ap (λ t. head_or_empty (parse_template template).0 ++ t) filled.text;
      segments = filled.segments;
      bound = filled.bound ∙ rw en refl;
    }

-- A uri that matches is the literals of the template with a value at each placeholder: no value
-- is empty, and none but the last holds a slash. The variables are the values under their names.
pub match_uri_template-IsMatch :
    (template uri : Bytes) (found : Assoc Bytes)
    → match_uri_template template uri ≡ some found
    → IsMatch template uri found
match_uri_template-IsMatch template uri found h = parsed-IsMatch template uri found _ _ refl refl h
