-- ===== src/Transport/McpHeaders/Mirrors.antt =====
-- Which requests the middleware hands on, and what it tells the others.
use velocity_mcp.Base.{
  Bool, Bool-cases, Option, Option-cases, [], ap, arith, false, inl, inr, none, none-ne-some, refl,
  some, some-eq, sym, true, ◌&&◌, ◌↔◌, ◌∙◌, ◌≡◌, ◌≢◌,
}
use velocity_mcp.Bytes.{Bytes, equal}
use velocity_mcp.Transport.McpHeaders.{
  Headers, Reading, check_header, check_read, check_stated, compare_value, complains, header_method,
  header_name, header_value, mirrored_header_mismatch, reads, stated_header,
}
use velocity_mcp.Bytes.Laws.{equal-eq, equal_iff, equal_ne}
use velocity_mcp.Server.Meta.{MessageInfo}

-- A header agrees with the body: it is absent or blank, which only one that is not required may
-- be, or it is stated once, can be read, and reads as the body's value if the body states one.
pub data Agrees (h : Headers) (name : Bytes) (expected : Option Bytes) (required decode : Bool)
    : Type 0 where
  unstated :
      stated_header h name ≡ reads [] → required ≡ false → Agrees h name expected required decode
  stated :
      (line value : Bytes)
      → stated_header h name ≡ reads line
      → line ≢ []
      → header_value name line decode ≡ reads value
      → ((v : Bytes) → expected ≡ some v → value ≡ v)
      → Agrees h name expected required decode

compare_value-none :
    (name value : Bytes) (expected : Option Bytes)
    → compare_value name expected value ≡ none
    → (v : Bytes) → expected ≡ some v
    → value ≡ v
compare_value-none name value none h v e = absurd (none-ne-some e)
compare_value-none name value (some w) h v e = elim (Bool-cases (equal value w)) [
  | inl f ↦ equal-eq value w f ∙ some-eq e
  | inr f ↦ absurd (none-ne-some (sym (rw f at h)))
]

none-compare_value :
    (name value : Bytes) (expected : Option Bytes)
    → ((v : Bytes) → expected ≡ some v → value ≡ v)
    → compare_value name expected value ≡ none
none-compare_value name value none same = refl
none-compare_value name value (some w) same = rw ((equal_iff value w).1 (same w refl)) refl

pub check_header-Agrees :
    (h : Headers) (name : Bytes) (expected : Option Bytes) (required decode : Bool)
    → check_header h name expected required decode ≡ none
    → Agrees h name expected required decode
unfolding check_header
check_header-Agrees h name expected required decode k = go (stated_header h name) refl k
  where
    read :
        (line : Bytes)
        → stated_header h name ≡ reads line
        → line ≢ []
        → (r : Reading) → header_value name line decode ≡ r
        → check_read name expected r ≡ none
        → Agrees h name expected required decode
    read line e ne (complains m) f c = absurd (none-ne-some (sym c))
    read line e ne (reads value) f c =
        stated line value e ne f (compare_value-none name value expected c)

    go :
        (r : Reading)
        → stated_header h name ≡ r
        → check_stated name expected required decode r ≡ none
        → Agrees h name expected required decode
    go (complains m) e c = absurd (none-ne-some (sym c))
    go (reads line) e c = elim (Bool-cases (equal line [])) [
      | inl f ↦ unstated (e ∙ ap reads (equal-eq line [] f)) (ground (arith, c, f))
      | inr f ↦
          read line e (λ q. cc (f, (equal_iff line []).1 q)) (header_value name line decode) refl
            (rw f at c)
    ]

pub Agrees-check_header :
    (h : Headers) (name : Bytes) (expected : Option Bytes) (required decode : Bool)
    → Agrees h name expected required decode
    → check_header h name expected required decode ≡ none
unfolding check_header
Agrees-check_header h name expected required decode (unstated e f) =
    rw (e, check_header, f) (unfold equal in refl)
Agrees-check_header h name expected required decode (stated line value e ne f same) =
    let filled : equal line [] ≡ false = equal_ne line [] ne in
    rw (e, check_header, filled, f) (none-compare_value name value expected same)

-- The method and the target agree with the body.
pub record Mirrored (h : Headers) (info : MessageInfo) (required : Bool) : Type 0 where
  pub method_agrees : Agrees h header_method (some info.method) required false
  pub name_agrees : Agrees h header_name info.name (required && info.requires_name) true

pub mirrored_header_mismatch_iff :
    (h : Headers) (info : MessageInfo) (required : Bool)
    → (mirrored_header_mismatch h info required ≡ none) ↔ Mirrored h info required
unfolding mirrored_header_mismatch
mirrored_header_mismatch_iff h info required = (
  λ k. elim (Option-cases (check_header h header_method (some info.method) required false)) [
    | inr (m, e) ↦ absurd (none-ne-some (sym (rw (e, mirrored_header_mismatch) at k)))
    | inl e ↦ record {
      method_agrees = check_header-Agrees h header_method (some info.method) required false e;
      name_agrees =
          check_header-Agrees h header_name info.name (required && info.requires_name) true
            (rw (e, mirrored_header_mismatch) at k);
    }
  ],
  λ q.
      rw
        (
          Agrees-check_header h header_method (some info.method) required false q.method_agrees,
          mirrored_header_mismatch,
          Agrees-check_header h header_name info.name (required && info.requires_name) true
              q.name_agrees,
        )
        refl,
)
