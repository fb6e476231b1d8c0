-- ===== src/Server/Catalog/Render/Widths.antt =====
-- How wide a report is inside the reply that carries it.
use velocity_mcp.Base.{
  Bool, List, [], all, ap, append_assoc, arith, false, leb, length, ltb, not, refl, some, suc, sym,
  true, zero, ℕ, ◌%◌, ◌&&◌, ◌*◌, ◌++◌, ◌+◌, ◌/◌, ◌<◌, ◌==◌, ◌||◌, ◌∙◌, ◌∷◌, ◌≡◌, ◌≤◌,
}
use velocity_mcp.Bytes.{Bytes, codes, index}
use velocity_mcp.Json.Marshal.Width.{width, width-append}
use velocity_mcp.Json.Encode.{
  decimal_digits, print_decimal, quote_ascii, quote_character, quote_from,
}
use velocity_mcp.Server.Catalog.Limits.{LimitError, encode_failed, limit_exceeded, limit_message}
use velocity_mcp.Server.Catalog.Batch.{
  CatalogExecuteReport, counters_text, error_text, flags_text, omitted_text, record_texts,
  report_text,
}
use velocity_mcp.Json.Marshal.{array_text}

abbrev pub ascii_head : Bytes → Bool
ascii_head [] = false
ascii_head (a ∷ s) = ltb a 128

pub width_add : (xs ys : Bytes) → ascii_head ys ≡ true → width (xs ++ ys) ≡ width xs + width ys
width_add xs [] h = cc
width_add xs (a ∷ ys) h = width-append xs ys a (ground arith)

-- A character that is spelled as it stands.
abbrev is_plain_character : ℕ → Bool
is_plain_character c =
    leb 32 c && ltb c 128 && not (c == b'"' || c == b'\\' || c == b'<' || c == b'>' || c == b'&')

all-cons :
    {A : Type 0} (p : A → Bool) (x : A) (xs : List A)
    → all p (x ∷ xs) ≡ true
    → (p x ≡ true) × (all p xs ≡ true)
all-cons p x xs h = (ground (arith, h), ground (arith, h))

all-append :
    (p : ℕ → Bool) (xs ys : Bytes) → all p xs ≡ true → all p ys ≡ true → all p (xs ++ ys) ≡ true
all-append p [] ys h k = k
all-append p (x ∷ xs) ys h k = ground (arith, all-append p xs ys)

quote_ascii-plain :
    (html : Bool) (c : ℕ) → is_plain_character c ≡ true → quote_ascii html c ≡ c ∷ []
unfolding quote_ascii
quote_ascii-plain true c h = ground (arith, h)
quote_ascii-plain false c h = ground (arith, h)

quote_character-plain :
    (html : Bool) (c : ℕ) (s : Bytes)
    → is_plain_character c ≡ true
    → quote_character html c s ≡ (c ∷ [], 0)
unfolding quote_character
quote_character-plain html c s h =
    let low : ltb c 128 ≡ true = ground (arith, h) in rw (low, quote_ascii-plain html c h) refl

quote_from-plain :
    (html : Bool) (s : Bytes) → all is_plain_character s ≡ true → quote_from html 0 s ≡ s
unfolding quote_from
quote_from-plain html [] h = refl
quote_from-plain html (c ∷ s) h =
    let (own, others) = all-cons is_plain_character c s h in
    rw (quote_character-plain html c s own) (ap (◌∷◌ c) (quote_from-plain html s others))

decimal_digits-plain :
    (f n : ℕ) (acc : Bytes)
    → all is_plain_character acc ≡ true
    → all is_plain_character (decimal_digits f n acc) ≡ true
unfolding decimal_digits
decimal_digits-plain zero n acc h = h
decimal_digits-plain (suc f) n acc h =
    ground (arith, decimal_digits-plain f (n / 10) ((n % 10 + 48) ∷ acc))

abbrev power_of_ten : ℕ → ℕ
power_of_ten zero = 1
power_of_ten (suc k) = 10 * power_of_ten k

length-decimal_digits :
    (f k n : ℕ) (acc : Bytes)
    → n < 10 * power_of_ten k
    → length (decimal_digits f n acc) ≤ suc k + length acc
unfolding decimal_digits
length-decimal_digits zero k n acc h = omega arith
length-decimal_digits (suc f) zero n acc h = ground arith
length-decimal_digits (suc f) (suc k) n acc h =
    ground (arith, length-decimal_digits f k (n / 10) ((n % 10 + 48) ∷ acc))

print_decimal-plain : (n : ℕ) → all is_plain_character (print_decimal n) ≡ true
unfolding print_decimal
print_decimal-plain n = decimal_digits-plain (suc n) n [] refl

pub length-print_decimal : (m : ℕ) → m < 10000000 → length (print_decimal m) ≤ 7
unfolding print_decimal
length-print_decimal m h = length-decimal_digits (suc m) 6 m [] h

pub width-print_decimal : (m : ℕ) → m < 10000000 → width (print_decimal m) ≤ 7
width-print_decimal m h =
    let same = ap length (quote_from-plain true (print_decimal m) (print_decimal-plain m)) in
    omega (arith, same, length-print_decimal m h)

-- The end of the message that names the limit, in front of what follows it.
pub width-limit_tail :
    (m : ℕ) (rest : Bytes)
    → m < 10000000
    → width ((quote_from false 0 (print_decimal m ++ codes " bytes.") ++ b'"' ∷ []) ++ rest)
      ≤ 7 + width (codes " bytes.\"" ++ rest)
width-limit_tail m rest h =
    let said =
      all-append is_plain_character (print_decimal m) (codes " bytes.") (print_decimal-plain m)
        refl in
    let shape : ((print_decimal m ++ codes " bytes.") ++ b'"' ∷ []) ++ rest
        ≡ print_decimal m ++ (codes " bytes.\"" ++ rest) =
      simp append_assoc in
    let e = ap width shape ∙ width_add (print_decimal m) (codes " bytes.\"" ++ rest) refl in
    rw (quote_from-plain false (print_decimal m ++ codes " bytes.") said)
      (omega (arith, e, width-print_decimal m h))

pub width_error :
    (m : ℕ)
    → m < 10000000
    → width (error_text (some (limit_exceeded m))) ≤ width (error_text (some encode_failed))
unfolding error_text limit_message quote_from quote_character quote_ascii
width_error m h = omega (arith, width-limit_tail m (codes "}") h)

omitted_width :
    (name : Bytes) (index : ℕ)
    → width (omitted_text (some (record { name = name; index = index })))
      ≡ width (omitted_text (some (record { name = []; index = index })))
        + width (quote_from false 0 name)
unfolding omitted_text quote_from quote_character quote_ascii
omitted_width name index =
    let rest = codes ",\"index\":" ++ (print_decimal index ++ codes "}") in
    let shape = ap width (append_assoc (quote_from false 0 name) (b'"' ∷ []) rest) in
    let e = shape ∙ width_add (quote_from false 0 name) (b'"' ∷ rest) refl in omega (arith, e)

ascii_head-append : (xs ys : Bytes) → ascii_head xs ≡ true → ascii_head (xs ++ ys) ≡ true
ascii_head-append [] ys h = cc
ascii_head-append (x ∷ xs) ys h = h

-- A text that is cut in front of characters of ASCII.
pieces_width :
    (F E R A O T : Bytes)
    → ascii_head E ≡ true
    → ascii_head R ≡ true
    → ascii_head O ≡ true
    → ascii_head T ≡ true
    → width (F ++ (E ++ (R ++ (A ++ (O ++ T)))))
      ≡ width F + width E + width (R ++ A) + width O + width T
pieces_width F E R A O T e r o t =
    let tail = width_add O T t in
    let body =
      ap width (sym (append_assoc R A (O ++ T)))
      ∙ width_add (R ++ A) (O ++ T) (ascii_head-append O T o) in
    let behind = width_add E (R ++ (A ++ (O ++ T))) (ascii_head-append R (A ++ (O ++ T)) r) in
    let total =
      width_add F (E ++ (R ++ (A ++ (O ++ T)))) (ascii_head-append E (R ++ (A ++ (O ++ T))) e) in
    omega (arith, tail, body, behind, total)

-- What does not depend on the error and on the name of an omitted call.
pub report_rest : CatalogExecuteReport → ℕ → List Bytes → ℕ
report_rest r index results =
    width (flags_text r.ok r.complete)
    + width (codes ",\"results\":" ++ array_text results)
    + width (omitted_text (some (record { name = []; index = index })))
    + width (counters_text r.requested r.attempted r.reported)

-- The text of the report of a failing call.
failing_text : CatalogExecuteReport → LimitError → Bytes → ℕ → List Bytes → Bytes
failing_text r e name index results =
    flags_text r.ok r.complete
    ++ (error_text (some e)
        ++ (codes ",\"results\":"
            ++ (array_text results
                ++ (omitted_text (some (record { name = name; index = index }))
                    ++ counters_text r.requested r.attempted r.reported))))

width-failing_text :
    (r : CatalogExecuteReport) (e : LimitError) (name : Bytes) (index : ℕ) (results : List Bytes)
    → width (failing_text r e name index results)
      ≡ report_rest r index results + width (error_text (some e)) + width (quote_from false 0 name)
unfolding failing_text report_rest
width-failing_text r e name index results = omega (
  arith,
  pieces_width (flags_text r.ok r.complete) (error_text (some e)) (codes ",\"results\":")
      (array_text results) (omitted_text (some (record { name = name; index = index })))
      (counters_text r.requested r.attempted r.reported) (unfold error_text in refl) refl
      (unfold omitted_text in refl) (unfold counters_text in refl),
  omitted_width name index,
)

-- The width of the report of a failing call: that of its error and of the name, and the rest.
pub report_width :
    (r : CatalogExecuteReport) (e : LimitError) (name : Bytes) (index : ℕ) (results : List Bytes)
    → record_texts r.results ≡ some results
    → (t : Bytes) × (report_text
          (record r { error = some e; omitted = some (record { name = name; index = index }) })
        ≡ some t)
      × (width t
          ≡ report_rest r index results
            + width (error_text (some e))
            + width (quote_from false 0 name))
unfolding report_text failing_text
report_width r e name index results h =
    (failing_text r e name index results, rw h refl, width-failing_text r e name index results)
