-- ===== src/Server/Catalog/Reply/Size.antt =====
-- The size of a reply, from the sizes of its parts.
use velocity_mcp.Base.{
  >>=-eq-some, Bool, List, Option, Option-cases, [], ap, arith, false, inl, inr, length,
  length-append, map, none, none-ne-some, refl, some, some-eq, sym, true, ℕ, ◌+◌, ◌>>=◌, ◌∙◌, ◌∷◌,
  ◌≡◌,
}
use velocity_mcp.Bytes.{Bytes, codes, equal}
use velocity_mcp.Json.{Json, Members, arr, bool, end, find, member, obj, put, to_items}
use velocity_mcp.Json.Encode.{
  insert_sorted, less, quote_ascii, quote_character, quote_from, quote_text, sort_keys,
}
use velocity_mcp.Json.Marshal.{array_text, followed, marshal, marshal_items, object_text, wire_size}
use velocity_mcp.Server.Catalog.Reply.{
  Content, Response, add_unless_empty, catalog_reply_size, merge_meta, text, to_tool, tool_result,
}
use velocity_mcp.Json.Marshal.Width.{width}

-- The reply of given parts that has no structured content.
abbrev pub reply : List Content → Bool → Members → Response
reply contents is_error meta = record {
  contents = contents;
  is_error = is_error;
  meta = meta;
  structured = end;
}

-- The bytes of the metadata with its key, where there is any.
abbrev pub meta_bytes : Members → Option ℕ
meta_bytes end = some 0
meta_bytes (member k v ms) = wire_size (obj (member k v ms)) >>= λ n. some (n + 9)

-- The texts of the contents.
abbrev pub content_texts : List Content → Option (List Bytes)
content_texts cs = marshal_items true (to_items (map to_tool cs))

abbrev pub flag_bytes : Bool → ℕ
flag_bytes true = 4
flag_bytes false = 5

module _ (c : Bytes) (C : Json) (encoded : marshal true C ≡ some c) where
  plain_object :
      (b : Bool)
      → wire_size (obj (member (codes "content") C (member (codes "isError") (bool b) end)))
        ≡ some (length c + flag_bytes b + 23)
  unfolding wire_size marshal sort_keys insert_sorted less quote_text quote_from quote_character
      quote_ascii
  plain_object true = rw encoded (ap some (grind (arith, length-append)))
  plain_object false = rw encoded (ap some (grind (arith, length-append)))

  meta_object :
      (m : Bytes) (M : Json) (b : Bool)
      → marshal true M ≡ some m
      → wire_size (
          obj (
            member
              (codes "content")
              C
              (member (codes "isError") (bool b) (member (codes "_meta") M end))))
        ≡ some (length c + length m + flag_bytes b + 32)
  unfolding wire_size marshal sort_keys insert_sorted less quote_text quote_from quote_character
      quote_ascii
  meta_object m M true e = rw (encoded, e) (ap some (grind (arith, length-append)))
  meta_object m M false e = rw (encoded, e) (ap some (grind (arith, length-append)))

pub wire_size-text :
    (v : Json) (n : ℕ)
    → wire_size v ≡ some n
    → (t : Bytes) × (marshal true v ≡ some t) × (length t ≡ n)
unfolding wire_size
wire_size-text v n e =
    let (t, written, long) = >>=-eq-some (marshal true v) (λ s. some (length s)) e in
    (t, written, some-eq long)

text_item : Bytes → Bytes
unfolding sort_keys insert_sorted less quote_text quote_from quote_character quote_ascii
text_item s =
    object_text true ((codes "text", quote_text true s) ∷ (codes "type", codes "\"text\"") ∷ [])

length-text_item : (s : Bytes) → length (text_item s) ≡ width s + 25
unfolding text_item
length-text_item s = grind (arith, length-append)

marshal-text : (s : Bytes) → marshal true (to_tool (text s)) ≡ some (text_item s)
unfolding to_tool marshal text_item sort_keys insert_sorted less quote_text quote_from
    quote_character quote_ascii
marshal-text s = refl

module _ (s : Bytes) (cs : List Content) (b : Bool) (xs : List Bytes)
    (encoded : content_texts cs ≡ some xs) where
  array_encoded :
      (c : Bytes) × (marshal true (arr (to_items (map to_tool (text s ∷ cs)))) ≡ some c)
      × (length c ≡ width s + length (followed xs) + 27)
  unfolding to_items marshal
  array_encoded = (
    array_text (text_item s ∷ xs),
    rw (marshal-text s, encoded) refl,
    grind (arith, length-append, length-text_item s),
  )

  pub reply_size_lem :
      (meta : Members) (m : ℕ)
      → meta_bytes meta ≡ some m
      → catalog_reply_size (reply (text s ∷ cs) b meta)
        ≡ some (width s + (length (followed xs) + m + flag_bytes b + 50))
  unfolding catalog_reply_size tool_result merge_meta add_unless_empty find put equal
  reply_size_lem end m e =
      let (c, enc, size) = array_encoded in
      plain_object c (arr (to_items (map to_tool (text s ∷ cs)))) enc b
      ∙ ap some (omega (arith, size, some-eq e))
  reply_size_lem (member k v ms) m e =
      let (c, enc, size) = array_encoded in
      let (n, sized, sum) = >>=-eq-some (wire_size (obj (member k v ms))) (λ n. some (n + 9)) e in
      let (t, written, long) = wire_size-text (obj (member k v ms)) n sized in
      meta_object c (arr (to_items (map to_tool (text s ∷ cs)))) enc t (obj (member k v ms)) b
        written
      ∙ ap some (omega (arith, size, long, some-eq sum))

abbrev with_meta : Json → Bool → Json → Json
with_meta C b M =
    obj (
      member (codes "content") C (member (codes "isError") (bool b) (member (codes "_meta") M end)))

meta_refused :
    (C : Json) (b : Bool) (M : Json) → marshal true M ≡ none → wire_size (with_meta C b M) ≡ none
unfolding wire_size marshal
meta_refused C b M e = elim (Option-cases (marshal true C)) [
  | inl f ↦ rw f refl
  | inr (c, f) ↦ rw (f, e) refl
]

array_refused :
    (s : Bytes) (cs : List Content)
    → content_texts cs ≡ none
    → marshal true (arr (to_items (map to_tool (text s ∷ cs)))) ≡ none
unfolding marshal to_items
array_refused s cs e = rw (marshal-text s, e) refl

content_refused :
    (C : Json) (ms : Members)
    → marshal true C ≡ none
    → wire_size (obj (member (codes "content") C ms)) ≡ none
unfolding wire_size marshal
content_refused C ms e = rw e refl

reply_size_refused :
    (s : Bytes) (cs : List Content) (b : Bool) (meta : Members)
    → content_texts cs ≡ none
    → catalog_reply_size (reply (text s ∷ cs) b meta) ≡ none
unfolding catalog_reply_size tool_result merge_meta add_unless_empty find put equal
reply_size_refused s cs b end e =
    content_refused (arr (to_items (map to_tool (text s ∷ cs))))
      (member (codes "isError") (bool b) end) (array_refused s cs e)
reply_size_refused s cs b (member k v ms) e =
    content_refused (arr (to_items (map to_tool (text s ∷ cs))))
      (member (codes "isError") (bool b) (member (codes "_meta") (obj (member k v ms)) end))
      (array_refused s cs e)

-- A reply that has a size has contents and metadata that can be encoded.
pub reply_size-contents :
    (s : Bytes) (cs : List Content) (b : Bool) (meta : Members) (n : ℕ)
    → catalog_reply_size (reply (text s ∷ cs) b meta) ≡ some n
    → (xs : List Bytes) × (content_texts cs ≡ some xs)
reply_size-contents s cs b meta n e = elim (Option-cases (content_texts cs)) [
  | inl f ↦ absurd (none-ne-some (sym (reply_size_refused s cs b meta f) ∙ e))
  | inr p ↦ p
]

pub reply_size-meta :
    (s : Bytes) (cs : List Content) (b : Bool) (meta : Members) (n : ℕ)
    → catalog_reply_size (reply (text s ∷ cs) b meta) ≡ some n
    → (m : ℕ) × (meta_bytes meta ≡ some m)
unfolding catalog_reply_size tool_result merge_meta add_unless_empty find put equal wire_size
reply_size-meta s cs b end n e = (0, refl)
reply_size-meta s cs b (member k v ms) n e =
    elim (Option-cases (marshal true (obj (member k v ms)))) [
      | inl f ↦ absurd (
          none-ne-some (
            sym
              (meta_refused (arr (to_items (map to_tool (text s ∷ cs)))) b (obj (member k v ms)) f)
            ∙ e))
      | inr (t, f) ↦ (length t + 9, rw f refl)
    ]
