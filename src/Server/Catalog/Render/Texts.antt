-- ===== src/Server/Catalog/Render/Texts.antt =====
-- The texts of lists of contents, and of the metadata of a batch.
use velocity_mcp.Base.{
  >>=-eq-some, Bool, List, Option, Option-cases, [], ap, arith, inl, inr, length, length-append,
  map, refl, some, some-eq, sym, true, ℕ, ◌++◌, ◌+◌, ◌>>=◌, ◌∙◌, ◌∷◌, ◌≡◌,
}
use velocity_mcp.Bytes.{Bytes, codes}
use velocity_mcp.Json.Marshal.Width.{width}
use velocity_mcp.Json.{Json, Members, arr, end, member, obj, to_items}
use velocity_mcp.Json.Marshal.{followed, marshal, marshal_items, wire_size}
use velocity_mcp.Server.Catalog.Reply.Size.{
  content_texts, flag_bytes, meta_bytes, reply, reply_size-contents, reply_size_lem,
}
use velocity_mcp.Json.Encode.{
  insert_sorted, less, quote_ascii, quote_character, quote_from, quote_text, sort_keys,
}
use velocity_mcp.Server.Catalog.Reply.{Content, catalog_reply_size, text, to_tool}
use velocity_mcp.Server.Catalog.Render.{call_meta, meta_object_of}
use velocity_mcp.Server.Catalog.Limits.{catalog_meta_key}

-- The bytes that a list of values takes, each behind a comma.
abbrev pub behind_commas : List Json → Option ℕ
behind_commas [] = some 0
behind_commas (v ∷ vs) = do m ← wire_size v; n ← behind_commas vs; some (1 + m + n)

pub behind_commas_lem :
    (vs : List Json)
    → behind_commas vs ≡ (marshal_items true (to_items vs) >>= λ xs. some (length (followed xs)))
unfolding to_items marshal wire_size
behind_commas_lem [] = refl
behind_commas_lem (v ∷ vs) = elim (Option-cases (marshal true v)) [
  | inl e ↦ rw e refl
  | inr (s, e) ↦
      rw (e, behind_commas_lem vs)
        (elim (Option-cases (marshal_items true (to_items vs))) [
          | inl f ↦ rw f refl
          | inr (xs, f) ↦ rw f (ap some (omega (arith, length-append s (followed xs))))
        ])
]

pub behind_commas-append :
    (us vs : List Json) (m n : ℕ)
    → behind_commas us ≡ some m
    → behind_commas vs ≡ some n
    → behind_commas (us ++ vs) ≡ some (m + n)
behind_commas-append [] vs m n e f = f ∙ ap some (omega (arith, some-eq e))
behind_commas-append (u ∷ us) vs m n e f =
    let (a, p, q) = >>=-eq-some (wire_size u) (λ m. behind_commas us >>= λ n. some (1 + m + n)) e in
    let (b, r, s) = >>=-eq-some (behind_commas us) (λ n. some (1 + a + n)) q in
    rw (p, behind_commas-append us vs b n r f) (ap some (omega (arith, some-eq s)))

-- The size of a reply, from the sizes of its parts.
pub reply_size_iff :
    (s : Bytes) (cs : List Content) (b : Bool) (meta : Members) (n m : ℕ)
    → behind_commas (map to_tool cs) ≡ some n
    → meta_bytes meta ≡ some m
    → catalog_reply_size (reply (text s ∷ cs) b meta) ≡ some (width s + (n + m + flag_bytes b + 50))
reply_size_iff s cs b meta n m e f =
    let (xs, written, long) =
      >>=-eq-some (content_texts cs) (λ xs. some (length (followed xs)))
        (sym (behind_commas_lem (map to_tool cs)) ∙ e) in
    reply_size_lem s cs b xs written meta m f ∙ ap some (omega (arith, some-eq long))

pub reply_size-behind_commas :
    (s : Bytes) (cs : List Content) (b : Bool) (meta : Members) (k : ℕ)
    → catalog_reply_size (reply (text s ∷ cs) b meta) ≡ some k
    → (n : ℕ) × (behind_commas (map to_tool cs) ≡ some n)
reply_size-behind_commas s cs b meta k e =
    let (xs, written) = reply_size-contents s cs b meta k e in
    (length (followed xs), behind_commas_lem (map to_tool cs) ∙ rw written refl)

-- The metadata of a call.
pub call_meta_size :
    (I N M : Json)
    → wire_size (call_meta I N M)
      ≡ (wire_size I >>= λ i. wire_size N >>= λ n. wire_size M >>= λ m. some (i + n + m + 26))
unfolding wire_size marshal sort_keys insert_sorted less quote_text quote_from quote_character
    quote_ascii
call_meta_size I N M = elim (Option-cases (marshal true I)) [
  | inl e ↦ rw e refl
  | inr (i, e) ↦ rw e (elim (Option-cases (marshal true N)) [
    | inl f ↦ rw f refl
    | inr (n, f) ↦ rw f (elim (Option-cases (marshal true M)) [
      | inl g ↦ rw g refl
      | inr (m, g) ↦ rw g (ap some (grind (arith, length-append)))
    ])
  ])
]

abbrev pub around : List Json → ℕ
around [] = 0
around (v ∷ vs) = 59

single_size :
    (k : Bytes) (V : Json)
    → wire_size (obj (member k V end))
      ≡ (wire_size V >>= λ n. some (n + length (quote_text true k) + 3))
unfolding wire_size marshal sort_keys insert_sorted
single_size k V = elim (Option-cases (marshal true V)) [
  | inl e ↦ rw e refl
  | inr (v, e) ↦ rw e (ap some (grind (arith, length-append)))
]

array_size :
    (v : Json) (vs : List Json)
    → wire_size (arr (to_items (v ∷ vs))) ≡ (behind_commas (v ∷ vs) >>= λ n. some (n + 1))
unfolding wire_size marshal to_items
array_size v vs = rw (behind_commas_lem (v ∷ vs)) (elim (Option-cases (marshal true v)) [
  | inl e ↦ rw e refl
  | inr (s, e) ↦ rw e (elim (Option-cases (marshal_items true (to_items vs))) [
    | inl f ↦ rw f refl
    | inr (xs, f) ↦ rw f (ap some (grind (arith, length-append)))
  ])
])

-- The metadata of a batch takes what its members take, behind its keys.
pub meta_object_of_size :
    (vs : List Json)
    → meta_bytes (meta_object_of vs) ≡ (behind_commas vs >>= λ n. some (n + around vs))
unfolding meta_object_of quote_text quote_from quote_character quote_ascii
meta_object_of_size [] = refl
meta_object_of_size (v ∷ vs) =
    rw
      (
        single_size catalog_meta_key (obj (member (codes "results") (arr (to_items (v ∷ vs))) end)),
        single_size (codes "results") (arr (to_items (v ∷ vs))),
        array_size v vs,
      )
      (elim (Option-cases (behind_commas (v ∷ vs))) [
        | inl e ↦ rw e refl
        | inr (n, e) ↦ rw e (ap some (omega arith))
      ])
