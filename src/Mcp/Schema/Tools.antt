-- ===== src/Mcp/Schema/Tools.antt =====
-- internal/mcp/toolschema/sanitize.go: what the tools of a tools/list answer look like afterwards.
use orbitproxy_go.Prelude.{
  ℕ, suc, ◌≤◌, ◌≡◌, subst, inl, inr, Bool, true, false, Text, text_eq, codes, Option, none, some,
  arith, if◌then◌else◌, Bool-cases, Option-cases,
}
use orbitproxy_go.Mcp.Schema.{
  Value, null, bool, num, str, arr, obj, Items, nil, cons, Fields, end, field, is_void, Seen,
  sanitize_object, keep_field, at_key, sanitize_input_schema, sanitize_tool_input_schema,
  sanitize_tools,
}
use orbitproxy_go.Mcp.Schema.Clean.{depth, depth_items, depth_fields, GoodNode, IsClean}
use orbitproxy_go.Mcp.Schema.Cleaned.{OnSome}
use orbitproxy_go.Mcp.Schema.Sanitized.{object_type-IsClean, sanitize_json_schema-IsClean}

-- Each `inputSchema` of a tool is clean.
abbrev pub CleanTool : ℕ → Fields → Type 0
CleanTool m end = Unit
CleanTool m (field k v fs) =
    (text_eq k (codes "inputSchema") ≡ true → GoodNode (IsClean m) v) × CleanTool m fs

abbrev pub CleanTools : ℕ → Items → Type 0
CleanTools m nil = Unit
CleanTools m (cons null vs) = CleanTools m vs
CleanTools m (cons (obj tool) vs) = CleanTool m tool × CleanTools m vs
CleanTools m (cons (arr ws) vs) = ⊥
CleanTools m (cons (bool b) vs) = ⊥
CleanTools m (cons (num n) vs) = ⊥
CleanTools m (cons (str s) vs) = ⊥

sanitize_input_schema-GoodNode :
    (n m : ℕ) (v : Value)
    → depth v ≤ n
    → OnSome (GoodNode (IsClean m)) (sanitize_input_schema n v).0
unfolding sanitize_input_schema sanitize_object is_void depth
sanitize_input_schema-GoodNode n m null le = object_type-IsClean m
sanitize_input_schema-GoodNode n m (obj end) le = object_type-IsClean m
sanitize_input_schema-GoodNode n m (obj (field k v fs)) le =
    sanitize_json_schema-IsClean n m (field k v fs) (omega (arith, le))
sanitize_input_schema-GoodNode n m (arr vs) le = tt
sanitize_input_schema-GoodNode n m (bool b) le = tt
sanitize_input_schema-GoodNode n m (num x) le = tt
sanitize_input_schema-GoodNode n m (str s) le = tt

keep_field-CleanTool :
    (m : ℕ) (k : Text) (s : Seen) (r : Fields × Bool)
    → OnSome (λ v. text_eq k (codes "inputSchema") ≡ true → GoodNode (IsClean m) v) s.0
    → CleanTool m r.0
    → CleanTool m (keep_field k s r).0
unfolding keep_field
keep_field-CleanTool m k (none, c) (fs, more) good rest = rest
keep_field-CleanTool m k (some v, c) (fs, more) good rest = (good, rest)

constant_OnSome {ℓ κ} :
    {A : Type ℓ} (C : Type 0) (Q : A → Type κ) (o : Option A) → OnSome Q o → OnSome (λ a. C → Q a) o
constant_OnSome C Q none h = tt
constant_OnSome C Q (some a) h = λ c. h

seen-CleanTool :
    (n m : ℕ) (k : Text) (v : Value)
    → depth v ≤ n
    → OnSome
        (λ w. text_eq k (codes "inputSchema") ≡ true → GoodNode (IsClean m) w)
        (if text_eq k (codes "inputSchema") then sanitize_input_schema n v else (some v, false)).0
seen-CleanTool n m k v le = elim (Bool-cases (text_eq k (codes "inputSchema"))) [
  | inl same ↦ rw same (
      constant_OnSome (true ≡ true) (GoodNode (IsClean m)) (sanitize_input_schema n v).0
        (sanitize_input_schema-GoodNode n m v le))
  | inr other ↦ rw other (λ same. absurd (cc same))
]

sanitize_tool_input_schema-CleanTool :
    (n m : ℕ) (fs : Fields)
    → depth_fields fs ≤ n
    → CleanTool m (at_key (codes "inputSchema") (sanitize_input_schema n) fs).0
unfolding at_key depth
sanitize_tool_input_schema-CleanTool n m end le = tt
sanitize_tool_input_schema-CleanTool n m (field k v fs) le =
    let key = codes "inputSchema" in
    keep_field-CleanTool m k (if text_eq k key then sanitize_input_schema n v else (some v, false))
      (at_key key (sanitize_input_schema n) fs) (seen-CleanTool n m k v (omega (arith, le)))
      (sanitize_tool_input_schema-CleanTool n m fs (omega (arith, le)))

-- The loop over the tools, with more fuel than their schemas have objects inside each other: if it
-- accepts the list, the input schema of each tool has no null in the place of a schema, at any depth.
pub sanitize_tools-CleanTools :
    (n m : ℕ) (vs : Items) {vs' : Items} {changed : Bool}
    → depth_items vs ≤ suc n
    → sanitize_tools n vs ≡ some (vs', changed)
    → CleanTools m vs'
unfolding sanitize_tools sanitize_tool_input_schema depth
sanitize_tools-CleanTools n m nil {vs'} le h =
    let same : nil ≡ vs' = cc h in subst (CleanTools m) same tt
sanitize_tools-CleanTools n m (cons null vs) {vs'} le h =
    elim (Option-cases (sanitize_tools n vs)) [
      | inl bad ↦ absurd (ground (arith, bad))
      | inr ((ws, more), e) ↦
          let same : cons null ws ≡ vs' = ground (arith, e) in
          subst (CleanTools m) same (sanitize_tools-CleanTools n m vs (omega (arith, le)) e)
    ]
sanitize_tools-CleanTools n m (cons (obj tool) vs) {vs'} le h =
    elim (Option-cases (sanitize_tools n vs)) [
      | inl bad ↦ absurd (ground (arith, bad))
      | inr ((ws, more), e) ↦
          let tool' : Fields = (at_key (codes "inputSchema") (sanitize_input_schema n) tool).0 in
          let same : cons (obj tool') ws ≡ vs' = ground (arith, e) in
          subst (CleanTools m) same (
            sanitize_tool_input_schema-CleanTool n m tool (omega (arith, le)),
            sanitize_tools-CleanTools n m vs (omega (arith, le)) e,
          )
    ]
sanitize_tools-CleanTools n m (cons (arr ws) vs) le h = cc
sanitize_tools-CleanTools n m (cons (bool b) vs) le h = cc
sanitize_tools-CleanTools n m (cons (num x) vs) le h = cc
sanitize_tools-CleanTools n m (cons (str s) vs) le h = cc
