-- ===== src/Mcp/Preflight/Ready.antt =====
-- internal/mcp/preflight/command.go: what CheckCommand accepts.
use orbitproxy_go.Prelude.{
  ◌≡◌, ◌≢◌, ◌↔◌, refl, ap, sym, ◌∙◌, ◌⊎◌, inl, inr, Bool, true, false, not, ◌&&◌, Text, text_eq,
  text_eq_iff, codes, List, [], ◌∷◌, arith, Bool-cases,
}
use orbitproxy_go.Prelude.Paths.{join_path}
use orbitproxy_go.Control.Handlers.{CommandResult}
use orbitproxy_go.Mcp.Errors.Code
use orbitproxy_go.Mcp.Userenv.{Info, info, found, any_execute}
use orbitproxy_go.Mcp.Preflight.{
  Machine, CommandConfig, npx_package_spec, uvx_package_spec, package_dir_name, npm_package_present,
  npm_package_candidate_dirs, any_package, npm_package_installed,
}
use orbitproxy_go.Mcp.Preflight.Command.{
  uv_tool_name, uv_tool_candidate_dirs, is_directory, any_tool, uv_tool_installed, check_packages,
}

-- One of the directories has the package.json of the package, or the directory of the tool.
abbrev pub PackageIn : Machine → Text → List Text → Type 0
PackageIn m name [] = ⊥
PackageIn m name (d ∷ ds) =
    (npm_package_present m (join_path (d ∷ name ∷ codes "package.json" ∷ [])) ≡ true)
    ⊎ PackageIn m name ds

abbrev pub ToolIn : Machine → Text → List Text → Type 0
ToolIn m name [] = ⊥
ToolIn m name (d ∷ ds) = (is_directory m (join_path (d ∷ name ∷ [])) ≡ true) ⊎ ToolIn m name ds

-- What npx and uvx need.
abbrev pub NpmReady : Machine → CommandConfig → Text → Type 0
NpmReady m cfg path =
    (npx_package_spec cfg.command cfg.args ≡ [])
    ⊎ ((package_dir_name (npx_package_spec cfg.command cfg.args) ≢ [])
        × PackageIn m (package_dir_name (npx_package_spec cfg.command cfg.args))
            (npm_package_candidate_dirs m path cfg.work_dir))

abbrev pub UvReady : Machine → CommandConfig → Type 0
UvReady m cfg =
    (uvx_package_spec cfg.command cfg.args ≡ [])
    ⊎ ((uv_tool_name (uvx_package_spec cfg.command cfg.args) ≢ [])
        × ToolIn m (uv_tool_name (uvx_package_spec cfg.command cfg.args))
            (uv_tool_candidate_dirs m))

-- An executable file, a working directory if one is asked for, and the package.
abbrev pub Ready : Machine → CommandConfig → Text → Type 0
Ready m cfg path =
    (cfg.command ≢ [])
    × (m.look_path cfg.command ≡ found path)
    × ((i : Info) × (m.stat path ≡ info i) × (i.is_dir ≡ false) × (any_execute i.perm ≡ true))
    × ((cfg.work_dir ≡ []) ⊎ (is_directory m cfg.work_dir ≡ true))
    × NpmReady m cfg path
    × UvReady m cfg

abbrev pub accepted : Text → CommandResult
accepted path = record { is_ok = true; error_code = []; error_message = []; resolved_path = path }

any_package_iff :
    (m : Machine) (name : Text) (dirs : List Text)
    → (any_package m name dirs ≡ true) ↔ PackageIn m name dirs
unfolding any_package
any_package_iff m name [] = ((λ h. absurd (cc h)), (λ p. absurd p))
any_package_iff m name (d ∷ ds) =
    let here = npm_package_present m (join_path (d ∷ name ∷ codes "package.json" ∷ [])) in
    elim (Bool-cases here) [
      | inl present ↦ ((λ h. inl present), (λ p. rw present refl))
      | inr missing ↦
          let ih = any_package_iff m name ds in
          (
            (λ h. inr (ih.0 (ground (arith, h, missing)))),
            (λ p. elim p [
              | inl present ↦ absurd (cc (present, missing))
              | inr later ↦ let found = ih.1 later in rw missing found
            ]),
          )
    ]

any_tool_iff :
    (m : Machine) (name : Text) (dirs : List Text)
    → (any_tool m name dirs ≡ true) ↔ ToolIn m name dirs
unfolding any_tool
any_tool_iff m name [] = ((λ h. absurd (cc h)), (λ p. absurd p))
any_tool_iff m name (d ∷ ds) =
    let here = is_directory m (join_path (d ∷ name ∷ [])) in
    elim (Bool-cases here) [
      | inl present ↦ ((λ h. inl present), (λ p. rw present refl))
      | inr missing ↦
          let ih = any_tool_iff m name ds in
          (
            (λ h. inr (ih.0 (ground (arith, h, missing)))),
            (λ p. elim p [
              | inl present ↦ absurd (cc (present, missing))
              | inr later ↦ let found = ih.1 later in rw missing found
            ]),
          )
    ]

pub empty_iff : (s : Text) → (s ≡ []) ↔ (text_eq s [] ≡ true)
empty_iff s = ((text_eq_iff s []).1, (text_eq_iff s []).0)

-- The two codes: none, and that of a package that is missing.
codes_lem : (text_eq [] [] ≡ true) × (text_eq Code.package_not_installed [] ≡ false)
unfolding text_eq
codes_lem = (refl, refl)

npm_package_installed_iff :
    (m : Machine) (spec path work_dir : Text)
    → (text_eq (npm_package_installed m spec path work_dir) [] ≡ true) ↔ (
        (package_dir_name spec ≢ [])
        × PackageIn m (package_dir_name spec) (npm_package_candidate_dirs m path work_dir))
unfolding npm_package_installed
npm_package_installed_iff m spec path work_dir =
    let name = package_dir_name spec in
    let dirs = npm_package_candidate_dirs m path work_dir in
    let there = any_package_iff m name dirs in
    elim (Bool-cases (text_eq name [])) [
      | inl empty ↦ (
        (λ h. absurd (ground (arith, h, empty, codes_lem.1))),
        (λ (full, p). absurd (full ((empty_iff name).1 empty))),
      )
      | inr full ↦ elim (Bool-cases (any_package m name dirs)) [
        | inl present ↦ (
          (λ h. ((λ none. absurd (cc (full, (empty_iff name).0 none))), there.0 present)),
          (λ r. ground (arith, full, present, codes_lem.0)),
        )
        | inr missing ↦ (
          (λ h. absurd (ground (arith, h, full, missing, codes_lem.1))),
          (λ (_, p). absurd (cc (missing, there.1 p))),
        )
      ]
    ]

uv_tool_installed_iff :
    (m : Machine) (spec : Text)
    → (text_eq (uv_tool_installed m spec) [] ≡ true)
      ↔ ((uv_tool_name spec ≢ []) × ToolIn m (uv_tool_name spec) (uv_tool_candidate_dirs m))
unfolding uv_tool_installed
uv_tool_installed_iff m spec =
    let name = uv_tool_name spec in
    let dirs = uv_tool_candidate_dirs m in
    let there = any_tool_iff m name dirs in
    elim (Bool-cases (text_eq name [])) [
      | inl empty ↦ (
        (λ h. absurd (ground (arith, h, empty, codes_lem.1))),
        (λ (full, p). absurd (full ((empty_iff name).1 empty))),
      )
      | inr full ↦ elim (Bool-cases (any_tool m name dirs)) [
        | inl present ↦ (
          (λ h. ((λ none. absurd (cc (full, (empty_iff name).0 none))), there.0 present)),
          (λ r. ground (arith, full, present, codes_lem.0)),
        )
        | inr missing ↦ (
          (λ h. absurd (ground (arith, h, full, missing, codes_lem.1))),
          (λ (_, p). absurd (cc (missing, there.1 p))),
        )
      ]
    ]

not_both : (a b : Bool) → (not a && not b) ≡ false → (a ≡ true) ⊎ (b ≡ true)
not_both true b h = inl refl
not_both false true h = inr refl
not_both false false h = absurd (cc h)

both_true : (a b : Bool) → (a ≡ true) ⊎ (b ≡ true) → (not a && not b) ≡ false
both_true true b h = refl
both_true false true h = refl
both_true false false (inl h) = absurd (cc h)
both_true false false (inr h) = absurd (cc h)

-- A test of a package that is passed where nothing is asked for or what is asked for is there.
passes_iff :
    (spec code : Text) {P : Type 0}
    → (text_eq code [] ≡ true) ↔ P
    → ((not (text_eq spec []) && not (text_eq code [])) ≡ false) ↔ ((spec ≡ []) ⊎ P)
passes_iff spec code there = (
  (λ h. elim (not_both (text_eq spec []) (text_eq code []) h) [
    | inl absent ↦ inl ((empty_iff spec).1 absent)
    | inr present ↦ inr (there.0 present)
  ]),
  (λ p. both_true (text_eq spec []) (text_eq code []) (elim p [
    | inl absent ↦ inl ((empty_iff spec).0 absent)
    | inr present ↦ inr (there.1 present)
  ])),
)

pub resolved_lem : {p q : Text} → accepted p ≡ accepted q → p ≡ q
resolved_lem h = ap (λ r. r.resolved_path) h

pub check_packages_iff :
    (m : Machine) (cfg : CommandConfig) (path p : Text)
    → (check_packages m cfg path ≡ accepted p) ↔ ((path ≡ p) × NpmReady m cfg path × UvReady m cfg)
unfolding check_packages
check_packages_iff m cfg path p =
    let npx = npx_package_spec cfg.command cfg.args in
    let uvx = uvx_package_spec cfg.command cfg.args in
    let npm_code = npm_package_installed m npx path cfg.work_dir in
    let uv_code = uv_tool_installed m uvx in
    let npm = passes_iff npx npm_code (npm_package_installed_iff m npx path cfg.work_dir) in
    let uv = passes_iff uvx uv_code (uv_tool_installed_iff m uvx) in
    (
      (λ h.
          let ok : (check_packages m cfg path).is_ok ≡ true = ap (λ r. r.is_ok) h in
          let first : (not (text_eq npx []) && not (text_eq npm_code [])) ≡ false =
            ground (arith, ok) in
          let second : (not (text_eq uvx []) && not (text_eq uv_code [])) ≡ false =
            ground (arith, ok, first) in
          let whole : check_packages m cfg path ≡ accepted path = ground (arith, first, second) in
          (resolved_lem (sym whole ∙ h), npm.0 first, uv.0 second)),
      (λ (same, of_npx, of_uvx). ground (arith, same, npm.1 of_npx, uv.1 of_uvx)),
    )
