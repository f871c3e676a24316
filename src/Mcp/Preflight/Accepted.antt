-- ===== src/Mcp/Preflight/Accepted.antt =====
-- internal/mcp/preflight/command.go: CheckCommand gives its OK to what is ready, and to nothing else.
use orbitproxy_go.Prelude.{
  ◌≡◌, ◌≢◌, ◌↔◌, refl, ap, sym, subst, ◌∙◌, ◌⊎◌, inl, inr, true, false, Text, text_eq, [], Option,
  none, some, arith, Bool-cases,
}
use orbitproxy_go.Control.Handlers.{CommandResult}
use orbitproxy_go.Mcp.Userenv.{
  Info, Stat, info, stat_error, Look, found, not_found, look_error, any_execute,
}
use orbitproxy_go.Mcp.Preflight.{Machine, CommandConfig}
use orbitproxy_go.Mcp.Preflight.Command.{
  is_directory, not_looked_up, check_packages, check_work_dir, check_resolved, check_command,
}
use orbitproxy_go.Mcp.Preflight.Ready.{
  NpmReady, UvReady, Ready, accepted, empty_iff, check_packages_iff,
}

not_accepted : {r : CommandResult} {p : Text} → r.is_ok ≡ false → r ≢ accepted p
not_accepted bad h = cc (bad, ap (λ r. r.is_ok) h)

Stat-cases : (s : Stat) → ((i : Info) × (s ≡ info i)) ⊎ ((e : Text) × (s ≡ stat_error e))
Stat-cases (info i) = inl (i, refl)
Stat-cases (stat_error e) = inr (e, refl)

-- A check that goes on to the next one where a condition holds, and else does not accept.
abbrev Guarded : Type 0 → CommandResult → CommandResult → Text → Type 0
Guarded D r next p = (D × (r ≡ next)) ⊎ (¬ D × (r ≢ accepted p))

guard_iff :
    {D R : Type 0} {r next : CommandResult} {p : Text}
    → Guarded D r next p
    → (next ≡ accepted p) ↔ R
    → (r ≡ accepted p) ↔ (D × R)
guard_iff (inl (holds, same)) rest =
    ((λ h. (holds, rest.0 (sym same ∙ h))), (λ (_, r). same ∙ rest.1 r))
guard_iff (inr (fails, other)) rest =
    ((λ h. absurd (other h)), (λ (holds, _). absurd (fails holds)))

-- The working directory is fit.
abbrev WorkDir : Machine → CommandConfig → Type 0
WorkDir m cfg = (cfg.work_dir ≡ []) ⊎ (is_directory m cfg.work_dir ≡ true)

check_work_dir-Guarded :
    (m : Machine) (cfg : CommandConfig) (path p : Text)
    → Guarded (WorkDir m cfg) (check_work_dir m cfg path) (check_packages m cfg path) p
unfolding check_work_dir
check_work_dir-Guarded m cfg path p = elim (Bool-cases (text_eq cfg.work_dir [])) [
  | inl unset ↦ inl (inl ((empty_iff cfg.work_dir).1 unset), ground (arith, unset))
  | inr set ↦
      let given : cfg.work_dir ≢ [] = λ h. cc (set, (empty_iff cfg.work_dir).0 h) in
      elim (Stat-cases (m.stat cfg.work_dir)) [
        | inr (e, bad) ↦
            let no_dir : is_directory m cfg.work_dir ≡ false = ground (arith, bad) in
            inr (
              (λ d. elim d [ inl h ↦ given h | inr h ↦ cc (h, no_dir) ]),
              not_accepted (ground (arith, set, bad)),
            )
        | inl (i, good) ↦ elim (Bool-cases i.is_dir) [
          | inl is ↦ inl (inr (ground (arith, good, is)), ground (arith, set, good, is))
          | inr is_no ↦
              let no_dir : is_directory m cfg.work_dir ≡ false = ground (arith, good, is_no) in
              inr (
                (λ d. elim d [ inl h ↦ given h | inr h ↦ cc (h, no_dir) ]),
                not_accepted (ground (arith, set, good, is_no)),
              )
        ]
      ]
]

-- The file is there, is no directory, and can be executed.
abbrev Executable : Machine → Text → Type 0
Executable m path =
    (i : Info) × (m.stat path ≡ info i) × (i.is_dir ≡ false) × (any_execute i.perm ≡ true)

info_injective : {i j : Info} → info i ≡ info j → i ≡ j
info_injective h = cc h

check_resolved-Guarded :
    (m : Machine) (cfg : CommandConfig) (path p : Text)
    → Guarded (Executable m path) (check_resolved m cfg path) (check_work_dir m cfg path) p
unfolding check_resolved
check_resolved-Guarded m cfg path p = elim (Stat-cases (m.stat path)) [
  | inr (e, bad) ↦ inr ((λ (i, at, _, _). cc (at, bad)), not_accepted (ground (arith, bad)))
  | inl (i, good) ↦ elim (Bool-cases i.is_dir) [
    | inl dir ↦ inr (
      (λ (j, at, file, _).
          let same = info_injective (sym good ∙ at) in cc (ap (λ k. k.is_dir) same, dir, file)),
      not_accepted (ground (arith, good, dir)),
    )
    | inr file ↦ elim (Bool-cases (any_execute i.perm)) [
      | inl runs ↦ inl ((i, good, file, runs), ground (arith, good, file, runs))
      | inr stuck ↦ inr (
        (λ (j, at, _, runs).
            let same = info_injective (sym good ∙ at) in
            cc (ap (λ k. any_execute k.perm) same, stuck, runs)),
        not_accepted (ground (arith, good, file, stuck)),
      )
    ]
  ]
]

check_resolved_iff :
    (m : Machine) (cfg : CommandConfig) (path p : Text)
    → (check_resolved m cfg path ≡ accepted p)
      ↔ (Executable m path × (WorkDir m cfg × ((path ≡ p) × NpmReady m cfg path × UvReady m cfg)))
check_resolved_iff m cfg path p =
    guard_iff (check_resolved-Guarded m cfg path p)
      (guard_iff (check_work_dir-Guarded m cfg path p) (check_packages_iff m cfg path p))

Look-cases :
    (l : Look) → ((p : Text) × (l ≡ found p)) ⊎ (l ≡ not_found) ⊎ ((e : Text) × (l ≡ look_error e))
Look-cases (found p) = inl (p, refl)
Look-cases not_found = inr (inl refl)
Look-cases (look_error e) = inr (inr (e, refl))

not_looked_up-refuses :
    (cfg : CommandConfig) (e : Option Text) → (not_looked_up cfg e).is_ok ≡ false
unfolding not_looked_up
not_looked_up-refuses cfg e = ground arith

check_command-refuses :
    (m : Machine) (cfg : CommandConfig) {path : Text} (e : Option Text)
    → check_command m cfg ≡ not_looked_up cfg e
    → check_command m cfg ≢ accepted path
check_command-refuses m cfg e same =
    not_accepted (ap (λ r. r.is_ok) same ∙ not_looked_up-refuses cfg e)

Ready-accepted :
    (m : Machine) (cfg : CommandConfig) (path : Text)
    → Ready m cfg path
    → check_command m cfg ≡ accepted path
unfolding check_command
Ready-accepted m cfg path (named, at, runs, work_dir, npm, uv) =
    elim (Bool-cases (text_eq cfg.command [])) [
      | inl empty ↦ absurd (named ((empty_iff cfg.command).1 empty))
      | inr given ↦
          let same : check_command m cfg ≡ check_resolved m cfg path = ground (arith, given, at) in
          same ∙ (check_resolved_iff m cfg path path).1 (runs, (work_dir, (refl, npm, uv)))
    ]

pub accepted-Ready :
    (m : Machine) (cfg : CommandConfig) (path : Text)
    → check_command m cfg ≡ accepted path
    → Ready m cfg path
unfolding check_command
accepted-Ready m cfg path h = elim (Bool-cases (text_eq cfg.command [])) [
  | inl empty ↦ absurd (not_accepted (ground (arith, empty)) h)
  | inr given ↦ elim (Look-cases (m.look_path cfg.command)) [
    | inl (q, at) ↦
        let same : check_command m cfg ≡ check_resolved m cfg q = ground (arith, given, at) in
        let (runs, (work_dir, (is, npm, uv))) =
          (check_resolved_iff m cfg q path).0 (sym same ∙ h) in
        subst (Ready m cfg) is
          ((λ none. cc (given, (empty_iff cfg.command).0 none)), at, runs, work_dir, npm, uv)
    | inr (inl lost) ↦ absurd (check_command-refuses m cfg none (ground (arith, given, lost)) h)
    | inr (inr (e, bad)) ↦
        absurd (check_command-refuses m cfg (some e) (ground (arith, given, bad)) h)
  ]
]

-- CheckCommand gives its OK with a path exactly if the command is named and is found at that path, which
-- is an executable file, the working directory that may be asked for is there, and, for npx and uvx
-- with a package, one of the candidate directories holds it.
pub check_command-Ready :
    (m : Machine) (cfg : CommandConfig) (path : Text)
    → (check_command m cfg ≡ accepted path) ↔ Ready m cfg path
check_command-Ready m cfg path = (accepted-Ready m cfg path, Ready-accepted m cfg path)
