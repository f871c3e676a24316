-- ===== src/Mcp/Preflight/Dirs.antt =====
-- internal/mcp/preflight/command.go: the candidate directories of npm.
use orbitproxy_go.Prelude.{◌≡◌, ◌≢◌, ◌⊎◌, true, false, Text, trim_space, List, [], ◌∷◌}
use orbitproxy_go.Mcp.Preflight.{holds}

-- Each directory stands once and has a name.
abbrev pub Distinct : List Text → Type 0
Distinct [] = Unit
Distinct (d ∷ ds) = (d ≢ []) × (holds d ds ≡ false) × Distinct ds

-- Each of the directories stands in `dirs`, without the blanks around it, or is blank.
abbrev pub AllHeld : List Text → List Text → Type 0
AllHeld dirs [] = Unit
AllHeld dirs (d ∷ ds) = ((trim_space d ≡ []) ⊎ (holds (trim_space d) dirs ≡ true)) × AllHeld dirs ds

-- A directory of a list, without the blanks around its name.
abbrev pub Among : Text → List Text → Type 0
Among e [] = ⊥
Among e (d ∷ ds) = (trim_space d ≡ e) ⊎ Among e ds
