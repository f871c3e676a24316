-- ===== src/Mcp/Preflight/Checked.antt =====
-- internal/mcp/preflight/run.go: what stands behind the result of a preflight.
use orbitproxy_go.Prelude.{
  ℕ, ◌≡◌, refl, ap, sym, subst, ◌∙◌, ◌⊎◌, inl, inr, Bool, true, false, not, ◌&&◌, Text, Option,
  none, some, arith, Bool-cases, Option-cases,
}
use orbitproxy_go.Control.Handlers.{CommandResult}
use orbitproxy_go.Mcp.Errors.{Err, Outcome, done, failed}
use orbitproxy_go.Mcp.SpawnConfig.{SpawnConfig}
use orbitproxy_go.Mcp.Env.File.{endpoint_env_file_ready}
use orbitproxy_go.Mcp.Discover.{Transport, ServerInfo, ListResult, list_tools_via_transport}
use orbitproxy_go.Mcp.Preflight.{Machine, CommandConfig, err_of}
use orbitproxy_go.Mcp.Preflight.Command.{
  not_looked_up, check_packages, check_work_dir, check_resolved, check_command,
}
use orbitproxy_go.Mcp.Preflight.Ready.{Ready, accepted}
use orbitproxy_go.Mcp.Preflight.Accepted.{accepted-Ready}
use orbitproxy_go.Mcp.Preflight.Run.{
  World, RunOptions, RunResult, command_config, local_result, listed_result, list_on,
  start_and_list, run_exec,
}

check_command-ok :
    (m : Machine) (cfg : CommandConfig)
    → (check_command m cfg).is_ok ≡ true
    → check_command m cfg ≡ accepted (check_command m cfg).resolved_path
unfolding check_command check_resolved check_work_dir check_packages not_looked_up
check_command-ok m cfg h = ground (arith, h)

err_of-none : (r : CommandResult) → err_of r ≡ none → r.is_ok ≡ true
unfolding err_of
err_of-none r h = ground (arith, h)

-- The result is that of a listing on a transport.
abbrev pub Listed : World → ℕ → Transport → Option ServerInfo → RunResult → Type 0
Listed w fuel t ready r =
    (found : ListResult) × (list_tools_via_transport w.json t fuel ready ≡ some (done found))
    × (r ≡ listed_result r.resolved_path found)

done_injective : {r q : RunResult} → ◌≡◌ {A = Outcome RunResult} (done r) (done q) → r ≡ q
done_injective h = cc h

some_injective :
    {r q : Outcome RunResult} → ◌≡◌ {A = Option (Outcome RunResult)} (some r) (some q) → r ≡ q
some_injective h = cc h

Outcome-cases {ℓ} :
    {R : Type ℓ} (o : Outcome R) → ((r : R) × (o ≡ done r)) ⊎ ((e : Err) × (o ≡ failed e))
Outcome-cases (done r) = inl (r, refl)
Outcome-cases (failed e) = inr (e, refl)

list_on-Listed :
    (w : World) (fuel : ℕ) (path : Text) (t : Transport) (ready : Option ServerInfo) {r : RunResult}
    → list_on w fuel path t ready ≡ some (done r)
    → (r.resolved_path ≡ path) × Listed w fuel t ready r
unfolding list_on
list_on-Listed w fuel path t ready {r} h =
    elim (Option-cases (list_tools_via_transport w.json t fuel ready)) [
      | inl stopped ↦ absurd (ground (arith, stopped, h))
      | inr (o, ran) ↦ elim (Outcome-cases o) [
        | inr (e, bad) ↦ absurd (ground (arith, ran, bad, h))
        | inl (found, good) ↦
            let same : listed_result path found ≡ r = ground (arith, ran, good, h) in
            (
              sym (ap (λ r. r.resolved_path) same),
              (
                found,
                ran ∙ ap some good,
                subst (λ r. r ≡ listed_result r.resolved_path found) same refl,
              ),
            )
      ]
    ]

-- What a preflight of a command that succeeds has found.
abbrev pub Checked : World → ℕ → RunOptions → SpawnConfig → RunResult → Type 0
Checked w fuel opts cfg r =
    Ready w.machine (command_config cfg) r.resolved_path
    × ((cfg.requires_env_file ≡ false)
        ⊎ (endpoint_env_file_ready w.join w.read opts.machine_dir opts.endpoint_id ≡ true))
    × (((opts.skip_protocol ≡ true) × (r ≡ local_result r.resolved_path))
        ⊎ ((opts.skip_protocol ≡ false)
            × ((t : Transport) × (server : ServerInfo) × (w.start cfg opts.endpoint_id
                    opts.machine_dir
                  ≡ done (t, server))
                × Listed w fuel t (some server) r)))

not_needed : (needs ready : Bool) → (needs && not ready) ≡ false → (needs ≡ false) ⊎ (ready ≡ true)
not_needed false ready h = inl refl
not_needed true true h = inr refl
not_needed true false h = absurd (cc h)

-- A preflight of a command that succeeds has found the command ready at the path in the result, and the
-- environment file if one is required; without the protocol it gives no tools, and with it the tools
-- and the server are those of a listing on a transport to the started child.
pub run_exec-Checked :
    (w : World) (fuel : ℕ) (opts : RunOptions) (cfg : SpawnConfig) {r : RunResult}
    → run_exec w fuel opts cfg ≡ some (done r)
    → Checked w fuel opts cfg r
unfolding run_exec start_and_list
run_exec-Checked w fuel opts cfg {r} h =
    let cmd = command_config cfg in
    let checked = check_command w.machine cmd in
    let file = endpoint_env_file_ready w.join w.read opts.machine_dir opts.endpoint_id in
    elim (Option-cases (err_of checked)) [
      | inr (e, bad) ↦ absurd (ground (arith, bad, h))
      | inl fine ↦
          let ready =
            accepted-Ready w.machine cmd checked.resolved_path
              (check_command-ok w.machine cmd (err_of-none checked fine)) in
          elim (Bool-cases (cfg.requires_env_file && not file)) [
            | inl missing ↦ absurd (ground (arith, fine, missing, h))
            | inr there ↦
                let env = not_needed cfg.requires_env_file file there in
                elim (Bool-cases opts.skip_protocol) [
                  | inl skips ↦
                      let same : local_result checked.resolved_path ≡ r =
                        ground (arith, fine, there, skips, h) in
                      subst (Checked w fuel opts cfg) same (ready, env, inl (skips, refl))
                  | inr asks ↦
                      elim (Outcome-cases (w.start cfg opts.endpoint_id opts.machine_dir)) [
                        | inr (e, down) ↦ absurd (ground (arith, fine, there, asks, down, h))
                        | inl ((t, server), up) ↦
                            let ran : list_on w fuel checked.resolved_path t (some server)
                                ≡ some (done r) =
                              ground (arith, fine, there, asks, up, h) in
                            let (path, listed) =
                              list_on-Listed w fuel checked.resolved_path t (some server) ran in
                            (
                              subst (Ready w.machine cmd) (sym path) ready,
                              env,
                              inr (asks, (t, server, up, listed)),
                            )
                      ]
                ]
          ]
    ]
