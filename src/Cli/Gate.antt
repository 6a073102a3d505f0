-- ===== src/Cli/Gate.antt =====
-- cli/gate.go
use konductor.Prelude.{
  ℕ, zero, suc, pos, String, List, [], ◌∷◌, Action, return, ◌>>=◌, if◌then◌else◌,
}
use konductor.Api.Meta.{Duration}
use konductor.Api.Gates.{Gate, GateConditionStatus}
use konductor.Sdk.Options.{with_timeout}
use konductor.Sdk.Gate
use konductor.Cli.Output.{
  Cli, Outcome, Line, words, number, truth, info_line, report, each, listing, counted, checked,
  if_positive, clock_text, gate_phase,
}

-- The loop that counts the conditions that are met.
unfoldable pub met_count : List GateConditionStatus → ℕ
met_count [] = zero
met_count (s ∷ rest) = let n = met_count rest in if s.met then suc n else n

abbrev pub condition_line : GateConditionStatus → List Line
condition_line s =
    info_line "Condition" (
      ("met", truth s.met)
      ∷ ("type", words s.type)
      ∷ ("name", words s.name)
      ∷ ("message", words s.message)
      ∷ [])
    ∷ []

module _ {W : Type 0} (c : Cli W) where
  pub wait : Duration → String → Action W Outcome
  wait timeout name = checked c (λ h. do
    waited ← Gate.wait h name (if_positive timeout with_timeout)
    return (report waited (λ _. info_line "Gate is open" (("gate", words name) ∷ []) ∷ [])))

  abbrev pub list_lines : Gate → List Line
  list_lines g =
      info_line "Gate" (
        ("name", words g.meta.name)
        ∷ ("conditions_met", number (pos (met_count g.status.condition_statuses)))
        ∷ ("conditions_total", counted g.spec.conditions)
        ∷ ("phase", words (gate_phase g.status.phase))
        ∷ ("opened", words (clock_text c g.status.opened_at))
        ∷ [])
      ∷ each condition_line g.status.condition_statuses

  pub list : Action W Outcome
  list = checked c (λ h. do found ← Gate.list h; return (listing "No gates found" list_lines found))

  pub create : String → Action W Outcome
  create name = checked c (λ h. do
    made ← Gate.create h name
    return (report made (λ _. info_line "Created gate" (("gate", words name) ∷ []) ∷ [])))

  pub delete : String → Action W Outcome
  delete name = checked c (λ h. do
    gone ← Gate.delete h name
    return (report gone (λ _. info_line "Deleted gate" (("gate", words name) ∷ []) ∷ [])))

  pub open_command : String → Action W Outcome
  open_command name = checked c (λ h. do
    opened ← Gate.open_gate h name
    return (report opened (λ _. info_line "Opened gate" (("gate", words name) ∷ []) ∷ [])))

  pub close_command : String → Action W Outcome
  close_command name = checked c (λ h. do
    closed ← Gate.close_gate h name
    return (report closed (λ _. info_line "Closed gate" (("gate", words name) ∷ []) ∷ [])))
