-- ===== src/Cli/WaitGroup.antt =====
-- cli/waitgroup.go
use konductor.Prelude.{ℤ, String, List, [], ◌∷◌, Action, return, ◌>>=◌}
use konductor.Api.Meta.{Duration}
use konductor.Api.Errors.{Result, ok, err}
use konductor.Api.Counters.{WaitGroup}
use konductor.Sdk.Options.{with_ttl, with_timeout}
use konductor.Sdk.WaitGroup
use konductor.Cli.Output.{
  Cli, Outcome, Line, words, number, problem, failure, info_line, finish, listing, connected,
  if_positive, wait_group_phase,
}

-- These commands log an error before they return it.
abbrev pub complain : {A : Type 0} → String → Result A → (A → Outcome) → Outcome
complain message (err e) run = record {
  lines = (record { level = failure; message = message; fields = ("error", problem e) ∷ [] }) ∷ [];
  result = err e;
}
complain message (ok a) run = run a

module _ {W : Type 0} (c : Cli W) where
  pub add : ℤ → String → Action W Outcome
  add delta name = connected c (λ h. do
    added ← WaitGroup.add h name delta
    return (
        complain "Failed to add to waitgroup" added (λ _. finish (
          info_line "Added to waitgroup" (("waitgroup", words name) ∷ ("delta", number delta) ∷ [])
          ∷ []))))

  pub done_command : String → Action W Outcome
  done_command name = connected c (λ h. do
    finished ← WaitGroup.done h name
    return (
        complain "Failed to call done on waitgroup" finished (λ _.
          finish (info_line "Done called on waitgroup" (("waitgroup", words name) ∷ []) ∷ []))))

  pub wait : Duration → String → Action W Outcome
  wait timeout name = connected c (λ h. do
    waited ← WaitGroup.wait h name (if_positive timeout with_timeout)
    return (
        complain "Failed to wait for waitgroup" waited
          (λ _. finish (info_line "WaitGroup complete" (("waitgroup", words name) ∷ []) ∷ []))))

  abbrev pub list_line : WaitGroup → List Line
  list_line g =
      info_line "WaitGroup" (
        ("name", words g.meta.name)
        ∷ ("counter", number g.status.counter)
        ∷ ("phase", words (wait_group_phase g.status.phase))
        ∷ [])
      ∷ []

  pub list : Action W Outcome
  list = connected c (λ h. do
    found ← WaitGroup.list h
    return (
        complain "Failed to list waitgroups" found
          (λ groups. listing "No waitgroups found" list_line (ok groups))))

  pub create : Duration → String → Action W Outcome
  create ttl name = connected c (λ h. do
    made ← WaitGroup.create h name (if_positive ttl with_ttl)
    return (
        complain "Failed to create waitgroup" made
          (λ _. finish (info_line "Created waitgroup" (("waitgroup", words name) ∷ []) ∷ []))))

  pub delete : String → Action W Outcome
  delete name = connected c (λ h. do
    gone ← WaitGroup.delete h name
    return (
        complain "Failed to delete waitgroup" gone
          (λ _. finish (info_line "Deleted waitgroup" (("waitgroup", words name) ∷ []) ∷ []))))
