-- ===== src/Cli/Once.antt =====
-- cli/once.go
use konductor.Prelude.{pos, ltb_ℤ, String, List, [], ◌∷◌, Action, return, ◌>>=◌, if◌then◌else◌}
use konductor.Api.Meta.{Duration}
use konductor.Api.Locks.{Once}
use konductor.Sdk.Host.{Host}
use konductor.Sdk.Options.{with_ttl}
use konductor.Sdk.Once
use konductor.Cli.Output.{
  Cli, Outcome, Line, words, truth, info_line, report, listing, checked, if_positive, clock_text,
  or_else, once_phase,
}

module _ {W : Type 0} (c : Cli W) where
  -- `withTimeout`, on the host that the calls use.
  abbrev pub with_timeout : Duration → Host W → Host W
  with_timeout timeout h = if ltb_ℤ (pos 0) timeout then c.bounded timeout h else h

  pub check_command : Duration → String → Action W Outcome
  check_command timeout name = checked c (λ h. do
    executed ← Once.is_executed_now (with_timeout timeout h) name
    return (
        report executed (λ b.
          info_line (if b then "Once has been executed" else "Once has not been executed")
            (("once", words name) ∷ [])
          ∷ [])))

  abbrev pub list_line : Once → List Line
  list_line o =
      info_line "Once" (
        ("name", words o.meta.name)
        ∷ ("executed", truth o.status.executed)
        ∷ ("executor", words (or_else o.status.executor "N/A"))
        ∷ ("phase", words (once_phase o.status.phase))
        ∷ ("executedAt", words (clock_text c o.status.executed_at))
        ∷ [])
      ∷ []

  pub list : Duration → Action W Outcome
  list timeout = checked c (λ h. do
    found ← Once.list (with_timeout timeout h)
    return (listing "No onces found" list_line found))

  pub create : Duration → Duration → String → Action W Outcome
  create ttl timeout name = checked c (λ h. do
    made ← Once.create (with_timeout timeout h) name (if_positive ttl with_ttl)
    return (report made (λ _. info_line "Created once" (("once", words name) ∷ []) ∷ [])))

  pub delete : Duration → String → Action W Outcome
  delete timeout name = checked c (λ h. do
    gone ← Once.delete (with_timeout timeout h) name
    return (report gone (λ _. info_line "Deleted once" (("once", words name) ∷ []) ∷ [])))
