-- ===== src/Cli/Mutex.antt =====
-- cli/mutex.go
use konductor.Prelude.{String, List, [], ◌∷◌, Action, return, ◌>>=◌}
use konductor.Api.Meta.{Duration}
use konductor.Api.Locks.{Mutex}
use konductor.Sdk.Options.{with_holder, with_ttl, with_timeout}
use konductor.Sdk.Mutex
use konductor.Sdk.Mutex.Objects
use konductor.Cli.Output.{
  Cli, Outcome, Line, words, info_line, report, listing, connected, holding, if_positive,
  clock_text, or_else, mutex_phase,
}

module _ {W : Type 0} (c : Cli W) where
  unfoldable pub lock : Duration → String → String → Action W Outcome
  lock timeout flag name = holding c flag (λ holder. connected c (λ h. do
    locked ← Mutex.lock h name (with_holder holder ∷ if_positive timeout with_timeout)
    return (
        report locked (λ m.
          info_line "Locked mutex" (("mutex", words name) ∷ ("holder", words m.holder) ∷ [])
          ∷ []))))

  unfoldable pub unlock : String → String → Action W Outcome
  unlock flag name = holding c flag (λ holder. connected c (λ h. do
    unlocked ← Mutex.unlock h name holder
    return (
        report unlocked (λ _.
          info_line "Unlocked mutex" (("mutex", words name) ∷ ("holder", words holder) ∷ [])
          ∷ []))))

  abbrev pub list_line : Mutex → List Line
  list_line m =
      info_line "Mutex" (
        ("name", words m.meta.name)
        ∷ ("holder", words (or_else m.status.holder "N/A"))
        ∷ ("phase", words (mutex_phase m.status.phase))
        ∷ ("locked", words (clock_text c m.status.locked_at))
        ∷ [])
      ∷ []

  pub list : Action W Outcome
  list =
      connected c
        (λ h. do found ← Objects.list h; return (listing "No mutexes found" list_line found))

  pub create : Duration → String → Action W Outcome
  create ttl name = connected c (λ h. do
    made ← Objects.create h name (if_positive ttl with_ttl)
    return (report made (λ _. info_line "Created mutex" (("mutex", words name) ∷ []) ∷ [])))

  pub delete : String → Action W Outcome
  delete name = connected c (λ h. do
    gone ← Objects.delete h name
    return (report gone (λ _. info_line "Deleted mutex" (("mutex", words name) ∷ []) ∷ [])))
