-- ===== src/Cli/Lease.antt =====
-- cli/lease.go; `validateHolder` is in `Output`.
use konductor.Prelude.{String, List, [], ◌∷◌, ◌++◌, ℤ, Action, return, ◌>>=◌}
use konductor.Api.Meta.{Duration}
use konductor.Api.Leases.{Lease}
use konductor.Sdk.Options.{with_holder, with_ttl, with_timeout, with_priority}
use konductor.Sdk.Client.{release_lease}
use konductor.Sdk.Lease
use konductor.Cli.Output.{
  Cli, Outcome, Line, words, number, info_line, report, listing, connected, holding, if_positive,
  clock_text, or_else, lease_phase,
}

module _ {W : Type 0} (c : Cli W) where
  pub acquire : Duration → ℤ → String → String → Action W Outcome
  acquire timeout priority flag name = holding c flag (λ holder. connected c (λ h. do
    acquired ← Lease.acquire h name (
        with_holder holder
        ∷ (if_positive priority with_priority ++ if_positive timeout with_timeout))
    return (
        report acquired (λ l.
          info_line "Acquired lease" (("lease", words name) ∷ ("holder", words l.holder) ∷ [])
          ∷ []))))

  unfoldable pub release : String → String → Action W Outcome
  release flag name = holding c flag (λ holder. connected c (λ h. do
    released ← release_lease h name holder
    return (
        report released (λ _.
          info_line "Released lease" (("lease", words name) ∷ ("holder", words holder) ∷ [])
          ∷ []))))

  abbrev pub list_line : Lease → List Line
  list_line l =
      info_line "Lease" (
        ("name", words l.meta.name)
        ∷ ("holder", words (or_else l.status.holder "N/A"))
        ∷ ("phase", words (lease_phase l.status.phase))
        ∷ ("acquired", words (clock_text c l.status.acquired_at))
        ∷ ("renewals", number l.status.renew_count)
        ∷ [])
      ∷ []

  pub list : Action W Outcome
  list =
      connected c (λ h. do found ← Lease.list h; return (listing "No leases found" list_line found))

  pub create : Duration → String → Action W Outcome
  create ttl name = connected c (λ h. do
    made ← Lease.create h name (if_positive ttl with_ttl)
    return (report made (λ _. info_line "Created lease" (("lease", words name) ∷ []) ∷ [])))

  pub delete : String → Action W Outcome
  delete name = connected c (λ h. do
    gone ← Lease.delete h name
    return (report gone (λ _. info_line "Deleted lease" (("lease", words name) ∷ []) ∷ [])))
