-- ===== src/Cli/Semaphore.antt =====
-- cli/semaphore.go
pub mod Release
use konductor.Prelude.{
  ℤ, pos, pos_part, ltb_ℤ, leb_ℤ, String, str_eq, Option, none, some, List, [], ◌∷◌, ◌++◌, Action,
  return, ◌>>=◌, if◌then◌else◌,
}
use konductor.Api.Meta.{Duration, key_of}
use konductor.Api.Errors.{ok, err, errorf}
use konductor.Api.Counters.{Semaphore, Permit}
use konductor.Sdk.Host.{Host}
use konductor.Sdk.Options.{Setter, with_holder, with_ttl, with_timeout}
use konductor.Sdk.Client.{list_permits}
use konductor.Sdk.Semaphore
use konductor.Cli.Output.{
  Cli, Outcome, Line, words, number, info_line, exit_with, finish, report, listing, connected,
  holding, if_given, if_positive, semaphore_phase,
}

-- The loop of `release` over the permits.
unfoldable pub find_permit : String → List Permit → Option Permit
find_permit holder [] = none
find_permit holder (p ∷ ps) = if str_eq p.spec.holder holder then some p else find_permit holder ps

module _ {W : Type 0} (c : Cli W) where
  abbrev pub acquire_options : Duration → Duration → String → List Setter
  acquire_options timeout ttl holder =
      if_given holder with_holder ++ (if_positive ttl with_ttl ++ if_positive timeout with_timeout)

  pub acquire : Duration → Duration → String → Duration → String → Action W Outcome
  acquire timeout ttl holder wait_duration name = connected c (λ h. do
    acquired ← Semaphore.acquire h name (acquire_options timeout ttl holder)
    elim acquired [
      | err e ↦ return (exit_with e)
      | ok permit ↦ do
        let line =
            info_line "Acquired permit for semaphore"
              (("semaphore", words name) ∷ ("holder", words permit.holder) ∷ [])
        if ltb_ℤ (pos 0) wait_duration
            then (do
              waited ← h.sleep (pos_part wait_duration)
              return (report waited (λ _. line ∷ [])))
            else return (finish (line ∷ []))
    ])

  -- `release` from the list of permits.
  unfoldable pub release_found : String → String → List Permit → Host W → Action W Outcome
  release_found name holder permits h = elim (find_permit holder permits) [
    | none ↦ return (exit_with (errorf "no permit found for holder: "))
    | some p ↦ do
      gone ← h.client.permits.delete (key_of p.meta)
      return (
          report gone (λ _.
            info_line "Released permit for semaphore"
              (("semaphore", words name) ∷ ("holder", words holder) ∷ [])
            ∷ []))
  ]

  unfoldable pub release : String → String → Action W Outcome
  release flag name = holding c flag (λ holder. connected c (λ h. do
    listed ← list_permits h name
    elim listed [
      | err e ↦ return (exit_with e)
      | ok permits ↦ release_found name holder permits h
    ]))

  abbrev pub list_line : Semaphore → List Line
  list_line s =
      info_line "Semaphore" (
        ("name", words s.meta.name)
        ∷ ("permits", number s.spec.permits)
        ∷ ("in-use", number s.status.in_use)
        ∷ ("available", number s.status.available)
        ∷ ("phase", words (semaphore_phase s.status.phase))
        ∷ [])
      ∷ []

  pub list : Action W Outcome
  list =
      connected c
        (λ h. do found ← Semaphore.list h; return (listing "No semaphores found" list_line found))

  pub create : ℤ → Duration → String → Action W Outcome
  create permits ttl name =
      if leb_ℤ permits (pos 0)
      then return (exit_with (errorf "permits must be greater than zero"))
      else connected c (λ h. do
        made ← Semaphore.create h name permits (if_positive ttl with_ttl)
        return (
            report made (λ _.
              info_line "Created semaphore"
                (("semaphore", words name) ∷ ("permits", number permits) ∷ [])
              ∷ [])))

  pub delete : String → Action W Outcome
  delete name = connected c (λ h. do
    gone ← Semaphore.delete h name
    return (report gone (λ _. info_line "Deleted semaphore" (("semaphore", words name) ∷ []) ∷ [])))
