-- ===== src/Cli/RwMutex.antt =====
-- cli/rwmutex.go
use konductor.Prelude.{String, List, [], ◌∷◌, Action, return, ◌>>=◌}
use konductor.Api.Meta.{Duration}
use konductor.Api.Errors.{Result, ok, err}
use konductor.Api.Locks.{RwMutex}
use konductor.Sdk.Host.{Host}
use konductor.Sdk.Options.{Setter, with_holder, with_ttl, with_timeout}
use konductor.Sdk.RwMutex
use konductor.Sdk.RwMutex.{Handle}
use konductor.Cli.Output.{
  Cli, Outcome, Line, words, info_line, report, listing, counted, connected, holding, if_positive,
  clock_text, or_else, rw_mutex_phase,
}

-- `RLock`, of which the helper drops the handle when the confirmation fails.
abbrev pub read_lock : {W : Type 0} → Host W → String → List Setter → Action W (Result Handle)
read_lock h name opts = do
  locked ← RwMutex.rlock h name opts
  return (elim locked [ err e ↦ err e | ok p ↦ elim p.1 [ err e ↦ err e | ok _ ↦ ok p.0 ] ])

module _ {W : Type 0} (c : Cli W) where
  -- `rwmutexLockHelper`
  unfoldable pub lock_helper :
      (Host W → String → List Setter → Action W (Result Handle))
      → String
      → Duration
      → String
      → String
      → Action W Outcome
  lock_helper lock_fn message timeout flag name = holding c flag (λ holder. connected c (λ h. do
    locked ← lock_fn h name (with_holder holder ∷ if_positive timeout with_timeout)
    return (
        report locked (λ m.
          info_line message (("rwmutex", words name) ∷ ("holder", words m.holder) ∷ []) ∷ []))))

  pub rlock : Duration → String → String → Action W Outcome
  unfolding lock_helper
  rlock = lock_helper read_lock "Acquired read lock"

  pub lock : Duration → String → String → Action W Outcome
  unfolding lock_helper
  lock = lock_helper (λ h. RwMutex.lock h) "Acquired write lock"

  pub unlock : String → String → Action W Outcome
  unlock flag name = holding c flag (λ holder. connected c (λ h. do
    unlocked ← RwMutex.unlock h name holder
    return (
        report unlocked (λ _.
          info_line "Released lock" (("rwmutex", words name) ∷ ("holder", words holder) ∷ [])
          ∷ []))))

  abbrev pub list_line : RwMutex → List Line
  list_line m =
      info_line "RWMutex" (
        ("name", words m.meta.name)
        ∷ ("writeHolder", words (or_else m.status.write_holder "N/A"))
        ∷ ("readers", counted m.status.read_holders)
        ∷ ("phase", words (rw_mutex_phase m.status.phase))
        ∷ ("locked", words (clock_text c m.status.locked_at))
        ∷ [])
      ∷ []

  pub list : Action W Outcome
  list =
      connected c
        (λ h. do found ← RwMutex.list h; return (listing "No rwmutexes found" list_line found))

  pub create : Duration → String → Action W Outcome
  create ttl name = connected c (λ h. do
    made ← RwMutex.create h name (if_positive ttl with_ttl)
    return (report made (λ _. info_line "Created rwmutex" (("rwmutex", words name) ∷ []) ∷ [])))

  pub delete : String → Action W Outcome
  delete name = connected c (λ h. do
    gone ← RwMutex.delete h name
    return (report gone (λ _. info_line "Deleted rwmutex" (("rwmutex", words name) ∷ []) ∷ [])))
