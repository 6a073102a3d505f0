-- ===== src/Cli/Barrier.antt =====
-- cli/barrier.go
pub mod Update
use konductor.Prelude.{
  ◌*◌, ℤ, pos, pos_part, ltb_ℤ, Bool, true, false, ◌||◌, String, is_blank, Option, none, some, List,
  [], ◌∷◌, ◌++◌, Action, return, ◌>>=◌, if◌then◌else◌,
}
use konductor.Api.Meta.{Duration, second}
use konductor.Api.Errors.{Error, Result, ok, err, is_panic}
use konductor.Api.Counters.{Barrier, BarrierPhase, same_barrier_phase}
use konductor.Sdk.Host.{Host, key}
use konductor.Sdk.Options.{Setter, with_holder, with_timeout, with_quorum}
use konductor.Sdk.Wait.{WaitConfig, wait_for_condition}
use konductor.Sdk.Barrier
use konductor.Cli.Output.{
  Cli, Outcome, Line, words, number, info_line, warn_line, exit_with, finish, report, listing,
  connected, if_given, if_positive, clock_text, barrier_phase,
}

-- The condition of `--wait-for-update`, and its configuration, whose other fields are zero.
abbrev pub is_updated : Barrier → Bool
is_updated b =
    ltb_ℤ (pos 0) b.status.arrived || same_barrier_phase b.status.phase BarrierPhase.opened

abbrev pub update_config : Duration → WaitConfig
update_config update_timeout = record {
  initial_delay = 0;
  max_delay = 0;
  factor = 0;
  jitter = 0;
  timeout = if ltb_ℤ (pos 0) update_timeout then pos_part update_timeout else 5 * second;
  operator_delay = 0;
}

-- The holder of `arrive`: the second argument, or the flag.
abbrev pub arrive_options : Option String → String → List Setter
arrive_options (some given) holder = with_holder given ∷ []
arrive_options none holder = if_given holder with_holder

abbrev pub count_fields : Barrier → List (String × konductor.Cli.Output.Field)
count_fields b = ("arrived", number b.status.arrived) ∷ ("expected", number b.spec.expected) ∷ []

module _ {W : Type 0} (c : Cli W) where
  pub wait : Duration → String → Action W Outcome
  wait timeout name = connected c (λ h. do
    waited ← Barrier.wait h name (if_positive timeout with_timeout)
    elim waited [
      | err e ↦ return (exit_with e)
      | ok _ ↦ do
        found ← Barrier.get h name
        return (
            finish (elim found [
              | err e ↦ warn_line "Failed to get barrier status" e ∷ []
              | ok b ↦ info_line "Barrier is open" (("barrier", words name) ∷ count_fields b) ∷ []
            ]))
    ])

  -- The end of `arrive`, after the lines that it has logged.
  unfoldable pub show_arrival : String → List Line → Host W → Action W Outcome
  show_arrival name lines h = do
    found ← Barrier.get h name
    return (
        finish (
          lines
          ++ (info_line "Signaled arrival at barrier" (("barrier", words name) ∷ [])
              ∷ (elim found [
                | err e ↦ warn_line "Failed to get barrier status" e
                | ok b ↦
                    info_line "Barrier status"
                      (count_fields b ++ (("phase", words (barrier_phase b.status.phase)) ∷ []))
              ])
              ∷ [])))

  -- The wait of `--wait-for-update`; its error is logged, and a panic in it ends the program.
  unfoldable pub await_update : String → Duration → Host W → Action W Outcome
  await_update name update_timeout h = do
    updated ←
        wait_for_condition h h.client.barriers (key h name) is_updated
          (some (update_config update_timeout))
    elim updated [
      | ok _ ↦ show_arrival name [] h
      | err e ↦
          if is_panic e
          then return (exit_with e)
          else show_arrival name (warn_line "Failed to wait for condition" e ∷ []) h
    ]

  unfoldable pub arrive : String → Bool → Duration → String → Option String → Action W Outcome
  arrive holder wait_for_update update_timeout name given = connected c (λ h. do
    arrived ← Barrier.arrive h name (arrive_options given holder)
    elim arrived [
      | err e ↦ return (exit_with e)
      | ok _ ↦
          if wait_for_update then await_update name update_timeout h else show_arrival name [] h
    ])

  abbrev pub list_line : Barrier → List Line
  list_line b =
      info_line "Barrier" (
        ("name", words b.meta.name)
        ∷ ("expected", number b.spec.expected)
        ∷ ("arrived", number b.status.arrived)
        ∷ ("phase", words (barrier_phase b.status.phase))
        ∷ ("opened", words (clock_text c b.status.opened_at))
        ∷ [])
      ∷ []

  pub list : Action W Outcome
  list =
      connected c
        (λ h. do found ← Barrier.list h; return (listing "No barriers found" list_line found))

  pub create : ℤ → Duration → ℤ → String → Action W Outcome
  create expected timeout quorum name = connected c (λ h. do
    made ←
        Barrier.create h name expected
          (if_positive timeout with_timeout ++ if_positive quorum with_quorum)
    return (
        report made (λ _.
          info_line "Created barrier" (("barrier", words name) ∷ ("expected", number expected) ∷ [])
          ∷ [])))

  pub delete : String → Action W Outcome
  delete name = connected c (λ h. do
    gone ← Barrier.delete h name
    return (report gone (λ _. info_line "Deleted barrier" (("barrier", words name) ∷ []) ∷ [])))
