-- ===== src/Sdk/WaitGroup/Counting.antt =====
-- The counter of a wait group under any number of processes (sdk/go/waitgroup/waitgroup.go) and the
-- operator (controllers/waitgroup_controller.go).
use konductor.Prelude.{
  ◌⊎◌, ◌<ℤ◌, ◌≡◌, refl, ◌∙◌, ap, ℤ, pos, ◌+ℤ◌, ◌≤ℤ◌, IsInt32, int32, leb_ℤ, int32_of_IsInt32, int32,
  leb_ℤ, true, Option, some, List, [], ◌∷◌, if◌then◌else◌, arith,
}
use konductor.Api.Meta.{ObjectKey}
use konductor.Api.Counters.{WaitGroup, WaitGroupSpec, WaitGroupStatus}
use konductor.Client.Server.{Resource, Serves}
use konductor.Client.Race.{System, Reach, Inv}
use konductor.Client.Race.Serial.{Serial, begin, after, log, Reach-Serial}
use konductor.Controllers.WaitGroup.{phase_of, refresh}
use konductor.Sdk.WaitGroup.{count, advance}

-- `Add` of a number, or a `Reconcile`.
pub data Intent : Type 0 where
  add : ℤ → Intent
  reconcile : Intent

unfoldable pub plan : Intent → WaitGroup → Option WaitGroup
plan (add delta) wg = some (advance delta wg)
plan reconcile wg = refresh wg

plan_meta : (a : Intent) (m m' : WaitGroup) → plan a m ≡ some m' → m'.meta ≡ m.meta
unfolding plan advance refresh
plan_meta (add delta) m m' e = ground arith
plan_meta reconcile m m' e = ground arith

-- The counter after some additions, the last one first, one at a time: each is a sum of int32, and
-- none leaves it below 0.
unfoldable pub tally : ℤ → List Intent → ℤ
tally start [] = start
tally start (add delta ∷ done) =
    let sum = int32 (tally start done +ℤ delta) in if leb_ℤ (pos 0) sum then sum else pos 0
tally start (reconcile ∷ done) = tally start done

-- While the sum is in the range of int32, `Add` leaves it as the counter, or 0 where it is negative,
-- and the phase that it stores is the one that the operator derives.
advance_in_range :
    (delta : ℤ) (wg : WaitGroup)
    → IsInt32 (wg.status.counter +ℤ delta)
    → let sum = wg.status.counter +ℤ delta in
      let after = (advance delta wg).status in
      (((pos 0 ≤ℤ sum) × (after.counter ≡ sum)) ⊎ ((sum <ℤ pos 0) × (after.counter ≡ pos 0)))
      × (after.phase ≡ phase_of after.counter)
unfolding advance count phase_of
advance_in_range delta wg fits =
    let exact = int32_of_IsInt32 (wg.status.counter +ℤ delta) fits in
    rw exact (ground arith, ground arith)

planned_counter :
    (a : Intent) (o m : WaitGroup)
    → plan a o ≡ some m
    → m.status.counter
      ≡ elim a [ add delta ↦ count o.status.counter delta | reconcile ↦ o.status.counter ]
unfolding plan advance refresh
planned_counter (add delta) o m e = ground arith
planned_counter reconcile o m e = ground arith

count_adds :
    (n delta : ℤ)
    → count n delta ≡ (let sum = int32 (n +ℤ delta) in if leb_ℤ (pos 0) sum then sum else pos 0)
unfolding count
count_adds n delta = ground arith

Serial-tally :
    {o o' : WaitGroup} {done : List Intent}
    → Serial plan o done o'
    → o'.status.counter ≡ tally o.status.counter done
unfolding tally
Serial-tally begin = refl
Serial-tally (after {before = b} {m} (add delta) l planned same kept) =
    ap (λ s. s.counter) same
    ∙ planned_counter (add delta) b m planned
    ∙ ap (λ n. count n delta) (Serial-tally l)
    ∙ count_adds _ delta
Serial-tally (after {before = b} {m} reconcile l planned same kept) =
    ap (λ s. s.counter) same ∙ planned_counter reconcile b m planned ∙ Serial-tally l

module _ {W : Type 0} (r : Resource W WaitGroupSpec WaitGroupStatus)
    (stored : W → ObjectKey → Option WaitGroup) (k : ObjectKey) (serves : Serves r stored) where
  -- No addition is lost and none counts twice: after any steps of any processes and of the operator
  -- the stored counter is the first one with the additions whose updates the server accepted, one at
  -- a time, each in the arithmetic of int32 and then set to 0 where the sum is negative.
  pub counts_accepted :
      {s : System W WaitGroupSpec WaitGroupStatus} {o : WaitGroup}
      {t : System W WaitGroupSpec WaitGroupStatus}
      → Inv stored k s o
      → (past : Reach plan r k (λ _. true) s t)
      → (o' : WaitGroup) × (stored t.world k ≡ some o')
        × (o'.status.counter ≡ tally o.status.counter (log past))
  counts_accepted v past =
      let (o', v', l) = Reach-Serial plan plan_meta r stored k serves (λ _. true) v past in
      (o', v'.held, Serial-tally l)
