-- ===== src/Sdk/Once/AtMostOnce.antt =====
-- Who executes a once under any number of processes (sdk/go/once/once.go) and the operator
-- (controllers/once_controller.go).
pub mod Refinement
use konductor.Prelude.{
  ◌≡◌, refl, sym, ◌∙◌, subst, ap, ℕ, Bool, true, false, String, Option, none, some, if◌then◌else◌,
  arith,
}
use konductor.Api.Meta.{Time, ObjectKey}
use konductor.Api.Errors.{ok}
use konductor.Api.Locks.{Once, OnceSpec, OnceStatus, OncePhase, is_unset_once, is_executed}
use konductor.Client.Server.{Resource, Serves}
use konductor.Client.Race.{System, Reach, Inv}
use konductor.Client.Race.Atomic.{Change, keeps, becomes, Reach-keeps, accepted_current}
use konductor.Controllers.Once.{revise, keep, save, remove}
use konductor.Sdk.Once.{mark, claim, unmark}

-- The updates of `Do`, and those of a `Reconcile`. One that deletes the record, whose TTL is over,
-- sends no update; what follows a deletion is left out.
pub data Intent : Type 0 where
  execute : Time → String → Intent
  roll_back : Intent
  reconcile : Time → Intent

unfoldable pub plan : Intent → Once → Option Once
plan (execute t executor) o = claim t executor o
plan roll_back o = some (unmark o)
plan (reconcile t) o = elim (revise t o) [ save m ↦ some m | keep ↦ none | remove ↦ none ]

pub plan_meta : (a : Intent) (m m' : Once) → plan a m ≡ some m' → m'.meta ≡ m.meta
unfolding plan claim revise
plan_meta (execute t executor) m m' e = ground arith
plan_meta roll_back m m' e = ground arith
plan_meta (reconcile t) m m' e = ground arith

-- The status that `Do` leaves: executed, with a phase that says so.
pub record IsDone (s : OnceStatus) : Type 0 where
  pub marked : s.executed ≡ true
  pub phased : s.phase ≡ OncePhase.executed

unfoldable pub is_no_rollback : Intent → Bool
is_no_rollback roll_back = false
is_no_rollback _ = true

plan_done : (o : Once) (a : Intent) → IsDone o.status → is_no_rollback a ≡ true → plan a o ≡ none
unfolding plan claim revise is_no_rollback
plan_done o (execute t executor) h l = ground arith
plan_done o roll_back h l = ground arith
plan_done o (reconcile t) h l = ground arith

planned_mark :
    (t : Time) (executor : String) (m : Once)
    → m.status.executed ≡ false
    → plan (execute t executor) m ≡ some (mark t executor m)
unfolding plan claim
planned_mark t executor m h = rw h

module _ {W : Type 0} (r : Resource W OnceSpec OnceStatus) (stored : W → ObjectKey → Option Once)
    (k : ObjectKey) (serves : Serves r stored) where
  Change-done :
      (st : OnceStatus) (o o' : Once)
      → IsDone st
      → o.status ≡ st
      → Change plan is_no_rollback o o'
      → o'.status ≡ st
  Change-done st o o' h e (keeps same) = same ∙ e
  Change-done st o o' h e (becomes a m can planned made) =
      let none_planned = plan_done o a (subst IsDone (sym e) h) can in absurd (cc)

  -- A once that is executed keeps its executor and its time through any steps of any processes and
  -- of the operator in which nobody rolls it back.
  done_until_rolled_back :
      {s : System W OnceSpec OnceStatus} {o : Once} {t : System W OnceSpec OnceStatus}
      → Inv stored k s o
      → IsDone o.status
      → Reach plan r k is_no_rollback s t
      → (o' : Once) × (stored t.world k ≡ some o') × (o'.status ≡ o.status)
  done_until_rolled_back {o = o} v h past =
      let (o', v', e) =
        Reach-keeps plan plan_meta r stored k serves is_no_rollback (λ m. m.status ≡ o.status)
          (λ m m' p c. Change-done o.status m m' h p c) v refl past in
      (o', v'.held, e)

  -- A `Do` whose mark the server accepts, and which so goes on to the function, finds the once not
  -- executed at that moment, whatever has happened since it read it, and leaves it executed by its
  -- executor.
  mark_takes_pending :
      (s : System W OnceSpec OnceStatus) (o : Once) (i : ℕ) (t : Time) (executor : String)
      (m : Once) (w' : W)
      → Inv stored k s o
      → s.seen i ≡ some m
      → m.status.executed ≡ false
      → r.status_update (mark t executor m) s.world ≡ (ok tt, w')
      → (o.status.executed ≡ false)
        × ((o' : Once) × (stored w' k ≡ some o')
            × IsDone o'.status
            × (o'.status.executor ≡ executor))
  mark_takes_pending s o i t executor m w' v saw fresh e =
      let (current, made) =
        accepted_current plan plan_meta r stored k serves (λ _. true) s o i (execute t executor) m
          (mark t executor m) w' v saw (planned_mark t executor m fresh) e in
      (
        ap (λ x. x.status.executed) (sym current) ∙ fresh,
        (_, made.is_now, record { marked = refl; phased = refl }, refl),
      )
