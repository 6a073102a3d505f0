-- ===== src/Examples/Counts.antt =====
-- The races of the wait group, and a call of the once.
use konductor.Prelude.{
  ◌≡◌, refl, subst, eq_of_some, ℕ, zero, suc, pos, ◌+ℤ◌, int32, true, false, none, some, [], ◌∷◌,
  return, arith,
}
use konductor.Api.Errors.{ok}
use konductor.Api.Locks.{Once, OncePhase}
use konductor.Api.Counters.{WaitGroup, WaitGroupPhase}
use konductor.Memory
use konductor.Memory.{resource, stored, memory-Serves}
use konductor.Memory.Host.{host}
use konductor.Memory.World.{World, empty, wait_groups_lens, named}
use konductor.Client.Race.{send, Reach, here, next, IsPast}
use konductor.Client.Race.Serial.{log}
use konductor.Sdk.WaitGroup
use konductor.Sdk.WaitGroup.Counting
use konductor.Sdk.WaitGroup.Counting.{tally, counts_accepted}
use konductor.Sdk.Once
use konductor.Sdk.Once.Attempts.{Ran, do_once-Ran}
use konductor.Sdk.Host.{resolve_holder}
use konductor.Sdk.Options.{apply, with_holder}
use konductor.Examples.Races.{just_read, just_read-Inv, x_key}

abbrev group : WaitGroup
group = record {
  meta = named "x";
  spec = record { ttl = none };
  status = record { counter = pos 2; phase = WaitGroupPhase.waiting };
}

abbrev with_group : WaitGroup → World
with_group g = record empty { wait_groups = some g }

abbrev added_group : WaitGroup
added_group = record group {
  meta = record (named "x") { resource_version = 2 };
  status = record { counter = pos 5; phase = WaitGroupPhase.waiting };
}

-- Process 0 adds 3; a second `Add` from the same read is refused.
two_adds :
    Reach Counting.plan
      (resource wait_groups_lens)
      x_key
      (λ _. true)
      (just_read (with_group group) group)
      (record { world = with_group added_group; seen = (just_read (with_group group) group).seen })
unfolding Counting.plan WaitGroup.advance WaitGroup.count Memory.write ◌+ℤ◌ int32
two_adds =
    next (next here (send 0 (Counting.add (pos 3)) refl refl refl refl))
      (send 0 (Counting.add (pos 4)) refl refl refl refl)

counts_accepted_example :
    (o : WaitGroup) × (stored wait_groups_lens (with_group added_group) x_key ≡ some o)
    × (o.status.counter ≡ tally (pos 2) (log two_adds))
unfolding Memory.find
counts_accepted_example =
    counts_accepted (resource wait_groups_lens) (stored wait_groups_lens) x_key
      (memory-Serves wait_groups_lens)
      (just_read-Inv (stored wait_groups_lens) x_key (with_group group) group refl refl) two_adds

-- The counter of a group that is full goes to 0 by one more: the int32 wraps.
wraps : WaitGroup.count (pos 2_147_483_647) (pos 1) ≡ pos 0
unfolding WaitGroup.count ◌+ℤ◌ int32
wraps = refl

abbrev pub pending_once : Once
pending_once = record {
  meta = named "x";
  spec = record { ttl = none };
  status = record {
    executed = false;
    executor = "";
    executed_at = none;
    phase = OncePhase.pending;
  };
}

abbrev pub done_once : Once
done_once = record (Once.mark (pos 9) "a" pending_once) {
  meta = record (named "x") { resource_version = 2 };
}

abbrev pub with_once : Once → World
with_once o = record empty { onces = some o }

late-IsPast :
    (i : ℕ) (m : Once)
    → (just_read (with_once done_once) pending_once).seen i ≡ some m
    → IsPast x_key m done_once
late-IsPast zero m e =
    subst (λ x. IsPast x_key x done_once) (eq_of_some e)
      (record { keyed = refl; not_newer = omega arith; same = λ q. absurd (omega arith) })
late-IsPast (suc i) m e = absurd (ground arith)

do_once-Ran_example : Ran host "x" (return (ok tt)) "a" (
  record { executed = true; error = none },
  with_once (record done_once { status = record done_once.status { executed_at = some (pos 0) } }),
)
unfolding Once.do_once Once.claim Once.attempts Once.run_marked Memory.find Memory.write apply
    with_holder resolve_holder
do_once-Ran_example =
    do_once-Ran host "x" (return (ok tt)) (with_holder "a" ∷ []) (with_once pending_once) _ refl
      refl
