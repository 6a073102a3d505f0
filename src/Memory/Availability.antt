-- ===== src/Memory/Availability.antt =====
-- The server in memory answers, and the host over it disturbs nothing but the clock.
use konductor.Prelude.{◌≡◌, refl, ap, ℕ, zero, suc, ◌*◌, ◌<◌, ◌≤◌, none, some, arith}
use native.Mathlib.Nat.{le-div_iff_mul-le}
use konductor.Api.Meta.{Time, Object, key_of}
use konductor.Api.Errors.{ok}
use konductor.Client.Server.Availability.{Answers}
use konductor.Sdk.Wait.Progress.{ChecksFirst, Scales, Undisturbed}
use konductor.Memory.{Cell, Lens, find, write, read_cell, resource, stored, memory-Serves}
use konductor.Memory.World.{World, mutexes_lens, rw_mutexes_lens, onces_lens, wait_groups_lens}
use konductor.Memory.Host.{host, after_check, poll_up_to}

write_current :
    {S T : Type 0} (sent : Object S T) (c : Cell S T) (o : Object S T)
    → find c (key_of sent.meta) ≡ some o
    → o.meta.resource_version ≡ sent.meta.resource_version
    → (write sent c).0 ≡ ok tt
unfolding find write
write_current sent none o found same = absurd (ground arith)
write_current sent (some x) o found same = ground arith

pub memory-Answers : {W S T : Type 0} (l : Lens W S T) → Answers (resource l) (stored l)
memory-Answers l = record {
  finds = λ k w o e. ap (λ c. (read_cell c, w)) e;
  accepts = λ sent w o. write_current sent (l.view w) o;
}

host-ChecksFirst : ChecksFirst host
unfolding poll_up_to
host-ChecksFirst b check w w' some_steps e = first b.steps some_steps
  where
    first : (n : ℕ) → 0 < n → poll_up_to n check w ≡ (ok tt, w')
    first zero p = absurd (omega (arith, p))
    first (suc n) p = ap (after_check (λ u. poll_up_to n check u)) e

product : (d factor : ℕ) → 10 < factor → 0 < d → 10 ≤ d * factor
product zero factor f p = absurd (omega (arith, p))
product (suc e) factor f p = omega (arith, f)

host-Scales : Scales host
host-Scales factor d f p =
    (le-div_iff_mul-le {k = 10} {x = 1} {y = d * factor} (omega arith)).1 (product d factor f p)

-- A lens on what does not change with the clock.
abbrev Untouched : {S T : Type 0} → Lens World S T → Type 0
Untouched l = (c : Time) (w : World) → l.view (record w { clock = c }) ≡ l.view w

host-Undisturbed :
    {S T : Type 0} (l : Lens World S T) → Untouched l → Undisturbed host (resource l) (stored l)
host-Undisturbed l same = record {
  serves = memory-Serves l;
  answers = memory-Answers l;
  sleeps = λ d w. (_, refl, λ k. ap (λ c. find c k) (same _ w));
  checks = host-ChecksFirst;
  scales = host-Scales;
}

pub mutexes-Undisturbed : Undisturbed host host.client.mutexes (stored mutexes_lens)
mutexes-Undisturbed = host-Undisturbed mutexes_lens (λ c w. refl)

pub rw_mutexes-Undisturbed : Undisturbed host host.client.rw_mutexes (stored rw_mutexes_lens)
rw_mutexes-Undisturbed = host-Undisturbed rw_mutexes_lens (λ c w. refl)

pub onces-Undisturbed : Undisturbed host host.client.onces (stored onces_lens)
onces-Undisturbed = host-Undisturbed onces_lens (λ c w. refl)

pub wait_groups-Undisturbed : Undisturbed host host.client.wait_groups (stored wait_groups_lens)
wait_groups-Undisturbed = host-Undisturbed wait_groups_lens (λ c w. refl)
