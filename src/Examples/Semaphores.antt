-- ===== src/Examples/Semaphores.antt =====
-- Acquiring a permit while the operator grants it, and releasing one with the command.
use konductor.Prelude.{◌≡◌, refl, pos, none, some, List, [], ◌∷◌}
use konductor.Api.Meta.{second, key_of}
use konductor.Api.Errors.{ok}
use konductor.Api.Counters.{Semaphore, SemaphorePhase, Permit, PermitPhase}
use konductor.Memory
use konductor.Memory.{stored}
use konductor.Memory.Deletion.{memory-DeletesOne}
use konductor.Memory.World.{World, client, empty, named, permits_lens}
use konductor.Memory.Host.{host, host-BacksOff, poll_up_to}
use konductor.Sdk.Host.{Host, resolve_holder}
use konductor.Sdk.Options.{Setter, apply, with_holder, with_timeout}
use konductor.Sdk.Wait.{wait_for_condition, back_off, backoff_of, poll}
use konductor.Sdk.Wait.Backoff.{calculate_backoff_steps}
use konductor.Sdk.Client.{Held, release_permit}
use konductor.Sdk.Semaphore
use konductor.Sdk.Semaphore.Acquisition.{Requested, Granted, acquire-Granted, release_misses}
use konductor.Cli.Output.{Cli}

abbrev pub command : Cli World
command = record {
  host = host;
  k8s_client = some client;
  namespace = "default";
  format = λ layout t. "";
  bounded = λ d h. h;
}

abbrev semaphore : Semaphore
semaphore = record {
  meta = named "s";
  spec = record { permits = pos 1; ttl = none };
  status = record { in_use = pos 0; available = pos 1; phase = SemaphorePhase.ready };
}

abbrev granted : Permit
granted = record (Semaphore.new_permit host semaphore "s-a-0" "s" "a" (pos 600_000_000_000)) {
  status = record { phase = PermitPhase.granted; acquired_at = none; expires_at = none };
}

abbrev before_world : World
before_world = record empty { semaphores = some semaphore }

abbrev granted_world : World
granted_world = record before_world { permits = some granted }

-- While the call sleeps, the operator grants its permit.
abbrev served : Host World
served = record host { sleep = λ d w. (ok tt, granted_world) }

abbrev opts : List Setter
opts = with_timeout (pos second) ∷ (with_holder "a" ∷ [])

acquire-Granted_example :
    Granted served "s" "a" granted_world
    × (◌≡◌ {A = Held} (record { name = "s"; holder = "a" }) (record { name = "s"; holder = "a" }))
unfolding Semaphore.acquire Semaphore.await_available Semaphore.create_permit Semaphore.await_grant
    wait_for_condition back_off backoff_of calculate_backoff_steps poll poll_up_to Memory.find apply
    with_holder with_timeout resolve_holder
acquire-Granted_example =
    acquire-Granted served "s" opts before_world granted_world (record { name = "s"; holder = "a" })
      host-BacksOff refl refl

-- The release finds no permit of the name that it deletes.
release_misses_example :
    (u : World) × ((q : Requested served "s" "a" u) × (stored permits_lens
          (release_permit served (record { name = "s"; holder = "a" }) granted_world).1
          (key_of q.request.meta)
        ≡ stored permits_lens granted_world (key_of q.request.meta)))
unfolding Semaphore.acquire Semaphore.await_available Semaphore.create_permit Semaphore.await_grant
    wait_for_condition back_off backoff_of calculate_backoff_steps poll poll_up_to Memory.find apply
    with_holder with_timeout resolve_holder
release_misses_example =
    release_misses served (stored permits_lens) (memory-DeletesOne permits_lens) "s" opts
      before_world granted_world granted_world (record { name = "s"; holder = "a" }) refl
