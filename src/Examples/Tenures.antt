-- ===== src/Examples/Tenures.antt =====
-- The reconciler of the lease.
use konductor.Prelude.{◌≡◌, refl, ℕ, ℤ, pos, ◌+ℤ◌, Option, none, some, [], ◌∷◌, String}
use konductor.Api.Meta.{ObjectKey, before, add}
use konductor.Api.Errors.{err, conflict}
use konductor.Client.{Client}
use konductor.Api.Leases.{Lease, LeasePhase, LeaseRequest, LeaseRequestPhase}
use konductor.Memory
use konductor.Memory.{resource, stored, memory-Serves}
use konductor.Memory.World.{World, empty, client, named, leases_lens}
use konductor.Controllers.Lease
use konductor.Controllers.Lease.Selection.{IsFirstBest, best_request-IsFirstBest}
use konductor.Controllers.Lease.Starvation.{expired_holder_regains}
use konductor.Controllers.Lease.Tenure.{reconcile_held}

abbrev request : String → Option ℤ → LeaseRequest
request holder priority = record {
  meta = named holder;
  spec = record { lease = "l"; holder = holder; priority = priority; ttl = none };
  status = record { phase = LeaseRequestPhase.pending; requested_at = none };
}

abbrev pub lease : Lease
lease = record {
  meta = named "l";
  spec = record { ttl = some (pos 50); priority = none };
  status = record {
    holder = "a";
    acquired_at = some (pos 0);
    expires_at = some (pos 50);
    phase = LeasePhase.held;
    renew_count = pos 0;
  };
}

abbrev pub req : String → ObjectKey
req name = record { namespace = "default"; name = name }

-- Of two requests of one priority the first wins, and one of no priority counts as 0.
picks_first :
    Lease.best_request
      (request "a" none ∷ request "b" (some (pos 5)) ∷ request "c" (some (pos 5)) ∷ [])
    ≡ some (request "b" (some (pos 5)))
unfolding Lease.select
picks_first = refl

best_request-IsFirstBest_example :
    (b : LeaseRequest) × (Lease.best_request (request "a" none ∷ request "b" (some (pos 5)) ∷ [])
      ≡ some b)
    × IsFirstBest (request "a" none ∷ request "b" (some (pos 5)) ∷ []) b
best_request-IsFirstBest_example =
    best_request-IsFirstBest (request "a" none) (request "b" (some (pos 5)) ∷ [])

-- The lease is held at time 20, and its term is over at time 60.
abbrev lease_world : ℕ → World
lease_world t = record empty {
  clock = pos t;
  leases = some lease;
  lease_requests = some (request "b" none);
}

reconcile_held_example :
    (o : Lease) × (stored leases_lens
        (Lease.reconcile client (req "l") (lease_world 20)).1
        (req "l")
      ≡ some o)
    × (o.status ≡ lease.status)
unfolding before Memory.find
reconcile_held_example =
    reconcile_held client (stored leases_lens) (memory-Serves leases_lens)
      (λ namespace labels w k. refl) (req "l") lease (request "b" none ∷ []) (lease_world 20)
      (lease_world 20) (lease_world 20) refl (record { named = refl; in_term = refl; taken = refl })
      refl

abbrev handed : World
handed = record (lease_world 60) {
  lease_requests = some (Memory.overwrite (Lease.grant (request "b" none)) (request "b" none));
}

-- A server that finds that somebody has always just written the lease.
abbrev contended : Client World
contended = record client {
  leases = record client.leases { status_update = λ l w. (err conflict, w) };
}

-- The holder of the lease has not deleted its request, which is granted.
abbrev left_request : LeaseRequest
left_request = Lease.grant (request "a" none)

abbrev left_world : World
left_world = record (lease_world 60) { lease_requests = some left_request }

abbrev left_marked : World
left_marked = record left_world {
  lease_requests = some (Memory.overwrite (Lease.grant left_request) left_request);
}

expired_holder_regains_example :
    (o : Lease) × (stored leases_lens (Lease.reconcile client (req "l") left_world).1 (req "l")
      ≡ some o)
    × (o.status.holder ≡ "a")
    × (o.status.phase ≡ LeasePhase.held)
unfolding before Lease.select Memory.find Memory.write add ◌+ℤ◌
expired_holder_regains_example =
    expired_holder_regains client (stored leases_lens) (memory-Serves leases_lens) (req "l") lease
      (request "a" none ∷ []) (left_request ∷ []) (request "a" none) left_request left_world
      left_world left_world left_marked _ refl refl (refl, tt) refl refl refl refl refl refl
