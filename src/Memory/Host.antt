-- ===== src/Memory/Host.antt =====
-- A host over the world in memory, for the tests and the witnesses: its sleep moves the clock on,
-- and its backoff checks the condition as often as it may. It stands for no code of the repository.
use konductor.Prelude.{
  ℕ, zero, suc, ◌*◌, ◌/◌, pos, ◌+ℤ◌, Bool, true, false, ◌≡◌, refl, none, Action,
}
use konductor.Api.Errors.{Result, ok, err, timed_out}
use konductor.Sdk.Host.{Host, Polls, BacksOff, gave_up, passed, failed, again}
use konductor.Memory.World.{World, client}

abbrev pub after_check :
    Action World (Result (Unit {0})) → Result Bool × World → Result (Unit {0}) × World
after_check rest (err e, u) = (err e, u)
after_check rest (ok true, u) = (ok tt, u)
after_check rest (ok false, u) = rest u

unfoldable pub poll_up_to : ℕ → Action World (Result Bool) → Action World (Result (Unit {0}))
poll_up_to zero check w = (err timed_out, w)
poll_up_to (suc n) check w = after_check (λ u. poll_up_to n check u) (check w)

-- One check, from what it gave.
polled :
    (n : ℕ) (check : Action World (Result Bool)) (w : World) (p : Result Bool × World)
    → check w ≡ p
    → ((u : World) → Polls check n u (poll_up_to n check u).0 (poll_up_to n check u).1)
    → let q = after_check (λ u. poll_up_to n check u) p in Polls check (suc n) w q.0 q.1
polled n check w (err e, u) h rest = failed h
polled n check w (ok true, u) h rest = passed h
polled n check w (ok false, u) h rest = again h (rest u)

poll_up_to-Polls :
    (n : ℕ) (check : Action World (Result Bool)) (w : World)
    → Polls check n w (poll_up_to n check w).0 (poll_up_to n check w).1
unfolding poll_up_to
poll_up_to-Polls zero check w = gave_up
poll_up_to-Polls (suc n) check w = polled n check w (check w) refl (λ u. poll_up_to-Polls n check u)

abbrev pub host : Host World
host = record {
  client = client;
  namespace = "default";
  hostname = "node";
  sdk_name = λ t. "sdk-0";
  nano_text = λ t. "0";
  context_error = λ w. none;
  sleep = λ d w. (ok tt, record w { clock = w.clock +ℤ pos d });
  pause = λ d w. (tt, record w { clock = w.clock +ℤ pos d });
  exponential_backoff = λ b check w. poll_up_to b.steps check w;
  scale = λ f d. d * f / 10;
}

pub host-BacksOff : BacksOff host
host-BacksOff b check w = poll_up_to-Polls b.steps check w
