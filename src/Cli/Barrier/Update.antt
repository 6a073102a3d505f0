-- ===== src/Cli/Barrier/Update.antt =====
-- What `barrier arrive --wait-for-update` of cli/barrier.go comes to.
use konductor.Prelude.{◌≡◌, refl, ◌<◌, true, String, Option, some, ◌>>=◌}
use konductor.Api.Meta.{Duration, millisecond}
use konductor.Api.Errors.{ok, err, panicked}
use konductor.Client.{Client}
use konductor.Sdk.Host.{Host, key}
use konductor.Sdk.Client.{new_from_client}
use konductor.Sdk.Wait.{backoff_of, back_off, wait_for_condition}
use konductor.Sdk.Wait.Backoff.Panic.{zero_limit_panics}
use konductor.Sdk.Barrier
use konductor.Cli.Output.{Cli, exit_with, connected}
use konductor.Cli.Barrier.{is_updated, update_config, arrive_options, await_update, arrive}

module _ {W : Type 0} (h : Host W) where
  update_backoff :
      (d : Duration)
      → millisecond < (update_config d).timeout
      → backoff_of h (update_config d) ≡ err panicked
  unfolding backoff_of
  update_backoff d early =
      rw (zero_limit_panics h.scale 0 0 (update_config d).timeout early, backoff_of) refl

  update_wait :
      (name : String) (d : Duration) (u v : W)
      → h.sleep 0 u ≡ (ok tt, v)
      → millisecond < (update_config d).timeout
      → wait_for_condition h h.client.barriers (key h name) is_updated (some (update_config d)) u
        ≡ (err panicked, v)
  unfolding wait_for_condition back_off
  update_wait name d u v slept early = rw (slept, update_backoff d early, back_off) refl

  update_panics :
      (c : Cli W) (name : String) (d : Duration) (u v : W)
      → h.sleep 0 u ≡ (ok tt, v)
      → millisecond < (update_config d).timeout
      → await_update c name d h u ≡ (exit_with panicked, v)
  unfolding await_update
  update_panics c name d u v slept early =
      rw (update_wait name d u v slept early, await_update, ◌>>=◌) refl

-- After `barrier arrive --wait-for-update` has signalled its arrival, and a sleep of no time has
-- not been cancelled, it panics, and logs nothing, unless the timeout for the update is given as a
-- millisecond or less: its wait has no limit on the delays, and divides by it.
pub arrive_update_panics :
    {W : Type 0} (c : Cli W) (client : Client W) (holder name : String) (given : Option String)
    (d : Duration) (w u v : W)
    → c.k8s_client ≡ some client
    → let h = new_from_client c.host client c.namespace in
      Barrier.arrive h name (arrive_options given holder) w ≡ (ok tt, u)
      → h.sleep 0 u ≡ (ok tt, v)
      → millisecond < (update_config d).timeout
      → arrive c holder true d name given w ≡ (exit_with panicked, v)
unfolding arrive connected
arrive_update_panics c client holder name given d w u v connection arrived slept early =
    let h = new_from_client c.host client c.namespace in
    rw (connection, connected, ◌>>=◌)
      (rw (arrived, ◌>>=◌) (update_panics h c name d u v slept early))
