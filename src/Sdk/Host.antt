-- ===== src/Sdk/Host.antt =====
-- What an SDK call uses of its host and of the packages that it imports: the Kubernetes client, the
-- environment and the context of the call, `wait.ExponentialBackoff` of apimachinery, and float64.
use konductor.Prelude.{
  ◌≡◌, ℕ, suc, pos, Bool, true, false, String, Option, List, Action, is_blank, if◌then◌else◌,
}
use konductor.Api.Meta.{Time, ObjectKey, ObjectMeta, OwnerReference}
use konductor.Api.Errors.{Error, Result, ok, err, timed_out}
use konductor.Client.{Client}

-- `wait.Backoff`: durations in nanoseconds, factors in tenths. `Jitter` is left out.
pub record Backoff : Type 0 where
  pub duration : ℕ
  pub factor : ℕ
  pub steps : ℕ
  pub cap : ℕ

pub record Host (W : Type 0) : Type 0 where
  pub client : Client W
  -- the namespace of the `konductor.Client`
  pub namespace : String
  -- `os.Getenv("HOSTNAME")`, and `fmt.Sprintf("sdk-%d", t.Unix())`
  pub hostname : String
  pub sdk_name : Time → String
  -- `fmt.Sprintf("%d", t.UnixNano())`
  pub nano_text : Time → String
  -- `ctx.Err()`
  pub context_error : W → Option Error
  -- `select` over `ctx.Done()` and `time.After(d)`
  pub sleep : ℕ → Action W (Result (Unit {0}))
  -- `time.Sleep(d)`
  pub pause : ℕ → Action W (Unit {0})
  -- `wait.ExponentialBackoff`
  pub exponential_backoff : Backoff → Action W (Result Bool) → Action W (Result (Unit {0}))
  -- `time.Duration(float64(d) * f)`, of a factor in tenths and a duration
  pub scale : ℕ → ℕ → ℕ

-- What `wait.ExponentialBackoff` documents: it checks the condition until this is true or fails,
-- and then returns what it returned; or it times out, after at most `steps` checks. Between two
-- checks it sleeps, and the world goes on.
pub data Polls {W : Type 0} (check : Action W (Result Bool))
    : ℕ → W → Result (Unit {0}) → W → Type 0 where
  gave_up : {n : ℕ} {w : W} → Polls check n w (err timed_out) w
  passed : {n : ℕ} {w w' : W} → check w ≡ (ok true, w') → Polls check (suc n) w (ok tt) w'
  failed : {n : ℕ} {w w' : W} {e : Error} → check w ≡ (err e, w') → Polls check (suc n) w (err e) w'
  again :
      {n : ℕ} {w w' u v : W} {r : Result (Unit {0})}
      → check w ≡ (ok false, w')
      → Polls check n u r v
      → Polls check (suc n) w r v

abbrev pub BacksOff : {W : Type 0} → Host W → Type 0
BacksOff {W} h =
    (b : Backoff) (check : Action W (Result Bool)) (w : W)
    → Polls check b.steps w (h.exponential_backoff b check w).0 (h.exponential_backoff b check w).1

-- The holder that a call names, or the host's.
unfoldable pub resolve_holder : {W : Type 0} → Host W → String → Action W String
resolve_holder h holder w = (
  if is_blank holder
      then if is_blank h.hostname then h.sdk_name (h.client.clock w) else h.hostname
      else holder,
  w,
)

abbrev pub key : {W : Type 0} → Host W → String → ObjectKey
key h name = record { namespace = h.namespace; name = name }

-- The metadata of an object that the SDK creates; the server sets the rest.
abbrev pub new_meta :
    {W : Type 0} → Host W → String → List (String × String) → List OwnerReference → ObjectMeta
new_meta h name labels owners = record {
  namespace = h.namespace;
  name = name;
  uid = "";
  resource_version = 0;
  creation_timestamp = pos 0;
  labels = labels;
  owners = owners;
}
