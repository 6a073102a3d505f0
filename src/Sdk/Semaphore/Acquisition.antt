-- ===== src/Sdk/Semaphore/Acquisition.antt =====
-- What an `Acquire` of sdk/go/semaphore/semaphore.go that succeeds has read, and what the `Release`
-- of its permit deletes.
use konductor.Prelude.{
  ◌≡◌, refl, sym, ◌∙◌, subst, Option, ap, ◌≢◌, inl, inr, pos, ltb_ℤ, true, String, str_append, some,
  List, arith,
}
use Prim.Native.String.{count}
use text.Mathlib.TextLemmas.{length-append}
use konductor.Api.Meta.{Time, Duration, ObjectKey, key_of}
use konductor.Api.Errors.{Result-cases, ok}
use konductor.Api.Counters.{Semaphore, Permit, PermitPhase}
use konductor.Sdk.Host.{Host, BacksOff, key, resolve_holder}
use konductor.Sdk.Options.{Options, Setter, apply}
use konductor.Sdk.Wait.{wait_for_condition}
use konductor.Sdk.Wait.Retry.{wait_sound}
use konductor.Sdk.Client.{Held, child_name, release_permit, release_semaphore_permit}
use konductor.Sdk.Semaphore.{
  granted_permit, grant_config, acquire_options, permit_id, new_permit, await_available,
  await_grant, create_permit, acquire,
}

module _ {W : Type 0} (h : Host W) where
  -- The permit for a holder that a call has created.
  pub record Requested (name holder : String) (last : W) : Type 0 where
    pub request : Permit
    pub sent_at : W
    pub created : h.client.permits.create request sent_at ≡ (ok tt, last)
    pub semaphore : request.spec.semaphore ≡ name
    pub mine : request.spec.holder ≡ holder
    pub its_key : key_of request.meta ≡ key h (permit_id h name holder (h.client.clock sent_at))

  -- A permit that a call has created, and its last read, which found that permit granted.
  pub record Granted (name holder : String) (last : W) : Type 0 where
    pub made_at : W
    pub requested : Requested name holder made_at
    pub permit : Permit
    pub read_at : W
    pub read : h.client.permits.get (key_of requested.request.meta) read_at ≡ (ok permit, last)
    pub granted : permit.status.phase ≡ PermitPhase.granted

  grant_seen :
      (id : String) (timeout : Duration) (w w' : W)
      → BacksOff h
      → ltb_ℤ (pos 0) timeout ≡ true
      → await_grant h id timeout w ≡ (ok tt, w')
      → (u : W) × ((p : Permit) × (h.client.permits.get (key h id) u ≡ (ok p, w'))
          × (granted_permit p ≡ true))
  unfolding await_grant
  grant_seen id timeout w w' polls may e =
      let waited =
        wait_for_condition h h.client.permits (key h id) granted_permit
          (some (grant_config timeout)) w in
      elim (Result-cases waited.0) [
        | inl (x, failed) ↦ absurd (ground arith)
        | inr (_, done) ↦
            wait_sound h h.client.permits (key h id) granted_permit (some (grant_config timeout)) w
              w' polls (ground arith)
      ]

  created :
      (name holder : String) (s : Semaphore) (options : Options) (w w' : W) (held : Held)
      → create_permit h name holder s options w ≡ (ok held, w')
      → (v : W) × ((q : Requested name holder v) × (await_grant h
              (key_of q.request.meta).name
              options.timeout
              v
            ≡ (ok tt, w')))
        × (held ≡ record { name = name; holder = holder })
  unfolding create_permit
  created name holder s options w w' held e =
      let id = permit_id h name holder (h.client.clock w) in
      let made = h.client.permits.create (new_permit h s id name holder options.ttl) w in
      elim (Result-cases made.0) [
        | inl (x, failed) ↦ absurd (ground arith)
        | inr (_, stored) ↦ elim (Result-cases (await_grant h id options.timeout made.1).0) [
          | inl (x, refused) ↦ absurd (ground arith)
          | inr (_, seen) ↦ (
            made.1,
            (
              record {
                request = new_permit h s id name holder options.ttl;
                sent_at = w;
                created = ground arith;
                semaphore = refl;
                mine = refl;
                its_key = refl;
              },
              ground arith,
            ),
            ground arith,
          )
        ]
      ]

  -- The creation of the permit in an `Acquire` that succeeds.
  acquired :
      (name : String) (opts : List Setter) (w w' : W) (held : Held)
      → acquire h name opts w ≡ (ok held, w')
      → let options = apply opts acquire_options in
        (s : Semaphore) × ((v : W) × (create_permit h name
              (resolve_holder h options.holder w).0
              s
              options
              v
            ≡ (ok held, w')))
  unfolding acquire
  acquired name opts w w' held e =
      let options = apply opts acquire_options in
      let found = h.client.semaphores.get (key h name) (resolve_holder h options.holder w).1 in
      elim (Result-cases found.0) [
        | inl (x, missing) ↦ absurd (ground arith)
        | inr (s, read) ↦ elim (Result-cases (await_available h name s options.timeout found.1).0) [
          | inl (x, late) ↦ absurd (ground arith)
          | inr (_, available) ↦
              (s, ((await_available h name s options.timeout found.1).1, ground arith))
        ]
      ]

  -- An `Acquire` with a positive timeout that succeeds has created a permit for the semaphore and the
  -- holder of the call, or of the host, and its last call read the permit of that key as granted; the
  -- handle that it returns is for the semaphore and that holder.
  pub acquire-Granted :
      (name : String) (opts : List Setter) (w w' : W) (held : Held)
      → BacksOff h
      → ltb_ℤ (pos 0) (apply opts acquire_options).timeout ≡ true
      → acquire h name opts w ≡ (ok held, w')
      → let holder = (resolve_holder h (apply opts acquire_options).holder w).0 in
        Granted name holder w' × (held ≡ record { name = name; holder = holder })
  acquire-Granted name opts w w' held polls may e =
      let options = apply opts acquire_options in
      let holder = (resolve_holder h options.holder w).0 in
      let (s, (v, stored)) = acquired name opts w w' held e in
      let (u, (q, waited), same) = created name holder s options v w' held stored in
      let (before, (p, read, granted)) = grant_seen _ options.timeout u w' polls may waited in
      (
        record {
          made_at = u;
          requested = q;
          permit = p;
          read_at = before;
          read =
              subst (λ k. h.client.permits.get k before ≡ (ok p, w'))
                (ap (λ k. key h k.name) q.its_key ∙ sym q.its_key) read;
          granted = ground arith;
        },
        same,
      )

  -- The name of a permit has the time of its creation in it, and the one that `Release` deletes has
  -- not.
  names_differ :
      (name holder : String) (t : Time)
      → key h (child_name name holder) ≢ key h (permit_id h name holder t)
  names_differ name holder t e =
      let stem = child_name name holder in
      let whole : stem ≡ permit_id h name holder t = ap (λ k. k.name) e in
      let sizes : count stem ≡ count (permit_id h name holder t) = ap count whole in
      let front = length-append stem "-" in
      let back = length-append (str_append stem "-") (h.nano_text t) in omega arith

  -- What the API server documents of a deletion: the objects under other keys stay.
  abbrev pub DeletesOne : (W → ObjectKey → Option Permit) → Type 0
  DeletesOne stored =
      (k j : ObjectKey) (w : W) → k ≢ j → stored (h.client.permits.delete k w).1 j ≡ stored w j

  -- `Release` of what an `Acquire` has returned leaves the permit that this call created as it is
  -- stored, whenever it is called.
  pub release_misses :
      (stored : W → ObjectKey → Option Permit)
      → DeletesOne stored
      → (name : String) (opts : List Setter) (w w' v : W) (held : Held)
      → acquire h name opts w ≡ (ok held, w')
      → let holder = (resolve_holder h (apply opts acquire_options).holder w).0 in
        (made_at : W) × ((q : Requested name holder made_at) × (stored
              (release_permit h held v).1
              (key_of q.request.meta)
            ≡ stored v (key_of q.request.meta)))
  unfolding release_permit release_semaphore_permit
  release_misses stored deletes name opts w w' v held e =
      let options = apply opts acquire_options in
      let holder = (resolve_holder h options.holder w).0 in
      let (s, (x, made)) = acquired name opts w w' held e in
      let (u, (q, waited), same) = created name holder s options x w' held made in
      let kept =
        deletes (key h (child_name name holder)) (key_of q.request.meta) v
          (λ eq. names_differ name holder (h.client.clock q.sent_at) (eq ∙ q.its_key)) in
      (
        u,
        (
          q,
          subst
              (λ x.
                stored (h.client.permits.delete (key h (child_name x.name x.holder)) v).1
                  (key_of q.request.meta)
                ≡ stored v (key_of q.request.meta))
              (sym same) kept,
        ),
      )
