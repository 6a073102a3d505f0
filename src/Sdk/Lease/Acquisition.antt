-- ===== src/Sdk/Lease/Acquisition.antt =====
-- What an `Acquire` of sdk/go/lease/lease.go that succeeds has read.
use konductor.Prelude.{
  ◌>>=◌, subst, sym, ◌≡◌, inl, inr, Bool-cases, true, false, some, String, List, arith,
}
use konductor.Api.Meta.{ObjectKey}
use konductor.Api.Errors.{Error, Result-cases, ok}
use konductor.Api.Leases.{LeaseRequest, is_denied_request}
use konductor.Sdk.Host.{Host, BacksOff, key, resolve_holder}
use konductor.Sdk.Options.{Setter, apply, no_options}
use konductor.Sdk.Wait.{wait_for_condition}
use konductor.Sdk.Wait.Retry.{wait_sound}
use konductor.Sdk.Lease.{
  Handle, request_id_of, is_decided, decision_config, new_request, give_up, conclude, acquire,
}

module _ {W : Type 0} (h : Host W) where
  -- The two reads of the request: the last one of the wait, and the one after it.
  pub record Decided (k : ObjectKey) (last : W) : Type 0 where
    pub decided : LeaseRequest
    pub final : LeaseRequest
    pub read_at : W
    pub reread_at : W
    pub read : h.client.lease_requests.get k read_at ≡ (ok decided, reread_at)
    pub is_final : is_decided decided ≡ true
    pub reread : h.client.lease_requests.get k reread_at ≡ (ok final, last)
    pub not_denied : is_denied_request final.status.phase ≡ false

  given_up :
      (k : ObjectKey) (e x : Error) (w w' : W) (l : Handle) → give_up h k e x w ≡ (ok l, w') → ⊥
  unfolding give_up
  given_up k e x w w' l f = ground arith

  concluded :
      (name holder : String) (w w' : W) (l : Handle)
      → conclude h name holder w ≡ (ok l, w')
      → (r : LeaseRequest) × (h.client.lease_requests.get (key h (request_id_of name holder)) w
          ≡ (ok r, w'))
        × (is_denied_request r.status.phase ≡ false)
        × (l.holder ≡ holder)
  unfolding conclude
  concluded name holder w w' l f =
      let k = key h (request_id_of name holder) in
      elim (Result-cases (h.client.lease_requests.get k w).0) [
        | inl (x, failed) ↦ absurd (ground arith)
        | inr (r, found) ↦ elim (Bool-cases (is_denied_request r.status.phase)) [
          | inl denied ↦ absurd (given_up k _ _ _ w' l (rw (found, denied, conclude) at f))
          | inr fine ↦ (r, ground arith, fine, ground arith)
        ]
      ]

  -- The wait and what follows it, of an `Acquire` that succeeds.
  acquired :
      (name : String) (opts : List Setter) (w w' : W) (l : Handle)
      → acquire h name opts w ≡ (ok l, w')
      → let options = apply opts no_options in
        let holder = (resolve_holder h options.holder w).0 in
        let k = key h (request_id_of name holder) in
        (u v : W) × (wait_for_condition h h.client.lease_requests k is_decided
            (some (decision_config options.timeout))
            u
          ≡ (ok tt, v))
        × (conclude h name holder v ≡ (ok l, w'))
  unfolding acquire
  acquired name opts w w' l f =
      let options = apply opts no_options in
      let holder = (resolve_holder h options.holder w).0 in
      let k = key h (request_id_of name holder) in
      let sent =
        h.client.lease_requests.create (new_request h name holder options.priority)
          (resolve_holder h options.holder w).1 in
      elim (Result-cases sent.0) [
        | inl (x, failed) ↦ absurd (ground arith)
        | inr (_, made) ↦
            let waited =
              wait_for_condition h h.client.lease_requests k is_decided
                (some (decision_config options.timeout)) sent.1 in
            elim (Result-cases waited.0) [
              | inl (x, late) ↦
                  absurd (given_up k _ _ _ w' l (rw (late, ◌>>=◌) at (rw (made, acquire) at f)))
              | inr (_, seen) ↦
                  (sent.1, waited.1, ground arith, rw (seen, ◌>>=◌) at (rw (made, acquire) at f))
            ]
      ]

  -- An `Acquire` that succeeds has read its request as granted or denied, with its wait, and then
  -- once more as not denied; its handle is for the holder of the call.
  pub acquire-Decided :
      (name : String) (opts : List Setter) (w w' : W) (l : Handle)
      → BacksOff h
      → acquire h name opts w ≡ (ok l, w')
      → Decided (key h (request_id_of name l.holder)) w'
        × (l.holder ≡ (resolve_holder h (apply opts no_options).holder w).0)
  unfolding acquire
  acquire-Decided name opts w w' l polls f =
      let (u, v, waited, ended) = acquired name opts w w' l f in
      let (before, (o, found, final)) =
        wait_sound h h.client.lease_requests _ is_decided _ u v polls waited in
      let (r, reread, fine, mine) = concluded name _ v w' l ended in
      (
        subst (λ x. Decided (key h (request_id_of name x)) w') (sym mine)
            (record {
              decided = o;
              final = r;
              read_at = before;
              reread_at = v;
              read = found;
              is_final = final;
              reread = reread;
              not_denied = fine;
            }),
        mine,
      )
