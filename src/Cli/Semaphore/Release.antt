-- ===== src/Cli/Semaphore/Release.antt =====
-- Which permit `semaphore release` of cli/semaphore.go deletes.
use konductor.Prelude.{
  ◌≡◌, refl, ap, subst, inl, inr, true, false, Bool-cases, String, str_eq, some, Option-cases, List,
  [], ◌∷◌, ◌++◌, All, arith,
}
use konductor.Api.Meta.{key_of}
use konductor.Api.Errors.{Result-cases, ok}
use konductor.Api.Counters.{Permit}
use konductor.Client.{Client}
use konductor.Sdk.Client.{new_from_client, list_permits}
use konductor.Cli.Output.{Cli, Outcome, connected, validate_holder, holding}
use konductor.Cli.Semaphore.{find_permit, release_found, release}

abbrev IsOf : String → Permit → Type 0
IsOf holder p = str_eq p.spec.holder holder ≡ true

-- The permit of a list that is found, between those of other holders and the rest.
pub record Found (holder : String) (permits : List Permit) (p : Permit) : Type 0 where
  pub before : List Permit
  pub rest : List Permit
  pub split : before ++ (p ∷ rest) ≡ permits
  pub mine : str_eq p.spec.holder holder ≡ true
  pub others : All (λ q. str_eq q.spec.holder holder ≡ false) before

find_permit-Found :
    (holder : String) (permits : List Permit) (p : Permit)
    → find_permit holder permits ≡ some p
    → Found holder permits p
unfolding find_permit
find_permit-Found holder [] p e = absurd (ground arith)
find_permit-Found holder (q ∷ qs) p e = elim (Bool-cases (str_eq q.spec.holder holder)) [
  | inl mine ↦
      let it : q ≡ p = ground arith in
      subst (Found holder (q ∷ qs)) it
        (record { before = []; rest = qs; split = refl; mine = mine; others = tt })
  | inr other ↦
      let found = find_permit-Found holder qs p (ground arith) in
      record {
        before = q ∷ found.before;
        rest = found.rest;
        split = ap (λ l. q ∷ l) found.split;
        mine = found.mine;
        others = (other, found.others);
      }
]

module _ {W : Type 0} (c : Cli W) where
  -- The calls of a release that succeeds.
  pub record Deleted (flag name : String) (w last : W) : Type 0 where
    pub holder : String
    pub client : Client W
    pub permits : List Permit
    pub permit : Permit
    pub listed_at : W
    pub named : validate_holder c flag ≡ ok holder
    pub connection : c.k8s_client ≡ some client
    pub listed :
        list_permits (new_from_client c.host client c.namespace) name w ≡ (ok permits, listed_at)
    pub found : Found holder permits permit
    pub gone : client.permits.delete (key_of permit.meta) listed_at ≡ (ok tt, last)

  release_deletes :
      (name holder : String) (permits : List Permit) (client : Client W) (w w' : W) (o : Outcome)
      → release_found c name holder permits (new_from_client c.host client c.namespace) w ≡ (o, w')
      → o.result ≡ ok tt
      → (p : Permit) × (find_permit holder permits ≡ some p)
        × (client.permits.delete (key_of p.meta) w ≡ (ok tt, w'))
  unfolding release_found new_from_client
  release_deletes name holder permits client w w' o e fine =
      elim (Option-cases (find_permit holder permits)) [
        | inl missing ↦ absurd (ground arith)
        | inr (p, found) ↦
            let gone = client.permits.delete (key_of p.meta) w in
            elim (Result-cases gone.0) [
              | inl (x, failed) ↦ absurd (ground arith)
              | inr (_, deleted) ↦ (p, found, ground arith)
            ]
      ]

  -- A `semaphore release` that ends with no error had a holder, listed the permits of the semaphore,
  -- and then deleted, with success and by its key, the first of them that names the holder.
  release-Deleted :
      (flag name : String) (w w' : W) (o : Outcome)
      → release c flag name w ≡ (o, w')
      → o.result ≡ ok tt
      → Deleted flag name w w'
  unfolding release holding connected
  release-Deleted flag name w w' o e fine = elim (Result-cases (validate_holder c flag)) [
    | inl (x, unnamed) ↦ absurd (ground arith)
    | inr (holder, named) ↦ elim (Option-cases c.k8s_client) [
      | inl unconnected ↦ absurd (ground arith)
      | inr (client, connection) ↦
          let h = new_from_client c.host client c.namespace in
          let listed = list_permits h name w in
          elim (Result-cases listed.0) [
            | inl (x, failed) ↦ absurd (ground arith)
            | inr (permits, read) ↦
                let (p, found, gone) =
                  release_deletes name holder permits client listed.1 w' o (ground arith) fine in
                record {
                  holder = holder;
                  client = client;
                  permits = permits;
                  permit = p;
                  listed_at = listed.1;
                  named = named;
                  connection = connection;
                  listed = ground arith;
                  found = find_permit-Found holder permits p found;
                  gone = gone;
                }
          ]
    ]
  ]
