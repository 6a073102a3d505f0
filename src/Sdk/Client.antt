-- ===== src/Sdk/Client.antt =====
-- sdk/go/client/client.go, but for `Options`: the namespace of a client, and the handles of
-- permits and of leases. A `konductor.Client` is the fields `client` and `namespace` of a host; the
-- accessors are field selections. The context that `Release` cancels is left out: no code sets it.
use konductor.Prelude.{
  String, str_append, is_blank, Option, none, some, List, [], ◌∷◌, Action, return, ◌>>=◌,
  if◌then◌else◌,
}
use konductor.Api.Errors.{Result, ok, err, wrap, is_not_found}
use konductor.Api.Counters.{Permit}
use konductor.Api.Leases.{LeaseRequest}
use konductor.Client.{Client}
use konductor.Sdk.Host.{Host, key}

pub record Config : Type 0 where
  pub namespace : String
  pub kubeconfig : String

abbrev pub default_namespace : String → String
default_namespace namespace = if is_blank namespace then "default" else namespace

unfoldable pub new_from_client : {W : Type 0} → Host W → Client W → String → Host W
new_from_client h client namespace = record h {
  client = client;
  namespace = default_namespace namespace;
}

unfoldable pub with_namespace : {W : Type 0} → Host W → String → Host W
with_namespace h namespace = record h { namespace = namespace }

-- `config.GetConfig`, `syncv1.AddToScheme` and controller-runtime's `client.New`.
module _ {W K : Type 0} (get_config : Result K) (add_to_scheme : Result (Unit {0}))
    (connect : K → Result (Client W)) where
  pub new : Host W → Option Config → Result (Host W)
  unfolding new_from_client
  new h config = elim get_config [
    | err e ↦ err (wrap "failed to get kubeconfig" e)
    | ok k ↦ elim add_to_scheme [
      | err e ↦ err (wrap "failed to add konductor types to scheme" e)
      | ok _ ↦ elim (connect k) [
        | err e ↦ err (wrap "failed to create kubernetes client" e)
        | ok client ↦
            ok (new_from_client h client (elim config [ none ↦ "" | some c ↦ c.namespace ]))
      ]
    ]
  ]

-- `fmt.Sprintf("%s-%s", name, holder)`
abbrev pub child_name : String → String → String
child_name name holder = str_append (str_append name "-") holder

-- `Permit` and `LeaseHandle`, which hold the same.
pub record Held : Type 0 where
  pub name : String
  pub holder : String

module _ {W : Type 0} (h : Host W) where
  unfoldable pub release_semaphore_permit : String → String → Action W (Result (Unit {0}))
  release_semaphore_permit name holder = do
    gone ← h.client.permits.delete (key h (child_name name holder))
    return (elim gone [ err e ↦ err (wrap "failed to delete permit %s" e) | ok _ ↦ ok tt ])

  unfoldable pub release_lease : String → String → Action W (Result (Unit {0}))
  release_lease name holder = do
    gone ← h.client.lease_requests.delete (key h (child_name name holder))
    return (elim gone [ err e ↦ err (wrap "failed to delete lease request %s" e) | ok _ ↦ ok tt ])

  unfoldable pub list_permits : String → Action W (Result (List Permit))
  list_permits name = do
    found ← h.client.permits.list h.namespace (("semaphore", name) ∷ [])
    return (elim found [ err e ↦ err (wrap "failed to list permits" e) | ok ps ↦ ok ps ])

  pub list_lease_requests : String → Action W (Result (List LeaseRequest))
  list_lease_requests name = do
    found ← h.client.lease_requests.list h.namespace (("lease", name) ∷ [])
    return (elim found [ err e ↦ err (wrap "failed to list lease requests" e) | ok rs ↦ ok rs ])

  -- `Permit.Release` and `LeaseHandle.Release`
  unfoldable pub release_permit : Held → Action W (Result (Unit {0}))
  release_permit p = do
    released ← release_semaphore_permit p.name p.holder
    return (elim released [
      | err e ↦
          if is_not_found e then ok tt else err (wrap "failed to release permit %s for holder %s" e)
      | ok _ ↦ ok tt
    ])

  pub release_handle : Held → Action W (Result (Unit {0}))
  unfolding release_lease
  release_handle l = do
    released ← release_lease l.name l.holder
    return (elim released [
      | err e ↦
          if is_not_found e then ok tt else err (wrap "failed to release lease %s for holder %s" e)
      | ok _ ↦ ok tt
    ])
