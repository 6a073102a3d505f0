-- ===== src/Cli/Operator.antt =====
-- cli/operator.go: the status of the operator, and the checks that keep its probes on hosts of the
-- cluster. What net, net/url, net/http and client-go do is a parameter.
pub mod Labels
pub mod Hosts
use konductor.Prelude.{
  ℕ, ◌==◌, Bool, true, false, not, ◌&&◌, ◌||◌, String, str_append, str_eq, is_blank, Option, none,
  some, List, [], ◌∷◌, Action, return, ◌>>=◌, if◌then◌else◌,
}
use konductor.Api.Errors.{Error, Result, ok, err, errorf}
use konductor.Cli.Output.{Outcome, words, info_line, exit_with, finish}
use konductor.Cli.Operator.Labels.{
  begins_with, ends_with, contains, is_valid_service_name, is_valid_namespace,
}

-- `url.URL`: `Scheme`, `Hostname()` and `Path`.
pub record Url : Type 0 where
  pub scheme : String
  pub hostname : String
  pub path : String

-- `net.IP`: `IsLoopback`, `IsMulticast`, `IsUnspecified` and `IsPrivate`.
pub record Ip : Type 0 where
  pub loopback : Bool
  pub multicast : Bool
  pub unspecified : Bool
  pub private : Bool

-- `http.Request`: `URL.Host` and `Method`.
pub record Request : Type 0 where
  pub host : String
  pub method : String

-- `http.Response`: the version header, `StatusCode` and `Status`.
pub record Response : Type 0 where
  pub version : String
  pub status_code : ℕ
  pub status : String

abbrev pub RoundTripper : Type 0 → Type 0
RoundTripper W = Request → Action W (Result Response)

pub record Net (W Conn : Type 0) : Type 0 where
  pub parse_url : String → Result Url
  -- the host of `net.SplitHostPort`
  pub split_host_port : String → Result String
  pub parse_ip : String → Option Ip
  pub dial : String → Action W (Result Conn)
  pub dial_tls : String → Action W (Result Conn)
  pub remote_address : Conn → String
  pub close : Conn → Action W (Unit {0})
  -- `http.Transport` over its two dialers
  pub transport :
      (String → Action W (Result Conn)) → (String → Action W (Result Conn)) → RoundTripper W
  -- the `Transport` of `rest.InClusterConfig`, if there is one
  pub cluster_transport : Option (RoundTripper W)
  -- `http.Client.Get` over a transport
  pub get : RoundTripper W → String → Action W (Result Response)
  -- `fmt.Sprintf("HTTP %d", code)`
  pub code_text : ℕ → String

abbrev pub cluster_suffix : String
cluster_suffix = ".svc.cluster.local"

abbrev pub is_local : String → Bool
is_local hostname =
    str_eq hostname "127.0.0.1" || (str_eq hostname "localhost" || begins_with hostname "127.")

-- The loop over the endpoints of a health check.
abbrev pub is_endpoint : String → Bool
is_endpoint path =
    (str_eq path "/healthz" || begins_with path "/healthz/")
    || (str_eq path "/readyz" || begins_with path "/readyz/")

pub sanitize_url : String → String
sanitize_url raw_url =
    if is_blank raw_url
    then "<empty>"
    else if contains raw_url "/healthz"
    then "<service>/healthz"
    else if contains raw_url "/readyz"
    then "<service>/readyz"
    else "<sanitized>"

abbrev pub service_host : String → String → String
service_host svc_name operator_namespace =
    str_append svc_name (str_append "." (str_append operator_namespace cluster_suffix))

abbrev pub health_url : String → String → String
health_url svc_name operator_namespace =
    str_append "http://" (str_append (service_host svc_name operator_namespace) ":8081")

module _ {W Conn : Type 0} (n : Net W Conn) where
  unfoldable pub is_valid_health_url : String → Bool
  is_valid_health_url raw_url = if is_blank raw_url then false else elim (n.parse_url raw_url) [
    | err e ↦ false
    | ok parsed ↦
        if not (str_eq parsed.scheme "http") && not (str_eq parsed.scheme "https")
        then false
        else if is_blank parsed.hostname
        then false
        else if ends_with parsed.hostname cluster_suffix
        then is_endpoint parsed.path
        else is_local parsed.hostname
  ]

  unfoldable pub is_allowed_host : String → Bool
  is_allowed_host host =
      if is_blank host
      then false
      else let hostname : String = elim (n.split_host_port host) [
        | err e ↦ host
        | ok name ↦ name
      ] in
        if ends_with hostname cluster_suffix
        then not (contains hostname "..")
        else is_local hostname

  unfoldable pub is_disallowed_ip : String → Bool
  is_disallowed_ip host_ip = elim (n.parse_ip host_ip) [
    | none ↦ true
    | some ip ↦ if ip.loopback then false else ip.multicast || (ip.unspecified || ip.private)
  ]

  -- The two dialers of `safeTransport`, over the one that they call.
  unfoldable pub dial_safely : (String → Action W (Result Conn)) → String → Action W (Result Conn)
  dial_safely dial address = do
    dialed ← dial address
    elim dialed [
      | err e ↦ return (err e)
      | ok conn ↦ elim (n.split_host_port (n.remote_address conn)) [
        | err e ↦ do _ ← n.close conn; return (err (errorf "failed to parse remote address"))
        | ok ip ↦
            if is_disallowed_ip ip
            then (do
              _ ← n.close conn
              return (err (errorf "connection to disallowed IP address blocked: %s")))
            else return (ok conn)
      ]
    ]

  -- `restrictedTransport.RoundTrip`
  unfoldable pub round_trip : RoundTripper W → RoundTripper W
  round_trip base request =
      if not (is_allowed_host request.host)
      then return (err (errorf "blocked request to disallowed host"))
      else if not (str_eq request.method "GET")
      then return (err (errorf "blocked non-GET request: %s"))
      else base request

  unfoldable pub get_restricted_transport : RoundTripper W
  get_restricted_transport = elim n.cluster_transport [
    | some base ↦ round_trip base
    | none ↦ round_trip (n.transport (dial_safely n.dial) (dial_safely n.dial_tls))
  ]

  -- The version and the status; the debug lines are left out.
  unfoldable pub check_health_with_version : String → Action W (String × String)
  check_health_with_version url =
      if not (is_valid_health_url url) then return ("", "invalid URL") else (do
        got ← n.get get_restricted_transport url
        return (elim got [
          | err e ↦ ("", "unavailable")
          | ok response ↦ (
            response.version,
            if response.status_code == 200
                then "OK"
                else if is_blank response.status
                then n.code_text response.status_code
                else response.status,
          )
        ]))

  -- `runOperatorStatus`; the lines that it prints say what the one that it logs says.
  unfoldable pub run_operator_status : String → String → Action W Outcome
  run_operator_status svc_name operator_namespace =
      if not (is_valid_service_name svc_name) || not (is_valid_namespace operator_namespace)
      then return (exit_with (errorf "invalid service name or namespace"))
      else (do
        let url = health_url svc_name operator_namespace
        health ← check_health_with_version (str_append url "/healthz")
        ready ← check_health_with_version (str_append url "/readyz")
        return (
            finish (
              info_line "Operator status" (
                ("service", words svc_name)
                ∷ ("namespace", words operator_namespace)
                ∷ ("version", words health.0)
                ∷ ("health", words health.1)
                ∷ ("ready", words ready.1)
                ∷ [])
              ∷ [])))
