-- ===== src/Cli/Setup.antt =====
-- cli/main.go and cli/version.go: what runs before a command. The flags and viper, the files, and
-- the libraries' string functions are parameters.
pub mod Namespace
use konductor.Prelude.{
  Bool, true, false, ◌||◌, String, str_eq, is_blank, Option, none, some, List, [], ◌∷◌,
  if◌then◌else◌,
}
use konductor.Api.Errors.{Result, ok, err}
use konductor.Client.{Client}
use konductor.Cli.Output.{Level, debug, info, warning, failure, Line, words, info_line}

-- `clientcmdapi.Config`, of which the code reads the current context, and by name the namespace of
-- a context that is not nil.
pub record KubeConfig : Type 0 where
  pub current_context : String
  pub context_namespace : String → Option String

-- What the start of the program reads from its surroundings.
pub record Surroundings : Type 0 where
  -- `os.Getenv`
  pub env : String → String
  -- `os.ReadFile` of the namespace of the service account
  pub account_file : Result String
  -- `clientcmd.LoadFromFile`, and `clientcmd.RecommendedHomeFile`
  pub load_file : String → Result KubeConfig
  pub home_file : String
  -- `strings.TrimSpace` and `strings.ToLower`
  pub trim_space : String → String
  pub to_lower : String → String

module _ (s : Surroundings) where
  unfoldable pub read_pod_namespace : String
  read_pod_namespace = elim s.account_file [ err e ↦ "" | ok data_read ↦ s.trim_space data_read ]

  unfoldable pub get_namespace_from_env : String
  get_namespace_from_env =
      if is_blank (s.env "POD_NAMESPACE") then s.env "NAMESPACE" else s.env "POD_NAMESPACE"

  unfoldable pub get_namespace_from_kubeconfig : String → String
  get_namespace_from_kubeconfig kubeconfig =
      elim (s.load_file (if is_blank kubeconfig then s.home_file else kubeconfig)) [
        | err e ↦ ""
        | ok config ↦ elim (config.context_namespace config.current_context) [
          | none ↦ ""
          | some ns ↦ ns
        ]
      ]

  -- The namespace; the debug lines are left out.
  unfoldable pub detect_namespace : String → String
  detect_namespace kubeconfig =
      if is_blank read_pod_namespace
      then if is_blank get_namespace_from_env
        then if is_blank (get_namespace_from_kubeconfig kubeconfig)
          then "default"
          else get_namespace_from_kubeconfig kubeconfig
        else get_namespace_from_env
      else read_pod_namespace

  -- `initLogger`: the level, and whether the logger writes JSON.
  pub logger_level : String → Level
  logger_level log_level =
      let name = s.to_lower log_level in
      if str_eq name "debug"
      then debug
      else if str_eq name "info"
      then info
      else if str_eq name "warn" || str_eq name "warning"
      then warning
      else if str_eq name "error"
      then failure
      else info

  pub writes_json : String → Bool
  writes_json output_format = str_eq (s.to_lower output_format) "json"

-- The globals that `initKubeClient` sets.
pub record Globals (W : Type 0) : Type 0 where
  pub kubeconfig : String
  pub namespace : String
  pub log_level : String
  pub output_format : String
  pub k8s_client : Client W

-- `viper.GetString`, `config.GetConfig`, `SchemeBuilder.Build` and controller-runtime's `client.New`;
-- and `cmd.PersistentFlags().Changed("namespace")`.
module _ {W K : Type 0} (s : Surroundings) (setting : String → String) (get_config : Result K)
    (build_scheme : Result (Unit {0})) (connect : K → Result (Client W)) where
  unfoldable pub init_kube_client : Bool → Result (Globals W)
  init_kube_client changed = elim get_config [
    | err e ↦ err e
    | ok k ↦ elim build_scheme [
      | err e ↦ err e
      | ok _ ↦ elim (connect k) [
        | err e ↦ err e
        | ok client ↦ ok (record {
          kubeconfig = setting "kubeconfig";
          namespace =
              if changed then setting "namespace" else detect_namespace s (setting "kubeconfig");
          log_level = setting "log-level";
          output_format = setting "output";
          k8s_client = client;
        })
      ]
    ]
  ]

-- The command `version`.
pub version_command : String → String → String → List Line
version_command version commit build_date =
    info_line "Version info"
      (("version", words version) ∷ ("commit", words commit) ∷ ("built", words build_date) ∷ [])
    ∷ []
