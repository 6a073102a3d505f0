-- ===== src/Cli/Setup/Namespace.antt =====
-- The namespace that `detectNamespace` of cli/main.go chooses.
use konductor.Prelude.{◌≡◌, inl, inr, refl, true, false, String, is_blank, Bool-cases}
use konductor.Cli.Setup.{
  Surroundings, read_pod_namespace, get_namespace_from_env, get_namespace_from_kubeconfig,
  detect_namespace,
}

-- A namespace is chosen by the first of the sources that names one.
pub data Chosen (s : Surroundings) (kubeconfig : String) : String → Type 0 where
  pod : is_blank (read_pod_namespace s) ≡ false → Chosen s kubeconfig (read_pod_namespace s)
  environment :
      is_blank (read_pod_namespace s) ≡ true
      → is_blank (get_namespace_from_env s) ≡ false
      → Chosen s kubeconfig (get_namespace_from_env s)
  context :
      is_blank (read_pod_namespace s) ≡ true
      → is_blank (get_namespace_from_env s) ≡ true
      → is_blank (get_namespace_from_kubeconfig s kubeconfig) ≡ false
      → Chosen s kubeconfig (get_namespace_from_kubeconfig s kubeconfig)
  fallback :
      is_blank (read_pod_namespace s) ≡ true
      → is_blank (get_namespace_from_env s) ≡ true
      → is_blank (get_namespace_from_kubeconfig s kubeconfig) ≡ true
      → Chosen s kubeconfig "default"

-- The namespace that the program detects is never blank, and comes from the first source that names
-- one: the service account, the environment, the kubeconfig, and else it is `default`.
pub detect_namespace-Chosen :
    (s : Surroundings) (kubeconfig : String)
    → (is_blank (detect_namespace s kubeconfig) ≡ false)
      × Chosen s kubeconfig (detect_namespace s kubeconfig)
unfolding detect_namespace
detect_namespace-Chosen s kubeconfig = elim (Bool-cases (is_blank (read_pod_namespace s))) [
  | inr named ↦ (rw named named, rw named (pod named))
  | inl a ↦ elim (Bool-cases (is_blank (get_namespace_from_env s))) [
    | inr named ↦ (rw (a, named) named, rw (a, named) (environment a named))
    | inl b ↦ elim (Bool-cases (is_blank (get_namespace_from_kubeconfig s kubeconfig))) [
      | inr named ↦ (rw (a, b, named) named, rw (a, b, named) (context a b named))
      | inl d ↦ (rw (a, b, d) refl, rw (a, b, d) (fallback a b d))
    ]
  ]
]
