-- ===== src/Runner/Client.antt =====
-- buildRestConfig and defaultKubeconfig of pkg/runner/client.go. The packages os, filepath and
-- client-go are parameters, over the state W of the world.
use gpuid.Base.{
  ◌*◌, ◌≡◌, refl, Bool, List, [], ◌∷◌, if◌then◌else◌, Option, none, some, Result, ok, err, Text,
  codes, is_empty, ℤ, pos,
}
use gpuid.Runner.Config.{second}

-- rest.Config: the fields that are written, and the others.
pub record RestConfig (F C : Type 0) : Type 0 where
  pub qps : F
  pub burst : ℤ
  pub timeout : ℤ
  pub other : C

pub record Kubernetes (F C K W : Type 0) : Type 0 where
  -- os.Getenv
  pub getenv : Text → Text
  -- os.UserHomeDir
  pub user_home_dir : Option Text
  -- filepath.Join
  pub join : List Text → Text
  -- os.IsNotExist of os.Stat
  pub is_not_exist : Text → W → Bool × W
  -- rest.InClusterConfig, clientcmd.BuildConfigFromFlags and kubernetes.NewForConfig; `none` is an
  -- error
  pub in_cluster_config : W → Option (RestConfig F C) × W
  pub build_config_from_flags : Text → W → Option (RestConfig F C) × W
  pub new_for_config : RestConfig F C → W → Option K × W

pub data ClientError : Type 0 where
  rest_config_failed : Text → ClientError
  clientset_failed : ClientError

-- clientTimeoutDefault
abbrev pub client_timeout_default : ℤ
client_timeout_default = pos (30 * second)

module _ {F C K W : Type 0} (k : Kubernetes F C K W) where
  unfoldable pub home_kubeconfig : Text → W → Text × W
  home_kubeconfig home w =
      let path = k.join (home ∷ codes ".kube" ∷ codes "config" ∷ []) in
      let (missing, w') = k.is_not_exist path w in (if missing then [] else path, w')

  -- defaultKubeconfig
  unfoldable pub default_kubeconfig : W → Text × W
  unfolding home_kubeconfig
  default_kubeconfig w =
      if is_empty (k.getenv (codes "KUBECONFIG"))
      then elim k.user_home_dir [
        | none ↦ ([], w)
        | some home ↦ if is_empty home then ([], w) else home_kubeconfig home w
      ]
      else (k.getenv (codes "KUBECONFIG"), w)

  -- the path of the configuration outside a cluster
  unfoldable pub kubeconfig_path : Text → W → Text × W
  unfolding default_kubeconfig
  kubeconfig_path kubeconfig w =
      if is_empty kubeconfig then default_kubeconfig w else (kubeconfig, w)

  -- what follows the choice of a configuration
  unfoldable pub new_client :
      F → ℤ → RestConfig F C → W → Result ClientError (K × RestConfig F C) × W
  new_client qps burst base w =
      let config = record base { qps = qps; burst = burst; timeout = client_timeout_default } in
      let (made, w') = k.new_for_config config w in
      (elim made [ none ↦ err clientset_failed | some clientset ↦ ok (clientset, config) ], w')

  unfoldable pub from_flags :
      F → ℤ → Text → Option (RestConfig F C) × W → Result ClientError (K × RestConfig F C) × W
  from_flags qps burst path (none, w) = (err (rest_config_failed path), w)
  from_flags qps burst path (some config, w) = new_client qps burst config w

  unfoldable pub from_cluster :
      Text → F → ℤ → Option (RestConfig F C) × W → Result ClientError (K × RestConfig F C) × W
  from_cluster kubeconfig qps burst (some config, w) = new_client qps burst config w
  from_cluster kubeconfig qps burst (none, w) =
      let (path, w') = kubeconfig_path kubeconfig w in
      from_flags qps burst path (k.build_config_from_flags path w')

  -- buildRestConfig
  unfoldable pub build_rest_config : Text → F → ℤ → W → Result ClientError (K × RestConfig F C) × W
  build_rest_config kubeconfig qps burst w =
      from_cluster kubeconfig qps burst (k.in_cluster_config w)

-- A configuration that is returned has the limits of the command and the default timeout.
pub data IsLimited {F C K : Type 0} (qps : F) (burst : ℤ)
    : Result ClientError (K × RestConfig F C) → Type 0 where
  failed : {e : ClientError} → IsLimited qps burst (err e)
  limited :
      {clientset : K} {config : RestConfig F C}
      → config.qps ≡ qps
      → config.burst ≡ burst
      → config.timeout ≡ client_timeout_default
      → IsLimited qps burst (ok (clientset, config))

module _ {F C K W : Type 0} (k : Kubernetes F C K W) (qps : F) (burst : ℤ) where
  new_client-IsLimited :
      (base : RestConfig F C) (w : W) → IsLimited qps burst (new_client k qps burst base w).0
  unfolding new_client
  new_client-IsLimited base w = of_made (k.new_for_config _ w).0
    where
      of_made :
          (made : Option K)
          → IsLimited qps burst (elim made as (λ _. Result ClientError (K × RestConfig F C)) [
            | none ↦ err clientset_failed
            | some clientset ↦ ok (
              clientset,
              record base { qps = qps; burst = burst; timeout = client_timeout_default },
            )
          ])
      of_made none = failed
      of_made (some c) = limited refl refl refl

  from_flags-IsLimited :
      (path : Text) (found : Option (RestConfig F C) × W)
      → IsLimited qps burst (from_flags k qps burst path found).0
  unfolding from_flags
  from_flags-IsLimited path (none, w) = failed
  from_flags-IsLimited path (some config, w) = new_client-IsLimited config w

  from_cluster-IsLimited :
      (kubeconfig : Text) (found : Option (RestConfig F C) × W)
      → IsLimited qps burst (from_cluster k kubeconfig qps burst found).0
  unfolding from_cluster
  from_cluster-IsLimited kubeconfig (none, w) = from_flags-IsLimited _ _
  from_cluster-IsLimited kubeconfig (some config, w) = new_client-IsLimited config w

  -- Wherever the configuration comes from, in the cluster or from a file, buildRestConfig gives it the
  -- QPS and the burst of the command and a timeout of 30 seconds, or fails.
  pub build_rest_config-IsLimited :
      (kubeconfig : Text) (w : W)
      → IsLimited qps burst (build_rest_config k kubeconfig qps burst w).0
  unfolding build_rest_config
  build_rest_config-IsLimited kubeconfig w = from_cluster-IsLimited kubeconfig _
