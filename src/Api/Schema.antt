-- ===== src/Api/Schema.antt =====
-- The defaults of the custom resources' schemas: the markers `+kubebuilder:default` of
-- api/v1alpha1/builder_types.go and api/v1alpha1/deployer_types.go, for fields that are left out of the
-- JSON when they have Go's zero value (`omitempty`).
use cloudrun.Base.{
  ◌≡◌, refl, ℤ, pos, negsuc, zero, suc, String, is_empty, Bool-cases, inl, inr, Option, none, some,
  List, [], ◌∷◌, if◌then◌else◌,
}
use cloudrun.Api.Builder.{BuilderContextS3, BuilderSpec}
use cloudrun.Api.Deployer.{ContainerSpec, DeployerSpec, Port}

-- `Round int`, `omitempty`, with the default -1.
abbrev pub default_round : ℤ → ℤ
default_round (pos zero) = negsuc 0
default_round (pos (suc n)) = pos (suc n)
default_round (negsuc n) = negsuc n

abbrev pub default_text : String → String → String
default_text given t = if is_empty t then given else t

abbrev pub default_ports : List Port → List Port
default_ports [] = []
default_ports (p ∷ ps) = record p { protocol = default_text "tcp" p.protocol } ∷ default_ports ps

abbrev pub default_container : ContainerSpec → ContainerSpec
default_container c = record c { ports = default_ports c.ports }

abbrev pub default_containers : List ContainerSpec → List ContainerSpec
default_containers [] = []
default_containers (c ∷ cs) = default_container c ∷ default_containers cs

abbrev pub default_deployer : DeployerSpec → DeployerSpec
default_deployer s = record s {
  containers = default_containers s.containers;
  round = default_round s.round;
}

abbrev pub default_s3 : Option BuilderContextS3 → Option BuilderContextS3
default_s3 none = none
default_s3 (some c) = some (record c { endpoint = default_text "s3.amazonaws.com" c.endpoint })

abbrev pub default_builder : BuilderSpec → BuilderSpec
default_builder s = record s {
  context = record s.context { s3 = default_s3 s.context.s3 };
  dockerfile_path = default_text "Dockerfile" s.dockerfile_path;
  push_secret_name = default_text "push-secret" s.push_secret_name;
  round = default_round s.round;
}

-- What has its defaults is left as it is.
pub default_round-again : (n : ℤ) → default_round (default_round n) ≡ default_round n
default_round-again (pos zero) = refl
default_round-again (pos (suc n)) = refl
default_round-again (negsuc n) = refl

protocol-again : (t : String) → default_text "tcp" (default_text "tcp" t) ≡ default_text "tcp" t
protocol-again t = elim (Bool-cases (is_empty t)) [
  | inl empty ↦ rw empty refl
  | inr full ↦ rw (full, full) refl
]

default_ports-again : (ps : List Port) → default_ports (default_ports ps) ≡ default_ports ps
default_ports-again [] = refl
default_ports-again (p ∷ ps) =
    λ i. record p { protocol = protocol-again p.protocol i } ∷ default_ports-again ps i

pub default_container-again :
    (c : ContainerSpec) → default_container (default_container c) ≡ default_container c
default_container-again c = λ i. record c { ports = default_ports-again c.ports i }

pub default_containers-again :
    (cs : List ContainerSpec) → default_containers (default_containers cs) ≡ default_containers cs
default_containers-again [] = refl
default_containers-again (c ∷ cs) = λ i. default_container-again c i ∷ default_containers-again cs i
