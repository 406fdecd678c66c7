-- ===== src/Deploy/Ports.antt =====
-- The ports of a deployer's service (controllers/deploy/service.go), as the deployer's spec lists
-- them.
use cloudrun.Base.{
  ◌≡◌, refl, ap, String, eq_iff, Option, none, some, List, [], ◌∷◌, ◌++◌, arith, if◌then◌else◌,
}
use cloudrun.Api.Deployer.{ContainerSpec, Port}
use cloudrun.Cluster.Workloads.{ServicePort}
use cloudrun.Cluster.Client.{Cluster}
use cloudrun.Deploy.Service.{export_ports, new_service_ports, search_ports, service_port}
use cloudrun.Deploy.Template.{build_container_port}

abbrev pub port_names : List ServicePort → List String
port_names [] = []
port_names (p ∷ ps) = p.name ∷ port_names ps

search_ports-name :
    (n : String) (ps : List ServicePort) (p : ServicePort) → search_ports n ps ≡ some p → p.name ≡ n
unfolding search_ports
search_ports-name n [] p h = ground arith
search_ports-name n (q ∷ ps) p h = ground (arith, search_ports-name n ps p, eq_iff q.name n)

module _ (K : Cluster) where
  -- The names of the exported ports, in the order of the spec.
  abbrev pub exported_names : List Port → List String
  exported_names [] = []
  exported_names (p ∷ ps) =
      let rest = exported_names ps in
      if p.exported then (build_container_port K p).name ∷ rest else rest

  abbrev pub all_exported_names : List ContainerSpec → List String
  all_exported_names [] = []
  all_exported_names (c ∷ cs) = exported_names c.ports ++ all_exported_names cs

  named :
      (olds : List ServicePort) (n : String) (found : Option ServicePort) (made : ServicePort)
      → search_ports n olds ≡ found
      → made.name ≡ n
      → (elim found as (λ _. ServicePort) [ some old ↦ old | none ↦ made ]).name ≡ n
  named olds n none made h e = e
  named olds n (some old) made h e = search_ports-name n olds old h

  service_port-name :
      (olds : List ServicePort) (p : Port)
      → (service_port K olds p).name ≡ (build_container_port K p).name
  unfolding service_port
  service_port-name olds p =
      let n = (build_container_port K p).name in named olds n (search_ports n olds) _ refl refl

  export_ports-names :
      (olds : List ServicePort) (ps : List Port)
      → port_names (export_ports K olds ps) ≡ exported_names ps
  unfolding export_ports
  export_ports-names olds [] = refl
  export_ports-names olds (p ∷ ps) =
      ground (arith, export_ports-names olds ps, service_port-name olds p)

  port_names-append :
      (ps qs : List ServicePort) → port_names (ps ++ qs) ≡ port_names ps ++ port_names qs
  port_names-append [] qs = refl
  port_names-append (p ∷ ps) qs = ap (λ ns. p.name ∷ ns) (port_names-append ps qs)

  -- Whatever ports a service had, after an update it has one for each exported port of the spec, in
  -- the spec's order and under the spec's names, and no other.
  pub new_service_ports-names :
      (olds : List ServicePort) (cs : List ContainerSpec)
      → port_names (new_service_ports K olds cs) ≡ all_exported_names cs
  unfolding new_service_ports
  new_service_ports-names olds [] = refl
  new_service_ports-names olds (c ∷ cs) = rw (
    port_names-append (export_ports K olds c.ports) (new_service_ports K olds cs),
    export_ports-names olds c.ports,
    new_service_ports-names olds cs,
  )
