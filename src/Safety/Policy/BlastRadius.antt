-- ===== src/Safety/Policy/BlastRadius.antt =====
-- `RiskPolicyEngine.calculate_blast_radius` of src/safety/policy.py against the dependency relation.
use ops_pilot_ai.Prelude.{
  String, ◌≡◌, refl, Bool, true, false, not, ◌&&◌, ◌||◌, none, some, List, [], ◌∷◌, ◌++◌, arith,
  eq_iff, eq_refl, ◌==◌, ℕ_eq, String_eq, elem, elem-append, nodup,
}
use ops_pilot_ai.Prelude.Assoc.{keys, lookup, lookup_absent}
use ops_pilot_ai.Topology.{
  Services, get_service, get_upstream_dependents, get_downstream_dependencies,
}
use ops_pilot_ai.Safety.Policy.{from_keys, calculate_blast_radius}

-- Service `a` calls service `b`.
abbrev pub calls : Services → String → String → Bool
calls topology a b = elim (get_service a topology) [
  | none ↦ false
  | some node ↦ elem b node.dependencies
]

elem-from_keys :
    (s : String) (seen xs : List String)
    → elem s (from_keys seen xs) ≡ (elem s xs && not (elem s seen))
unfolding from_keys
elem-from_keys s seen [] = refl
elem-from_keys s seen (x ∷ xs) =
    ground (arith, elem-from_keys s (x ∷ seen) xs, elem-from_keys s seen xs, eq_iff s x)

nodup-from_keys : (seen xs : List String) → nodup (from_keys seen xs) ≡ true
unfolding from_keys
nodup-from_keys seen [] = refl
nodup-from_keys seen (x ∷ xs) = ground (
  arith,
  nodup-from_keys (x ∷ seen) xs,
  nodup-from_keys seen xs,
  elem-from_keys x (x ∷ seen) xs,
  eq_refl x,
)

elem-upstream :
    (s target : String) (topology : Services)
    → nodup (keys topology) ≡ true
    → elem s (get_upstream_dependents target topology) ≡ calls topology s target
unfolding get_upstream_dependents get_service lookup
elem-upstream s target [] h = refl
elem-upstream s target ((name, node) ∷ rest) h =
    ground (arith, elem-upstream s target rest, eq_iff s name, eq_iff name s, lookup_absent s rest)

elem-downstream :
    (s target : String) (topology : Services)
    → elem s (get_downstream_dependencies target topology) ≡ calls topology target s
unfolding get_downstream_dependencies get_service
elem-downstream s target topology = ground arith

-- The blast radius of a service names no service twice, and in a topology without repeated names it
-- holds a service exactly when that is the target, calls the target, or is called by the target.
pub blast_radius_exact :
    (target : String) (topology : Services)
    → nodup (keys topology) ≡ true
    → (nodup (calculate_blast_radius target topology) ≡ true)
      × ((s : String)
          → elem s (calculate_blast_radius target topology)
            ≡ (s == target || calls topology s target || calls topology target s))
unfolding calculate_blast_radius
blast_radius_exact target topology h = (
  nodup-from_keys [] (
      target
      ∷ (get_upstream_dependents target topology ++ get_downstream_dependencies target topology)),
  λ s. ground (
    arith,
    elem-from_keys s [] (
        target
        ∷ (get_upstream_dependents target topology ++ get_downstream_dependencies target topology)),
    elem-append s (get_upstream_dependents target topology)
        (get_downstream_dependencies target topology),
    elem-upstream s target topology,
    elem-downstream s target topology,
  ),
)
