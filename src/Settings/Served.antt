-- ===== src/Settings/Served.antt =====
-- Which regions a deployment serves.
use safety_aware_route_plann.Base.{
  Option, none, some, List, [], ◌∷◌, Text, ◌≡◌, ◌≢◌, ◌↔◌, refl, arith, inl, inr, List-cases,
}
use safety_aware_route_plann.Ratelimit.{chain, given}
use safety_aware_route_plann.Settings.{serve, refuse, configured_regions, served_regions}

configured-cases :
    (configured : Option (List Text)) (region_name : Text)
    → ((names : List Text) → configured_regions configured region_name ≡ serve names → names ≢ [])
      × ((configured_regions configured region_name ≡ refuse) ↔ (configured ≡ some []))
unfolding configured_regions
configured-cases none region_name =
    (λ names h e. ground (arith, h, e), (λ h. ground (arith, h), λ h. ground (arith, h)))
configured-cases (some []) region_name = (λ names h e. ground (arith, h, e), (λ h. refl, λ h. refl))
configured-cases (some (r ∷ rs)) region_name =
    (λ names h e. ground (arith, h, e), (λ h. ground (arith, h), λ h. ground (arith, h)))

-- A deployment never serves an empty list of regions; it refuses to start exactly if the variable
-- names no region and the configuration has an empty list.
pub served_regions_known :
    (env : Option Text) (configured : Option (List Text)) (region_name : Text)
    → ((names : List Text) → served_regions env configured region_name ≡ serve names → names ≢ [])
      × ((served_regions env configured region_name ≡ refuse)
          ↔ ((chain (given env) ≡ []) × (configured ≡ some [])))
unfolding served_regions
served_regions_known env configured region_name = elim (List-cases (chain (given env))) [
  | inl e ↦
      let (filled, stops) = configured-cases configured region_name in
      rw (e, served_regions) (filled, (λ h. (refl, stops.0 h), λ h. stops.1 h.1))
  | inr (n, names, e) ↦
      rw (e, served_regions)
        (λ out h empty. ground (arith, h, empty), (λ h. ground (arith, h), λ h. ground (arith, h)))
]
