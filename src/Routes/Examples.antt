-- ===== src/Routes/Examples.antt =====
-- A pack three hours east of its server, asked for a route now.
use safety_aware_route_plann.Base.{
  ℕ, ◌+◌, ◌≡◌, refl, true, Option, none, some, leb, if◌then◌else◌, [], ◌∷◌, In, inl, inr, ap, subst,
  sym,
}
use safety_aware_route_plann.Float.Whole.{naturals}
use safety_aware_route_plann.Registry.{bbox_contains, owner, select_owners, pack_for}
use safety_aware_route_plann.Ratelimit.{admitted, wait, unavailable, enforce_route_quota}
use safety_aware_route_plann.Engine.Examples.{
  router, artifact_0, one_route, search-IsEngine, resolve-HasFastPath,
}
use safety_aware_route_plann.Engine.{resolve}
use safety_aware_route_plann.Engine.Reroute.{HasFastPath}
use safety_aware_route_plann.Engine.Total.{IsEngine}
use safety_aware_route_plann.Routes.Found.{Settled, post_route-Settled}
use safety_aware_route_plann.Routes.{
  aware, PackEntry, RouteRequest, ok, too_many_requests, server_error, served, entry_of,
  resolve_departure, select_pack, post_route, post_reroute, to_reply,
}
use safety_aware_route_plann.Routes.Carried.{
  HasFastPaths, entry_of-In, follow, post_route-post_reroute,
}

-- The calendar ends at 1000.
abbrev astimezone : ℕ → ℕ → Option ℕ
astimezone tz instant = if leb 1000 (tz + instant) then none else some (tz + instant)

abbrev toy : PackEntry naturals astimezone
toy = record { name = "toy"; router = router; bbox = none; tz = 3 }

abbrev body : RouteRequest naturals astimezone
body = record {
  origin = record { lat = 0; lon = 0 };
  destination = record { lat = 0; lon = 1 };
  departure_time = none;
  safety_enabled = true;
  detour_budget_pct = none;
}

toy-HasFastPaths : HasFastPaths naturals astimezone (toy ∷ []) (aware 5) body
toy-HasFastPaths e n departure picked is at = elim (entry_of-In naturals astimezone _ n e is) [
  | inl same ↦
      subst
        (λ (p : PackEntry naturals astimezone).
          HasFastPath naturals p.router (resolve naturals p.router 0 0 0 1 departure))
        (sym same) (resolve-HasFastPath departure)
  | inr other ↦ elim other [ ]
]

now_route : post_route naturals astimezone (toy ∷ []) admitted (aware 5) body ≡ ok (artifact_0 ∷ [])
unfolding post_route select_pack served entry_of resolve_departure bbox_contains owner select_owners
    pack_for enforce_route_quota
now_route = ap (to_reply naturals astimezone) one_route

-- Beyond the end of the calendar.
too_late : post_route naturals astimezone (toy ∷ []) admitted (aware 999) body ≡ server_error
unfolding post_route select_pack served entry_of resolve_departure bbox_contains owner select_owners
    pack_for enforce_route_quota
too_late = refl

over_quota : post_route naturals astimezone (toy ∷ []) (wait 7) (aware 5) body ≡ too_many_requests 7
unfolding post_route enforce_route_quota
over_quota = refl

open_quota : enforce_route_quota unavailable ≡ none
unfolding enforce_route_quota
open_quota = refl

post_route-post_reroute_example :
    post_reroute naturals astimezone
      (toy ∷ [])
      unavailable
      (aware 90)
      (follow naturals astimezone body artifact_0)
    ≡ ok artifact_0
post_route-post_reroute_example =
    post_route-post_reroute naturals astimezone (toy ∷ []) admitted unavailable (aware 5) (aware 90)
      body artifact_0 [] toy-HasFastPaths now_route open_quota

toy-IsEngine : (e : PackEntry naturals astimezone) → In e (toy ∷ []) → IsEngine naturals e.router
toy-IsEngine e (inl is) =
    subst (λ (p : PackEntry naturals astimezone). IsEngine naturals p.router) (sym is)
      search-IsEngine
toy-IsEngine e (inr other) = elim other [ ]

post_route-Settled_example :
    Settled naturals astimezone
      (toy ∷ [])
      (aware 5)
      body
      (enforce_route_quota admitted)
      (pack_for naturals (served naturals astimezone (toy ∷ [])) body.origin body.destination)
      (post_route naturals astimezone (toy ∷ []) admitted (aware 5) body)
post_route-Settled_example =
    post_route-Settled naturals astimezone (toy ∷ []) admitted (aware 5) body toy-IsEngine
