-- ===== src/Routes.antt =====
-- api/routes.py and api/departure.py: POST /route and POST /reroute over the served packs.
-- `astimezone` is Python's, with the offset dropped; `none` is its OverflowError.
pub mod Carried
pub mod Found
mod Examples
use Prim.Native.String.{String}
use text.Mathlib.Text.{◌==◌ as str_eq}
use safety_aware_route_plann.Base.{ℕ, Bool, Option, none, some, List, [], ◌∷◌, if◌then◌else◌}
use safety_aware_route_plann.Float.{Float}
use safety_aware_route_plann.Alternatives.{Kind}
use safety_aware_route_plann.Registry.{
  Point, BBox, Served, Selection, selected, origin_outside, destination_outside, different_packs,
  pack_for,
}
use safety_aware_route_plann.Ratelimit.{enforce_route_quota}
use safety_aware_route_plann.Ratelimit
use safety_aware_route_plann.Engine.{
  Preference, RouteOut, Router, RoutingError, Answer, answered, refused, key_error, assertion_error,
  route, reroute,
}

-- A naive datetime is a wall clock W; an aware one is an instant I.
pub data Datetime (W I : Type 0) : Type 0 where
  naive : W → Datetime W I
  aware : I → Datetime W I

-- What a handler answers: 200, 429, 422 from the selection or from the engine, and an exception.
pub data Response (S E A : Type 0) : Type 0 where
  ok : A → Response S E A
  too_many_requests : ℕ → Response S E A
  not_covered : S → Response S E A
  unroutable : E → Response S E A
  server_error : Response S E A

module _ (fl : Float) {W I Z : Type 0} (astimezone : Z → I → Option W) where
  open fl use {Val}

  abbrev pub local_time : Z → Datetime W I → Option W
  local_time tz (naive w) = some w
  local_time tz (aware i) = astimezone tz i

  -- `resolve_departure`.
  unfoldable pub resolve_departure : Option (Datetime W I) → Z → Datetime W I → Option W
  resolve_departure none tz now = local_time tz now
  resolve_departure (some departure) tz now = local_time tz departure

  pub record PackEntry : Type 0 where
    pub name : String
    pub router : Router fl W
    pub bbox : Option (BBox fl)
    pub tz : Z

  unfoldable pub served : List PackEntry → Served fl
  served [] = []
  served (e ∷ entries) = (e.name, e.bbox) ∷ served entries

  -- `registry[name]`; `none` is a KeyError.
  unfoldable pub entry_of : List PackEntry → String → Option PackEntry
  entry_of [] name = none
  entry_of (e ∷ entries) name = if str_eq e.name name then some e else entry_of entries name

  pub record RouteRequest : Type 0 where
    pub origin : Point fl
    pub destination : Point fl
    pub departure_time : Option (Datetime W I)
    pub safety_enabled : Bool
    pub detour_budget_pct : Option Val

  -- `traffic_basis` is accepted and never read; a level is one of the three that artifacts have.
  pub record CarriedPreference : Type 0 where
    pub level : Kind
    pub lam : Val
    pub detour_budget_pct : Val
    pub departure_time : Datetime W I

  pub record RerouteRequest : Type 0 where
    pub origin : Point fl
    pub destination : Point fl
    pub preference : CarriedPreference

  abbrev pub Reply : Type 0 → Type 0
  Reply A = Response (Selection fl) (RoutingError fl) A

  -- A `RoutingError` is a 422; nothing catches the others.
  abbrev pub to_reply : {A : Type 0} → Answer fl A → Reply A
  to_reply (answered a) = ok a
  to_reply (refused e) = unroutable e
  to_reply key_error = server_error
  to_reply assertion_error = server_error

  abbrev pub on_entry : {A : Type 0} → (PackEntry → Reply A) → Option PackEntry → Reply A
  on_entry k none = server_error
  on_entry k (some e) = k e

  abbrev pub on_selection :
      {A : Type 0} → List PackEntry → (PackEntry → Reply A) → Selection fl → Reply A
  on_selection entries k (selected name) = on_entry k (entry_of entries name)
  on_selection entries k origin_outside = not_covered origin_outside
  on_selection entries k destination_outside = not_covered destination_outside
  on_selection entries k (different_packs o d) = not_covered (different_packs o d)

  -- `_select_pack`, and what the handler does with the pack.
  unfoldable pub select_pack :
      {A : Type 0} → List PackEntry → Point fl → Point fl → (PackEntry → Reply A) → Reply A
  unfolding entry_of served pack_for
  select_pack entries origin destination k =
      on_selection entries k (pack_for fl (served entries) origin destination)

  abbrev pub within_quota : {A : Type 0} → Option ℕ → Reply A → Reply A
  within_quota none reply = reply
  within_quota (some seconds) reply = too_many_requests seconds

  -- The call of the router at a departure; an exception of `resolve_departure` is not caught.
  abbrev pub at_departure : {A : Type 0} → (W → Answer fl A) → Option W → Reply A
  at_departure k none = server_error
  at_departure k (some departure) = to_reply (k departure)

  abbrev pub route_on : RouteRequest → Datetime W I → PackEntry → Reply (List (RouteOut fl W))
  route_on body now e =
      at_departure
        (λ departure.
          route fl e.router body.origin.lat body.origin.lon body.destination.lat
            body.destination.lon departure body.safety_enabled body.detour_budget_pct)
        (resolve_departure body.departure_time e.tz now)

  abbrev pub reroute_on : RerouteRequest → Datetime W I → PackEntry → Reply (RouteOut fl W)
  reroute_on body now e =
      let pref = body.preference in
      at_departure
        (λ departure.
          reroute fl e.router body.origin.lat body.origin.lon body.destination.lat
            body.destination.lon pref.level pref.lam pref.detour_budget_pct departure)
        (resolve_departure (some pref.departure_time) e.tz now)

  -- POST /route.
  unfoldable pub post_route :
      List PackEntry → Ratelimit.Answer → Datetime W I → RouteRequest → Reply (List (RouteOut fl W))
  unfolding select_pack resolve_departure route enforce_route_quota
  post_route entries limiter now body =
      within_quota (enforce_route_quota limiter)
        (select_pack entries body.origin body.destination (route_on body now))

  -- POST /reroute.
  unfoldable pub post_reroute :
      List PackEntry → Ratelimit.Answer → Datetime W I → RerouteRequest → Reply (RouteOut fl W)
  unfolding select_pack resolve_departure reroute enforce_route_quota
  post_reroute entries limiter now body =
      within_quota (enforce_route_quota limiter)
        (select_pack entries body.origin body.destination (reroute_on body now))
