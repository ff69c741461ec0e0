-- ===== src/Routes/Found.antt =====
-- How a request for routes ends: the selected pack is served, and its engine answers.
use mathlib.Core.Option.{some-injective}
use Prim.Native.String.{String}
use text.Mathlib.Text.{◌==◌ as str_eq}
use text.Mathlib.TextEquality.{eq_iff}
use safety_aware_route_plann.Base.{
  ℕ, Option, none, some, List, [], ◌∷◌, ◌≡◌, ◌≢◌, refl, sym, ◌∙◌, arith, In, inl, inr, Bool-cases,
  Option-cases, subst,
}
use safety_aware_route_plann.Float.{Float}
use safety_aware_route_plann.Snap.{snap}
use safety_aware_route_plann.Registry.Select.{owners_selected}
use safety_aware_route_plann.Registry.{
  Point, Selection, selected, origin_outside, destination_outside, different_packs, pack_for,
  bbox_contains, owner,
}
use safety_aware_route_plann.Ratelimit.{enforce_route_quota}
use safety_aware_route_plann.Ratelimit
use safety_aware_route_plann.Engine.{
  RouteOut, Answer, answered, refused, key_error, assertion_error,
}
use safety_aware_route_plann.Engine.Total.{IsEngine}
use safety_aware_route_plann.Engine.Answers.{Fitting, route-Fitting}
use safety_aware_route_plann.Routes.{
  Datetime, ok, too_many_requests, not_covered, unroutable, server_error, PackEntry, RouteRequest,
  Reply, served, entry_of, to_reply, on_entry, on_selection, within_quota, route_on,
  resolve_departure, select_pack, post_route,
}
use safety_aware_route_plann.Routes.Carried.{entry_of-In}

module _ (fl : Float) {W I Z : Type 0} (astimezone : Z → I → Option W) where
  -- The owner of a point is the name of an entry.
  entry_of-owner :
      (entries : List (PackEntry fl astimezone)) (p : Point fl) (n : String)
      → owner fl (served fl astimezone entries) p ≡ some n
      → entry_of fl astimezone entries n ≢ none
  unfolding owner served entry_of
  entry_of-owner [] p n h missing = ground (arith, h)
  entry_of-owner (e ∷ entries) p n h missing = elim (Bool-cases (str_eq e.name n)) [
    | inl is ↦
        let bad : ◌≡◌ {A = Option (PackEntry fl astimezone)} (some e) none =
          sym (rw is refl) ∙ missing in
        ground (arith, bad)
    | inr other ↦ elim (Bool-cases (bbox_contains fl e.bbox p)) [
      | inl covers ↦
          let same : e.name ≡ n = some-injective _ _ (sym (rw covers refl) ∙ h) in
          let yes = (eq_iff e.name n).1 same in ground (arith, yes, other)
      | inr misses ↦
          entry_of-owner entries p n (sym (rw misses refl) ∙ h) (sym (rw other refl) ∙ missing)
    ]
  ]

  module _ (entries : List (PackEntry fl astimezone)) (now : Datetime W I)
      (body : RouteRequest fl astimezone) where
    -- What the answer of the pack's router says of its candidates, at the local departure.
    abbrev pub Fits : String → Answer fl (List (RouteOut fl W)) → Type 0
    Fits n r =
        (e : PackEntry fl astimezone) × (entry_of fl astimezone entries n ≡ some e)
        × ((departure : W) × (resolve_departure fl astimezone body.departure_time e.tz now
              ≡ some departure)
            × Fitting fl e.router departure
                (snap fl e.router.snap_index body.origin.lat body.origin.lon e.router.snap_max_m)
                (snap fl e.router.snap_index body.destination.lat body.destination.lon
                  e.router.snap_max_m)
                r)

    -- The departure cannot be told in the pack's zone.
    abbrev pub Overflows : String → Type 0
    Overflows n =
        (e : PackEntry fl astimezone) × (entry_of fl astimezone entries n ≡ some e)
        × (resolve_departure fl astimezone body.departure_time e.tz now ≡ none)

    -- By the quota and the selection: the answer to a request for routes.
    abbrev pub Settled :
        Option ℕ → Selection fl → Reply fl astimezone (List (RouteOut fl W)) → Type 0
    Settled quota sel (ok rs) =
        (quota ≡ none) × ((n : String) × (sel ≡ selected n) × Fits n (answered rs))
    Settled quota sel (too_many_requests s) = quota ≡ some s
    Settled quota sel (not_covered x) = (quota ≡ none) × (sel ≡ x) × ((n : String) → x ≢ selected n)
    Settled quota sel (unroutable x) =
        (quota ≡ none) × ((n : String) × (sel ≡ selected n) × Fits n (refused x))
    Settled quota sel server_error =
        (quota ≡ none) × ((n : String) × (sel ≡ selected n) × Overflows n)

    Fits-Settled :
        (r : Answer fl (List (RouteOut fl W))) (n : String)
        → Fits n r
        → Settled none (selected n) (to_reply fl astimezone r)
    Fits-Settled (answered rs) n fits = (refl, (n, refl, fits))
    Fits-Settled (refused x) n fits = (refl, (n, refl, fits))
    Fits-Settled key_error n (e, is, (departure, at, fits)) = elim fits [ ]
    Fits-Settled assertion_error n (e, is, (departure, at, fits)) = elim fits [ ]

    module _ (engines : (e : PackEntry fl astimezone) → In e entries → IsEngine fl e.router) where
      picked-Settled :
          (n : String) (e : PackEntry fl astimezone)
          → entry_of fl astimezone entries n ≡ some e
          → Settled none (selected n) (route_on fl astimezone body now e)
      picked-Settled n e is =
          elim (Option-cases (resolve_departure fl astimezone body.departure_time e.tz now)) [
            | inl late ↦ rw late (refl, (n, refl, (e, is, late)))
            | inr (departure, at) ↦
                let fits =
                  route-Fitting fl e.router body.origin.lat body.origin.lon body.destination.lat
                    body.destination.lon departure body.safety_enabled body.detour_budget_pct
                    (engines e (entry_of-In fl astimezone entries n e is)) in
                rw at (Fits-Settled _ n (e, is, (departure, at, fits)))
          ]

      entry-Settled :
          (n : String)
          → entry_of fl astimezone entries n ≢ none
          → Settled none
              (selected n)
              (on_selection fl astimezone entries (route_on fl astimezone body now) (selected n))
      entry-Settled n there = elim (Option-cases (entry_of fl astimezone entries n)) [
        | inl gone ↦ elim (there gone) [ ]
        | inr (e, is) ↦
            subst
              (λ (x : Option (PackEntry fl astimezone)).
                Settled none (selected n)
                  (on_entry fl astimezone (route_on fl astimezone body now) x))
              (sym is) (picked-Settled n e is)
      ]

      selection-Settled :
          (sel : Selection fl)
          → pack_for fl (served fl astimezone entries) body.origin body.destination ≡ sel
          → Settled none sel
              (on_selection fl astimezone entries (route_on fl astimezone body now) sel)
      unfolding pack_for
      selection-Settled (selected n) h =
          entry-Settled n (entry_of-owner entries body.origin n (owners_selected fl _ _ n h).0)
      selection-Settled origin_outside h = (refl, refl, λ n s. ground (arith, s))
      selection-Settled destination_outside h = (refl, refl, λ n s. ground (arith, s))
      selection-Settled (different_packs o d) h = (refl, refl, λ n s. ground (arith, s))

      quota-Settled :
          (quota : Option ℕ) (sel : Selection fl) (r : Reply fl astimezone (List (RouteOut fl W)))
          → Settled none sel r
          → Settled quota sel (within_quota fl astimezone quota r)
      quota-Settled none sel r settled = settled
      quota-Settled (some s) sel r settled = refl

  -- Where the engine of every served pack returns only paths from a seed to a destination, POST /route
  -- is refused by the quota exactly when this refuses it, with its delay; else it is refused by the
  -- selection, with its reason, exactly when no pack is selected. Of the exceptions that are modelled
  -- (a missing key, a missing traffic basis, a departure that the calendar of the pack's zone does not
  -- reach) only the last then occurs, and only for such a departure. Otherwise the answer fits the
  -- candidates in the pack at the local departure: at least one route, where not every search fails;
  -- or the endpoint that is too far; or no route, where the ends share no edge that leads from one to
  -- the other and the search finds no path at the fast lambda.
  pub post_route-Settled :
      (entries : List (PackEntry fl astimezone)) (limiter : Ratelimit.Answer) (now : Datetime W I)
      (body : RouteRequest fl astimezone)
      → ((e : PackEntry fl astimezone) → In e entries → IsEngine fl e.router)
      → Settled entries now body
          (enforce_route_quota limiter)
          (pack_for fl (served fl astimezone entries) body.origin body.destination)
          (post_route fl astimezone entries limiter now body)
  unfolding post_route select_pack
  post_route-Settled entries limiter now body engines =
      quota-Settled entries now body engines (enforce_route_quota limiter) _ _
        (selection-Settled entries now body engines _ refl)
