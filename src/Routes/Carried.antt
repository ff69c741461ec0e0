-- ===== src/Routes/Carried.antt =====
-- What a client carries from the answer of /route into /reroute brings it back.
use mathlib.Core.Option.{some-injective}
use Prim.Native.String.{String}
use text.Mathlib.Text.{◌==◌ as str_eq}
use safety_aware_route_plann.Base.{
  ℕ, Option, none, some, List, [], ◌∷◌, ◌≡◌, refl, sym, ap, ◌∙◌, arith, In, inl, inr, Bool-cases,
  Option-cases,
}
use safety_aware_route_plann.Float.{Float}
use safety_aware_route_plann.Registry.{
  Selection, selected, origin_outside, destination_outside, different_packs, pack_for,
}
use safety_aware_route_plann.Ratelimit.{enforce_route_quota}
use safety_aware_route_plann.Ratelimit
use safety_aware_route_plann.Engine.{
  RouteOut, Answer, answered, refused, key_error, assertion_error, route, reroute, resolve,
}
use safety_aware_route_plann.Engine.Reroute.{HasFastPath, route-reroute}
use safety_aware_route_plann.Routes.{
  Datetime, naive, ok, server_error, PackEntry, RouteRequest, RerouteRequest, Reply, served,
  entry_of, to_reply, at_departure, on_entry, on_selection, within_quota, route_on, reroute_on,
  resolve_departure, select_pack, post_route, post_reroute,
}

module _ (fl : Float) {W I Z : Type 0} (astimezone : Z → I → Option W) where
  -- The request that replans a trip with the preference of one of its artifacts.
  abbrev pub follow : RouteRequest fl astimezone → RouteOut fl W → RerouteRequest fl astimezone
  follow body a = record {
    origin = body.origin;
    destination = body.destination;
    preference = record {
      level = a.preference.level;
      lam = a.preference.lam;
      detour_budget_pct = a.preference.detour_budget_pct;
      departure_time = naive a.preference.departure_time;
    };
  }

  to_reply-ok :
      {A : Type 0} (r : Answer fl A) (x : A) → to_reply fl astimezone r ≡ ok x → r ≡ answered x
  to_reply-ok (answered y) x h = ground (arith, h)
  to_reply-ok (refused e) x h = ground (arith, h)
  to_reply-ok key_error x h = ground (arith, h)
  to_reply-ok assertion_error x h = ground (arith, h)

  -- Where the one handler answers, the other does, for the selected entry.
  abbrev Follows :
      {A B : Type 0}
      → List (PackEntry fl astimezone)
      → Selection fl
      → (PackEntry fl astimezone → Reply fl astimezone A)
      → (PackEntry fl astimezone → Reply fl astimezone B)
      → A
      → B
      → Type 0
  Follows entries sel k again x y =
      (e : PackEntry fl astimezone) (n : String)
      → sel ≡ selected n
      → entry_of fl astimezone entries n ≡ some e
      → k e ≡ ok x
      → again e ≡ ok y

  pub entry_of-In :
      (entries : List (PackEntry fl astimezone)) (n : String) (e : PackEntry fl astimezone)
      → entry_of fl astimezone entries n ≡ some e
      → In e entries
  unfolding entry_of
  entry_of-In [] n e h = ground (arith, h)
  entry_of-In (x ∷ entries) n e h = elim (Bool-cases (str_eq x.name n)) [
    | inl is ↦ inl (sym (some-injective _ _ (sym (rw is refl) ∙ h)))
    | inr other ↦ inr (entry_of-In entries n e (sym (rw other refl) ∙ h))
  ]

  on_selection-Follows :
      {A B : Type 0} (entries : List (PackEntry fl astimezone))
      (k : PackEntry fl astimezone → Reply fl astimezone A)
      (again : PackEntry fl astimezone → Reply fl astimezone B) (x : A) (y : B) (sel : Selection fl)
      → Follows entries sel k again x y
      → on_selection fl astimezone entries k sel ≡ ok x
      → on_selection fl astimezone entries again sel ≡ ok y
  on_selection-Follows entries k again x y (selected n) f h =
      elim (Option-cases (entry_of fl astimezone entries n)) [
        | inl gone ↦
            let bad : ◌≡◌ {A = Reply fl astimezone _} server_error (ok x) =
              sym (ap (on_entry fl astimezone k) gone) ∙ h in
            ground (arith, bad)
        | inr (e, is) ↦
            ap (on_entry fl astimezone again) is
            ∙ f e n refl is (sym (ap (on_entry fl astimezone k) is) ∙ h)
      ]
  on_selection-Follows entries k again x y origin_outside f h = ground (arith, h)
  on_selection-Follows entries k again x y destination_outside f h = ground (arith, h)
  on_selection-Follows entries k again x y (different_packs o d) f h = ground (arith, h)

  within_quota-ok :
      {A : Type 0} (quota : Option ℕ) (r : Reply fl astimezone A) (x : A)
      → within_quota fl astimezone quota r ≡ ok x
      → r ≡ ok x
  within_quota-ok none r x h = h
  within_quota-ok (some s) r x h = ground (arith, h)

  -- In the pack that a request is routed on: the search finds a path at the fast lambda, unless the
  -- ends share an edge.
  abbrev pub HasFastPaths :
      List (PackEntry fl astimezone) → Datetime W I → RouteRequest fl astimezone → Type 0
  HasFastPaths entries at body =
      (e : PackEntry fl astimezone) (n : String) (departure : W)
      → pack_for fl (served fl astimezone entries) body.origin body.destination ≡ selected n
      → entry_of fl astimezone entries n ≡ some e
      → resolve_departure fl astimezone body.departure_time e.tz at ≡ some departure
      → HasFastPath fl e.router (
          resolve fl e.router body.origin.lat body.origin.lon body.destination.lat
            body.destination.lon departure)

  -- A departure that is carried is naive, and is taken as it is.
  reroute_on-carried :
      (body : RouteRequest fl astimezone) (now : Datetime W I) (a : RouteOut fl W)
      (e : PackEntry fl astimezone)
      → reroute_on fl astimezone (follow body a) now e
        ≡ to_reply fl astimezone (
            reroute fl e.router body.origin.lat body.origin.lon body.destination.lat
              body.destination.lon a.preference.level a.preference.lam
              a.preference.detour_budget_pct a.preference.departure_time)
  unfolding resolve_departure
  reroute_on-carried body now a e = refl

  route_on-Follows :
      (body : RouteRequest fl astimezone) (at now : Datetime W I) (a : RouteOut fl W)
      (rest : List (RouteOut fl W)) (entries : List (PackEntry fl astimezone))
      → HasFastPaths entries at body
      → Follows entries
          (pack_for fl (served fl astimezone entries) body.origin body.destination)
          (route_on fl astimezone body at)
          (reroute_on fl astimezone (follow body a) now)
          (a ∷ rest)
          (record a { detour_pct = fl.zero_val })
  route_on-Follows body at now a rest entries finds e n picked is h =
      elim (Option-cases (resolve_departure fl astimezone body.departure_time e.tz at)) [
        | inl late ↦
            let bad : ◌≡◌ {A = Reply fl astimezone (List (RouteOut fl W))} server_error
                (ok (a ∷ rest)) =
              sym (ap (at_departure fl astimezone (asked e)) late) ∙ h in
            ground (arith, bad)
        | inr (departure, resolved) ↦
            let answer : to_reply fl astimezone (asked e departure) ≡ ok (a ∷ rest) =
              sym (ap (at_departure fl astimezone (asked e)) resolved) ∙ h in
            reroute_on-carried body now a e
            ∙ ap (to_reply fl astimezone) (
                route-reroute fl e.router body.origin.lat body.origin.lon body.destination.lat
                  body.destination.lon departure body.safety_enabled body.detour_budget_pct a rest
                  (finds e n departure picked is resolved)
                  (to_reply-ok (asked e departure) (a ∷ rest) answer))
      ]
    where
      asked : PackEntry fl astimezone → W → Answer fl (List (RouteOut fl W))
      asked e departure =
          route fl e.router body.origin.lat body.origin.lon body.destination.lat
            body.destination.lon departure body.safety_enabled body.detour_budget_pct

  -- Where the search of the pack finds a path at the fast lambda, or the ends share an edge: when POST
  -- /route answers, a POST /reroute that is within its quota, between the same points, with the
  -- preference of the first artifact of that answer, is answered with this artifact, but for the
  -- comparison with the others of its response: at any later time, whether the first request named a
  -- departure or not.
  pub post_route-post_reroute :
      (entries : List (PackEntry fl astimezone)) (before after : Ratelimit.Answer)
      (at now : Datetime W I) (body : RouteRequest fl astimezone) (a : RouteOut fl W)
      (rest : List (RouteOut fl W))
      → HasFastPaths entries at body
      → post_route fl astimezone entries before at body ≡ ok (a ∷ rest)
      → enforce_route_quota after ≡ none
      → post_reroute fl astimezone entries after now (follow body a)
        ≡ ok (record a { detour_pct = fl.zero_val })
  unfolding post_route post_reroute select_pack
  post_route-post_reroute entries before after at now body a rest finds h admitted =
      let pack = pack_for fl (served fl astimezone entries) body.origin body.destination in
      let k = route_on fl astimezone body at in
      let again = reroute_on fl astimezone (follow body a) now in
      let answer = on_selection fl astimezone entries k pack in
      ap
        (λ (q : Option ℕ).
          within_quota fl astimezone q (on_selection fl astimezone entries again pack))
        admitted
      ∙ on_selection-Follows entries k again (a ∷ rest) (record a { detour_pct = fl.zero_val }) pack
          (route_on-Follows body at now a rest entries finds)
          (within_quota-ok (enforce_route_quota before) answer (a ∷ rest) h)
