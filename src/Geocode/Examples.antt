-- ===== src/Geocode/Examples.antt =====
-- Two served packs; the same words asked for twice, by two requests that overlap.
use safety_aware_route_plann.Base.{
  ℕ, zero, suc, ◌+◌, none, some, List, [], ◌∷◌, ◌≡◌, refl, Text, is_space, lstrip, strip, same_text,
}
use safety_aware_route_plann.Float.Whole.{naturals}
use safety_aware_route_plann.Registry.{BBox, Served, bbox_contains}
use safety_aware_route_plann.Geocode.{
  effective_region, read_results, is_covered, covered, first_n, shape, cached, dict_set, remember,
  arrive, respond, Token, granted, wait, Item, GeocodeResult, results,
}
use safety_aware_route_plann.Geocode.Cached.{
  Event, arrives, responds, step, run, begin, IsValid, run-IsValid,
}

program : Unit {0}
unfolding is_space lstrip strip same_text bbox_contains effective_region read_results is_covered
    covered first_n shape cached dict_set remember arrive respond step run
program = tt

abbrev box : ℕ → BBox naturals
box w = record { west = w; south = 0; east = w + 9; north = 9 }

abbrev packs : Served naturals
packs = ("east", some (box 20)) ∷ ("west", some (box 0)) ∷ []

abbrev item : ℕ → Item naturals
item lon = record { display_name = none; lat = some 5; lon = some lon }

abbrev at_lon : ℕ → GeocodeResult naturals
at_lon lon = record { name = []; at = record { lat = 5; lon = lon } }

-- The limiter has a number of tokens left.
abbrev acquire : ℕ → Token naturals × ℕ
acquire zero = (wait 1, 0)
acquire (suc n) = (granted, n)

abbrev keep : Text → Text
keep s = s

-- Two requests are admitted before the first is answered.
abbrev overlapped : List (Event naturals)
overlapped =
    arrives none (97 ∷ 32 ∷ [])
    ∷ arrives (some "west") (97 ∷ [])
    ∷ responds 1 (some (item 15 ∷ item 25 ∷ item 5 ∷ []))
    ∷ responds 0 (some (item 15 ∷ []))
    ∷ []

-- The unbounded answer lost the place between the boxes; the bounded one is as it came.
again :
    (step naturals acquire keep packs
      (run naturals acquire keep packs (begin naturals acquire keep packs 2) overlapped)
      (arrives none (97 ∷ []))).1
    ≡ some (results (at_lon 25 ∷ at_lon 5 ∷ []))
unfolding program
again = refl

run-IsValid_example :
    IsValid naturals acquire keep packs
      (run naturals acquire keep packs (begin naturals acquire keep packs 2) overlapped)
run-IsValid_example = run-IsValid naturals acquire keep packs 2 overlapped

-- The first request is answered and the second still waits.
abbrev half : List (Event naturals)
half =
    arrives none (97 ∷ 32 ∷ [])
    ∷ arrives (some "west") (97 ∷ [])
    ∷ responds 1 (some (item 15 ∷ item 25 ∷ item 5 ∷ []))
    ∷ []
