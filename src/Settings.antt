-- ===== src/Settings.antt =====
-- Settings that the environment overrides: served_regions of api/registry.py, trusted_proxies and
-- the Redis settings of api/ratelimit.py, _cors_origins of commute/app.py. A variable is `none` where it is not set; Python's `int` of a text
-- is an argument (`none` is a ValueError), with `negsuc n` for -1 - n.
mod Examples
pub mod Served
use safety_aware_route_plann.Base.{
  ℕ, Bool, true, false, Option, none, some, List, [], ◌∷◌, if◌then◌else◌, Text, strip, split,
  is_empty,
}
use safety_aware_route_plann.Ratelimit.{stripped, chain, given, or_else}
use safety_aware_route_plann.Commute.App.{ℤ, pos, negsuc}

pub data Regions : Type 0 where
  serve : List Text → Regions
  refuse : Regions

-- The list of the configuration, or its one region.
unfoldable pub configured_regions : Option (List Text) → Text → Regions
configured_regions none region_name = serve (region_name ∷ [])
configured_regions (some []) region_name = refuse
configured_regions (some (r ∷ rs)) region_name = serve (r ∷ rs)

abbrev pub or_configured : List Text → Regions → Regions
or_configured [] other = other
or_configured (n ∷ names) other = serve (n ∷ names)

-- `served_regions`.
unfoldable pub served_regions : Option Text → Option (List Text) → Text → Regions
unfolding configured_regions chain
served_regions env configured region_name =
    or_configured (chain (given env)) (configured_regions configured region_name)

abbrev pub at_least_zero : Option ℤ → ℕ
at_least_zero none = 0
at_least_zero (some (pos n)) = n
at_least_zero (some (negsuc n)) = 0

-- `trusted_proxies`.
unfoldable pub trusted_proxies : (Text → Option ℤ) → Option Text → Text → ℕ
unfolding strip
trusted_proxies to_int env configured =
    at_least_zero (to_int (or_else (strip (given env)) (strip configured)))

-- `redis_url`.
unfoldable pub redis_url : Option Text → Text → Text
unfolding strip
redis_url env configured = or_else (strip (given env)) (strip configured)

-- `rate_limit_key` and `route_rate_limit_key`: a variable that is set but empty does not count.
unfoldable pub rate_limit_key : Option Text → Text → Text
rate_limit_key env configured = or_else (given env) configured

unfoldable pub route_rate_limit_key : Option Text → Text → Text
route_rate_limit_key env configured = or_else (given env) configured

-- `_cors_origins` of commute/app.py, with the local web server's origin: unlike `served_regions`, a
-- variable that names no origin allows none.
unfoldable pub cors_origins : Text → Option Text → List Text
unfolding chain
cors_origins local env = if is_empty (given env) then local ∷ [] else chain (given env)
