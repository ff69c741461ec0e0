-- ===== src/Geocode.antt =====
-- api/geocode.py: the proxy of the place search, with its cache. A handler waits twice, for the
-- limiter and for the upstream service; others run meanwhile, so it is two steps on a shared state.
-- The limiter, `str.lower` and the upstream service are arguments.
pub mod Cached
mod Examples
use Prim.Native.String.{String}
use text.Mathlib.Text.{◌==◌ as str_eq}
use safety_aware_route_plann.Base.{
  ℕ, zero, suc, Bool, true, false, ◌&&◌, ◌||◌, Option, none, some, List, [], ◌∷◌, ◌++◌, leb, length,
  if◌then◌else◌, any, Text, strip, same_text,
}
use safety_aware_route_plann.Float.{Float}
use safety_aware_route_plann.Registry.{BBox, Point, bbox_contains, Served}

abbrev pub cache_max : ℕ
cache_max = 512

abbrev pub result_limit : ℕ
result_limit = 5

abbrev pub unbounded_limit : ℕ
unbounded_limit = 20

abbrev pub Key : Type 0
Key = Text × Option String

abbrev pub same_region : Option String → Option String → Bool
same_region none none = true
same_region none (some b) = false
same_region (some a) none = false
same_region (some a) (some b) = str_eq a b

abbrev pub same_key : Key → Key → Bool
same_key (q, region) (p, other) = same_text q p && same_region region other

-- The pack that bounds the query, or none; an unknown region is an error of the caller.
pub data Effective : Type 0 where
  bounded : String → Effective
  unbounded unknown_region : Effective

module _ (fl : Float) where
  open fl use {Val}

  abbrev pub is_served : String → Served fl → Bool
  is_served n [] = false
  is_served n ((m, b) ∷ packs) = str_eq m n || is_served n packs

  unfoldable pub effective_region : Served fl → Option String → Effective
  effective_region ((n, b) ∷ []) none = bounded n
  effective_region served none = unbounded
  effective_region served (some r) = if is_served r served then bounded r else unknown_region

  -- `registry[name].bbox`; the names are distinct.
  abbrev pub box_of : String → Served fl → Option (BBox fl)
  box_of n [] = none
  box_of n ((m, b) ∷ packs) = if str_eq m n then b else box_of n packs

  pub record GeocodeResult : Type 0 where
    pub name : Text
    pub at : Point fl

  -- An item of the upstream's answer: `lat` and `lon` may be missing, or no numbers.
  pub record Item : Type 0 where
    pub display_name : Option Text
    pub lat : Option Val
    pub lon : Option Val

  abbrev pub read_name : Option Text → Text
  read_name none = []
  read_name (some name) = name

  abbrev pub and_more : GeocodeResult → Option (List GeocodeResult) → Option (List GeocodeResult)
  and_more r none = none
  and_more r (some rs) = some (r ∷ rs)

  abbrev pub read_item :
      Option Text
      → Option Val
      → Option Val
      → Option (List GeocodeResult)
      → Option (List GeocodeResult)
  read_item name (some lat) (some lon) rest =
      and_more (record { name = read_name name; at = record { lat = lat; lon = lon } }) rest
  read_item name (some lat) none rest = none
  read_item name none lon rest = none

  unfoldable pub read_results : List Item → Option (List GeocodeResult)
  read_results [] = some []
  read_results (i ∷ items) = read_item i.display_name i.lat i.lon (read_results items)

  unfoldable pub is_covered : Served fl → GeocodeResult → Bool
  is_covered [] r = false
  is_covered ((n, b) ∷ packs) r = bbox_contains fl b r.at || is_covered packs r

  unfoldable pub covered : Served fl → List GeocodeResult → List GeocodeResult
  unfolding is_covered
  covered served [] = []
  covered served (r ∷ rs) =
      let rest = covered served rs in if is_covered served r then r ∷ rest else rest

  unfoldable pub first_n : ℕ → List GeocodeResult → List GeocodeResult
  first_n n [] = []
  first_n zero (r ∷ rs) = []
  first_n (suc n) (r ∷ rs) = r ∷ first_n n rs

  -- What is kept of the upstream's results.
  unfoldable pub shape : Served fl → Option String → List GeocodeResult → List GeocodeResult
  unfolding covered first_n
  shape served none rs = first_n result_limit (covered served rs)
  shape served (some region) rs = rs

  abbrev pub Cache : Type 0
  Cache = List (Key × List GeocodeResult)

  unfoldable pub cached : Key → Cache → Option (List GeocodeResult)
  cached k [] = none
  cached k ((j, rs) ∷ cache) = if same_key j k then some rs else cached k cache

  -- `_cache[key] = results`: a key that is there keeps its place.
  unfoldable pub dict_set : Key → List GeocodeResult → Cache → Cache
  dict_set k rs [] = (k, rs) ∷ []
  dict_set k rs ((j, old) ∷ cache) =
      if same_key j k then (j, rs) ∷ cache else (j, old) ∷ dict_set k rs cache

  abbrev pub drop_first : Cache → Cache
  drop_first [] = []
  drop_first (e ∷ cache) = cache

  unfoldable pub remember : Key → List GeocodeResult → Cache → Cache
  unfolding dict_set
  remember k rs cache =
      dict_set k rs (if leb cache_max (length cache) then drop_first cache else cache)

  -- The parameters of the request upstream.
  pub record Params : Type 0 where
    pub q : Text
    pub limit : ℕ
    pub viewbox : Option (BBox fl)

  abbrev pub params_of : Served fl → Option String → Text → Params
  params_of served none q = record { q = q; limit = unbounded_limit; viewbox = none }
  params_of served (some region) q = record {
    q = q;
    limit = result_limit;
    viewbox = box_of region served;
  }

  -- What the limiter answers: a token, the seconds to wait, or that it cannot be reached.
  pub data Token : Type 0 where
    granted : Token
    wait : Val → Token
    unavailable : Token

  -- 200, 422, 503, 429, 502, and an exception that nothing handles.
  pub data Reply : Type 0 where
    results : List GeocodeResult → Reply
    unprocessable : Reply
    no_limiter : Reply
    too_many : Val → Reply
    bad_gateway : Reply
    server_error : Reply

  abbrev pub store_results : Served fl → Cache → Key → Option (List GeocodeResult) → Cache × Reply
  store_results served cache k none = (cache, server_error)
  store_results served cache k (some rs) =
      let kept = shape served k.1 rs in (remember k kept cache, results kept)

  -- `geocode`, from the response on; `none` is a status other than 200.
  unfoldable pub respond : Served fl → Cache → Key → Option (List Item) → Cache × Reply
  unfolding read_results shape remember
  respond served cache k none = (cache, bad_gateway)
  respond served cache k (some items) = store_results served cache k (read_results items)

  -- A request is answered, or waits for the upstream service.
  pub data Arrival (L : Type 0) : Type 0 where
    answered : L → Reply → Arrival L
    asks : L → Key → Params → Arrival L

  module _ {L : Type 0} (acquire : L → Token × L) (lower : Text → Text) (served : Served fl) where
    abbrev pub after_token : Key → Params → Token × L → Arrival L
    after_token k params (granted, l) = asks l k params
    after_token k params (wait s, l) = answered l (too_many s)
    after_token k params (unavailable, l) = answered l no_limiter

    abbrev pub after_cache : Key → Params → L → Option (List GeocodeResult) → Arrival L
    after_cache k params l (some rs) = answered l (results rs)
    after_cache k params l none = after_token k params (acquire l)

    abbrev pub with_region : Cache → L → Text → Option String → Arrival L
    with_region cache l q region =
        let k : Key = (lower (strip q), region) in
        after_cache k (params_of served region q) l (cached k cache)

    abbrev pub after_region : Cache → L → Text → Effective → Arrival L
    after_region cache l q unknown_region = answered l unprocessable
    after_region cache l q unbounded = with_region cache l q none
    after_region cache l q (bounded region) = with_region cache l q (some region)

    -- `geocode`, up to the request upstream.
    unfoldable pub arrive : Cache → L → Option String → Text → Arrival L
    unfolding effective_region cached
    arrive cache l region q = after_region cache l q (effective_region served region)
