-- ===== src/Geocode/Cached.antt =====
-- The shared cache of the place search, under any interleaving of its requests.
use Prim.Native.String.{String}
use text.Mathlib.TextEquality.{eq_iff}
use mathlib.Core.Option.{some-injective}
use safety_aware_route_plann.Base.{
  ℕ, zero, suc, ◌≤◌, true, Option, none, some, List, [], ◌∷◌, ◌≡◌, refl, sym, ap, ◌∙◌, subst, inl,
  inr, arith, In, All, length, leb, get_elem?, Text, strip, same_text_sound, Bool-cases,
  Option-cases,
}
use safety_aware_route_plann.Float.{Float}
use safety_aware_route_plann.Registry.{Served}
use safety_aware_route_plann.Geocode.{
  Key, same_key, same_region, Effective, bounded, unbounded, unknown_region, effective_region,
  GeocodeResult, Item, read_results, is_covered, covered, first_n, shape, Cache, cached, dict_set,
  drop_first, remember, Params, params_of, Token, Reply, results, unprocessable, no_limiter,
  bad_gateway, server_error, Arrival, answered, asks, arrive, respond, cache_max, result_limit,
  store_results, granted, wait, unavailable, after_token, with_region, after_region, too_many,
}

pub same_region_sound : (a b : Option String) → same_region a b ≡ true → a ≡ b
same_region_sound none none h = refl
same_region_sound none (some b) h = ground (arith, h)
same_region_sound (some a) none h = ground (arith, h)
same_region_sound (some a) (some b) h = ap some ((eq_iff a b).0 h)

pub same_key_sound : (a b : Key) → same_key a b ≡ true → a ≡ b
same_key_sound (q, r) (p, s) h =
    let texts : q ≡ p = same_text_sound q p (ground (arith, h)) in
    let regions : r ≡ s = same_region_sound r s (ground (arith, h)) in
    ap (λ x. (x, r)) texts ∙ ap (λ y. (p, y)) regions

module _ (fl : Float) where
  first_n-length : (n : ℕ) (rs : List (GeocodeResult fl)) → length (first_n fl n rs) ≤ n
  unfolding first_n
  first_n-length n [] = omega arith
  first_n-length zero (r ∷ rs) = omega arith
  first_n-length (suc n) (r ∷ rs) = omega (arith, first_n-length n rs)

  first_n-All :
      (P : GeocodeResult fl → Type 0) (n : ℕ) (rs : List (GeocodeResult fl))
      → All P rs
      → All P (first_n fl n rs)
  unfolding first_n
  first_n-All P n [] h = tt
  first_n-All P zero (r ∷ rs) h = tt
  first_n-All P (suc n) (r ∷ rs) h = (h.0, first_n-All P n rs h.1)

  covered-All :
      (served : Served fl) (rs : List (GeocodeResult fl))
      → All (λ r. is_covered fl served r ≡ true) (covered fl served rs)
  unfolding covered
  covered-All served [] = tt
  covered-All served (r ∷ rs) = elim (Bool-cases (is_covered fl served r)) [
    | inl e ↦ rw (e, covered) (e, covered-All served rs)
    | inr e ↦ rw (e, covered) (covered-All served rs)
  ]

  -- What an unbounded query may return.
  abbrev pub Covered : Served fl → Option String → List (GeocodeResult fl) → Type 0
  Covered served none rs = (length rs ≤ result_limit) × All (λ r. is_covered fl served r ≡ true) rs
  Covered served (some region) rs = Unit

  shape-Covered :
      (served : Served fl) (region : Option String) (rs : List (GeocodeResult fl))
      → Covered served region (shape fl served region rs)
  unfolding shape
  shape-Covered served none rs = (
    first_n-length result_limit (covered fl served rs),
    first_n-All (λ r. is_covered fl served r ≡ true) result_limit (covered fl served rs)
        (covered-All served rs),
  )
  shape-Covered served (some region) rs = tt

  -- One answer of the upstream service: to which key's request, with which parameters.
  pub record Answer : Type 0 where
    pub key : Key
    pub params : Params fl
    pub got : List (GeocodeResult fl)

  pub record Service (L : Type 0) : Type 0 where
    pub cache : Cache fl
    pub limiter : L
    pub waiting : List (Key × Params fl)
    pub log : List Answer

  pub data Event : Type 0 where
    arrives : Option String → Text → Event
    responds : ℕ → Option (List (Item fl)) → Event

  abbrev pub remove_at : ℕ → List (Key × Params fl) → List (Key × Params fl)
  remove_at i [] = []
  remove_at zero (w ∷ ws) = ws
  remove_at (suc i) (w ∷ ws) = w ∷ remove_at i ws

  module _ {L : Type 0} (acquire : L → Token fl × L) (lower : Text → Text)
      (served : Served fl) where
    abbrev pub arrived : Service L → Arrival fl L → Service L × Option (Reply fl)
    arrived s (answered l reply) = (record s { limiter = l }, some reply)
    arrived s (asks l k params) =
        (record s { limiter = l; waiting = (k, params) ∷ s.waiting }, none)

    abbrev pub logged :
        Key → Params fl → Option (List (GeocodeResult fl)) → List Answer → List Answer
    logged k params none log = log
    logged k params (some got) log = record { key = k; params = params; got = got } ∷ log

    abbrev pub logged_items : Key → Params fl → Option (List (Item fl)) → List Answer → List Answer
    logged_items k params none log = log
    logged_items k params (some items) log = logged k params (read_results fl items) log

    abbrev pub responded :
        Service L
        → ℕ
        → Option (List (Item fl))
        → Option (Key × Params fl)
        → Service L × Option (Reply fl)
    responded s i response none = (s, none)
    responded s i response (some (k, params)) =
        let (cache, reply) = respond fl served s.cache k response in
        (
          record s {
            cache = cache;
            waiting = remove_at i s.waiting;
            log = logged_items k params response s.log;
          },
          some reply,
        )

    -- One event, and the reply that it sends.
    unfoldable pub step : Service L → Event → Service L × Option (Reply fl)
    unfolding arrive respond
    step s (arrives region q) =
        arrived s (arrive fl acquire lower served s.cache s.limiter region q)
    step s (responds i response) = responded s i response (get_elem? s.waiting i)

    unfoldable pub run : Service L → List Event → Service L
    unfolding step
    run s [] = s
    run s (e ∷ es) = run (step s e).0 es

    -- The parameters are those of the key's region.
    abbrev pub Matches : Key → Params fl → Type 0
    Matches k params = (lower (strip params.q) ≡ k.0) × (params ≡ params_of fl served k.1 params.q)

    -- A cached entry is the shaped answer to a request for its own key.
    abbrev pub Answered : List Answer → Key → List (GeocodeResult fl) → Type 0
    Answered log k rs =
        (a : Answer) × In a log
        × (a.key ≡ k)
        × Matches k a.params
        × (rs ≡ shape fl served k.1 a.got)

    pub record IsValid (s : Service L) : Type 0 where
      pub small : length s.cache ≤ cache_max
      pub honest : All (λ e. Answered s.log e.0 e.1) s.cache
      pub matched : All (λ w. Matches w.0 w.1) s.waiting

    Answered-log :
        (log : List Answer) (a : Answer) (k : Key) (rs : List (GeocodeResult fl))
        → Answered log k rs
        → Answered (a ∷ log) k rs
    Answered-log log a k rs (b, m, own, params, e) = (b, inr m, own, params, e)

    All-log :
        (log : List Answer) (a : Answer) (cache : Cache fl)
        → All (λ e. Answered log e.0 e.1) cache
        → All (λ e. Answered (a ∷ log) e.0 e.1) cache
    All-log log a [] h = tt
    All-log log a ((k, rs) ∷ cache) h = (Answered-log log a k rs h.0, All-log log a cache h.1)

    cached-Answered :
        (log : List Answer) (k : Key) (cache : Cache fl) (rs : List (GeocodeResult fl))
        → All (λ e. Answered log e.0 e.1) cache
        → cached fl k cache ≡ some rs
        → Answered log k rs
    unfolding cached
    cached-Answered log k [] rs h e = ground (arith, e)
    cached-Answered log k ((j, old) ∷ cache) rs h e = elim (Bool-cases (same_key j k)) [
      | inl s ↦
          let found : some old ≡ some rs = sym (rw (s, cached) refl) ∙ e in
          let here : Answered log k old =
            subst (λ x. Answered log x old) (same_key_sound j k s) h.0 in
          subst (λ x. Answered log k x) (some-injective _ _ found) here
      | inr s ↦ cached-Answered log k cache rs h.1 (sym (rw (s, cached) refl) ∙ e)
    ]

    dict_set-Answered :
        (log : List Answer) (k : Key) (rs : List (GeocodeResult fl)) (cache : Cache fl)
        → Answered log k rs
        → All (λ e. Answered log e.0 e.1) cache
        → All (λ e. Answered log e.0 e.1) (dict_set fl k rs cache)
    unfolding dict_set
    dict_set-Answered log k rs [] h all = (h, tt)
    dict_set-Answered log k rs ((j, old) ∷ cache) h all = elim (Bool-cases (same_key j k)) [
      | inl s ↦
          rw (s, dict_set) (subst (λ x. Answered log x rs) (sym (same_key_sound j k s)) h, all.1)
      | inr s ↦ rw (s, dict_set) (all.0, dict_set-Answered log k rs cache h all.1)
    ]

    drop_first-All :
        (log : List Answer) (cache : Cache fl)
        → All (λ e. Answered log e.0 e.1) cache
        → All (λ e. Answered log e.0 e.1) (drop_first fl cache)
    drop_first-All log [] h = tt
    drop_first-All log (e ∷ cache) h = h.1

    remember-Answered :
        (log : List Answer) (k : Key) (rs : List (GeocodeResult fl)) (cache : Cache fl)
        → Answered log k rs
        → All (λ e. Answered log e.0 e.1) cache
        → All (λ e. Answered log e.0 e.1) (remember fl k rs cache)
    unfolding remember
    remember-Answered log k rs cache h all = elim (Bool-cases (leb cache_max (length cache))) [
      | inl e ↦
          rw e (dict_set-Answered log k rs (drop_first fl cache) h (drop_first-All log cache all))
      | inr e ↦ rw e (dict_set-Answered log k rs cache h all)
    ]

    dict_set-length :
        (k : Key) (rs : List (GeocodeResult fl)) (cache : Cache fl)
        → length (dict_set fl k rs cache) ≤ suc (length cache)
    unfolding dict_set
    dict_set-length k rs [] = omega arith
    dict_set-length k rs ((j, old) ∷ cache) = ground (arith, dict_set-length k rs cache)

    remember-length :
        (k : Key) (rs : List (GeocodeResult fl)) (cache : Cache fl)
        → length cache ≤ cache_max
        → length (remember fl k rs cache) ≤ cache_max
    unfolding remember
    remember-length k rs [] h = omega (arith, dict_set-length k rs [])
    remember-length k rs (e ∷ cache) h =
        ground (arith, dict_set-length k rs (e ∷ cache), dict_set-length k rs cache)

    get_elem?-Matches :
        (ws : List (Key × Params fl)) (i : ℕ) (w : Key × Params fl)
        → All (λ w. Matches w.0 w.1) ws
        → get_elem? ws i ≡ some w
        → Matches w.0 w.1
    get_elem?-Matches [] i w h e = ground (arith, e)
    get_elem?-Matches (v ∷ ws) zero w h e = subst (λ x. Matches x.0 x.1) (some-injective _ _ e) h.0
    get_elem?-Matches (v ∷ ws) (suc i) w h e = get_elem?-Matches ws i w h.1 e

    remove_at-Matches :
        (ws : List (Key × Params fl)) (i : ℕ)
        → All (λ w. Matches w.0 w.1) ws
        → All (λ w. Matches w.0 w.1) (remove_at i ws)
    remove_at-Matches [] i h = tt
    remove_at-Matches (v ∷ ws) zero h = h.1
    remove_at-Matches (v ∷ ws) (suc i) h = (h.0, remove_at-Matches ws i h.1)

    -- What an arrival does: it is answered from the cache of its own key, or it waits with the
    -- parameters of its own key; everything else is an error.
    abbrev pub Arrives : Cache fl → L → Text → Option String → Arrival fl L → Type 0
    Arrives cache l q region (answered after (results rs)) =
        (after ≡ l) × (cached fl (lower (strip q), region) cache ≡ some rs)
    Arrives cache l q region (answered after reply) = Unit
    Arrives cache l q region (asks after k params) =
        (acquire l ≡ (granted, after))
        × (k ≡ (lower (strip q), region))
        × (params ≡ params_of fl served region q)

    after_token-Arrives :
        (cache : Cache fl) (l after : L) (q : Text) (region : Option String) (t : Token fl)
        → acquire l ≡ (t, after)
        → Arrives cache l q region (
            after_token fl acquire lower served
              (lower (strip q), region)
              (params_of fl served region q)
              (t, after))
    after_token-Arrives cache l after q region granted e = (e, refl, refl)
    after_token-Arrives cache l after q region (wait s) e = tt
    after_token-Arrives cache l after q region unavailable e = tt

    with_region-Arrives :
        (cache : Cache fl) (l : L) (q : Text) (region : Option String)
        → Arrives cache l q region (with_region fl acquire lower served cache l q region)
    with_region-Arrives cache l q region =
        elim (Option-cases (cached fl (lower (strip q), region) cache)) [
          | inl e ↦
              let t = (acquire l).0 in
              rw e (after_token-Arrives cache l (acquire l).1 q region t refl)
          | inr (rs, e) ↦ rw e (refl, e)
        ]

    -- What an answer with results is, by the region that bounds the query.
    abbrev pub Own : List Answer → Text → Effective → Reply fl → Type 0
    Own log q unknown_region (results rs) = ⊥
    Own log q unbounded (results rs) =
        Answered log (lower (strip q), none) rs × Covered served none rs
    Own log q (bounded region) (results rs) = Answered log (lower (strip q), some region) rs
    Own log q e reply = Unit

    abbrev OwnArrival : List Answer → Text → Effective → Arrival fl L → Type 0
    OwnArrival log q e (answered after reply) = Own log q e reply
    OwnArrival log q e (asks after k params) = Matches k params

    Answered-Covered :
        (log : List Answer) (k : Key) (rs : List (GeocodeResult fl))
        → Answered log k rs
        → Covered served k.1 rs
    Answered-Covered log k rs (a, m, own, params, e) =
        subst (Covered served k.1) (sym e) (shape-Covered served k.1 a.got)

    params_of-Matches :
        (region : Option String) (q : Text)
        → Matches (lower (strip q), region) (params_of fl served region q)
    params_of-Matches none q = (refl, refl)
    params_of-Matches (some r) q = (refl, refl)

    Matches-own :
        (region : Option String) (q : Text) (k : Key) (params : Params fl)
        → (k ≡ (lower (strip q), region)) × (params ≡ params_of fl served region q)
        → Matches k params
    Matches-own region q k params h =
        subst (λ j. Matches j params) (sym h.0)
          (subst (Matches (lower (strip q), region)) (sym h.1) (params_of-Matches region q))

    Arrives-unbounded :
        (log : List Answer) (cache : Cache fl) (l : L) (q : Text) (out : Arrival fl L)
        → All (λ e. Answered log e.0 e.1) cache
        → Arrives cache l q none out
        → OwnArrival log q unbounded out
    Arrives-unbounded log cache l q (answered after (results rs)) all h =
        let own = cached-Answered log (lower (strip q), none) cache rs all h.1 in
        (own, Answered-Covered log (lower (strip q), none) rs own)
    Arrives-unbounded log cache l q (answered after unprocessable) all h = tt
    Arrives-unbounded log cache l q (answered after no_limiter) all h = tt
    Arrives-unbounded log cache l q (answered after (too_many s)) all h = tt
    Arrives-unbounded log cache l q (answered after bad_gateway) all h = tt
    Arrives-unbounded log cache l q (answered after server_error) all h = tt
    Arrives-unbounded log cache l q (asks after k params) all h =
        Matches-own none q k params (h.1, h.2)

    Arrives-bounded :
        (log : List Answer) (cache : Cache fl) (l : L) (q : Text) (region : String)
        (out : Arrival fl L)
        → All (λ e. Answered log e.0 e.1) cache
        → Arrives cache l q (some region) out
        → OwnArrival log q (bounded region) out
    Arrives-bounded log cache l q region (answered after (results rs)) all h =
        cached-Answered log (lower (strip q), some region) cache rs all h.1
    Arrives-bounded log cache l q region (answered after unprocessable) all h = tt
    Arrives-bounded log cache l q region (answered after no_limiter) all h = tt
    Arrives-bounded log cache l q region (answered after (too_many s)) all h = tt
    Arrives-bounded log cache l q region (answered after bad_gateway) all h = tt
    Arrives-bounded log cache l q region (answered after server_error) all h = tt
    Arrives-bounded log cache l q region (asks after k params) all h =
        Matches-own (some region) q k params (h.1, h.2)

    after_region-Own :
        (log : List Answer) (cache : Cache fl) (l : L) (q : Text) (e : Effective)
        → All (λ e. Answered log e.0 e.1) cache
        → OwnArrival log q e (after_region fl acquire lower served cache l q e)
    after_region-Own log cache l q unknown_region all = tt
    after_region-Own log cache l q unbounded all =
        Arrives-unbounded log cache l q (with_region fl acquire lower served cache l q none) all
          (with_region-Arrives cache l q none)
    after_region-Own log cache l q (bounded region) all =
        Arrives-bounded log cache l q region
          (with_region fl acquire lower served cache l q (some region)) all
          (with_region-Arrives cache l q (some region))

    arrived-IsValid :
        (s : Service L) (q : Text) (e : Effective) (out : Arrival fl L)
        → IsValid s
        → OwnArrival s.log q e out
        → IsValid (arrived s out).0
    arrived-IsValid s q e (answered l reply) v own = record {
      small = v.small;
      honest = v.honest;
      matched = v.matched;
    }
    arrived-IsValid s q e (asks l k params) v own = record {
      small = v.small;
      honest = v.honest;
      matched = (own, v.matched);
    }

    stored-IsValid :
        (s : Service L) (i : ℕ) (k : Key) (params : Params fl)
        (read : Option (List (GeocodeResult fl)))
        → IsValid s
        → Matches k params
        → IsValid (record s {
          cache = (store_results fl served s.cache k read).0;
          waiting = remove_at i s.waiting;
          log = logged k params read s.log;
        })
    stored-IsValid s i k params none v m = record {
      small = v.small;
      honest = v.honest;
      matched = remove_at-Matches s.waiting i v.matched;
    }
    stored-IsValid s i k params (some got) v m =
        let a : Answer = record { key = k; params = params; got = got } in
        record {
          small = remember-length k (shape fl served k.1 got) s.cache v.small;
          honest =
              remember-Answered (a ∷ s.log) k (shape fl served k.1 got) s.cache
                (a, inl refl, refl, m, refl) (All-log s.log a s.cache v.honest);
          matched = remove_at-Matches s.waiting i v.matched;
        }

    responded-IsValid :
        (s : Service L) (i : ℕ) (response : Option (List (Item fl))) (w : Option (Key × Params fl))
        → IsValid s
        → get_elem? s.waiting i ≡ w
        → IsValid (responded s i response w).0
    unfolding respond
    responded-IsValid s i response none v e = v
    responded-IsValid s i none (some (k, params)) v e = record {
      small = v.small;
      honest = v.honest;
      matched = remove_at-Matches s.waiting i v.matched;
    }
    responded-IsValid s i (some items) (some (k, params)) v e =
        stored-IsValid s i k params (read_results fl items) v
          (get_elem?-Matches s.waiting i (k, params) v.matched e)

    step-IsValid : (s : Service L) (e : Event) → IsValid s → IsValid (step s e).0
    unfolding step arrive
    step-IsValid s (arrives region q) v =
        let e = effective_region fl served region in
        arrived-IsValid s q e (after_region fl acquire lower served s.cache s.limiter q e) v
          (after_region-Own s.log s.cache s.limiter q e v.honest)
    step-IsValid s (responds i response) v =
        responded-IsValid s i response (get_elem? s.waiting i) v refl

    run-IsValid_from : (s : Service L) (es : List Event) → IsValid s → IsValid (run s es)
    unfolding run
    run-IsValid_from s [] v = v
    run-IsValid_from s (e ∷ es) v = run-IsValid_from (step s e).0 es (step-IsValid s e v)

    abbrev pub begin : L → Service L
    begin l = record { cache = []; limiter = l; waiting = []; log = [] }

    -- However the requests and the answers of the upstream service are interleaved, the cache has at
    -- most 512 entries; every entry is the shaped answer to a request that was made for its own
    -- query and region; and every request that waits has the parameters of its own region.
    pub run-IsValid : (l : L) (es : List Event) → IsValid (run (begin l) es)
    run-IsValid l es =
        run-IsValid_from (begin l) es (record { small = omega arith; honest = tt; matched = tt })

    abbrev pub OwnReply : List Answer → Text → Effective → Option (Reply fl) → Type 0
    OwnReply log q e none = Unit
    OwnReply log q e (some reply) = Own log q e reply

    -- What a fresh answer with results is, by the key of the request that waited for it.
    abbrev pub Fresh : List Answer → Key → Reply fl → Type 0
    Fresh log k (results rs) = Answered log k rs × Covered served k.1 rs
    Fresh log k reply = Unit

    -- By the request that waits there, if one does: what is replied to it.
    abbrev pub FreshReply : List Answer → Option (Key × Params fl) → Option (Reply fl) → Type 0
    FreshReply log none reply = reply ≡ none
    FreshReply log (some (k, params)) none = ⊥
    FreshReply log (some (k, params)) (some reply) = Fresh log k reply
