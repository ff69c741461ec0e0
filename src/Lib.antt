-- ===== src/Lib.antt =====
-- A model of the safety-aware route planner's own logic, and what holds of it.
--
-- A request is routed in steps, which the modules follow. The ingestion decides which control
-- governs each approach of a junction (ingestion/controls.py, ingestion/approach_controls.py:
-- Controls) and builds the turn table (ingestion/turns.py: Turns) of the graph pack (pyref/graph.py:
-- Graph). For a pack and a departure the cost model scores every turn, derives its penalty, and
-- flags the unsafe ones (pyref/costs.py: Costs). The registry picks the pack that covers both ends
-- (api/registry.py: Registry) once the quota of the client allows it (api/ratelimit.py,
-- enforce_route_quota of api/routes.py: Ratelimit); the endpoints compose these with the engine
-- (api/routes.py, api/departure.py: Routes); Settings reads what the environment overrides in
-- both. The engine (pyref/engine.py: Engine) snaps both ends to edges (pyref/snap.py: Snap), plans
-- with the alternatives, and describes each route (pyref/geometry.py, pyref/metrics.py: Geometry,
-- Metrics). The search finds a cheapest path over edges (pyref/search.py: Search), and the
-- alternatives run it at several lambdas and choose what to offer (pyref/alternatives.py:
-- Alternatives). Costs.Delay is the wait at a control, from the traffic that the simulation gives
-- (sim/profiles.py, sim/snapshot.py: Sim). At boot the missing packs are downloaded
-- (api/packs_fetch.py: Packs), and the place search answers through one shared cache
-- (api/geocode.py: Geocode). Beside this stands the commute planner's trace store, with its
-- tokens, retention and HTTP surface (commute/store.py, commute/tokens.py, commute/retention.py,
-- commute/app.py: Commute); Commute.Ledger is the abstract view of what its writes promise.
--
-- How the code is rendered:
-- * Functions keep their names and their guards. State is passed explicitly: a search is a
--   SearchState, a limiter the items of its dict in insertion order, the store its four tables. A
--   method that changes an object returns the new one.
-- * Numpy arrays are functions on the indices; a mask is a Boolean function.
-- * Floating point is a parameter (Float): a type with the five operations and a rank that orders the
--   values; not-a-number is left out. The laws a theorem needs are its hypotheses (IsMonotone,
--   IsExact, IsScaled), and Float.Whole gives numbers that satisfy them.
-- * Python's exceptions are values: Option, or a type of outcomes. `none` of the alternatives is a
--   KeyError, `none` of `astimezone` an OverflowError, `none` of `crossings` the AssertionError of a
--   pack whose statics cannot be built (a router exists only for the others), `integrity_error` a
--   constraint of SQLite, `unencodable` a UnicodeEncodeError, `server_error` an exception nothing
--   catches. Memory, recursion depth and failures of SQLite or the network itself are left out.
-- * SHA-256, int() and JSON text, SQLite, Redis, HTTP, tarfile, numpy's sum and the clock are
--   arguments.
-- * Names, labels and headers are texts of code points with `strip` and `split` defined in
--   Base.Strings; a trip's UUID and a digest are numbers.
--
-- Fuel: `search_loop` is given num_edges * rank inf_val rounds, because every improvement of a
-- distance lowers its rank; `walk_back` is given num_edges + 1, because a chain of predecessors
-- repeats no edge. The search cannot run out of either, as stated below. The while loop of the
-- reruns is bounded by max_reruns in the code itself.
--
-- Not modelled: the trigonometry behind distances and bearings and the k-d tree of the snapping
-- (arguments), the walk over the raw OSM graph, building the pack from it (ingestion/pack.py and what
-- it calls), reading, writing and validating a pack, the pydantic schemas and FastAPI's wiring, the
-- time zones, the Redis bucket, the store's read-only queries, the C++ core (the engine
-- takes the search as an argument, so that either fits) and the web client.
mod Base
pub mod Float
pub mod Search
pub mod Registry
pub mod Routes
pub mod Graph
pub mod Controls
pub mod Turns
pub mod Costs
pub mod Alternatives
pub mod Ratelimit
pub mod Settings
pub mod Packs
pub mod Geocode
pub mod Sim
pub mod Snap
pub mod Metrics
pub mod Engine
pub mod Geometry
pub mod Commute
