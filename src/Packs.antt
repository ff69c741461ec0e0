-- ===== src/Packs.antt =====
-- api/packs_fetch.py: the graph packs that a deployment downloads before it serves. TOML, HTTPS,
-- SHA-256, gzip and the file system are libraries and services, the record `World`. The pack root
-- is a function from the name of a directory to what stands there; the staging directory is
-- removed on every path, so it is no part of the state.
pub mod Installed
pub mod Boot
mod Examples
use mathlib.Core.Option
use safety_aware_route_plann.Base.{
  ℕ, Bool, true, false, ◌&&◌, not, Option, none, some, List, [], ◌∷◌, ◌++◌, reverse, ◌==◌,
  if◌then◌else◌, Text, is_empty, same_text, strip,
}
use safety_aware_route_plann.Ratelimit.{chain, given, or_else}

-- `PACK_FORMAT_VERSION` of pyref/graph.py.
abbrev pub pack_format_version : ℕ
pack_format_version = 2

-- "packs.lock" and ".tar.gz".
abbrev pub default_lock_path : Text
default_lock_path = 112 ∷ 97 ∷ 99 ∷ 107 ∷ 115 ∷ 46 ∷ 108 ∷ 111 ∷ 99 ∷ 107 ∷ []

abbrev pub tar_gz : Text
tar_gz = 46 ∷ 116 ∷ 97 ∷ 114 ∷ 46 ∷ 103 ∷ 122 ∷ []

pub record PackSpec : Type 0 where
  pub region : Text
  pub sha256 : Text
  pub size_bytes : Option ℕ
  pub tag : Option Text

pub record PacksLock : Type 0 where
  pub base_url : Text
  pub tag : Text
  pub format_version : ℕ
  pub regions : List (Text × PackSpec)

-- `self.regions.get(region)`.
unfoldable pub spec_of : Text → List (Text × PackSpec) → Option PackSpec
spec_of region [] = none
spec_of region ((name, spec) ∷ rest) =
    if same_text name region then some spec else spec_of region rest

abbrev pub has_regions : List (Text × PackSpec) → Bool
has_regions [] = false
has_regions (r ∷ rs) = true

-- `PacksLock.enabled`.
unfoldable pub enabled : PacksLock → Bool
enabled lock = not (is_empty lock.base_url) && has_regions lock.regions

-- `PacksLock.tag_for`.
unfoldable pub tag_for : PacksLock → Text → Text
unfolding spec_of Option.bind
tag_for lock region = elim (Option.bind (spec_of region lock.regions) (λ (s : PackSpec). s.tag)) [
  | some own ↦ own
  | none ↦ lock.tag
]

abbrev pub starts_with_slash : Text → Bool
starts_with_slash [] = false
starts_with_slash (c ∷ s) = c == 47

-- `PacksLock.url_for`. The end of a text is the start of its reverse.
unfoldable pub url_for : PacksLock → Text → Text
unfolding tag_for
url_for lock region =
    let base =
      if starts_with_slash (reverse lock.base_url)
      then lock.base_url
      else lock.base_url ++ 47 ∷ [] in
    let prefix = if is_empty (tag_for lock region) then [] else tag_for lock region ++ 47 ∷ [] in
    base ++ (prefix ++ (region ++ tar_gz))

-- An entry of the TOML file, and the file. A missing key is `none`.
pub record RawEntry : Type 0 where
  pub sha256 : Option Text
  pub size : Option ℕ
  pub tag : Option Text

pub record RawLock : Type 0 where
  pub base_url : Option Text
  pub tag : Option Text
  pub format_version : Option ℕ
  pub regions : List (Text × RawEntry)

-- The outcome of `load_lock`: no such file, a lock, or the KeyError of an entry with no digest.
pub data Loaded : Type 0 where
  absent : Loaded
  locked : PacksLock → Loaded
  no_digest : Loaded

unfoldable pub read_entries :
    (Text → Text) → List (Text × RawEntry) → Option (List (Text × PackSpec))
unfolding Option.bind
read_entries lower [] = some []
read_entries lower ((name, entry) ∷ rest) = Option.bind entry.sha256 (λ digest.
    Option.map
      (λ specs.
        (
          name,
          record { region = name; sha256 = lower digest; size_bytes = entry.size; tag = entry.tag },
        )
        ∷ specs)
      (read_entries lower rest))

abbrev pub with_entries : Text → RawLock → Option (List (Text × PackSpec)) → Loaded
with_entries packs_url raw none = no_digest
with_entries packs_url raw (some specs) = locked (record {
  base_url = or_else packs_url (given raw.base_url);
  tag = given raw.tag;
  format_version = elim raw.format_version [ some v ↦ v | none ↦ pack_format_version ];
  regions = specs;
})

-- `load_lock`, with the parsed file at each path, `str.lower`, and the variables SR_PACKS_LOCK and
-- SR_PACKS_URL.
unfoldable pub load_lock :
    (Text → Option RawLock) → (Text → Text) → Option Text → Option Text → Option Text → Loaded
unfolding read_entries
load_lock read lower packs_lock packs_url path =
    elim (read (or_else (given path) (or_else (given packs_lock) default_lock_path))) [
      | none ↦ absent
      | some raw ↦ with_entries (given packs_url) raw (read_entries lower raw.regions)
    ]

-- All but the last two are the messages of `PackFetchError`; those two are another exception.
pub data FetchError : Type 0 where
  not_configured wrong_format : FetchError
  unpublished : List Text → FetchError
  download_failed checksum_mismatch bad_archive no_manifest : FetchError
  key_error os_error : FetchError

abbrev pub is_listed : Option PackSpec → Bool
is_listed none = false
is_listed (some spec) = true

unfoldable pub unknown : List (Text × PackSpec) → List Text → List Text
unfolding spec_of
unknown published [] = []
unknown published (r ∷ rs) =
    let rest = unknown published rs in if is_listed (spec_of r published) then rest else r ∷ rest

-- What the code calls: a download (`none` for an HTTPError), the digest of what was downloaded, its
-- directories once unpacked (`none` for a TarError or an OSError), and two tests of a directory.
pub record World : Type 1 where
  pub Archive : Type 0
  pub Dir : Type 0
  pub download : Text → Option Archive
  pub digest : Archive → Text
  pub unpack : Archive → Option (Text → Option Dir)
  pub has_manifest : Dir → Bool
  pub is_bare : Dir → Bool

module _ (w : World) where
  open w use {Archive, Dir, has_manifest, is_bare}

  abbrev pub Root : Type 0
  Root = Text → Option Dir

  -- `_is_present(root / region)`.
  abbrev pub is_present : Option Dir → Bool
  is_present none = false
  is_present (some d) = has_manifest d

  abbrev pub install : Root → Text → Dir → Root
  install root region payload name = if same_text region name then some payload else root name

  -- A directory is renamed onto nothing, or onto an empty directory.
  abbrev pub may_replace : Option Dir → Bool
  may_replace none = true
  may_replace (some d) = is_bare d

  -- A step that failed leaves the root as it was.
  pub data Step : Type 0 where
    done : Root → Step
    failed : FetchError → Step

  abbrev pub place : Root → Text → Option Dir → Step
  place root region none = failed no_manifest
  place root region (some payload) =
      if has_manifest payload
      then if may_replace (root region) then done (install root region payload) else failed os_error
      else failed no_manifest

  abbrev pub extract : Root → Text → Option (Text → Option Dir) → Step
  extract root region none = failed bad_archive
  extract root region (some dirs) = place root region (dirs region)

  abbrev pub verify : Root → PackSpec → Option Archive → Step
  verify root spec none = failed download_failed
  verify root spec (some archive) =
      if same_text (w.digest archive) spec.sha256
      then extract root spec.region (w.unpack archive)
      else failed checksum_mismatch

  -- `_fetch_one`.
  unfoldable pub fetch_one : PacksLock → PackSpec → Root → Step
  unfolding url_for
  fetch_one lock spec root = verify root spec (w.download (url_for lock spec.region))

  abbrev pub fetch_entry : PacksLock → Option PackSpec → Root → Step
  fetch_entry lock none root = failed key_error
  fetch_entry lock (some spec) root = fetch_one lock spec root

  -- The root after the call, and the regions fetched or the exception.
  pub data Report : Type 0 where
    fetched : Root → List Text → Report
    raised : Root → FetchError → Report

  abbrev pub and_first : Text → Report → Report
  and_first region (fetched root names) = fetched root (region ∷ names)
  and_first region (raised root e) = raised root e

  -- The loop of `ensure_packs`.
  unfoldable pub fetch_all : PacksLock → List Text → Root → Report
  unfolding fetch_one spec_of
  fetch_all lock [] root = fetched root []
  fetch_all lock (region ∷ rest) root = elim (fetch_entry lock (spec_of region lock.regions) root) [
    | failed e ↦ raised root e
    | done after ↦ and_first region (fetch_all lock rest after)
  ]

  unfoldable pub missing : Root → List Text → List Text
  missing root [] = []
  missing root (r ∷ rs) =
      let rest = missing root rs in if is_present (root r) then rest else r ∷ rest

  abbrev pub fetch_known : PacksLock → List Text → Root → List Text → Report
  fetch_known lock names root [] = fetch_all lock names root
  fetch_known lock names root (u ∷ us) = raised root (unpublished (u ∷ us))

  abbrev pub fetch_missing : Loaded → List Text → Root → Report
  fetch_missing absent names root = raised root not_configured
  fetch_missing no_digest names root = raised root key_error
  fetch_missing (locked lock) names root =
      if not (enabled lock)
      then raised root not_configured
      else if not (lock.format_version == pack_format_version)
      then raised root wrong_format
      else fetch_known lock names root (unknown lock.regions names)

  abbrev pub unless_none : Loaded → Root → List Text → Report
  unless_none loaded root [] = fetched root []
  unless_none loaded root (r ∷ rs) = fetch_missing loaded (r ∷ rs) root

  -- `ensure_packs`, with the lock that `load_lock` returns; it is not read where nothing is missing.
  unfoldable pub ensure_packs : Loaded → List Text → Root → Report
  unfolding missing unknown fetch_all enabled
  ensure_packs loaded regions root = unless_none loaded root (missing root regions)

  abbrev pub exit_code : Bool → Report → Option ℕ
  exit_code lenient (fetched root names) = some 0
  exit_code lenient (raised root key_error) = none
  exit_code lenient (raised root os_error) = none
  exit_code lenient (raised root e) = some (if lenient then 0 else 1)

  -- A `--lock` that names no file is read again, at the default path, by `ensure_packs`.
  abbrev pub or_reload : Loaded → Loaded → Loaded
  or_reload absent again = again
  or_reload (locked lock) again = locked lock
  or_reload no_digest again = no_digest

  abbrev pub unless_bad : Loaded → Option ℕ → Option ℕ
  unless_bad no_digest code = none
  unless_bad absent code = code
  unless_bad (locked lock) code = code

  -- `main`, with `load_lock` at a path: the exit code, or `none` for a traceback.
  unfoldable pub run_main : (Option Text → Loaded) → Option Text → Text → Bool → Root → Option ℕ
  unfolding ensure_packs chain
  run_main load path names lenient root =
      unless_bad (load path)
        (exit_code lenient (ensure_packs (or_reload (load path) (load none)) (chain names) root))
