-- ===== src/Packs/Examples.antt =====
-- One region, "a", in a lock whose file is at the default path.
use safety_aware_route_plann.Base.{
  Bool, true, false, Option, none, some, [], ◌∷◌, ◌≡◌, ◌⊎◌, ◌↔◌, refl, Text, same_text,
}
use safety_aware_route_plann.Packs.{
  PacksLock, RawLock, locked, spec_of, enabled, tag_for, url_for, read_entries, load_lock, World,
  fetch_one, fetch_all, missing, unknown, ensure_packs, is_present, Root, tar_gz, raised, os_error,
  checksum_mismatch,
}
use safety_aware_route_plann.Packs.Installed.{root_of, IsVerified, ensure_packs-IsVerified}
use safety_aware_route_plann.Packs.Boot.{
  Returns, Serves, CanBoot, ensure_packs-Returns_iff, ensure_packs-Serves,
}

program : Unit {0}
unfolding spec_of enabled tag_for url_for read_entries load_lock fetch_one fetch_all missing unknown
    ensure_packs same_text
program = tt

-- "a" and "h/".
abbrev region : Text
region = 97 ∷ []

abbrev base : Text
base = 104 ∷ 47 ∷ []

abbrev digest_of : Text
digest_of = 100 ∷ []

abbrev read_file : Text → Option RawLock
read_file path = some (record {
  base_url = some base;
  tag = none;
  format_version = none;
  regions = (region, record { sha256 = some digest_of; size = none; tag = none }) ∷ [];
})

abbrev keep : Text → Text
keep s = s

abbrev lock : PacksLock
lock = record {
  base_url = base;
  tag = [];
  format_version = 2;
  regions =
      (region, record { region = region; sha256 = digest_of; size_bytes = none; tag = none }) ∷ [];
}

read_it : load_lock read_file keep none none none ≡ locked lock
unfolding program
read_it = refl

-- A directory is whether it has a manifest; the archive is its digest.
abbrev serving : Text → World
serving bytes = record {
  Archive = Text;
  Dir = Bool;
  download = λ url. some bytes;
  digest = λ bytes. bytes;
  unpack = λ bytes. some (λ name. some true);
  has_manifest = λ d. d;
  is_bare = λ d. false;
}

abbrev world : World
world = serving digest_of

abbrev nothing : Root world
nothing name = none

-- A directory with no manifest.
abbrev half : Root world
half name = some false

address : url_for lock region ≡ 104 ∷ 47 ∷ 97 ∷ tar_gz
unfolding program
address = refl

boots :
    Serves world
      (region ∷ [])
      (region ∷ [])
      (ensure_packs world (locked lock) (region ∷ []) nothing)
unfolding program
boots = (refl, (refl, tt))

-- What stands in the way of the rename is another exception than a failed fetch.
blocked : ensure_packs world (locked lock) (region ∷ []) half ≡ raised half os_error
unfolding program
blocked = refl

tampered :
    ensure_packs (serving []) (locked lock) (region ∷ []) nothing ≡ raised nothing checksum_mismatch
unfolding program
tampered = refl

ensure_packs-IsVerified_example :
    let after = root_of world (ensure_packs world (locked lock) (region ∷ []) nothing) in
    (after region ≡ nothing region)
    ⊎ ((is_present world (nothing region) ≡ false)
        × ((d : Bool) × IsVerified world lock region d × (after region ≡ some d)))
ensure_packs-IsVerified_example =
    ensure_packs-IsVerified world read_file keep none none none lock (region ∷ []) nothing region
      read_it

full : (d : Bool) → d ≡ true → false ≡ false
full d h = refl

ensure_packs-Returns_iff_example :
    Returns world (ensure_packs world (locked lock) (region ∷ []) nothing)
    ↔ CanBoot world lock (missing world nothing (region ∷ [])) nothing
ensure_packs-Returns_iff_example =
    ensure_packs-Returns_iff world read_file keep none none none lock (region ∷ []) nothing full
      read_it

ensure_packs-Serves_example :
    Serves world
      (region ∷ [])
      (missing world nothing (region ∷ []))
      (ensure_packs world (locked lock) (region ∷ []) nothing)
ensure_packs-Serves_example =
    ensure_packs-Serves world read_file keep none none none lock (region ∷ []) nothing read_it
