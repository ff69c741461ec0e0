-- ===== src/Packs/Installed.antt =====
-- What `ensure_packs` may write: the packs of the lock, and nothing over a pack that is there.
use mathlib.Core.Option
use mathlib.Core.Option.{some-injective}
use safety_aware_route_plann.Base.{
  true, false, Option, none, some, List, [], ◌∷◌, ◌≡◌, ◌⊎◌, refl, sym, ap, ◌∙◌, subst, inl, inr,
  arith, In, Text, same_text, same_text_sound, Bool-cases, Option-cases, ◌==◌,
}
use safety_aware_route_plann.Ratelimit.{given, or_else}
use safety_aware_route_plann.Packs.{
  FetchError, PackSpec, PacksLock, Loaded, locked, absent, no_digest, RawEntry, RawLock, spec_of,
  url_for, load_lock, read_entries, with_entries, World, fetch_one, fetch_all, fetch_entry, missing,
  unknown, ensure_packs, fetched, raised, Report, Step, done, failed, install, place, verify,
  is_present, may_replace, Root, default_lock_path, pack_format_version, fetch_known, unless_none,
  enabled, and_first,
}

-- Each entry of a lock names its own key.
abbrev pub IsKeyed : List (Text × PackSpec) → Type 0
IsKeyed [] = Unit
IsKeyed ((name, spec) ∷ rest) = (spec.region ≡ name) × IsKeyed rest

pub spec_of-region :
    (region : Text) (specs : List (Text × PackSpec)) (spec : PackSpec)
    → IsKeyed specs
    → spec_of region specs ≡ some spec
    → spec.region ≡ region
unfolding spec_of
spec_of-region region [] spec k h = ground (arith, h)
spec_of-region region ((name, s) ∷ rest) spec k h = elim (Bool-cases (same_text name region)) [
  | inl e ↦
      let found : some s ≡ some spec = sym (rw (e, spec_of) refl) ∙ h in
      subst (λ x. x.region ≡ region) (some-injective _ _ found)
        (k.0 ∙ same_text_sound name region e)
  | inr e ↦ spec_of-region region rest spec k.1 (sym (rw (e, spec_of) refl) ∙ h)
]

read_entries-IsKeyed :
    (lower : Text → Text) (raws : List (Text × RawEntry)) (specs : List (Text × PackSpec))
    → read_entries lower raws ≡ some specs
    → IsKeyed specs
unfolding read_entries Option.bind
read_entries-IsKeyed lower [] specs h = subst IsKeyed (some-injective _ _ h) tt
read_entries-IsKeyed lower ((name, entry) ∷ rest) specs h = elim (Option-cases entry.sha256) [
  | inl e ↦ let bad : none ≡ some specs = sym (rw (e, read_entries) refl) ∙ h in ground (arith, bad)
  | inr (digest, e) ↦ elim (Option-cases (read_entries lower rest)) [
    | inl f ↦
        let bad : none ≡ some specs = sym (rw (e, f, read_entries) refl) ∙ h in ground (arith, bad)
    | inr (tail, f) ↦
        let made : some (
              (
                name,
                record {
                  region = name;
                  sha256 = lower digest;
                  size_bytes = entry.size;
                  tag = entry.tag;
                },
              )
              ∷ tail)
            ≡ some specs =
          sym (rw (e, f, read_entries) refl) ∙ h in
        subst IsKeyed (some-injective _ _ made) (refl, read_entries-IsKeyed lower rest tail f)
  ]
]

lock_of : Loaded → Option (List (Text × PackSpec))
lock_of absent = none
lock_of no_digest = none
lock_of (locked lock) = some lock.regions

with_entries-IsKeyed :
    (packs_url : Text) (raw : RawLock) (found : Option (List (Text × PackSpec))) (lock : PacksLock)
    → ((specs : List (Text × PackSpec)) → found ≡ some specs → IsKeyed specs)
    → with_entries packs_url raw found ≡ locked lock
    → IsKeyed lock.regions
unfolding lock_of
with_entries-IsKeyed packs_url raw none lock k h = ground (arith, ap lock_of h)
with_entries-IsKeyed packs_url raw (some specs) lock k h =
    subst IsKeyed (some-injective _ _ (ap lock_of h)) (k specs refl)

-- What `load_lock` returns is keyed.
pub load_lock-IsKeyed :
    (read : Text → Option RawLock) (lower : Text → Text) (packs_lock packs_url path : Option Text)
    (lock : PacksLock)
    → load_lock read lower packs_lock packs_url path ≡ locked lock
    → IsKeyed lock.regions
unfolding load_lock lock_of
load_lock-IsKeyed read lower packs_lock packs_url path lock h =
    let file = read (or_else (given path) (or_else (given packs_lock) default_lock_path)) in
    elim (Option-cases file) [
      | inl e ↦
          let bad : absent ≡ locked lock = sym (rw (e, load_lock) refl) ∙ h in
          ground (arith, ap lock_of bad)
      | inr (raw, e) ↦
          with_entries-IsKeyed (given packs_url) raw (read_entries lower raw.regions) lock
            (λ specs f. read_entries-IsKeyed lower raw.regions specs f)
            (sym (rw (e, load_lock) refl) ∙ h)
    ]

-- A directory that came from the network and passed every check, for the region it is named after.
pub record IsVerified (w : World) (lock : PacksLock) (region : Text) (d : w.Dir) : Type 0 where
  pub spec : PackSpec
  pub archive : w.Archive
  pub dirs : Text → Option w.Dir
  pub published : spec_of region lock.regions ≡ some spec
  pub downloaded : w.download (url_for lock region) ≡ some archive
  pub intact : w.digest archive ≡ spec.sha256
  pub unpacked : w.unpack archive ≡ some dirs
  pub inside : dirs region ≡ some d
  pub manifest : w.has_manifest d ≡ true

module _ (w : World) where
  abbrev pub root_of : Report w → Root w
  root_of (fetched root names) = root
  root_of (raised root e) = root

  -- One installed pack.
  pub record IsInstalled (lock : PacksLock) (region : Text) (root after : Root w) (d : w.Dir)
      : Type 0 where
    pub verified : IsVerified w lock region d
    pub free : may_replace w (root region) ≡ true
    pub written : after ≡ install w root region d

  abbrev pub Installs : PacksLock → Text → Root w → Step w → Type 0
  Installs lock region root (failed e) = Unit
  Installs lock region root (done after) = (d : w.Dir) × IsInstalled lock region root after d

  place-Installs :
      (lock : PacksLock) (region : Text) (root : Root w) (spec : PackSpec) (archive : w.Archive)
      (dirs : Text → Option w.Dir)
      → spec_of region lock.regions ≡ some spec
      → w.download (url_for lock region) ≡ some archive
      → w.digest archive ≡ spec.sha256
      → w.unpack archive ≡ some dirs
      → Installs lock region root (place w root region (dirs region))
  place-Installs lock region root spec archive dirs p q i u = elim (Option-cases (dirs region)) [
    | inl e ↦ rw e tt
    | inr (d, e) ↦ elim (Bool-cases (w.has_manifest d)) [
      | inr m ↦ rw (e, m) tt
      | inl m ↦ elim (Bool-cases (may_replace w (root region))) [
        | inr f ↦ rw (e, m, f) tt
        | inl f ↦
            let seen : IsVerified w lock region d = record {
              spec = spec;
              archive = archive;
              dirs = dirs;
              published = p;
              downloaded = q;
              intact = i;
              unpacked = u;
              inside = e;
              manifest = m;
            } in
            rw (e, m, f) (d, record { verified = seen; free = f; written = refl })
      ]
    ]
  ]

  verify-Installs :
      (lock : PacksLock) (root : Root w) (spec : PackSpec) (got : Option w.Archive)
      → spec_of spec.region lock.regions ≡ some spec
      → w.download (url_for lock spec.region) ≡ got
      → Installs lock spec.region root (verify w root spec got)
  verify-Installs lock root spec none p q = tt
  verify-Installs lock root spec (some archive) p q =
      elim (Bool-cases (same_text (w.digest archive) spec.sha256)) [
        | inr s ↦ rw s tt
        | inl s ↦ elim (Option-cases (w.unpack archive)) [
          | inl u ↦ rw (s, u) tt
          | inr (dirs, u) ↦
              rw (s, u)
                (place-Installs lock spec.region root spec archive dirs p q
                  (same_text_sound (w.digest archive) spec.sha256 s) u)
        ]
      ]

  fetch_one-Installs :
      (lock : PacksLock) (region : Text) (spec : PackSpec) (root : Root w)
      → spec_of region lock.regions ≡ some spec
      → spec.region ≡ region
      → Installs lock region root (fetch_one w lock spec root)
  unfolding fetch_one
  fetch_one-Installs lock region spec root h k =
      subst (λ r. Installs lock r root (fetch_one w lock spec root)) k
        (verify-Installs lock root spec (w.download (url_for lock spec.region))
          (subst (λ r. spec_of r lock.regions ≡ some spec) (sym k) h) refl)

  pub fetch_entry-Installs :
      (lock : PacksLock) (region : Text) (root : Root w)
      → IsKeyed lock.regions
      → Installs lock region root (fetch_entry w lock (spec_of region lock.regions) root)
  fetch_entry-Installs lock region root k = elim (Option-cases (spec_of region lock.regions)) [
    | inl e ↦ rw e tt
    | inr (spec, e) ↦
        let one =
          fetch_one-Installs lock region spec root e
            (spec_of-region region lock.regions spec k e) in
        rw e one
  ]

  -- What a root holds under a name afterwards: what it held, or a verified pack, where nothing was
  -- present and the name was asked for.
  abbrev pub Kept : PacksLock → List Text → Root w → Root w → Text → Type 0
  Kept lock names root after n =
      (after n ≡ root n) ⊎ (In n names × ((d : w.Dir) × IsVerified w lock n d × (after n ≡ some d)))

  Kept-installed :
      (lock : PacksLock) (region n : Text) (names : List Text) (root middle after : Root w)
      (d : w.Dir)
      → IsInstalled lock region root middle d
      → Kept lock names middle after n
      → Kept lock (region ∷ names) root after n
  Kept-installed lock region n names root middle after d i (inr (m, rest)) = inr (inr m, rest)
  Kept-installed lock region n names root middle after d i (inl same) =
      let put : middle n ≡ install w root region d n = ap (λ f. f n) i.written in
      elim (Bool-cases (same_text region n)) [
        | inr e ↦ inl (same ∙ put ∙ rw e refl)
        | inl e ↦
            let here = same_text_sound region n e in
            inr (
              inl (sym here),
              (d, subst (λ r. IsVerified w lock r d) here i.verified, same ∙ put ∙ rw e refl),
            )
      ]

  pub Step-cases :
      (s : Step w) → ((e : FetchError) × (s ≡ failed e)) ⊎ ((after : Root w) × (s ≡ done after))
  Step-cases (failed e) = inl (e, refl)
  Step-cases (done after) = inr (after, refl)

  root_of-and_first : (region : Text) (r : Report w) → root_of (and_first w region r) ≡ root_of r
  root_of-and_first region (fetched root names) = refl
  root_of-and_first region (raised root e) = refl

  pub fetch_all-Kept :
      (lock : PacksLock) (names : List Text) (root : Root w) (n : Text)
      → IsKeyed lock.regions
      → Kept lock names root (root_of (fetch_all w lock names root)) n
  unfolding fetch_all
  fetch_all-Kept lock [] root n k = inl refl
  fetch_all-Kept lock (region ∷ rest) root n k =
      elim (Step-cases (fetch_entry w lock (spec_of region lock.regions) root)) [
        | inl (e, s) ↦ rw (s, fetch_all) (inl refl)
        | inr (middle, s) ↦
            let one : Installs lock region root (done middle) =
              subst (Installs lock region root) s (fetch_entry-Installs lock region root k) in
            let later = fetch_all-Kept lock rest middle n k in
            rw (s, fetch_all, root_of-and_first region (fetch_all w lock rest middle))
              (Kept-installed lock region n rest root middle
                (root_of (fetch_all w lock rest middle)) one.0 one.1 later)
      ]

  pub missing-absent :
      (root : Root w) (names : List Text) (n : Text)
      → In n (missing w root names)
      → is_present w (root n) ≡ false
  unfolding missing
  missing-absent root [] n m = elim m [ ]
  missing-absent root (r ∷ rs) n m = elim (Bool-cases (is_present w (root r))) [
    | inl e ↦ missing-absent root rs n (rw e at m)
    | inr e ↦
        let split : In n (r ∷ missing w root rs) = rw e at m in
        elim split [ inl here ↦ rw here e | inr there ↦ missing-absent root rs n there ]
  ]

  fetch_known-Kept :
      (lock : PacksLock) (names us : List Text) (root : Root w) (n : Text)
      → IsKeyed lock.regions
      → Kept lock names root (root_of (fetch_known w lock names root us)) n
  fetch_known-Kept lock names [] root n k = fetch_all-Kept lock names root n k
  fetch_known-Kept lock names (u ∷ us) root n k = inl refl

  pub unless_none-Kept :
      (lock : PacksLock) (names : List Text) (root : Root w) (n : Text)
      → IsKeyed lock.regions
      → Kept lock names root (root_of (unless_none w (locked lock) root names)) n
  unless_none-Kept lock [] root n k = inl refl
  unless_none-Kept lock (r ∷ rs) root n k =
      let known = fetch_known-Kept lock (r ∷ rs) (unknown lock.regions (r ∷ rs)) root n k in
      elim (Bool-cases (enabled lock)) [
        | inr e ↦ rw e (inl refl)
        | inl e ↦ elim (Bool-cases (lock.format_version == pack_format_version)) [
          | inr f ↦ rw (e, f) (inl refl)
          | inl f ↦ rw (e, f) known
        ]
      ]

  -- Whether the call returns or raises, each name under the pack root holds what it held before;
  -- or it held no pack, and now holds a directory that the lock publishes, downloaded from that
  -- region's address, with the digest that the lock records and a manifest inside.
  pub ensure_packs-IsVerified :
      (read : Text → Option RawLock) (lower : Text → Text) (packs_lock packs_url path : Option Text)
      (lock : PacksLock) (names : List Text) (root : Root w) (n : Text)
      → load_lock read lower packs_lock packs_url path ≡ locked lock
      → let after = root_of (ensure_packs w (locked lock) names root) in
        (after n ≡ root n)
        ⊎ ((is_present w (root n) ≡ false)
            × ((d : w.Dir) × IsVerified w lock n d × (after n ≡ some d)))
  unfolding ensure_packs
  ensure_packs-IsVerified read lower packs_lock packs_url path lock names root n h =
      let todo = missing w root names in
      elim (unless_none-Kept lock todo root n
        (load_lock-IsKeyed read lower packs_lock packs_url path lock h)) [
          | inl same ↦ inl same
          | inr (m, rest) ↦ inr (missing-absent root names n m, rest)
        ]
