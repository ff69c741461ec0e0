-- ===== src/Packs/Boot.antt =====
-- When a deployment starts: what `ensure_packs` needs to return, and what stands there when it does.
use safety_aware_route_plann.Base.{
  true, false, Option, some, List, [], ◌∷◌, ◌≡◌, ◌↔◌, refl, ap, ◌∙◌, subst, inl, inr, arith, In,
  All, Text, same_text, same_text_self, same_text-differ, Bool-cases, List-cases, ◌==◌,
}
use safety_aware_route_plann.Packs.{
  PacksLock, locked, spec_of, World, fetch_one, fetch_all, fetch_entry, missing, unknown,
  ensure_packs, fetched, raised, Report, done, install, is_present, may_replace, Root, fetch_known,
  unless_none, enabled, and_first, load_lock, RawLock, pack_format_version,
}
use safety_aware_route_plann.Packs.Installed.{
  IsKeyed, spec_of-region, IsVerified, Installs, fetch_entry-Installs, Step-cases, Kept,
  fetch_all-Kept, unless_none-Kept, load_lock-IsKeyed, root_of,
}

module _ (w : World) where
  -- A verified pack whose place is free is installed.
  fetch_entry-done :
      (lock : PacksLock) (region : Text) (root : Root w) (d : w.Dir)
      → IsKeyed lock.regions
      → IsVerified w lock region d
      → may_replace w (root region) ≡ true
      → fetch_entry w lock (spec_of region lock.regions) root ≡ done (install w root region d)
  unfolding fetch_one
  fetch_entry-done lock region root d k v f =
      let own = spec_of-region region lock.regions v.spec k v.published in
      let hash : same_text (w.digest v.archive) v.spec.sha256 ≡ true =
        subst (λ s. same_text (w.digest v.archive) s ≡ true) v.intact
          (same_text_self (w.digest v.archive)) in
      rw (v.published, fetch_one, own, v.downloaded, hash, v.unpacked, v.inside, v.manifest, f) refl

  -- Each region is asked for once, published and intact, and nothing blocks its place.
  abbrev pub Ready : PacksLock → List Text → Root w → Type 0
  Ready lock [] root = Unit
  Ready lock (r ∷ rs) root =
      (d : w.Dir) × IsVerified w lock r d
      × (may_replace w (root r) ≡ true)
      × ¬ In r rs
      × Ready lock rs root

  -- The call returns, and does not raise.
  abbrev pub Returns : Report w → Type 0
  Returns (fetched root got) = Unit
  Returns (raised root e) = ⊥

  -- A call that returns names what it fetched, and leaves every region that was asked for present.
  abbrev pub Serves : List Text → List Text → Report w → Type 0
  Serves asked names (fetched root got) =
      (got ≡ names) × All (λ r. is_present w (root r) ≡ true) asked
  Serves asked names (raised root e) = Unit

  Ready-install :
      (lock : PacksLock) (rs : List Text) (root : Root w) (region : Text) (d : w.Dir)
      → ¬ In region rs
      → Ready lock rs root
      → Ready lock rs (install w root region d)
  Ready-install lock [] root region d ne h = tt
  Ready-install lock (r ∷ rs) root region d ne h =
      let (e, v, free, once, rest) = h in
      let apart : same_text region r ≡ false = same_text-differ region r (λ s. ne (inl s)) in
      (e, v, rw apart free, once, Ready-install lock rs root region d (λ m. ne (inr m)) rest)

  Ready-returns :
      (lock : PacksLock) (rs : List Text) (root : Root w)
      → IsKeyed lock.regions
      → Ready lock rs root
      → (after : Root w) × (fetch_all w lock rs root ≡ fetched after rs)
  unfolding fetch_all
  Ready-returns lock [] root k h = (root, refl)
  Ready-returns lock (r ∷ rs) root k h =
      let (d, v, free, once, rest) = h in
      let step = fetch_entry-done lock r root d k v free in
      let (after, e) =
        Ready-returns lock rs (install w root r d) k (Ready-install lock rs root r d once rest) in
      (after, rw (step, fetch_all, e) refl)

  Ready-uninstall :
      (lock : PacksLock) (rs : List Text) (root : Root w) (region : Text) (d : w.Dir)
      → w.is_bare d ≡ false
      → Ready lock rs (install w root region d)
      → ¬ In region rs × Ready lock rs root
  Ready-uninstall lock [] root region d f h = ((λ m. elim m [ ]), tt)
  Ready-uninstall lock (r ∷ rs) root region d f h =
      let (e, v, free, once, rest) = h in
      let (out, ready) = Ready-uninstall lock rs root region d f rest in
      elim (Bool-cases (same_text region r)) [
        | inl s ↦
            let bad : may_replace w (install w root region d r) ≡ false = rw s f in
            ground (arith, bad, free)
        | inr s ↦ (
          λ m. elim m [
            | inl here ↦ ground (arith, same_text_self r, subst (λ x. same_text x r ≡ false) here s)
            | inr there ↦ out there
          ],
          (e, v, rw s at free, once, ready),
        )
      ]

  Returns-and_first : (region : Text) (r : Report w) → Returns (and_first w region r) → Returns r
  Returns-and_first region (fetched root names) h = h
  Returns-and_first region (raised root e) h = h

  Returns-Ready :
      (lock : PacksLock) (rs : List Text) (root : Root w)
      → ((d : w.Dir) → w.has_manifest d ≡ true → w.is_bare d ≡ false)
      → IsKeyed lock.regions
      → Returns (fetch_all w lock rs root)
      → Ready lock rs root
  unfolding fetch_all
  Returns-Ready lock [] root full k h = tt
  Returns-Ready lock (r ∷ rs) root full k h =
      elim (Step-cases w (fetch_entry w lock (spec_of r lock.regions) root)) [
        | inl (e, s) ↦ let bad : ⊥ = rw (s, fetch_all) at h in elim bad [ ]
        | inr (middle, s) ↦
            let (d, one) : Installs w lock r root (done middle) =
              subst (Installs w lock r root) s (fetch_entry-Installs w lock r root k) in
            let more : Returns (fetch_all w lock rs middle) =
              Returns-and_first r (fetch_all w lock rs middle) (rw (s, fetch_all) at h) in
            let later : Ready lock rs (install w root r d) =
              subst (Ready lock rs) one.written (Returns-Ready lock rs middle full k more) in
            let (once, ready) =
              Ready-uninstall lock rs root r d (full d one.verified.manifest) later in
            (d, one.verified, one.free, once, ready)
      ]

  Returns-Ready_all :
      (lock : PacksLock) (rs : List Text) (root : Root w)
      → IsKeyed lock.regions
      → Ready lock rs root
      → Returns (fetch_all w lock rs root)
  Returns-Ready_all lock rs root k h = let (after, e) = Ready-returns lock rs root k h in rw e tt

  Ready-unknown :
      (lock : PacksLock) (rs : List Text) (root : Root w)
      → Ready lock rs root
      → unknown lock.regions rs ≡ []
  unfolding unknown
  Ready-unknown lock [] root h = refl
  Ready-unknown lock (r ∷ rs) root h =
      let (d, v, free, once, rest) = h in rw (v.published, Ready-unknown lock rs root rest) refl

  fetch_known-Returns :
      (lock : PacksLock) (rs us : List Text) (root : Root w)
      → Returns (fetch_known w lock rs root us)
      → Returns (fetch_all w lock rs root)
  fetch_known-Returns lock rs [] root h = h
  fetch_known-Returns lock rs (u ∷ us) root h = elim h [ ]

  -- The condition under which a deployment starts.
  abbrev pub CanBoot : PacksLock → List Text → Root w → Type 0
  CanBoot lock [] root = Unit
  CanBoot lock (r ∷ rs) root =
      (enabled lock ≡ true) × (lock.format_version ≡ pack_format_version) × Ready lock (r ∷ rs) root

  unless_none-Returns :
      (lock : PacksLock) (rs : List Text) (root : Root w)
      → ((d : w.Dir) → w.has_manifest d ≡ true → w.is_bare d ≡ false)
      → IsKeyed lock.regions
      → Returns (unless_none w (locked lock) root rs) ↔ CanBoot lock rs root
  unless_none-Returns lock [] root full k = (λ h. tt, λ h. tt)
  unless_none-Returns lock (r ∷ rs) root full k = elim (Bool-cases (enabled lock)) [
    | inr e ↦ rw e (λ h. elim h [ ], λ h. ground (arith, h.0))
    | inl e ↦ elim (Bool-cases (lock.format_version == pack_format_version)) [
      | inr f ↦ rw (e, f) (λ h. elim h [ ], λ h. ground (arith, h.1, f))
      | inl f ↦
          let same : lock.format_version ≡ pack_format_version = ground (arith, f) in
          rw (e, f)
            (
              λ h.
                  let all =
                    fetch_known-Returns lock (r ∷ rs) (unknown lock.regions (r ∷ rs)) root h in
                  (refl, same, Returns-Ready lock (r ∷ rs) root full k all),
              λ h.
                  let none_unknown = Ready-unknown lock (r ∷ rs) root h.2 in
                  rw none_unknown (Returns-Ready_all lock (r ∷ rs) root k h.2),
            )
    ]
  ]

  -- With a lock that `load_lock` read: the call returns exactly if no region is missing, or fetching
  -- is enabled for this code's format and every missing region is asked for once, published, downloaded with its
  -- digest and its manifest, and has a free place. A directory with a manifest is not empty.
  pub ensure_packs-Returns_iff :
      (read : Text → Option RawLock) (lower : Text → Text) (packs_lock packs_url path : Option Text)
      (lock : PacksLock) (names : List Text) (root : Root w)
      → ((d : w.Dir) → w.has_manifest d ≡ true → w.is_bare d ≡ false)
      → load_lock read lower packs_lock packs_url path ≡ locked lock
      → Returns (ensure_packs w (locked lock) names root) ↔ CanBoot lock (missing w root names) root
  unfolding ensure_packs
  ensure_packs-Returns_iff read lower packs_lock packs_url path lock names root full h =
      unless_none-Returns lock (missing w root names) root full
        (load_lock-IsKeyed read lower packs_lock packs_url path lock h)

  Kept-present :
      (lock : PacksLock) (names : List Text) (root after : Root w) (n : Text)
      → Kept w lock names root after n
      → is_present w (root n) ≡ true
      → is_present w (after n) ≡ true
  Kept-present lock names root after n (inl same) h = rw same h
  Kept-present lock names root after n (inr (m, (d, v, e))) h = rw e v.manifest

  Serves-and_first :
      (region : Text) (asked names : List Text) (r : Report w)
      → is_present w (root_of w r region) ≡ true
      → Serves asked names r
      → Serves (region ∷ asked) (region ∷ names) (and_first w region r)
  Serves-and_first region asked names (fetched root got) h s =
      (ap (λ rest. region ∷ rest) s.0, (h, s.1))
  Serves-and_first region asked names (raised root e) h s = tt

  fetch_all-Serves :
      (lock : PacksLock) (rs : List Text) (root : Root w)
      → IsKeyed lock.regions
      → Serves rs rs (fetch_all w lock rs root)
  unfolding fetch_all
  fetch_all-Serves lock [] root k = (refl, tt)
  fetch_all-Serves lock (r ∷ rs) root k =
      elim (Step-cases w (fetch_entry w lock (spec_of r lock.regions) root)) [
        | inl (e, s) ↦ rw (s, fetch_all) tt
        | inr (middle, s) ↦
            let (d, one) : Installs w lock r root (done middle) =
              subst (Installs w lock r root) s (fetch_entry-Installs w lock r root k) in
            let put : middle r ≡ some d = ap (λ f. f r) one.written ∙ rw (same_text_self r) refl in
            let here : is_present w (middle r) ≡ true = rw put one.verified.manifest in
            let after = root_of w (fetch_all w lock rs middle) in
            let kept : is_present w (after r) ≡ true =
              Kept-present lock rs middle after r (fetch_all-Kept w lock rs middle r k) here in
            rw (s, fetch_all)
              (Serves-and_first r rs rs (fetch_all w lock rs middle) kept
                (fetch_all-Serves lock rs middle k))
      ]

  All-present :
      (root after : Root w) (names : List Text)
      → ((n : Text) → is_present w (root n) ≡ true → is_present w (after n) ≡ true)
      → All (λ r. is_present w (after r) ≡ true) (missing w root names)
      → All (λ r. is_present w (after r) ≡ true) names
  unfolding missing
  All-present root after [] kept h = tt
  All-present root after (r ∷ rs) kept h = elim (Bool-cases (is_present w (root r))) [
    | inl e ↦ (kept r e, All-present root after rs kept (rw e at h))
    | inr e ↦
        let split : All (λ r. is_present w (after r) ≡ true) (r ∷ missing w root rs) = rw e at h in
        (split.0, All-present root after rs kept split.1)
  ]

  Serves-all :
      (root : Root w) (names : List Text) (r : Report w)
      → ((n : Text) → is_present w (root n) ≡ true → is_present w (root_of w r n) ≡ true)
      → Serves (missing w root names) (missing w root names) r
      → Serves names (missing w root names) r
  Serves-all root names (fetched after got) kept s = (s.0, All-present root after names kept s.1)
  Serves-all root names (raised after e) kept s = tt

  unless_none-Serves :
      (lock : PacksLock) (names : List Text) (root : Root w)
      → IsKeyed lock.regions
      → Serves names names (unless_none w (locked lock) root names)
  unless_none-Serves lock [] root k = (refl, tt)
  unless_none-Serves lock (r ∷ rs) root k = elim (Bool-cases (enabled lock)) [
    | inr e ↦ rw e tt
    | inl e ↦ elim (Bool-cases (lock.format_version == pack_format_version)) [
      | inr f ↦ rw (e, f) tt
      | inl f ↦ elim (List-cases (unknown lock.regions (r ∷ rs))) [
        | inl none_unknown ↦ rw (e, f, none_unknown) (fetch_all-Serves lock (r ∷ rs) root k)
        | inr (u, us, some_unknown) ↦ rw (e, f, some_unknown) tt
      ]
    ]
  ]

  -- Where the call returns, it returns the missing regions in their order, and each region that was
  -- asked for is present, those that were present before included.
  pub ensure_packs-Serves :
      (read : Text → Option RawLock) (lower : Text → Text) (packs_lock packs_url path : Option Text)
      (lock : PacksLock) (names : List Text) (root : Root w)
      → load_lock read lower packs_lock packs_url path ≡ locked lock
      → Serves names (missing w root names) (ensure_packs w (locked lock) names root)
  unfolding ensure_packs
  ensure_packs-Serves read lower packs_lock packs_url path lock names root h =
      let k = load_lock-IsKeyed read lower packs_lock packs_url path lock h in
      let todo = missing w root names in
      let out = unless_none w (locked lock) root todo in
      Serves-all root names out
        (λ n. Kept-present lock todo root (root_of w out) n (unless_none-Kept w lock todo root n k))
        (unless_none-Serves lock todo root k)
