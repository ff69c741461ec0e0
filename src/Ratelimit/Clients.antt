-- ===== src/Ratelimit/Clients.antt =====
-- The least recently used bucket is the one dropped: what resetting one's own quota costs.
use mathlib.Core.List.{append_assoc}
use safety_aware_route_plann.Base.{
  ℕ, suc, ◌+◌, ◌≤◌, ◌<◌, false, none, some, List, [], ◌∷◌, ◌++◌, leb, length, length-append, Text,
  same_text, same_text_self, same_text-differ, ◌≡◌, ◌≢◌, refl, sym, ap, ◌∙◌, subst, inl, inr, arith,
  Bool-cases, Option-cases, leb→le,
}
use safety_aware_route_plann.Float.{Float}
use safety_aware_route_plann.Ratelimit.{
  Bucket, Limiter, take, fresh, most, bucket_for, without, drop_oldest, make_room, acquire,
}

module _ (fl : Float) (l : Limiter fl) where
  open fl use {Val}

  -- The key's bucket stands in the items, with at most n items after it.
  record Stands (key : Text) (b : Bucket fl) (n : ℕ) (items : List (Text × Bucket fl))
      : Type 0 where
    before : List (Text × Bucket fl)
    after : List (Text × Bucket fl)
    split : items ≡ before ++ (key, b) ∷ after
    absent : bucket_for fl l before key ≡ none
    few : length after ≤ n

  bucket_for-after :
      (key : Text) (b : Bucket fl) (before after : List (Text × Bucket fl))
      → bucket_for fl l before key ≡ none
      → bucket_for fl l (before ++ (key, b) ∷ after) key ≡ some b
  unfolding bucket_for
  bucket_for-after key b [] after h = rw (same_text_self key)
  bucket_for-after key b ((k, c) ∷ before) after h = elim (Bool-cases (same_text k key)) [
    | inl e ↦ ground (arith, e)
    | inr e ↦ rw e (bucket_for-after key b before after (ground (arith, e)))
  ]

  bucket_for-without :
      (key k : Text) (items : List (Text × Bucket fl))
      → bucket_for fl l items key ≡ none
      → bucket_for fl l (without fl l items k) key ≡ none
  unfolding bucket_for without
  bucket_for-without key k [] h = h
  bucket_for-without key k ((j, c) ∷ items) h = ground (arith, bucket_for-without key k items)

  bucket_for-last :
      (key k : Text) (c : Bucket fl) (items : List (Text × Bucket fl))
      → k ≢ key
      → bucket_for fl l items key ≡ none
      → bucket_for fl l (items ++ (k, c) ∷ []) key ≡ none
  unfolding bucket_for
  bucket_for-last key k c [] ne h = rw (same_text-differ k key ne)
  bucket_for-last key k c ((j, d) ∷ items) ne h = elim (Bool-cases (same_text j key)) [
    | inl e ↦ ground (arith, e)
    | inr e ↦ rw e (bucket_for-last key k c items ne (ground (arith, e)))
  ]

  length-without :
      (k : Text) (items : List (Text × Bucket fl)) → length (without fl l items k) ≤ length items
  unfolding without
  length-without k [] = omega arith
  length-without k ((j, c) ∷ items) = ground (arith, length-without k items)

  length-found :
      (k : Text) (c : Bucket fl) (items : List (Text × Bucket fl))
      → bucket_for fl l items k ≡ some c
      → length (without fl l items k) < length items
  unfolding without bucket_for
  length-found k c [] h = ground arith
  length-found k c ((j, d) ∷ items) h =
      let short : length (without fl l items k) ≤ length items = length-without k items in
      ground (arith, length-found k c items, short)

  -- Removing another key, and dropping the oldest item where there is one before the key.
  Stands-without :
      (key k : Text) (b : Bucket fl) (n : ℕ) (before after : List (Text × Bucket fl))
      → key ≢ k
      → bucket_for fl l before key ≡ none
      → length after ≤ n
      → Stands key b n (without fl l (before ++ (key, b) ∷ after) k)
  unfolding without bucket_for
  Stands-without key k b n [] after ne h few = record {
    before = [];
    after = without fl l after k;
    split = rw (same_text-differ key k ne);
    absent = refl;
    few = omega (arith, length-without k after, few);
  }
  Stands-without key k b n ((j, c) ∷ before) after ne h few =
      let other : bucket_for fl l before key ≡ none = ground (arith, h) in
      let new : same_text j key ≡ false = ground (arith, h) in
      let rest = Stands-without key k b n before after ne other few in
      elim (Bool-cases (same_text j k)) [
        | inl e ↦ record {
          before = rest.before;
          after = rest.after;
          split = rw e rest.split;
          absent = rest.absent;
          few = rest.few;
        }
        | inr e ↦ record {
          before = (j, c) ∷ rest.before;
          after = rest.after;
          split = rw e (ap (λ xs. (j, c) ∷ xs) rest.split);
          absent = rw new rest.absent;
          few = rest.few;
        }
      ]

  Stands-last :
      (key k : Text) (b c : Bucket fl) (n : ℕ) (items : List (Text × Bucket fl))
      → Stands key b n items
      → Stands key b (suc n) (items ++ (k, c) ∷ [])
  Stands-last key k b c n items h = record {
    before = h.before;
    after = h.after ++ (k, c) ∷ [];
    split =
        ap (λ xs. xs ++ (k, c) ∷ []) h.split
        ∙ append_assoc h.before ((key, b) ∷ h.after) ((k, c) ∷ []);
    absent = h.absent;
    few = omega (arith, length-append h.after ((k, c) ∷ []), h.few);
  }

  Stands-drop :
      (key : Text) (b : Bucket fl) (n : ℕ) (before after : List (Text × Bucket fl))
      → bucket_for fl l before key ≡ none
      → length after ≤ n
      → suc n < length (before ++ (key, b) ∷ after)
      → Stands key b n (drop_oldest fl l (before ++ (key, b) ∷ after))
  unfolding bucket_for
  Stands-drop key b n [] after h few big = ground (arith, few, big)
  Stands-drop key b n ((j, c) ∷ before) after h few big = record {
    before = before;
    after = after;
    split = refl;
    absent = ground (arith, h);
    few = few;
  }

  Stands-acquire :
      (key k : Text) (b : Bucket fl) (n : ℕ) (items : List (Text × Bucket fl)) (made now : Val)
      → key ≢ k
      → suc n < most fl l
      → Stands key b n items
      → Stands key b (suc n) (acquire fl l items k made now).0
  unfolding acquire
  Stands-acquire key k b n items made now ne room h =
      elim (Option-cases (bucket_for fl l items k)) [
        | inr (c, e) ↦
            rw (e, acquire)
              (Stands-last key k b (take fl l c now).0 n (without fl l items k) (
                subst (λ xs. Stands key b n (without fl l xs k)) (sym h.split)
                  (Stands-without key k b n h.before h.after ne h.absent h.few)))
        | inl e ↦ elim (Bool-cases (leb (most fl l) (length items))) [
          | inr f ↦ rw (e, f, acquire) (Stands-last key k b _ n items h)
          | inl f ↦
              let long : suc n < length (h.before ++ (key, b) ∷ h.after) =
                subst (λ xs. suc n < length xs) h.split
                  (omega (arith, leb→le (most fl l) (length items) f, room)) in
              rw (e, f, acquire)
                (Stands-last key k b _ n (drop_oldest fl l items) (
                  subst (λ xs. Stands key b n (drop_oldest fl l xs)) (sym h.split)
                    (Stands-drop key b n h.before h.after h.absent h.few long)))
        ]
      ]

  -- Requests of clients: whose, and the readings of the clock.
  abbrev pub Request : Type 0
  Request = Text × Val × Val

  unfoldable pub acquire_all : List (Text × Bucket fl) → List Request → List (Text × Bucket fl)
  unfolding acquire
  acquire_all items [] = items
  acquire_all items ((k, made, now) ∷ rest) = acquire_all (acquire fl l items k made now).0 rest

  abbrev pub Others : Text → List Request → Type 0
  Others key [] = Unit
  Others key ((k, made, now) ∷ rest) = (key ≢ k) × Others key rest

  Stands-acquire_all :
      (key : Text) (b : Bucket fl) (n : ℕ) (items : List (Text × Bucket fl))
      (requests : List Request)
      → Others key requests
      → n + length requests < most fl l
      → Stands key b n items
      → bucket_for fl l (acquire_all items requests) key ≡ some b
  unfolding acquire_all
  Stands-acquire_all key b n items [] others room h =
      subst (λ xs. bucket_for fl l xs key ≡ some b) (sym h.split)
        (bucket_for-after key b h.before h.after h.absent)
  Stands-acquire_all key b n items ((k, made, now) ∷ rest) others room h =
      Stands-acquire_all key b (suc n) (acquire fl l items k made now).0 rest others.1
        (omega (arith, room))
        (Stands-acquire key k b n items made now others.0 (omega (arith, room)) h)

  absent-without :
      (key : Text) (items : List (Text × Bucket fl))
      → bucket_for fl l (without fl l items key) key ≡ none
  unfolding bucket_for without
  absent-without key [] = refl
  absent-without key ((j, c) ∷ items) = ground (arith, absent-without key items)

  absent-room :
      (key : Text) (items : List (Text × Bucket fl))
      → bucket_for fl l items key ≡ none
      → bucket_for fl l (make_room fl l items) key ≡ none
  unfolding bucket_for
  absent-room key [] h = ground arith
  absent-room key ((j, c) ∷ items) h = ground arith

  -- The bucket of a client after its own request.
  unfoldable pub own_bucket : List (Text × Bucket fl) → Text → Val → Val → Bucket fl
  unfolding take bucket_for
  own_bucket items key made now = elim (bucket_for fl l items key) [
    | some b ↦ (take fl l b now).0
    | none ↦ (take fl l (fresh fl l made) now).0
  ]

  Stands-own :
      (key : Text) (items : List (Text × Bucket fl)) (made now : Val)
      → Stands key (own_bucket items key made now) 0 (acquire fl l items key made now).0
  unfolding acquire own_bucket
  Stands-own key items made now = elim (Option-cases (bucket_for fl l items key)) [
    | inr (c, e) ↦
        rw (e, acquire, own_bucket)
          (record {
            before = without fl l items key;
            after = [];
            split = refl;
            absent = absent-without key items;
            few = omega arith;
          })
    | inl e ↦
        rw (e, acquire, own_bucket)
          (record {
            before = make_room fl l items;
            after = [];
            split = refl;
            absent = absent-room key items e;
            few = omega arith;
          })
  ]

  -- A client's bucket, once it has been charged, is still there and as it was left after any
  -- requests of other clients that are fewer than the clients tracked: its quota cannot be reset
  -- with less.
  pub acquire-kept :
      (key : Text) (items : List (Text × Bucket fl)) (made now : Val) (requests : List Request)
      → Others key requests
      → length requests < most fl l
      → bucket_for fl l (acquire_all (acquire fl l items key made now).0 requests) key
        ≡ some (own_bucket items key made now)
  acquire-kept key items made now requests others room =
      Stands-acquire_all key (own_bucket items key made now) 0 _ requests others
        (omega (arith, room)) (Stands-own key items made now)

  room :
      (items : List (Text × Bucket fl))
      → length items ≤ most fl l
      → length (make_room fl l items) < most fl l
  room [] h = ground arith
  room (x ∷ items) h = ground arith

  length-acquire :
      (items : List (Text × Bucket fl)) (k : Text) (made now : Val)
      → length items ≤ most fl l
      → length (acquire fl l items k made now).0 ≤ most fl l
  unfolding acquire
  length-acquire items k made now h = elim (Option-cases (bucket_for fl l items k)) [
    | inr (c, e) ↦
        rw (e, acquire)
          (omega (
            arith,
            length-append (without fl l items k) ((k, (take fl l c now).0) ∷ []),
            length-found k c items e,
            h,
          ))
    | inl e ↦
        rw (e, acquire)
          (omega (
            arith,
            length-append (make_room fl l items) ((k, (take fl l (fresh fl l made) now).0) ∷ []),
            room items h,
          ))
  ]

  -- However many clients send requests, at most `max_clients` buckets (one, if that is none) exist.
  pub tracked-bound :
      (items : List (Text × Bucket fl)) (requests : List Request)
      → length items ≤ most fl l
      → length (acquire_all items requests) ≤ most fl l
  unfolding acquire_all
  tracked-bound items [] h = h
  tracked-bound items ((k, made, now) ∷ rest) h =
      tracked-bound (acquire fl l items k made now).0 rest (length-acquire items k made now h)
