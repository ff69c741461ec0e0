-- ===== src/Ratelimit/Trust.antt =====
-- Whom a request is charged to: what a caller writes in the header, to the left of what the trusted
-- proxies append, makes no difference.
use mathlib.Core.List.{reverse-append, reverse_aux}
use safety_aware_route_plann.Base.{
  ℕ, zero, suc, ◌+◌, ◌-◌, ◌≤◌, ◌<◌, true, false, Option, none, some, List, [], ◌∷◌, ◌++◌, reverse,
  ◌==◌, leb, length, length-append, Text, strip, split, is_empty, get_elem?, ◌≡◌, refl, ap, ◌∙◌,
  arith, Bool-cases, inl, inr,
}
use safety_aware_route_plann.Ratelimit.{stripped, chain, client_key, given}

split-cons : (s : Text) → (p : Text) × (ps : List Text) × (split 44 s ≡ p ∷ ps)
unfolding split
split-cons [] = ([], [], refl)
split-cons (c ∷ s) = elim (Bool-cases (c == 44)) [
  | inl e ↦ rw e ([], split 44 s, refl)
  | inr e ↦ let (p, ps, f) = split-cons s in rw (e, f) (c ∷ p, ps, refl)
]

-- A comma ends a part.
split-comma : (a b : Text) → split 44 (a ++ 44 ∷ b) ≡ split 44 a ++ split 44 b
unfolding split
split-comma [] b = refl
split-comma (c ∷ a) b = elim (Bool-cases (c == 44)) [
  | inl e ↦ rw (e, split-comma a b)
  | inr e ↦ let (p, ps, f) = split-cons a in rw (e, split-comma a b, f)
]

stripped-append : (xs ys : List Text) → stripped (xs ++ ys) ≡ stripped xs ++ stripped ys
unfolding stripped
stripped-append [] ys = refl
stripped-append (x ∷ xs) ys = elim (Bool-cases (is_empty (strip x))) [
  | inl e ↦ rw (e, stripped-append xs ys)
  | inr e ↦ rw (e, stripped-append xs ys)
]

chain-comma : (a b : Text) → chain (a ++ 44 ∷ b) ≡ chain a ++ chain b
unfolding chain
chain-comma a b = rw (split-comma a b) (stripped-append (split 44 a) (split 44 b))

get_elem?-front :
    (xs ys : List Text) (i : ℕ) → i < length xs → get_elem? (xs ++ ys) i ≡ get_elem? xs i
get_elem?-front [] ys i h = ground (arith, h)
get_elem?-front (x ∷ xs) ys zero h = refl
get_elem?-front (x ∷ xs) ys (suc i) h = get_elem?-front xs ys i (omega (arith, h))

length-onto : (xs acc : List Text) → length (reverse_aux xs acc) ≡ length xs + length acc
length-onto [] acc = omega arith
length-onto (x ∷ xs) acc = omega (arith, length-onto xs (x ∷ acc))

not_empty : (a b : Text) → is_empty (a ++ 44 ∷ b) ≡ false
not_empty [] b = refl
not_empty (c ∷ a) b = refl

le→leb : (a b : ℕ) → a ≤ b → leb a b ≡ true
le→leb a b h = ground arith

-- With at least one proxy trusted, and a header whose part after some comma has as many entries as
-- proxies are trusted, whatever stands before that comma is inert; and with no proxy trusted the
-- header is not read at all.
pub client_key-forged :
    (peer : Option Text) (forged vouched : Text) (hops : ℕ)
    → hops ≤ length (chain vouched)
    → (client_key peer (some (forged ++ 44 ∷ vouched)) hops ≡ client_key peer (some vouched) hops)
      × (client_key peer (some (forged ++ 44 ∷ vouched)) 0 ≡ client_key peer none 0)
unfolding client_key
client_key-forged peer forged [] zero h = (refl, refl)
client_key-forged peer forged [] (suc hops) h = ground (arith, h)
client_key-forged peer forged (c ∷ vouched) zero h = (refl, refl)
client_key-forged peer forged (c ∷ vouched) (suc hops) h =
    let header : Text = forged ++ 44 ∷ c ∷ vouched in
    let front : length (chain header) ≡ length (chain forged) + length (chain (c ∷ vouched)) =
      ap length (chain-comma forged (c ∷ vouched))
      ∙ length-append (chain forged) (chain (c ∷ vouched)) in
    let long : leb (suc hops) (length (chain header)) ≡ true =
      le→leb (suc hops) (length (chain header)) (omega (arith, front, h)) in
    let enough : leb (suc hops) (length (chain (c ∷ vouched))) ≡ true =
      le→leb (suc hops) (length (chain (c ∷ vouched))) h in
    let inside : suc hops - 1 < length (reverse (chain (c ∷ vouched))) =
      omega (arith, length-onto (chain (c ∷ vouched)) [], h) in
    let same : get_elem? (reverse (chain (given (some header)))) (suc hops - 1)
        ≡ get_elem? (reverse (chain (given (some (c ∷ vouched))))) (suc hops - 1) =
      ap (λ xs. get_elem? (reverse xs) (suc hops - 1)) (chain-comma forged (c ∷ vouched))
      ∙ ap (λ xs. get_elem? xs (suc hops - 1)) (reverse-append (chain forged) (chain (c ∷ vouched)))
      ∙ get_elem?-front (reverse (chain (c ∷ vouched))) (reverse (chain forged)) (suc hops - 1)
          inside in
    (rw (client_key, not_empty forged (c ∷ vouched), long, enough, same) refl, refl)
