-- ===== src/Container/Members.antt =====
-- Membership in the lists of names that the container works on.
use notifyr.Base.{
  ◌≤◌, ◌<◌, String, ◌≡◌, refl, ap, ◌∙◌, inl, inr, Bool, true, false, ◌&&◌, ◌||◌, List, [], ◌∷◌,
  ◌++◌, arith, any, keep, contains, length, is_empty, All, Bool-cases, str_eq, eq_iff,
}

pub contains-append :
    (a : String) (xs ys : List String) → contains a (xs ++ ys) ≡ (contains a xs || contains a ys)
contains-append a [] ys = refl
contains-append a (x ∷ xs) ys = ground (arith, contains-append a xs ys)

pub contains-keep :
    (p : String → Bool) (a : String) (xs : List String)
    → contains a (keep p xs) ≡ (contains a xs && p a)
contains-keep p a [] = refl
contains-keep p a (x ∷ xs) = elim (Bool-cases (str_eq x a)) [
  | inl e ↦
      let same : p x ≡ p a = ap p ((eq_iff x a).0 e) in
      ground (arith, contains-keep p a xs, e, same)
  | inr e ↦ ground (arith, contains-keep p a xs, e)
]

pub length-keep-le : (p : String → Bool) (xs : List String) → length (keep p xs) ≤ length xs
length-keep-le p [] = omega arith
length-keep-le p (x ∷ xs) = ground (arith, length-keep-le p xs)

pub length-keep-lt :
    (p : String → Bool) (a : String) (xs : List String)
    → contains a xs ≡ true
    → p a ≡ false
    → length (keep p xs) < length xs
length-keep-lt p a [] h k = cc
length-keep-lt p a (x ∷ xs) h k = elim (Bool-cases (str_eq x a)) [
  | inl e ↦
      let dropped : p x ≡ false = ap p ((eq_iff x a).0 e) ∙ k in
      ground (arith, length-keep-le p xs, dropped)
  | inr e ↦ ground (arith, length-keep-lt p a xs, k, h, e)
]

-- Every member satisfies `P`, which is told of the names that are in the list.
pub All-members :
    (P : String → Type 0) (xs : List String)
    → ((a : String) → contains a xs ≡ true → P a)
    → All P xs
All-members P [] h = tt
All-members P (x ∷ xs) h =
    (h x (ground (arith, eq_iff x x)), All-members P xs (λ a m. h a (ground (arith, m))))

pub All-member :
    (P : String → Type 0) (a : String) (xs : List String) → All P xs → contains a xs ≡ true → P a
All-member P a [] h m = cc
All-member P a (x ∷ xs) h m = elim (Bool-cases (str_eq x a)) [
  | inl e ↦ rw ((eq_iff x a).0 e) at h.0
  | inr e ↦ All-member P a xs h.1 (ground (arith, m, e))
]

pub any-member :
    (p : String → Bool) (a : String) (xs : List String)
    → contains a xs ≡ true
    → p a ≡ true
    → any p xs ≡ true
any-member p a [] h k = cc
any-member p a (x ∷ xs) h k = elim (Bool-cases (str_eq x a)) [
  | inl e ↦ let same : p x ≡ true = ap p ((eq_iff x a).0 e) ∙ k in ground (arith, same)
  | inr e ↦ ground (arith, any-member p a xs, h, k, e)
]

-- If some item passes the one test, and all that do pass the other, some item passes the other.
pub any_mono :
    (p q : String → Bool) (xs : List String)
    → ((a : String) → p a ≡ true → q a ≡ true)
    → any p xs ≡ true
    → any q xs ≡ true
any_mono p q [] h k = cc
any_mono p q (x ∷ xs) h k = ground (arith, h x, any_mono p q xs h, k)

pub any-false :
    (p : String → Bool) (a : String) (xs : List String)
    → contains a xs ≡ true
    → any p xs ≡ false
    → p a ≡ false
any-false p a xs m h = elim (Bool-cases (p a)) [
  | inl e ↦ absurd (ground (arith, any-member p a xs m e, h))
  | inr e ↦ e
]

pub contains-empty : (a : String) (xs : List String) → is_empty xs ≡ true → contains a xs ≡ false
contains-empty a [] h = refl
contains-empty a (x ∷ xs) h = cc

pub filled-member : (xs : List String) → is_empty xs ≡ false → (a : String) × (contains a xs ≡ true)
filled-member [] h = cc
filled-member (x ∷ xs) h = (x, ground (arith, eq_iff x x))

pub length-keep_mono :
    (p q : String → Bool) (xs : List String)
    → ((x : String) → p x ≡ true → q x ≡ true)
    → length (keep p xs) ≤ length (keep q xs)
length-keep_mono p q [] h = omega arith
length-keep_mono p q (x ∷ xs) h = ground (arith, h x, length-keep_mono p q xs h)

pub length-keep_strict :
    (p q : String → Bool) (a : String) (xs : List String)
    → ((x : String) → p x ≡ true → q x ≡ true)
    → contains a xs ≡ true
    → p a ≡ false
    → q a ≡ true
    → length (keep p xs) < length (keep q xs)
length-keep_strict p q a [] h m f t = cc
length-keep_strict p q a (x ∷ xs) h m f t = elim (Bool-cases (str_eq x a)) [
  | inl e ↦
      let same : x ≡ a = (eq_iff x a).0 e in
      let pf : p x ≡ false = rw same f in
      let qt : q x ≡ true = rw same t in ground (arith, pf, qt, length-keep_mono p q xs h)
  | inr e ↦
      let rest : contains a xs ≡ true = ground (arith, m, e) in
      ground (arith, h x, length-keep_strict p q a xs h rest f t)
]
