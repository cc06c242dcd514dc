-- ===== src/Prelude/Pigeonhole.antt =====
-- Texts that differ, each of them in another list, are no more than that list has.
use runlane.Prelude.{
  suc, ◌≤◌, ◌≡◌, refl, inl, inr, String, Bool, true, false, some, List, [], ◌∷◌, map, length, any,
  find, remove_first, ◌==◌, eq_iff, arith, All, Bool-cases,
}
use runlane.Prelude.Search.{Distinct}

module _ {ℓ} {A : Type ℓ} (p : A → Bool) where
  length-remove_first :
      (xs : List A) → any p xs ≡ true → length xs ≡ suc (length (remove_first p xs))
  length-remove_first [] h = absurd (ground arith)
  length-remove_first (x ∷ xs) h = elim (Bool-cases (p x)) [
    | inl e ↦ ground arith
    | inr e ↦ let ih = length-remove_first xs (ground arith) in ground arith
  ]

  any-remove_first :
      (q : A → Bool)
      → ((x : A) → q x ≡ true → p x ≡ false)
      → (xs : List A) → any p (remove_first q xs) ≡ any p xs
  any-remove_first q apart [] = refl
  any-remove_first q apart (x ∷ xs) = elim (Bool-cases (q x)) [
    | inl e ↦ let out = apart x e in ground arith
    | inr e ↦ let ih = any-remove_first q apart xs in ground arith
  ]

module _ (ys : List String) where
  -- each text is in the list
  abbrev pub AreIn : List String → Type 0
  AreIn xs = All (λ x. any (λ y. y == x) ys ≡ true) xs

without-AreIn :
    (ys : List String) (x : String) (xs : List String)
    → any (λ y. y == x) xs ≡ false
    → AreIn ys xs
    → AreIn (remove_first (λ y. y == x) ys) xs
without-AreIn ys x [] apart h = tt
without-AreIn ys x (x' ∷ xs) apart h =
    let other : (x' == x) ≡ false = ground arith in
    let kept =
      any-remove_first (λ y. y == x') (λ y. y == x)
        (λ y hit. ground (arith, eq_iff y x, eq_iff y x', eq_iff x' x)) ys in
    (ground (arith, h.0), without-AreIn ys x xs (ground arith) h.1)

pub Distinct-length-le : (xs ys : List String) → Distinct xs → AreIn ys xs → length xs ≤ length ys
Distinct-length-le [] ys apart h = omega arith
Distinct-length-le (x ∷ xs) ys apart h =
    let less = remove_first (λ y. y == x) ys in
    let ih = Distinct-length-le xs less apart.1 (without-AreIn ys x xs apart.0 h.1) in
    let shorter = length-remove_first (λ y. y == x) ys h.0 in omega arith

pub find-any-map {ℓ} :
    {A : Type ℓ} (p : A → Bool) (f : A → String) (xs : List A) (a : A)
    → find p xs ≡ some a
    → any (λ y. y == f a) (map f xs) ≡ true
find-any-map p f [] a h = absurd (ground arith)
find-any-map p f (x ∷ xs) a h = elim (Bool-cases (p x)) [
  | inl e ↦ let same : x ≡ a = ground arith in ground (arith, eq_iff (f x) (f a))
  | inr e ↦ let ih = find-any-map p f xs a (ground arith) in ground arith
]
