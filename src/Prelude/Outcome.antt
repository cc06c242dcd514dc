-- ===== src/Prelude/Outcome.antt =====
-- Rust's `Result`, and methods on `&mut self` that return one. What was written before an error
-- stays written, so the state comes back beside the error too.
use mathlib.Core.Path.{◌≡◌, refl, subst}
use mathlib.Core.Logic.{◌⊎◌, ◌↔◌, inl, inr}
use mathlib.Core.Bool.{Bool, true, false, not}
use mathlib.Core.Option.{Option, none, some}
use mathlib.Core.List.{List, [], ◌∷◌}
use runlane.Prelude.Tests.{if◌then◌else◌, Bool-cases}
use runlane.Prelude.Lists.{All}
use native.Mathlib.Omega.{arith}

pub data Result {ℓ} (E A : Type ℓ) : Type ℓ where
  ok : A → Result E A
  err : E → Result E A

module _ {ℓ} {E A : Type ℓ} where
  -- `option.ok_or(e)`
  abbrev pub ok_or : Option A → E → Result E A
  ok_or none e = err e
  ok_or (some a) e = ok a

module _ {ℓ} {E A B : Type ℓ} where
  -- the `?` operator
  infixl 5 ◌>>=◌ ◌>>◌
  abbrev pub ◌>>=◌ : Result E A → (A → Result E B) → Result E B
  ok a >>= f = f a
  err e >>= f = err e

  abbrev pub ◌>>◌ : Result E A → Result E B → Result E B
  m >> k = m >>= λ _. k

  -- `map_err(f)`
  abbrev pub map_err : (A → B) → Result A E → Result B E
  map_err f (ok a) = ok a
  map_err f (err e) = err (f e)

-- `if test { return Err(e) }`
abbrev pub refuse_if {ℓ} : {E : Type ℓ} → Bool → E → Result E (Unit {ℓ})
refuse_if test e = if test then err e else ok tt

pub Result-cases {ℓ} :
    {E A : Type ℓ} (r : Result E A) → ((a : A) × (r ≡ ok a)) ⊎ ((e : E) × (r ≡ err e))
Result-cases (ok a) = inl (a, refl)
Result-cases (err e) = inr (e, refl)

-- `iter().map(f).collect::<Result<Vec<_>, _>>()`
abbrev pub traverse {ℓ} : {E A B : Type ℓ} → (A → Result E B) → List A → Result E (List B)
traverse f [] = ok []
traverse f (x ∷ xs) = f x >>= λ y. traverse f xs >>= λ ys. ok (y ∷ ys)

-- `for x in xs { f(x)?; }`
abbrev pub for_each {ℓ} : {E A : Type ℓ} → (A → Result E (Unit {ℓ})) → List A → Result E (Unit {ℓ})
for_each f [] = ok tt
for_each f (x ∷ xs) = f x >> for_each f xs

module _ {ℓ} {E A : Type ℓ} (f : A → Result E (Unit {ℓ})) where
  -- A loop of checks passes exactly when each check does.
  pub for_each_iff : (xs : List A) → (for_each f xs ≡ ok tt) ↔ All (λ x. f x ≡ ok tt) xs
  for_each_iff [] = (λ h. tt, λ h. refl)
  for_each_iff (x ∷ xs) = elim (Result-cases (f x)) [
    | inl (a, e) ↦ (
      λ h. (e, (for_each_iff xs).0 (ground arith)),
      λ h. let rest = (for_each_iff xs).1 h.1 in ground arith,
    )
    | inr (e, bad) ↦ (λ h. absurd (ground arith), λ h. let first = h.0 in absurd (ground arith))
  ]

-- A check after another passes exactly when both do.
pub then_iff {ℓ} :
    {E A : Type ℓ} (m : Result E (Unit {ℓ})) (k : Result E A) (a : A)
    → ((m >> k) ≡ ok a) ↔ ((m ≡ ok tt) × (k ≡ ok a))
then_iff (ok u) k a = (λ h. (refl, h), λ h. h.1)
then_iff (err e) k a = (λ h. absurd (ground arith), λ h. let first = h.0 in absurd (ground arith))

pub refuse_if_iff {ℓ} :
    {E : Type ℓ} (test : Bool) (e : E) → (refuse_if test e ≡ ok tt) ↔ (test ≡ false)
refuse_if_iff true e = (λ h. absurd (ground arith), λ h. absurd (ground arith))
refuse_if_iff false e = (λ h. refl, λ h. refl)

-- a predicate on the value, where there is one
abbrev pub Always {ℓ κ} : {E A : Type ℓ} → (A → Type κ) → Result E A → Type κ
Always P (ok a) = P a
Always P (err e) = Unit

module _ {ℓ κ} {E A B : Type ℓ} (P : B → Type κ) where
  pub Always-bind :
      (m : Result E A) (f : A → Result E B)
      → ((a : A) → m ≡ ok a → Always P (f a))
      → Always P (m >>= f)
  Always-bind (ok a) f h = h a refl
  Always-bind (err e) f h = tt

pub Always-ok {ℓ κ} :
    {E A : Type ℓ} (P : A → Type κ) (m : Result E A) (a : A) → Always P m → m ≡ ok a → P a
Always-ok P m a h e = subst (Always P) e h

module _ {ℓ κ} {E A B : Type ℓ} (P : B → Type κ) (f : A → Result E B) where
  pub Always-traverse : ((a : A) → Always P (f a)) → (xs : List A) → Always (All P) (traverse f xs)
  Always-traverse each [] = tt
  Always-traverse each (x ∷ xs) = Always-bind (All P) (f x) _ (λ y first.
      Always-bind (All P) (traverse f xs) _ (λ ys rest. (
        Always-ok P (f x) y (each x) first,
        Always-ok (All P) (traverse f xs) ys (Always-traverse each xs) rest,
      )))

-- A loop of tests passes exactly when no element fails its test.
pub tests_iff {ℓ} :
    {E A : Type ℓ} (test : A → Bool) (e : A → E) (xs : List A)
    → (for_each (λ x. refuse_if (not (test x)) (e x)) xs ≡ ok tt) ↔ All (λ x. test x ≡ true) xs
tests_iff test e [] = (λ h. tt, λ h. refl)
tests_iff test e (x ∷ xs) =
    let (into, back) = tests_iff test e xs in
    elim (Bool-cases (test x)) [
      | inl t ↦ (λ h. (t, into (ground arith)), λ h. let rest = back h.1 in ground arith)
      | inr f ↦ (λ h. absurd (ground arith), λ h. let first = h.0 in absurd (ground arith))
    ]

pub Always-if {ℓ κ} :
    {E A : Type ℓ} (P : A → Type κ) (test : Bool) (x y : Result E A)
    → Always P x
    → Always P y
    → Always P (if test then x else y)
Always-if P true x y h k = h
Always-if P false x y h k = k

pub map_err-ok {ℓ} :
    {A E F : Type ℓ} (f : E → F) (r : Result E A) (a : A) → map_err f r ≡ ok a → r ≡ ok a
map_err-ok f (ok b) a h = ground arith
map_err-ok f (err e) a h = absurd (ground arith)
