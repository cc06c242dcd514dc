-- ===== src/Prelude/Action.antt =====
-- Methods on `&mut self` that return a `Result`, as actions on the state. An action that fails
-- keeps what it wrote before it failed.
use mathlib.Core.Bool.{Bool}
use mathlib.Core.Path.{◌≡◌, refl, sym, ap, subst}
use mathlib.Core.Logic.{◌↔◌, inl, inr}
use native.Mathlib.Omega.{arith}
use runlane.Prelude.Tests.{if◌then◌else◌}
use runlane.Prelude.Outcome.{Result, ok, err, map_err, Result-cases, Always}

abbrev pub Action {ℓ} : Type ℓ → Type ℓ → Type ℓ → Type ℓ
Action S E A = S → Result E A × S

module _ {ℓ} {S E A : Type ℓ} where
  abbrev pub pure : A → Action S E A
  pure a s = (ok a, s)

  abbrev pub lift : Result E A → Action S E A
  lift r s = (r, s)

  -- a read of a field
  abbrev pub gets : (S → A) → Action S E A
  gets f s = (ok (f s), s)

module _ {ℓ} {S E : Type ℓ} where
  -- an assignment
  abbrev pub modify : (S → S) → Action S E (Unit {ℓ})
  modify f s = (ok tt, f s)

  -- `if test { return Err(e) }`
  abbrev pub reject_if : Bool → E → Action S E (Unit {ℓ})
  reject_if test e s = (if test then err e else ok tt, s)

module _ {ℓ} {S E A B : Type ℓ} where
  abbrev pub continue : Result E A → (A → Action S E B) → Action S E B
  continue (ok a) f s = f a s
  continue (err e) f s = (err e, s)

  infixl 5 ◌>>=◌ ◌>>◌
  abbrev pub ◌>>=◌ : Action S E A → (A → Action S E B) → Action S E B
  ◌>>=◌ m f s = let (r, s') = m s in continue r f s'

  abbrev pub ◌>>◌ : Action S E A → Action S E B → Action S E B
  m >> n = m >>= λ _. n

module _ {ℓ} {S E F A : Type ℓ} where
  -- a call whose error is converted by `From`, as the `?` operator does
  abbrev pub rethrow : (E → F) → Action S E A → Action S F A
  rethrow f m s = let (r, s') = m s in (map_err f r, s')

-- a predicate on the value and the state that an action ends with, where it has a value
abbrev pub Ends {ℓ κ} : {S E A : Type ℓ} → (A → S → Type κ) → Result E A × S → Type κ
Ends P done = Always (λ a. P a done.1) done.0

module _ {ℓ κ} {S E A B : Type ℓ} (P : B → S → Type κ) where
  pub Ends-bind :
      (m : Action S E A) (f : A → Action S E B) (s : S)
      → ((a : A) (t : S) → m s ≡ (ok a, t) → Ends P (f a t))
      → Ends P ((m >>= f) s)
  Ends-bind m f s h = elim (Result-cases (m s).0) [
    | inl (a, e) ↦
        let same : m s ≡ (ok a, (m s).1) = ap (λ r. (r, (m s).1)) e in
        subst (λ r. Ends P (continue r f (m s).1)) (sym e) (h a (m s).1 same)
    | inr (e, bad) ↦ subst (λ r. Ends P (continue r f (m s).1)) (sym bad) tt
  ]

pub Ends-of_ok {ℓ κ} :
    {S E A : Type ℓ} (P : A → S → Type κ) (done : Result E A × S)
    → ((a : A) (s : S) → done ≡ (ok a, s) → P a s)
    → Ends P done
Ends-of_ok P (ok a, s) h = h a s refl
Ends-of_ok P (err e, s) h = tt

pub Ends-ok {ℓ κ} :
    {S E A : Type ℓ} (P : A → S → Type κ) (done : Result E A × S) (a : A) (s : S)
    → Ends P done
    → done ≡ (ok a, s)
    → P a s
Ends-ok P done a s h e = subst (Ends P) e h

pub lift-ok {ℓ} :
    {S E A : Type ℓ} (r : Result E A) (s t : S) (a : A)
    → lift r s ≡ (ok a, t)
    → (r ≡ ok a) × (s ≡ t)
lift-ok r s t a h = (ap (λ done. done.0) h, ap (λ done. done.1) h)

pub rethrow-ok {ℓ} :
    {S E F A : Type ℓ} (f : E → F) (m : Action S E A) (s t : S) (a : A)
    → rethrow f m s ≡ (ok a, t)
    → m s ≡ (ok a, t)
rethrow-ok f m s t a h = elim (Result-cases (m s).0) [
  | inl (b, e) ↦ ground arith
  | inr (e, bad) ↦ absurd (ground arith)
]

-- an action that changes no state where it has a value
abbrev pub Reads {ℓ} : {S E A : Type ℓ} → Action S E A → S → Type ℓ
Reads {S = S} {A = A} m s = (a : A) (t : S) → m s ≡ (ok a, t) → t ≡ s

pub bind_iff {ℓ} :
    {S E A B : Type ℓ} (m : Action S E A) (f : A → Action S E B) (s t : S) (b : B)
    → Reads m s
    → ((m >>= f) s ≡ (ok b, t)) ↔ ((a : A) × (m s ≡ (ok a, s)) × (f a s ≡ (ok b, t)))
bind_iff m f s t b reads = (
  λ h. elim (Result-cases (m s).0) [
    | inl (a, e) ↦
        let back = reads a (m s).1 (ap (λ r. (r, (m s).1)) e) in
        let first : m s ≡ (ok a, s) = ground arith in
        (a, first, subst (λ done. continue done.0 f done.1 ≡ (ok b, t)) first h)
    | inr (e, bad) ↦ absurd (ground arith)
  ],
  λ (a, first, rest). subst (λ done. continue done.0 f done.1 ≡ (ok b, t)) (sym first) rest,
)

-- a check that finds `P` and changes nothing
abbrev pub Finds {ℓ} : {S E : Type ℓ} → Type ℓ → Action S E (Unit {ℓ}) → S → Type ℓ
Finds {S = S} P m s = (t : S) → (m s ≡ (ok tt, t)) ↔ (P × (t ≡ s))

pub check_iff {ℓ} :
    {S E B P : Type ℓ} (m : Action S E (Unit {ℓ})) (n : Action S E B) (s t : S) (b : B)
    → Finds P m s
    → ((m >> n) s ≡ (ok b, t)) ↔ (P × (n s ≡ (ok b, t)))
check_iff m n s t b finds = (
  λ h.
      let (_, first, rest) = (bind_iff m (λ _. n) s t b (λ _ u e. ((finds u).0 e).1)).0 h in
      (((finds s).0 first).0, rest),
  λ (found, rest).
      (bind_iff m (λ _. n) s t b (λ _ u e. ((finds u).0 e).1)).1
        (tt, (finds s).1 (found, refl), rest),
)

module _ {ℓ} {S E P Q : Type ℓ} where
  pub Finds-then :
      (m n : Action S E (Unit {ℓ})) (s : S) → Finds P m s → Finds Q n s → Finds (P × Q) (m >> n) s
  Finds-then m n s finds found t = (
    λ h.
        let (p, rest) = (check_iff m n s t tt finds).0 h in
        let (q, same) = (found t).0 rest in ((p, q), same),
    λ ((p, q), same). (check_iff m n s t tt finds).1 (p, (found t).1 (q, same)),
  )

  pub Finds-map :
      (m : Action S E (Unit {ℓ})) (s : S) → (P → Q) → (Q → P) → Finds P m s → Finds Q m s
  Finds-map m s to from finds t =
      (λ h. let (p, same) = (finds t).0 h in (to p, same), λ (q, same). (finds t).1 (from q, same))
