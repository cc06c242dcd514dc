-- ===== src/Prelude/Search.antt =====
-- What the answers of `find`, `find_map`, `any` and `keep` say of the elements of the list.
use mathlib.Core.Bool.{Bool-set}
use mathlib.Core.Logic.Or
use mathlib.Core.HLevel.{×_prop, ⊥_prop}
use mathlib.Core.Logic.{◌≢◌, inl, inr}
use mathlib.Core.List.{Mem, mem-cons_self, mem-cons_of_mem, eq-or-mem_of_mem-cons, not-mem-nil}
use mathlib.Core.List.{List, [], ◌∷◌, ◌++◌}
use mathlib.Core.Option.{Option, none, some}
use mathlib.Core.Option
use mathlib.Core.Path.{◌≡◌, refl, subst}
use mathlib.Core.Bool.{Bool, true, false}
use native.Mathlib.Omega.{arith}
use Prim.Native.String.{String}
use text.Mathlib.Text.{◌==◌}
use text.Mathlib.TextEquality.{eq_iff}
use text.Mathlib.TextPositions.{eq_refl}
use runlane.Prelude.Tests.{Bool-cases, Option-cases}
use runlane.Prelude.Lists.{any, find, keep, find_map}

module _ {ℓ} {A : Type ℓ} (p : A → Bool) where
  -- a test that every element of a list fails, by its head and its tail
  fails-cons :
      {x : A} {xs : List A}
      → p x ≡ false
      → ((a : A) → Mem a xs → p a ≡ false)
      → (a : A) → Mem a (x ∷ xs)
      → p a ≡ false
  fails-cons here there a m =
      Or.elim (Bool-set _ _) (eq-or-mem_of_mem-cons m) (λ e. rw e here) (there a)

  -- what `find` returns is in the list and passes the test
  pub find-some : (xs : List A) (a : A) → find p xs ≡ some a → Mem a xs × (p a ≡ true)
  find-some [] a h = cc
  find-some (x ∷ xs) a h = elim (Bool-cases (p x)) [
    | inl e ↦
        let hit : x ≡ a = ground arith in
        (subst (λ y. Mem y (x ∷ xs)) hit mem-cons_self, subst (λ y. p y ≡ true) hit e)
    | inr e ↦
        let ih : Mem a xs × (p a ≡ true) = find-some xs a (ground arith) in
        (mem-cons_of_mem x ih.0, ih.1)
  ]

  -- where `find` returns nothing, no element passes
  pub find-none : (xs : List A) → find p xs ≡ none → (a : A) → Mem a xs → p a ≡ false
  find-none [] h = λ a m. absurd (not-mem-nil m)
  find-none (x ∷ xs) h = fails-cons (ground arith) (find-none xs (ground arith))

  pub find-eq-none : (xs : List A) → ((a : A) → Mem a xs → p a ≡ false) → find p xs ≡ none
  find-eq-none [] h = refl
  find-eq-none (x ∷ xs) h =
      rw (h x mem-cons_self) (find-eq-none xs (λ a m. h a (mem-cons_of_mem x m)))

  -- an element that passes, where `any` is true
  pub any-true : (xs : List A) → any p xs ≡ true → (a : A) × Mem a xs × (p a ≡ true)
  any-true [] h = cc
  any-true (x ∷ xs) h = elim (Bool-cases (p x)) [
    | inl e ↦ (x, mem-cons_self, e)
    | inr e ↦ let (a, m, t) = any-true xs (ground arith) in (a, mem-cons_of_mem x m, t)
  ]

  pub any-false : (xs : List A) → any p xs ≡ false → (a : A) → Mem a xs → p a ≡ false
  any-false [] h = λ a m. absurd (not-mem-nil m)
  any-false (x ∷ xs) h = fails-cons (ground arith) (any-false xs (ground arith))

  pub any-of_mem : (xs : List A) (a : A) → Mem a xs → p a ≡ true → any p xs ≡ true
  any-of_mem xs a m t = elim (Bool-cases (any p xs)) [
    | inl e ↦ e
    | inr e ↦ let f : p a ≡ false = any-false xs e a m in cc
  ]

  -- the elements that `keep` keeps
  pub mem-keep : (xs : List A) (a : A) → Mem a xs → p a ≡ true → Mem a (keep p xs)
  mem-keep [] a m t = absurd (not-mem-nil m)
  mem-keep (x ∷ xs) a m t = elim (Bool-cases (p x)) [
    | inl e ↦ rw e (
        Or.elim squash₁ (eq-or-mem_of_mem-cons m) (λ here. rw here mem-cons_self)
          (λ there. mem-cons_of_mem x (mem-keep xs a there t)))
    | inr e ↦ rw e (
        Or.elim squash₁ (eq-or-mem_of_mem-cons m) (λ here. let f : p a ≡ false = rw here e in cc)
          (λ there. mem-keep xs a there t))
  ]

  pub mem_of_mem-keep : (xs : List A) (a : A) → Mem a (keep p xs) → Mem a xs × (p a ≡ true)
  mem_of_mem-keep [] a m = absurd (not-mem-nil m)
  mem_of_mem-keep (x ∷ xs) a m = elim (Bool-cases (p x)) [
    | inl e ↦
        Or.elim (×_prop squash₁ (Bool-set _ _))
          (eq-or-mem_of_mem-cons (subst (Mem a) (rw e refl) m))
          (λ here. (rw here mem-cons_self, rw here e))
          (λ there. let ih = mem_of_mem-keep xs a there in (mem-cons_of_mem x ih.0, ih.1))
    | inr e ↦
        let ih = mem_of_mem-keep xs a (subst (Mem a) (rw e refl) m) in
        (mem-cons_of_mem x ih.0, ih.1)
  ]

module _ {ℓ κ} {A : Type ℓ} {B : Type κ} (f : A → Option B) where
  pub find_map-some :
      (xs : List A) (b : B) → find_map f xs ≡ some b → (a : A) × Mem a xs × (f a ≡ some b)
  find_map-some [] b h = cc
  find_map-some (x ∷ xs) b h = elim (Option-cases (f x)) [
    | inl e ↦ let (a, m, t) = find_map-some xs b (ground arith) in (a, mem-cons_of_mem x m, t)
    | inr (c, e) ↦ (x, mem-cons_self, ground arith)
  ]

  pub find_map-none :
      (xs : List A) → find_map f xs ≡ none → (a : A) → Mem a xs → (b : B) → f a ≢ some b
  find_map-none [] h a m b = absurd (not-mem-nil m)
  find_map-none (x ∷ xs) h a m b = λ t.
      Or.elim ⊥_prop (eq-or-mem_of_mem-cons m)
        (λ here. let hit : f x ≡ some b = rw (← here) t in ground arith)
        (λ there. find_map-none xs (ground arith) a there b t)

  pub find_map-eq-none : (xs : List A) → ((a : A) → Mem a xs → f a ≡ none) → find_map f xs ≡ none
  find_map-eq-none [] h = refl
  find_map-eq-none (x ∷ xs) h =
      ground (arith, h x mem-cons_self, find_map-eq-none xs (λ a m. h a (mem-cons_of_mem x m)))

-- `ids.contains(id)` on texts
pub contains-mem : (ids : List String) (id : String) → any (λ x. x == id) ids ≡ true → Mem id ids
contains-mem ids id h =
    let (a, m, t) = any-true (λ x. x == id) ids h in subst (λ x. Mem x ids) ((eq_iff a id).0 t) m

pub mem-contains : (ids : List String) (id : String) → Mem id ids → any (λ x. x == id) ids ≡ true
mem-contains ids id m = any-of_mem (λ x. x == id) ids id m (eq_refl id)

none_of_ne-some {ℓ} : {A : Type ℓ} (o : Option A) → ((a : A) → o ≢ some a) → o ≡ none
none_of_ne-some none h = refl
none_of_ne-some (some a) h = absurd (h a refl)

none_of_map-none {ℓ κ} :
    {A : Type ℓ} {B : Type κ} (f : A → B) (o : Option A) → Option.map f o ≡ none → o ≡ none
none_of_map-none f none h = refl
none_of_map-none f (some a) h = cc

some_of_map-some {ℓ κ} :
    {A : Type ℓ} {B : Type κ} (f : A → B) (o : Option A) {b : B}
    → Option.map f o ≡ some b
    → (a : A) × (o ≡ some a) × (f a ≡ b)
some_of_map-some f none h = cc
some_of_map-some f (some a) h = (a, refl, ground arith)

module _ {ℓ κ μ} {A : Type ℓ} {B : Type κ} {C : Type μ} (g : A → B → C) (p : A → B → Bool) where
  -- two searches, one in the other: for each `a`, the first `b` that passes with it
  abbrev pub find_pair : List B → A → Option C
  find_pair ys a = Option.map (g a) (find (p a) ys)

  pub find_pair-none :
      (xs : List A) (ys : List B)
      → find_map (find_pair ys) xs ≡ none
      → (a : A) (b : B) → Mem a xs
      → Mem b ys
      → p a b ≡ false
  find_pair-none xs ys h a b ma mb =
      let missed = none_of_ne-some (find_pair ys a) (find_map-none (find_pair ys) xs h a ma) in
      find-none (p a) ys (none_of_map-none (g a) (find (p a) ys) missed) b mb

  pub find_pair-eq-none :
      (xs : List A) (ys : List B)
      → ((a : A) (b : B) → Mem a xs → Mem b ys → p a b ≡ false)
      → find_map (find_pair ys) xs ≡ none
  find_pair-eq-none xs ys h =
      find_map-eq-none (find_pair ys) xs
        λ a ma. rw (find-eq-none (p a) ys (λ b mb. h a b ma mb)) refl

  -- the pair that is found lies in the two lists and passes the test
  pub find_pair-some :
      (xs : List A) (ys : List B) (c : C)
      → find_map (find_pair ys) xs ≡ some c
      → (a : A) × (b : B) × Mem a xs × Mem b ys × (p a b ≡ true) × (g a b ≡ c)
  find_pair-some xs ys c h =
      let (a, ma, hit) = find_map-some (find_pair ys) xs c h in
      let (b, e, made) = some_of_map-some (g a) (find (p a) ys) hit in
      let (mb, t) = find-some (p a) ys b e in (a, b, ma, mb, t, made)

-- `find` looks only as far as the first hit
pub find-append {ℓ} :
    {A : Type ℓ} (p : A → Bool) (xs ys : List A) (a : A)
    → find p xs ≡ some a
    → find p (xs ++ ys) ≡ some a
find-append p [] ys a h = cc
find-append p (x ∷ xs) ys a h = elim (Bool-cases (p x)) [
  | inl e ↦ ground arith
  | inr e ↦ let ih = find-append p xs ys a (ground arith) in ground arith
]

-- no text of the list comes twice
abbrev pub Distinct : List String → Type 0
Distinct [] = Unit {0}
Distinct (x ∷ xs) = (any (λ y. y == x) xs ≡ false) × Distinct xs

any-push {ℓ} :
    {A : Type ℓ} (p : A → Bool) (xs : List A) (a : A)
    → any p xs ≡ false
    → p a ≡ false
    → any p (xs ++ a ∷ []) ≡ false
any-push p [] a h e = rw e refl
any-push p (x ∷ xs) a h e = let ih = any-push p xs a (ground arith) e in ground arith

pub Distinct-push :
    (xs : List String) (x : String)
    → Distinct xs
    → any (λ y. y == x) xs ≡ false
    → Distinct (xs ++ x ∷ [])
Distinct-push [] x h e = (refl, tt)
Distinct-push (y ∷ xs) x h e =
    let apart : (x == y) ≡ false = ground (arith, eq_iff x y, eq_iff y x) in
    (any-push (λ z. z == y) xs x h.0 apart, Distinct-push xs x h.1 (ground arith))
