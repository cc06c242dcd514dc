-- ===== src/Fleet/Overlays.antt =====
-- Which setting a resolved intent has for a key.
use Prim.Native.Nat.{Ordering}
use Prim.Native.String as S
use mathlib.Core.Option
use runlane.Prelude.{
  ℕ, String, ◌≤◌, ◌⊎◌, ◌≡◌, refl, ◌∙◌, Option, none, some, List, [], ◌∷◌, leb, ◌==◌, eq_iff, arith,
  if◌then◌else◌, Bool-cases, Option-cases, inl, inr, All,
}
use runlane.Fleet.{
  rank, FleetIntentSetting, FleetOverlayFragment, value_of, get, insert_fragment, sort_fragments,
  insert_setting, insert_settings, insert_fragments, resolve_fleet_overlays,
}

abbrev pub or_else {ℓ} : {A : Type ℓ} → Option A → Option A → Option A
or_else (some a) other = some a
or_else none other = other

or_else-none {ℓ} : {A : Type ℓ} (o : Option A) → or_else o none ≡ o
or_else-none none = refl
or_else-none (some a) = refl

-- the last value that a list of settings has for a key
pub last_value : String → List FleetIntentSetting → Option String
last_value key [] = none
last_value key (s ∷ rest) =
    or_else (last_value key rest) (if s.key == key then some s.value else none)

order_cases : (o : Ordering) → (o ≡ Ordering.lt) ⊎ (o ≡ Ordering.eq) ⊎ (o ≡ Ordering.gt)
order_cases Ordering.lt = inl refl
order_cases Ordering.eq = inr (inl refl)
order_cases Ordering.gt = inr (inr refl)

value_of-insert_setting :
    (key : String) (s : FleetIntentSetting) (entries : List FleetIntentSetting)
    → value_of key (insert_setting s entries)
      ≡ (if s.key == key then some s.value else value_of key entries)
unfolding insert_setting
value_of-insert_setting key s [] = ground arith
value_of-insert_setting key s (t ∷ rest) =
    let ih = value_of-insert_setting key s rest in
    elim (order_cases (S.compare s.key t.key)) [
      | inl e ↦ ground arith
      | inr (inl e) ↦
          let same : s.key ≡ t.key = (eq_iff s.key t.key).0 (rw e refl) in
          ground (arith, eq_iff t.key key, eq_iff s.key key)
      | inr (inr e) ↦ ground (arith, eq_iff s.key key, eq_iff t.key key, eq_iff s.key t.key)
    ]

value_of-insert_settings :
    (key : String) (settings entries : List FleetIntentSetting)
    → value_of key (insert_settings settings entries)
      ≡ or_else (last_value key settings) (value_of key entries)
unfolding insert_settings last_value
value_of-insert_settings key [] entries = refl
value_of-insert_settings key (s ∷ rest) entries =
    let ih = value_of-insert_settings key rest (insert_setting s entries) in
    let step = value_of-insert_setting key s entries in ground arith

-- what a fragment has for a key, with the fragment's rank
abbrev pub hit : String → FleetOverlayFragment → Option (ℕ × String)
hit key f = Option.map (λ v. (rank f.tier, v)) (last_value key f.settings)

-- of an earlier and a later fragment the one of the higher rank, and of one rank the later
abbrev pub prefer : Option (ℕ × String) → Option (ℕ × String) → Option (ℕ × String)
prefer none later = later
prefer (some a) none = some a
prefer (some (r, v)) (some (q, w)) = if leb r q then some (q, w) else some (r, v)

-- the value of a key that wins, with its rank
unfoldable pub winner : String → List FleetOverlayFragment → Option (ℕ × String)
winner key [] = none
winner key (f ∷ rest) = prefer (hit key f) (winner key rest)

-- the last fragment of a list that has the key
last_hit : String → List FleetOverlayFragment → Option (ℕ × String)
last_hit key [] = none
last_hit key (f ∷ rest) = or_else (last_hit key rest) (hit key f)

value_of-insert_fragments :
    (key : String) (fragments : List FleetOverlayFragment) (entries : List FleetIntentSetting)
    → value_of key (insert_fragments fragments entries)
      ≡ or_else (Option.map (λ h. h.1) (last_hit key fragments)) (value_of key entries)
unfolding insert_fragments last_hit
value_of-insert_fragments key [] entries = refl
value_of-insert_fragments key (f ∷ rest) entries =
    let ih = value_of-insert_fragments key rest (insert_settings f.settings entries) in
    let step = value_of-insert_settings key f.settings entries in ground arith

Above : ℕ → List FleetOverlayFragment → Type 0
Above r = All (λ g. r ≤ rank g.tier)

Sorted : List FleetOverlayFragment → Type 0
Sorted [] = Unit {0}
Sorted (f ∷ rest) = Above (rank f.tier) rest × Sorted rest

Above-le : (r q : ℕ) (fs : List FleetOverlayFragment) → r ≤ q → Above q fs → Above r fs
unfolding Above
Above-le r q [] le h = tt
Above-le r q (f ∷ fs) le h = (omega (arith, h.0), Above-le r q fs le h.1)

Above-insert :
    (r : ℕ) (f : FleetOverlayFragment) (fs : List FleetOverlayFragment)
    → r ≤ rank f.tier
    → Above r fs
    → Above r (insert_fragment f fs)
unfolding Above
Above-insert r f [] le h = (le, tt)
Above-insert r f (g ∷ fs) le h = elim (Bool-cases (leb (rank f.tier) (rank g.tier))) [
  | inl e ↦ rw e (le, h)
  | inr e ↦ rw e (h.0, Above-insert r f fs le h.1)
]

Sorted-insert :
    (f : FleetOverlayFragment) (fs : List FleetOverlayFragment)
    → Sorted fs
    → Sorted (insert_fragment f fs)
unfolding Above Sorted
Sorted-insert f [] h = (tt, tt)
Sorted-insert f (g ∷ fs) h = elim (Bool-cases (leb (rank f.tier) (rank g.tier))) [
  | inl e ↦
      let le : rank f.tier ≤ rank g.tier = ground arith in
      rw e ((le, Above-le (rank f.tier) (rank g.tier) fs le h.0), h)
  | inr e ↦ rw e (Above-insert (rank g.tier) f fs (ground arith) h.0, Sorted-insert f fs h.1)
]

last_hit-le :
    (key : String) (r : ℕ) (fs : List FleetOverlayFragment) (q : ℕ) (v : String)
    → Above r fs
    → last_hit key fs ≡ some (q, v)
    → r ≤ q
unfolding Above last_hit
last_hit-le key r [] q v h e = cc
last_hit-le key r (f ∷ fs) q v h e = elim (Option-cases (last_hit key fs)) [
  | inl none_later ↦ ground (arith, h.0)
  | inr ((p, w), later) ↦ ground (arith, last_hit-le key r fs p w h.1 later)
]

last_hit-insert :
    (key : String) (f : FleetOverlayFragment) (fs : List FleetOverlayFragment)
    → Sorted fs
    → last_hit key (insert_fragment f fs) ≡ prefer (hit key f) (last_hit key fs)
unfolding last_hit Sorted Above
last_hit-insert key f [] h = ground arith
last_hit-insert key f (g ∷ fs) h = elim (Bool-cases (leb (rank f.tier) (rank g.tier))) [
  | inl e ↦ elim (Option-cases (last_hit key (g ∷ fs))) [
    | inl e' ↦ ground arith
    | inr ((p, w), later) ↦
        let le = last_hit-le key (rank g.tier) (g ∷ fs) p w (omega arith, h.0) later in ground arith
  ]
  | inr e ↦ let ih = last_hit-insert key f fs h.1 in ground arith
]

sort-Sorted : (fs : List FleetOverlayFragment) → Sorted (sort_fragments fs)
unfolding sort_fragments Sorted
sort-Sorted [] = tt
sort-Sorted (f ∷ fs) = Sorted-insert f (sort_fragments fs) (sort-Sorted fs)

last_hit-sort :
    (key : String) (fs : List FleetOverlayFragment)
    → last_hit key (sort_fragments fs) ≡ winner key fs
unfolding sort_fragments winner last_hit
last_hit-sort key [] = refl
last_hit-sort key (f ∷ fs) =
    last_hit-insert key f (sort_fragments fs) (sort-Sorted fs) ∙ rw (last_hit-sort key fs) refl

-- The resolved intent has for a key the value of the fragment of the highest rank that sets it, and
-- among fragments of that rank the value of the last one.
pub get-resolve :
    (key : String) (fragments : List FleetOverlayFragment)
    → get (resolve_fleet_overlays fragments) key ≡ Option.map (λ h. h.1) (winner key fragments)
unfolding get resolve_fleet_overlays
get-resolve key fragments =
    value_of-insert_fragments key (sort_fragments fragments) []
    ∙ rw (last_hit-sort key fragments) (or_else-none (Option.map (λ h. h.1) (winner key fragments)))
