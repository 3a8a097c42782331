-- ===== src/Prelude/Lists.antt =====
-- Lists measured and indexed by native numbers, and Python's `all` and `any`.
use Prim.Native.Nat.{ℕ, zero, suc, ◌+◌, ◌-◌, ◌<◌, min}
use mathlib.Core.Path.{◌≡◌, refl, ap}
use mathlib.Core.Logic.{◌↔◌, ◌⊎◌, inl, inr}
use mathlib.Core.Bool.{Bool, true, false, not, ◌&&◌, ◌||◌}
use mathlib.Core.List.{List, [], ◌∷◌, ◌++◌, map}
use native.Mathlib.Omega.{arith}
use cubingnow.Prelude.Tests.{if◌then◌else◌}

module _ {ℓ} {A : Type ℓ} where
  abbrev pub length : List A → ℕ
  length [] = 0
  length (x ∷ xs) = suc (length xs)

  abbrev pub get_or : List A → ℕ → A → A
  get_or [] i d = d
  get_or (x ∷ xs) zero d = x
  get_or (x ∷ xs) (suc i) d = get_or xs i d

  abbrev pub take : ℕ → List A → List A
  take zero xs = []
  take (suc n) [] = []
  take (suc n) (x ∷ xs) = x ∷ take n xs

  abbrev pub drop : ℕ → List A → List A
  drop zero xs = xs
  drop (suc n) [] = []
  drop (suc n) (x ∷ xs) = drop n xs

  abbrev pub replicate : ℕ → A → List A
  replicate zero a = []
  replicate (suc n) a = a ∷ replicate n a

  abbrev pub all : (A → Bool) → List A → Bool
  all p [] = true
  all p (x ∷ xs) = p x && all p xs

  abbrev pub any : (A → Bool) → List A → Bool
  any p [] = false
  any p (x ∷ xs) = p x || any p xs

  -- `[x for x in xs if p(x)]`
  abbrev pub select : (A → Bool) → List A → List A
  select p [] = []
  select p (x ∷ xs) = let rest = select p xs in if p x then x ∷ rest else rest

  abbrev pub All {κ} : (A → Type κ) → List A → Type κ
  All P [] = Unit
  All P (x ∷ xs) = P x × All P xs

  -- `P` holds somewhere in the list.
  abbrev pub Exists : (A → Type 0) → List A → Type 0
  Exists P [] = ⊥
  Exists P (x ∷ xs) = P x ⊎ Exists P xs

module _ {ℓ} {A : Type ℓ} where
  pub length-append : (xs ys : List A) → length (xs ++ ys) ≡ length xs + length ys
  length-append [] ys = omega arith
  length-append (x ∷ xs) ys = omega (arith, length-append xs ys)

  pub length-take : (n : ℕ) (xs : List A) → length (take n xs) ≡ min n (length xs)
  length-take zero xs = omega arith
  length-take (suc n) [] = omega arith
  length-take (suc n) (x ∷ xs) = omega (arith, length-take n xs)

  pub length-drop : (n : ℕ) (xs : List A) → length (drop n xs) ≡ length xs - n
  length-drop zero xs = omega arith
  length-drop (suc n) [] = omega arith
  length-drop (suc n) (x ∷ xs) = omega (arith, length-drop n xs)

  pub length-replicate : (n : ℕ) (a : A) → length (replicate n a) ≡ n
  length-replicate zero a = refl
  length-replicate (suc n) a = ap suc (length-replicate n a)

  pub get_or-take :
      (n : ℕ) (xs : List A) (i : ℕ) (d : A) → i < n → get_or (take n xs) i d ≡ get_or xs i d
  get_or-take zero xs i d h = absurd (omega arith)
  get_or-take (suc n) [] i d h = refl
  get_or-take (suc n) (x ∷ xs) zero d h = refl
  get_or-take (suc n) (x ∷ xs) (suc i) d h = get_or-take n xs i d (omega arith)

  pub get_or-drop :
      (n : ℕ) (xs : List A) (i : ℕ) (d : A) → get_or (drop n xs) i d ≡ get_or xs (n + i) d
  get_or-drop zero xs i d = ap (λ k. get_or xs k d) (omega arith)
  get_or-drop (suc n) [] i d = refl
  get_or-drop (suc n) (x ∷ xs) i d =
      let e : suc n + i ≡ suc (n + i) = omega arith in rw (get_or-drop n xs i d) (rw e)

  -- Padding at the end with the default shows nowhere.
  pub get_or-pad :
      (xs : List A) (k i : ℕ) (d : A) → get_or (xs ++ replicate k d) i d ≡ get_or xs i d
  get_or-pad [] zero i d = refl
  get_or-pad [] (suc k) zero d = refl
  get_or-pad [] (suc k) (suc i) d = get_or-pad [] k i d
  get_or-pad (x ∷ xs) k zero d = refl
  get_or-pad (x ∷ xs) k (suc i) d = get_or-pad xs k i d

  -- `all` looks at every position.
  pub all_at :
      (p : A → Bool) (xs : List A) (d : A) (i : ℕ)
      → all p xs ≡ true
      → i < length xs
      → p (get_or xs i d) ≡ true
  all_at p [] d i h lt = absurd (omega arith)
  all_at p (x ∷ xs) d zero h lt = ground arith
  all_at p (x ∷ xs) d (suc i) h lt = all_at p xs d i (ground arith) (omega arith)

  pub all_intro :
      (p : A → Bool) (xs : List A) (d : A)
      → ((i : ℕ) → i < length xs → p (get_or xs i d) ≡ true)
      → all p xs ≡ true
  all_intro p [] d h = refl
  all_intro p (x ∷ xs) d h =
      let first : p x ≡ true = h 0 (omega arith) in
      let later : all p xs ≡ true = all_intro p xs d (λ i lt. h (suc i) (omega arith)) in
      ground arith

  pub any-eq-not-all : (p : A → Bool) (xs : List A) → any p xs ≡ not (all (λ x. not (p x)) xs)
  any-eq-not-all p [] = refl
  any-eq-not-all p (x ∷ xs) = ground (arith, any-eq-not-all p xs)

  pub not-any_iff :
      (p : A → Bool) (xs : List A) → (any p xs ≡ false) ↔ (all (λ x. not (p x)) xs ≡ true)
  not-any_iff p xs =
      (λ h. ground (arith, any-eq-not-all p xs), λ h. ground (arith, any-eq-not-all p xs))

module _ {ℓ κ μ} {A : Type ℓ} where
  pub All-map :
      (P : A → Type κ) (Q : A → Type μ) (xs : List A) → ((x : A) → P x → Q x) → All P xs → All Q xs
  All-map P Q [] f h = tt
  All-map P Q (x ∷ xs) f h = (f x h.0, All-map P Q xs f h.1)

module _ {ℓ κ} {A : Type ℓ} {B : Type κ} where
  pub Exists-map :
      (f : A → B) (P : A → Type 0) (Q : B → Type 0) (xs : List A)
      → ((x : A) → P x → Q (f x))
      → Exists P xs
      → Exists Q (map f xs)
  Exists-map f P Q [] h x = absurd x
  Exists-map f P Q (x ∷ xs) h (inl y) = inl (h x y)
  Exists-map f P Q (x ∷ xs) h (inr y) = inr (Exists-map f P Q xs h y)
