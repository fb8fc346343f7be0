-- ===== src/Base/Ranges.antt =====
-- Ranges of numbers, and lists built from a list for each element.
use Prim.Native.Nat.{ℕ, zero, suc, ◌+◌, ◌*◌, ◌/◌, ◌%◌, ◌≤◌, ◌<◌}
use mathlib.Core.Path.{◌≡◌, refl, sym, ap, ap₂, ◌∙◌}
use mathlib.Core.List.{List, [], ◌∷◌, ◌++◌, map, map-append, append_assoc}
use native.Mathlib.Nat.{mul-add-div_right, mul-add-mod_self_right, div-eq_of_lt, mod-eq_of_lt}
use native.Mathlib.Omega.{arith}
use distributed_point_functi.Base.Lists.{length}

-- The numbers s, s + 1, ..., s + n - 1.
abbrev pub upto : ℕ → ℕ → List ℕ
upto s zero = []
upto s (suc n) = s ∷ upto (suc s) n

pub length-upto : (s n : ℕ) → length (upto s n) ≡ n
length-upto s zero = refl
length-upto s (suc n) = ap suc (length-upto (suc s) n)

pub upto-add : (s a b : ℕ) → upto s (a + b) ≡ upto s a ++ upto (s + a) b
upto-add s zero b =
    ap (upto s) {x = 0 + b} {y = b} (omega arith)
    ∙ ap (λ k. upto k b) {x = s} {y = s + 0} (omega arith)
upto-add s (suc a) b =
    ap (upto s) {x = suc a + b} {y = suc (a + b)} (omega arith)
    ∙ ap (◌∷◌ s) (
        upto-add (suc s) a b
        ∙ ap (λ k. upto (suc s) a ++ upto k b) {x = suc s + a} {y = s + suc a} (omega arith))

module _ {ℓ} {B : Type ℓ} where
  pub map-upto_shift :
      (f : ℕ → B) (k s n : ℕ) → map f (upto (k + s) n) ≡ map (λ p. f (k + p)) (upto s n)
  map-upto_shift f k s zero = refl
  map-upto_shift f k s (suc n) = ap (◌∷◌ (f (k + s))) (
      ap (λ j. map f (upto j n)) {x = suc (k + s)} {y = k + suc s} (omega arith)
      ∙ map-upto_shift f k (suc s) n)

  pub map-upto_eq :
      (f g : ℕ → B) (s n : ℕ)
      → ((p : ℕ) → s ≤ p → p < s + n → f p ≡ g p)
      → map f (upto s n) ≡ map g (upto s n)
  map-upto_eq f g s zero h = refl
  map-upto_eq f g s (suc n) h =
      ap₂ ◌∷◌ (h s (omega arith) (omega arith))
        (map-upto_eq f g (suc s) n (λ p a b. h p (omega arith) (omega arith)))

module _ {ℓ κ} {A : Type ℓ} {B : Type κ} where
  abbrev pub concat_map : (A → List B) → List A → List B
  concat_map f [] = []
  concat_map f (x ∷ xs) = f x ++ concat_map f xs

module _ {ℓ κ} {A : Type ℓ} {B : Type κ} where
  pub concat_map-append :
      (f : A → List B) (xs ys : List A)
      → concat_map f (xs ++ ys) ≡ concat_map f xs ++ concat_map f ys
  concat_map-append f [] ys = refl
  concat_map-append f (x ∷ xs) ys =
      ap (λ t. f x ++ t) (concat_map-append f xs ys)
      ∙ sym (append_assoc (f x) (concat_map f xs) (concat_map f ys))

  pub concat_map_eq :
      (f g : A → List B) (xs : List A) → ((x : A) → f x ≡ g x) → concat_map f xs ≡ concat_map g xs
  concat_map_eq f g [] h = refl
  concat_map_eq f g (x ∷ xs) h = ap₂ ◌++◌ (h x) (concat_map_eq f g xs h)

  pub map-concat_map {μ} :
      {C : Type μ} (g : B → C) (f : A → List B) (xs : List A)
      → map g (concat_map f xs) ≡ concat_map (λ x. map g (f x)) xs
  map-concat_map g f [] = refl
  map-concat_map g f (x ∷ xs) =
      map-append g (f x) (concat_map f xs) ∙ ap (λ t. map g (f x) ++ t) (map-concat_map g f xs)

module _ {ℓ κ μ} {A : Type ℓ} {B : Type κ} {C : Type μ} where
  pub concat_map-concat_map :
      (g : B → List C) (f : A → List B) (xs : List A)
      → concat_map g (concat_map f xs) ≡ concat_map (λ x. concat_map g (f x)) xs
  concat_map-concat_map g f [] = refl
  concat_map-concat_map g f (x ∷ xs) =
      concat_map-append g (f x) (concat_map f xs)
      ∙ ap (λ t. concat_map g (f x) ++ t) (concat_map-concat_map g f xs)

module _ {ℓ} {B : Type ℓ} where
  -- A range walked by quotients and remainders is a range of ranges.
  pub map-div-mod :
      (g : ℕ → ℕ → B) (c n s : ℕ)
      → 0 < c
      → map (λ x. g (x / c) (x % c)) (upto (s * c) (n * c))
        ≡ concat_map (λ i. map (g i) (upto 0 c)) (upto s n)
  map-div-mod g c zero s h =
      ap (λ k. map (λ x. g (x / c) (x % c)) (upto (s * c) k)) {x = 0 * c} {y = 0} (omega arith)
  map-div-mod g c (suc n) s h =
      let f = λ (x : ℕ). g (x / c) (x % c) in
      ap (λ k. map f (upto (s * c) k)) {x = suc n * c} {y = c + n * c} (omega arith)
      ∙ ap (map f) (upto-add (s * c) c (n * c))
      ∙ map-append f (upto (s * c) c) (upto (s * c + c) (n * c))
      ∙ ap₂ ◌++◌
          (ap (λ k. map f (upto k c)) {x = s * c} {y = s * c + 0} (omega arith)
            ∙ map-upto_shift f (s * c) 0 c
            ∙ map-upto_eq (λ j. f (s * c + j)) (g s) 0 c
                (λ j _ below. ap₂ g (quotient s j (omega arith)) (remainder s j (omega arith))))
          (ap (λ k. map f (upto k (n * c))) {x = s * c + c} {y = suc s * c} (omega arith)
            ∙ map-div-mod g c n (suc s) h)
    where
      quotient : (s j : ℕ) → j < c → (s * c + j) / c ≡ s
      quotient s j below = mul-add-div_right h s j ∙ omega (arith, div-eq_of_lt below)

      remainder : (s j : ℕ) → j < c → (s * c + j) % c ≡ j
      remainder s j below = mul-add-mod_self_right s c j ∙ mod-eq_of_lt below

module _ {ℓ κ μ} {A : Type ℓ} {B : Type κ} {C : Type μ} where
  pub concat_map-map :
      (g : B → List C) (f : A → B) (xs : List A)
      → concat_map g (map f xs) ≡ concat_map (λ x. g (f x)) xs
  concat_map-map g f [] = refl
  concat_map-map g f (x ∷ xs) = ap (λ t. g (f x) ++ t) (concat_map-map g f xs)
