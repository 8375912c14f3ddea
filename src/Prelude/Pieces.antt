-- ===== src/Prelude/Pieces.antt =====
-- Lists cut in two, and lists put together out of pieces.
use Prim.Native.Nat.{ℕ, zero, suc, ◌+◌, ◌≤◌}
use mathlib.Core.Path.{◌≡◌, refl, ap, sym, ◌∙◌}
use mathlib.Core.List.{List, [], ◌∷◌, ◌++◌, append-nil, append_assoc}
use native.Mathlib.Omega.{arith}
use iocpnetwork_engine.Prelude.Lists.{length, take, drop}

module _ {ℓ} {A : Type ℓ} where
  abbrev pub concat : List (List A) → List A
  concat [] = []
  concat (xs ∷ rest) = xs ++ concat rest

  pub concat-append : (q : List (List A)) (xs : List A) → concat (q ++ (xs ∷ [])) ≡ concat q ++ xs
  concat-append [] xs = append-nil xs
  concat-append (p ∷ q) xs = ap (◌++◌ p) (concat-append q xs) ∙ sym (append_assoc p (concat q) xs)

  pub concat_none : (q : List (List A)) → length q ≡ 0 → concat q ≡ []
  concat_none [] e = refl
  concat_none (p ∷ q) e = absurd (omega arith)

  pub take-add : (n m : ℕ) (xs : List A) → take (n + m) xs ≡ take n xs ++ take m (drop n xs)
  take-add zero m xs = ap (λ k. take k xs) (let e : 0 + m ≡ m = omega arith in e)
  take-add (suc n) zero [] = ap (λ k. take k []) (let e : suc n + 0 ≡ suc n = omega arith in e)
  take-add (suc n) (suc m) [] =
      ap (λ k. take k []) (let e : suc n + suc m ≡ suc (n + suc m) = omega arith in e)
  take-add (suc n) m (x ∷ xs) =
      ap (λ k. take k (x ∷ xs)) (let e : suc n + m ≡ suc (n + m) = omega arith in e)
      ∙ ap (◌∷◌ x) (take-add n m xs)

  pub take_zero : (n : ℕ) (xs : List A) → n ≡ 0 → take n xs ≡ []
  take_zero zero xs e = refl
  take_zero (suc n) xs e = absurd (omega arith)

  pub take_all : (n : ℕ) (xs : List A) → length xs ≤ n → take n xs ≡ xs
  take_all zero [] h = refl
  take_all zero (x ∷ xs) h = absurd (omega arith)
  take_all (suc n) [] h = refl
  take_all (suc n) (x ∷ xs) h = ap (◌∷◌ x) (take_all n xs (omega arith))

module _ {ℓ} (A : Type ℓ) where
  pub take_none : (n : ℕ) → ◌≡◌ {A = List A} (take n []) []
  take_none zero = refl
  take_none (suc n) = refl

  pub drop_none : (n : ℕ) → ◌≡◌ {A = List A} (drop n []) []
  drop_none zero = refl
  drop_none (suc n) = refl
