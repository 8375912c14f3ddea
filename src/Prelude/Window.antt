-- ===== src/Prelude/Window.antt =====
-- Memory read and written through an index: stretches of a function on positions, `memcpy` out of a
-- buffer and into one. The ring buffers read position `j` at index `j % capacity`.
use Prim.Native.Nat.{ℕ, zero, suc, ◌+◌, ◌-◌, ◌%◌, ◌≤◌, ◌<◌}
use mathlib.Core.Path.{◌≡◌, refl, ap, ap₂, ◌∙◌}
use mathlib.Core.Logic.{◌⊎◌, inl, inr}
use mathlib.Core.List.{List, [], ◌∷◌, ◌++◌}
use native.Mathlib.Nat.{mod-eq_of_lt, mod-eq-sub-mod}
use native.Mathlib.Decide.{dec_lt}
use native.Mathlib.Omega.{arith}
use iocpnetwork_engine.Prelude.Tests.{ltb, if◌then◌else◌}
use iocpnetwork_engine.Prelude.Lists.{
  length, length-append, get_or, take, drop, length-take, length-drop,
}

module _ {ℓ} {A : Type ℓ} where
  -- `f i`, `f (i + 1)`, …: `n` values.
  abbrev pub stretch : (ℕ → A) → ℕ → ℕ → List A
  stretch f i zero = []
  stretch f i (suc n) = f i ∷ stretch f (suc i) n

  pub length-stretch : (f : ℕ → A) (i n : ℕ) → length (stretch f i n) ≡ n
  length-stretch f i zero = refl
  length-stretch f i (suc n) = ap suc (length-stretch f (suc i) n)

  pub stretch-add :
      (f : ℕ → A) (i n m : ℕ) → stretch f i (n + m) ≡ stretch f i n ++ stretch f (i + n) m
  stretch-add f i zero m = ap₂ (stretch f) (omega arith) (omega arith)
  stretch-add f i (suc n) m =
      ap (stretch f i) (let e : suc n + m ≡ suc (n + m) = omega arith in e)
      ∙ ap (◌∷◌ (f i)) (
          stretch-add f (suc i) n m
          ∙ ap (λ j. stretch f (suc i) n ++ stretch f j m)
              (let e : suc i + n ≡ i + suc n = omega arith in e))

  pub take-stretch : (f : ℕ → A) (i n m : ℕ) → n ≤ m → take n (stretch f i m) ≡ stretch f i n
  take-stretch f i zero m h = refl
  take-stretch f i (suc n) zero h = absurd (omega arith)
  take-stretch f i (suc n) (suc m) h = ap (◌∷◌ (f i)) (take-stretch f (suc i) n m (omega arith))

  pub drop-stretch :
      (f : ℕ → A) (i n m : ℕ) → n ≤ m → drop n (stretch f i m) ≡ stretch f (i + n) (m - n)
  drop-stretch f i zero m h = ap₂ (stretch f) (omega arith) (omega arith)
  drop-stretch f i (suc n) zero h = absurd (omega arith)
  drop-stretch f i (suc n) (suc m) h =
      drop-stretch f (suc i) n m (omega arith) ∙ ap₂ (stretch f) (omega arith) (omega arith)

  -- Two functions that agree on the positions read give the same stretch.
  pub stretch-congr :
      (f g : ℕ → A) (i j n : ℕ)
      → ((k : ℕ) → k < n → f (i + k) ≡ g (j + k))
      → stretch f i n ≡ stretch g j n
  stretch-congr f g i j zero h = refl
  stretch-congr f g i j (suc n) h =
      ap₂ ◌∷◌ (ap f (omega arith) ∙ h 0 (omega arith) ∙ ap g (omega arith)) (
        stretch-congr f g (suc i) (suc j) n
          (λ k lt. ap f (omega arith) ∙ h (suc k) (omega arith) ∙ ap g (omega arith)))

  pub stretch-list : (xs : List A) (d : A) → stretch (λ i. get_or xs i d) 0 (length xs) ≡ xs
  stretch-list [] d = refl
  stretch-list (x ∷ xs) d = ap (◌∷◌ x) (
      stretch-congr (λ i. get_or (x ∷ xs) i d) (λ i. get_or xs i d) 1 0 (length xs)
        (λ k lt. ap (λ i. get_or (x ∷ xs) i d) (let e : 1 + k ≡ suc (0 + k) = omega arith in e))
      ∙ stretch-list xs d)

  -- `memcpy` out of `buf`: the `n` values from index `off` on.
  abbrev pub copy : List A → ℕ → ℕ → List A
  copy buf off n = take n (drop off buf)

  pub copy-stretch :
      (buf : List A) (off n : ℕ) (d : A)
      → off + n ≤ length buf
      → copy buf off n ≡ stretch (λ i. get_or buf i d) off n
  copy-stretch buf zero zero d h = refl
  copy-stretch [] zero (suc n) d h = absurd (omega arith)
  copy-stretch (x ∷ xs) zero (suc n) d h = ap (◌∷◌ x) (
      copy-stretch xs zero n d (omega arith)
      ∙ stretch-congr (λ i. get_or xs i d) (λ i. get_or (x ∷ xs) i d) 0 1 n
          (λ k lt. ap (λ i. get_or (x ∷ xs) i d) (let e : suc (0 + k) ≡ 1 + k = omega arith in e)))
  copy-stretch [] (suc off) n d h = absurd (omega arith)
  copy-stretch (x ∷ xs) (suc off) n d h =
      copy-stretch xs off n d (omega arith)
      ∙ stretch-congr (λ i. get_or xs i d) (λ i. get_or (x ∷ xs) i d) off (suc off) n
          (λ k lt.
            ap (λ i. get_or (x ∷ xs) i d) (let e : suc (off + k) ≡ suc off + k = omega arith in e))

  -- `memcpy` into `buf` at index `off`.
  abbrev pub blit : List A → ℕ → List A → List A
  blit buf off vs = take off buf ++ (vs ++ drop (off + length vs) buf)

  pub length-blit :
      (buf : List A) (off : ℕ) (vs : List A)
      → off + length vs ≤ length buf
      → length (blit buf off vs) ≡ length buf
  length-blit buf off vs h = omega (
    arith,
    length-append (take off buf) (vs ++ drop (off + length vs) buf),
    length-append vs (drop (off + length vs) buf),
    length-take off buf,
    length-drop (off + length vs) buf,
  )

  -- What the bytes of `blit buf off vs` are: those of `vs` on its range, else those of `buf`.
  pub get_or-append :
      (xs ys : List A) (i : ℕ) (d : A)
      → get_or (xs ++ ys) i d
        ≡ (if ltb i (length xs) then get_or xs i d else get_or ys (i - length xs) d)
  get_or-append [] ys i d =
      ap (λ k. get_or ys k d) (let e : i ≡ i - 0 = omega arith in e) ∙ ground arith
  get_or-append (x ∷ xs) ys zero d = ground arith
  get_or-append (x ∷ xs) ys (suc i) d = ground (
    arith,
    get_or-append xs ys i d,
    ap (λ k. get_or ys k d) (let e : i - length xs ≡ suc i - suc (length xs) = omega arith in e),
  )

  pub get_or-take :
      (n : ℕ) (xs : List A) (i : ℕ) (d : A) → i < n → get_or (take n xs) i d ≡ get_or xs i d
  get_or-take zero xs i d h = absurd (omega arith)
  get_or-take (suc n) [] i d h = refl
  get_or-take (suc n) (x ∷ xs) zero d h = refl
  get_or-take (suc n) (x ∷ xs) (suc i) d h = get_or-take n xs i d (omega arith)

  pub get_or-drop :
      (n : ℕ) (xs : List A) (i : ℕ) (d : A) → get_or (drop n xs) i d ≡ get_or xs (n + i) d
  get_or-drop zero xs i d = ap (λ k. get_or xs k d) (omega arith)
  get_or-drop (suc n) [] i d = refl
  get_or-drop (suc n) (x ∷ xs) i d =
      get_or-drop n xs i d
      ∙ ap (λ k. get_or (x ∷ xs) k d) (let e : suc (n + i) ≡ suc n + i = omega arith in e)

  pub get_or-blit_inside :
      (buf : List A) (off : ℕ) (vs : List A) (i : ℕ) (d : A)
      → off + length vs ≤ length buf
      → i < length vs
      → get_or (blit buf off vs) (off + i) d ≡ get_or vs i d
  get_or-blit_inside buf off vs i d fits lt = ground (
    arith,
    get_or-append (take off buf) (vs ++ drop (off + length vs) buf) (off + i) d,
    length-take off buf,
    ap (λ k. get_or (vs ++ drop (off + length vs) buf) k d)
        (let e : off + i - length (take off buf) ≡ i = omega (arith, length-take off buf) in e),
    get_or-append vs (drop (off + length vs) buf) i d,
  )

  pub get_or-blit_before :
      (buf : List A) (off : ℕ) (vs : List A) (i : ℕ) (d : A)
      → off + length vs ≤ length buf
      → i < off
      → get_or (blit buf off vs) i d ≡ get_or buf i d
  get_or-blit_before buf off vs i d fits lt = ground (
    arith,
    get_or-append (take off buf) (vs ++ drop (off + length vs) buf) i d,
    length-take off buf,
    get_or-take off buf i d,
  )

  pub get_or-blit_after :
      (buf : List A) (off : ℕ) (vs : List A) (i : ℕ) (d : A)
      → off + length vs ≤ length buf
      → off + length vs ≤ i
      → get_or (blit buf off vs) i d ≡ get_or buf i d
  get_or-blit_after buf off vs i d fits le = ground (
    arith,
    get_or-append (take off buf) (vs ++ drop (off + length vs) buf) i d,
    length-take off buf,
    ap (λ k. get_or (vs ++ drop (off + length vs) buf) k d)
        (let e : i - length (take off buf) ≡ i - off = omega (arith, length-take off buf) in e),
    get_or-append vs (drop (off + length vs) buf) (i - off) d,
    get_or-drop (off + length vs) buf (i - off - length vs) d,
    ap (λ k. get_or buf k d)
        (let e : off + length vs + (i - off - length vs) ≡ i = omega arith in e),
  )

-- A position less than two rounds away: its index is itself, or one round less.
pub mod_cases :
    (cap j : ℕ) → j < cap + cap → ((j < cap) × (j % cap ≡ j)) ⊎ ((cap ≤ j) × (j % cap ≡ j - cap))
mod_cases cap j h = elim (dec_lt j cap) [
  | yes p ↦ inl (p, mod-eq_of_lt p)
  | no p ↦ inr (
    omega arith,
    mod-eq-sub-mod {n = j} {m = cap} (omega arith)
        ∙ mod-eq_of_lt {n = j - cap} {m = cap} (omega arith),
  )
]
