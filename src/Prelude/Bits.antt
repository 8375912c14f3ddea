-- ===== src/Prelude/Bits.antt =====
-- The masks of the ring buffers: `x & (2 ^ k - 1)` is a remainder, and the test
-- `(v & (v - 1)) == 0` finds the powers of two.
use Prim.Native.Nat.{
  ℕ, zero, suc, ◌+◌, ◌-◌, ◌*◌, ◌/◌, ◌%◌, ◌^◌, ◌≤◌, ◌<◌, min, bit_and, digits, bit_and-bitwise,
}
use mathlib.Core.Path.{◌≡◌, refl, ap, sym, ◌∙◌}
use mathlib.Core.Logic.{◌⊎◌, inl, inr}
use mathlib.Core.Bool.{Bool, true, false, not, ◌&&◌}
use mathlib.Core.WellFounded
use native.Mathlib.Nat.{pow-suc, one-le-pow}
use native.Mathlib.Omega.{arith}
use iocpnetwork_engine.Prelude.Tests.{◌==◌, ==_iff, Bool-cases}
use iocpnetwork_engine.Prelude.Order.{lt_wf}

-- What `bit_and` stands for, with the fuel of its recursion as an argument.
abbrev low_bits : ℕ → ℕ → ℕ → ℕ
low_bits fuel v w = digits (λ y. 0) min fuel v w

low_bits-zero : (fuel w : ℕ) → low_bits fuel 0 w ≡ 0
low_bits-zero zero w = refl
low_bits-zero (suc fuel) w = refl

-- One more unit of fuel than there are halvings left is not used.
low_bits-suc : (v w fuel : ℕ) → v ≤ fuel → low_bits (suc fuel) v w ≡ low_bits fuel v w
low_bits-suc zero w fuel h = low_bits-zero (suc fuel) w ∙ sym (low_bits-zero fuel w)
low_bits-suc (suc v) w zero h = absurd (omega arith)
low_bits-suc (suc v) w (suc fuel) h =
    ap (λ (t : ℕ). t * 2 + min (suc v % 2) (w % 2))
      (low_bits-suc (suc v / 2) (w / 2) fuel (omega arith))

low_bits-extra : (extra v w : ℕ) → low_bits (extra + v) v w ≡ low_bits v v w
low_bits-extra zero v w = ap (λ (t : ℕ). low_bits t v w) (let e : 0 + v ≡ v = omega arith in e)
low_bits-extra (suc extra) v w =
    ap (λ (t : ℕ). low_bits t v w) (let e : suc extra + v ≡ suc (extra + v) = omega arith in e)
    ∙ low_bits-suc v w (extra + v) (omega arith)
    ∙ low_bits-extra extra v w

-- The lowest digit and the others.
bit_and_step : (v w : ℕ) → bit_and v w ≡ bit_and (v / 2) (w / 2) * 2 + min (v % 2) (w % 2)
bit_and_step zero w = ground (arith, bit_and-bitwise 0 w, bit_and-bitwise 0 (w / 2))
bit_and_step (suc v) w =
    let half : ℕ = suc v / 2 in
    let enough : v - half + half ≡ v = omega arith in
    bit_and-bitwise (suc v) w
    ∙ ap (λ (t : ℕ). t * 2 + min (suc v % 2) (w % 2))
        (ap (λ (t : ℕ). low_bits t half (w / 2)) (sym enough)
          ∙ low_bits-extra (v - half) half (w / 2)
          ∙ sym (bit_and-bitwise half (w / 2)))

bit_and-zero : (a : ℕ) → bit_and a 0 ≡ 0
bit_and-zero a = WellFounded.induction lt_wf {C = λ k. bit_and k 0 ≡ 0} a halved
  where
    halved : (v : ℕ) → ((m : ℕ) → m < v → bit_and m 0 ≡ 0) → bit_and v 0 ≡ 0
    halved zero smaller = refl
    halved (suc v) smaller =
        omega (arith, smaller (suc v / 2) (omega arith), bit_and_step (suc v) 0)

-- Under a mask of `k` ones the multiples of `2 ^ k` vanish.
bit_and-mask_split : (k q r : ℕ) → r < 2 ^ k → bit_and (q * 2 ^ k + r) (2 ^ k - 1) ≡ r
bit_and-mask_split zero q r h = ground (arith, bit_and-zero q)
bit_and-mask_split (suc k) q r h = ground (
  arith,
  bit_and_step (q * 2 ^ suc k + r) (2 ^ suc k - 1),
  ap (λ (t : ℕ). q * t) (pow-suc 2 k),
  pow-suc 2 k,
  bit_and-mask_split k q (r / 2) (omega (arith, pow-suc 2 k)),
)

-- A mask of `k` low ones is the remainder by `2 ^ k`.
pub bit_and-mask : (k a : ℕ) → bit_and a (2 ^ k - 1) ≡ a % 2 ^ k
bit_and-mask k a = ground (arith, one-le-pow k 2, bit_and-mask_split k (a / 2 ^ k) (a % 2 ^ k))

bit_and_self : (a : ℕ) → bit_and a a ≡ a
bit_and_self a = WellFounded.induction lt_wf {C = λ k. bit_and k k ≡ k} a step
  where
    step : (n : ℕ) → ((m : ℕ) → m < n → bit_and m m ≡ m) → bit_and n n ≡ n
    step zero ih = refl
    step (suc n) ih = omega (arith, bit_and_step (suc n) (suc n), ih (suc n / 2) (omega arith))

abbrev pub IsPowerOfTwo : ℕ → Type 0
IsPowerOfTwo n = (k : ℕ) × (n ≡ 2 ^ k)

-- The test that the sources write out, `value != 0 && (value & (value - 1)) == 0`.
unfoldable pub is_power_of_two : ℕ → Bool
is_power_of_two v = not (v == 0) && (bit_and v (v - 1) == 0)

-- `v & (v - 1)` clears the lowest one, so nothing is left exactly of a power of two.
IsPowerOfTwo-step :
    (n : ℕ)
    → ((m : ℕ) → m < n → 0 < m → bit_and m (m - 1) ≡ 0 → IsPowerOfTwo m)
    → 0 < n
    → bit_and n (n - 1) ≡ 0
    → IsPowerOfTwo n
IsPowerOfTwo-step zero ih pos clear = absurd (omega arith)
IsPowerOfTwo-step (suc zero) ih pos clear = (0, refl)
IsPowerOfTwo-step (suc (suc m)) ih pos clear = half (Bool-cases (n % 2 == 0))
  where
    n : ℕ
    n = suc (suc m)

    half : ((n % 2 == 0) ≡ true) ⊎ ((n % 2 == 0) ≡ false) → IsPowerOfTwo n
    half (inl even) =
        let (k, e) = ih (n / 2) (omega arith) (omega arith) (
          ground (
            arith,
            bit_and_step n (n - 1),
            ap (bit_and (n / 2)) (let h : (n - 1) / 2 ≡ n / 2 - 1 = ground arith in h),
          )) in
        (suc k, omega (arith, e, pow-suc 2 k, (==_iff (n % 2) 0).0 even))
    half (inr odd) = absurd (
        ground (
          arith,
          bit_and_step n (n - 1),
          bit_and_self (n / 2),
          ap (bit_and (n / 2)) (let h : (n - 1) / 2 ≡ n / 2 = ground arith in h),
        ))

pub is_power_of_two_sound : (v : ℕ) → is_power_of_two v ≡ true → IsPowerOfTwo v
unfolding is_power_of_two
is_power_of_two_sound v h =
    WellFounded.induction lt_wf {C = λ n. 0 < n → bit_and n (n - 1) ≡ 0 → IsPowerOfTwo n} v
      IsPowerOfTwo-step (ground arith) (ground arith)
