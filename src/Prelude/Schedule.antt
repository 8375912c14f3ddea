-- ===== src/Prelude/Schedule.antt =====
-- Threads that take turns: which one is taken out of those at work, and sums over those at work.
use Prim.Native.Nat.{ℕ, ◌+◌, ◌≤◌}
use mathlib.Core.Path.{◌≡◌, refl}
use mathlib.Core.Option.{Option, none, some}
use mathlib.Core.List.{List, [], ◌∷◌}
use native.Mathlib.Omega.{arith}

-- `Pick t ts us`: the scheduler takes `t` out of `ts`, and `us` are left.
pub data Pick {Thread : Type 0} (t : Thread) : List Thread → List Thread → Type 0 where
  first : {ts : List Thread} → Pick t (t ∷ ts) ts
  later : {u : Thread} {ts us : List Thread} → Pick t ts us → Pick t (u ∷ ts) (u ∷ us)

abbrev pub put_back : {Thread : Type 0} → Option Thread → List Thread → List Thread
put_back none ts = ts
put_back (some t) ts = t ∷ ts

abbrev pub total : {Thread : Type 0} → (Thread → ℕ) → List Thread → ℕ
total w [] = 0
total w (t ∷ ts) = w t + total w ts

pub Pick-total :
    {Thread : Type 0} (w : Thread → ℕ) (t : Thread) {ts us : List Thread}
    → Pick t ts us
    → total w ts ≡ w t + total w us
Pick-total w t first = refl
Pick-total w t (later p) = omega (arith, Pick-total w t p)

-- A weight that is nowhere more has no larger sum.
pub total_mono :
    {Thread : Type 0} (v w : Thread → ℕ)
    → ((t : Thread) → v t ≤ w t)
    → (ts : List Thread) → total v ts ≤ total w ts
total_mono v w h [] = omega arith
total_mono v w h (t ∷ ts) = omega (arith, h t, total_mono v w h ts)

-- A weight that is 0 wherever another is 0 has the sum 0 wherever the other's sum is 0.
pub total-zero :
    {Thread : Type 0} (v w : Thread → ℕ)
    → ((t : Thread) → w t ≡ 0 → v t ≡ 0)
    → (ts : List Thread) → total w ts ≡ 0
    → total v ts ≡ 0
total-zero v w h [] e = refl
total-zero v w h (t ∷ ts) e = omega (arith, h t (omega arith), total-zero v w h ts (omega arith))
