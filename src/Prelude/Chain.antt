-- ===== src/Prelude/Chain.antt =====
-- Singly linked lists in memory: cells at addresses, a link out of each, and the queue that keeps the
-- first and the last cell, as the send queue and the job queue do.
use Prim.Native.Nat.{ℕ}
use mathlib.Core.Path.{◌≡◌, refl, sym, subst, ◌∙◌}
use mathlib.Core.Logic.{◌≢◌}
use mathlib.Core.Bool.{Bool, true, false}
use mathlib.Core.Option.{Option, none, some}
use mathlib.Core.List.{List, [], ◌∷◌, ◌++◌}
use native.Mathlib.Omega.{arith}
use iocpnetwork_engine.Prelude.Tests.{◌==◌, if◌then◌else◌}
use iocpnetwork_engine.Prelude.Lists.{length}

-- An address that is not null.
abbrev pub Ptr : Type 0
Ptr = ℕ

-- The memory after a write to one cell.
abbrev pub update {ℓ} : {A : Type ℓ} → (Ptr → A) → Ptr → A → Ptr → A
update f a v b = if b == a then v else f b

-- `xs` are the cells from `p` on, and the last of them links to null.
abbrev pub Chain : (Ptr → Option Ptr) → Option Ptr → List Ptr → Type 0
Chain next p [] = p ≡ none
Chain next p (x ∷ xs) = (p ≡ some x) × Chain next (next x) xs

abbrev pub Absent : Ptr → List Ptr → Type 0
Absent a [] = Unit {0}
Absent a (x ∷ xs) = (x ≢ a) × Absent a xs

abbrev pub Distinct : List Ptr → Type 0
Distinct [] = Unit {0}
Distinct (x ∷ xs) = Absent x xs × Distinct xs

abbrev pub last : List Ptr → Option Ptr
last [] = none
last (x ∷ []) = some x
last (x ∷ (y ∷ ys)) = last (y ∷ ys)

pub Chain-update :
    (next next' : Ptr → Option Ptr) (a : Ptr) (p : Option Ptr) (xs : List Ptr)
    → ((b : Ptr) → b ≢ a → next' b ≡ next b)
    → Absent a xs
    → Chain next p xs
    → Chain next' p xs
Chain-update next next' a p [] same gone c = c
Chain-update next next' a p (x ∷ xs) same gone c = (
  c.0,
  Chain-update next next' a (next' x) xs same gone.1
      (subst (λ q. Chain next q xs) (sym (same x gone.0)) c.1),
)

pub Absent-append : (a : Ptr) (xs ys : List Ptr) → Absent a xs → Absent a ys → Absent a (xs ++ ys)
Absent-append a [] ys p q = q
Absent-append a (x ∷ xs) ys p q = (p.0, Absent-append a xs ys p.1 q)

pub Distinct-snoc : (xs : List Ptr) (e : Ptr) → Distinct xs → Absent e xs → Distinct (xs ++ e ∷ [])
Distinct-snoc [] e d gone = (tt, tt)
Distinct-snoc (x ∷ xs) e d gone =
    (Absent-append x xs (e ∷ []) d.0 (λ h. gone.0 (sym h), tt), Distinct-snoc xs e d.1 gone.1)

pub last-cons : (x : Ptr) (xs : List Ptr) → (t : Ptr) × (last (x ∷ xs) ≡ some t)
last-cons x [] = (x, refl)
last-cons x (y ∷ ys) = last-cons y ys

pub last-snoc : (xs : List Ptr) (e : Ptr) → last (xs ++ e ∷ []) ≡ some e
last-snoc [] e = refl
last-snoc (x ∷ []) e = refl
last-snoc (x ∷ (y ∷ ys)) e = last-snoc (y ∷ ys) e

pub Absent-last : (a t : Ptr) (xs : List Ptr) → Absent a xs → last xs ≡ some t → a ≢ t
Absent-last a t [] gone l = cc
Absent-last a t (x ∷ []) gone l = λ e. gone.0 (let h : x ≡ t = ground arith in h ∙ sym e)
Absent-last a t (x ∷ (y ∷ ys)) gone l = Absent-last a t (y ∷ ys) gone.1 l

-- Appending a cell behind the last one.
pub Chain-snoc :
    (next next' : Ptr → Option Ptr) (t e : Ptr) (p : Option Ptr) (xs : List Ptr)
    → ((b : Ptr) → b ≢ t → b ≢ e → next' b ≡ next b)
    → next' t ≡ some e
    → next' e ≡ none
    → Distinct xs
    → Absent e xs
    → last xs ≡ some t
    → Chain next p xs
    → Chain next' p (xs ++ e ∷ [])
Chain-snoc next next' t e p [] same link end d gone l c = cc
Chain-snoc next next' t e p (x ∷ []) same link end d gone l c =
    (c.0, (subst (λ q. next' q ≡ some e) (let h : t ≡ x = ground arith in h) link, end))
Chain-snoc next next' t e p (x ∷ (y ∷ ys)) same link end d gone l c = (
  c.0,
  Chain-snoc next next' t e (next' x) (y ∷ ys) same link end d.1 gone.1 l (
      subst (λ q. Chain next q (y ∷ ys)) (sym (same x (Absent-last x t (y ∷ ys) d.0 l) gone.0))
        c.1),
)

abbrev pub is_none : Option Ptr → Bool
is_none none = true
is_none (some a) = false

-- A queue over such a chain.
pub record IsQueue (next : Ptr → Option Ptr) (head tail : Option Ptr) (count : ℕ) (xs : List Ptr)
    : Type 0 where
  pub chain : Chain next head xs
  pub distinct : Distinct xs
  pub ends : tail ≡ last xs
  pub counted : count ≡ length xs

-- A write outside the list leaves the queue as it is.
pub IsQueue-update :
    (next next' : Ptr → Option Ptr) (a : Ptr) {head tail : Option Ptr} {count : ℕ} (xs : List Ptr)
    → ((b : Ptr) → b ≢ a → next' b ≡ next b)
    → Absent a xs
    → IsQueue next head tail count xs
    → IsQueue next' head tail count xs
IsQueue-update next next' a {head = head} xs same gone q = record {
  chain = Chain-update next next' a head xs same gone q.chain;
  distinct = q.distinct;
  ends = q.ends;
  counted = q.counted;
}

-- The tail and the count without the first cell, as the queues update them.
pub popped_tail :
    (next : Ptr → Option Ptr) (x : Ptr) (xs : List Ptr) (p : Option Ptr)
    → Chain next p xs
    → (if is_none p then none else last (x ∷ xs)) ≡ last xs
popped_tail next x [] p c = rw c
popped_tail next x (y ∷ ys) p c = rw c.0
