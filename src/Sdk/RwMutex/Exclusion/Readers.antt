-- ===== src/Sdk/RwMutex/Exclusion/Readers.antt =====
-- The readers of an rwmutex up to their order: who reads, and how often.
use mathlib.Core.Quot
use mathlib.Core.Quot.{Quot, Quot-set}
use konductor.Prelude.{
  ◌≡◌, refl, eq_iff, ℕ, ◌+◌, ◌==◌, Bool, true, false, String, str_eq, List, [], ◌∷◌, ◌++◌, length,
  any, if◌then◌else◌, arith,
}
use konductor.Sdk.RwMutex.{others}

abbrev pub tally : String → List String → ℕ
tally a [] = 0
tally a (x ∷ xs) = (if str_eq x a then 1 else 0) + tally a xs

-- The same readers, as often.
abbrev pub SameReaders : List String → List String → Type 0
SameReaders xs ys = (a : String) → tally a xs ≡ tally a ys

abbrev pub Readers : Type 0
Readers = Quot SameReaders

abbrev pub readers_of : List String → Readers
readers_of = Quot.mk

tally-append : (a : String) (xs ys : List String) → tally a (xs ++ ys) ≡ tally a xs + tally a ys
tally-append a [] ys = omega arith
tally-append a (x ∷ xs) ys = ground (arith, tally-append a xs ys)

tally-others :
    (a holder : String) (xs : List String)
    → tally a (others holder xs) ≡ (if str_eq a holder then 0 else tally a xs)
tally-others a holder [] = ground arith
tally-others a holder (x ∷ xs) =
    ground (arith, tally-others a holder xs, eq_iff x a, eq_iff x holder, eq_iff a holder)

pub SameReaders-others :
    (holder : String) (xs ys : List String)
    → SameReaders xs ys
    → SameReaders (others holder xs) (others holder ys)
SameReaders-others holder xs ys same a =
    ground (arith, tally-others a holder xs, tally-others a holder ys, same a)

any-tally :
    (holder : String) (xs : List String)
    → any (λ x. str_eq x holder) xs ≡ (if tally holder xs == 0 then false else true)
any-tally holder [] = refl
any-tally holder (x ∷ xs) = ground (arith, any-tally holder xs)

pub same_empty : (xs ys : List String) → SameReaders xs ys → (length xs == 0) ≡ (length ys == 0)
same_empty [] [] same = refl
same_empty [] (y ∷ ys) same = absurd (ground (arith, same y, eq_iff y y))
same_empty (x ∷ xs) [] same = absurd (ground (arith, same x, eq_iff x x))
same_empty (x ∷ xs) (y ∷ ys) same = ground arith

pub SameReaders-join :
    (holder : String) (xs ys : List String)
    → SameReaders xs ys
    → SameReaders (xs ++ (holder ∷ [])) (ys ++ (holder ∷ []))
SameReaders-join holder xs ys same a =
    omega (arith, tally-append a xs (holder ∷ []), tally-append a ys (holder ∷ []), same a)

pub same_any :
    (holder : String) (xs ys : List String)
    → SameReaders xs ys
    → any (λ x. str_eq x holder) xs ≡ any (λ x. str_eq x holder) ys
same_any holder xs ys same = ground (arith, any-tally holder xs, any-tally holder ys, same holder)

-- One reader more, no entry of a reader, whether somebody reads, and whether nobody does.
unfoldable pub join : String → Readers → Readers
join holder =
    Quot.lift Quot-set (λ xs. readers_of (xs ++ (holder ∷ [])))
      (λ xs ys same. Quot.sound (SameReaders-join holder xs ys same))

unfoldable pub drop : String → Readers → Readers
drop holder =
    Quot.lift Quot-set (λ xs. readers_of (others holder xs))
      (λ xs ys same. Quot.sound (SameReaders-others holder xs ys same))

unfoldable pub reads : String → Readers → Bool
reads holder = Quot.lift (hlevel) (λ xs. any (λ x. str_eq x holder) xs) (same_any holder)

unfoldable pub is_empty : Readers → Bool
is_empty = Quot.lift (hlevel) (λ xs. length xs == 0) same_empty

-- Readers have no order.
pub join_comm : (a b : String) (rs : Readers) → join a (join b rs) ≡ join b (join a rs)
unfolding join
join_comm a b =
    Quot.ind (λ _. Quot-set _ _)
      (λ xs. Quot.sound (λ c. omega (
        arith,
        tally-append c (xs ++ (b ∷ [])) (a ∷ []),
        tally-append c xs (b ∷ []),
        tally-append c (xs ++ (a ∷ [])) (b ∷ []),
        tally-append c xs (a ∷ []),
      )))
