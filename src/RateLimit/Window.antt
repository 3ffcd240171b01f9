-- ===== src/RateLimit/Window.antt =====
-- The deque of one key: sorted by time, and what cleaning leaves of it.
use temp_task.Prelude.{
  ◌≤◌, ◌≡◌, refl, Bool, not, List, [], ◌∷◌, ◌++◌, arith, length, keep_if, All, ℤ, ◌≤ℤ◌, ltb_ℤ,
  count_if,
}
use temp_task.RateLimit.{pop_expired}

-- The times of a deque do not fall, and none is later than `now`.
abbrev pub IsSorted : ℤ → List ℤ → Type 0
IsSorted now [] = Unit {0}
IsSorted now (t ∷ ts) = (t ≤ℤ now) × All (λ s. t ≤ℤ s) ts × IsSorted now ts

-- Not yet expired at a cutoff.
abbrev pub is_fresh : ℤ → ℤ → Bool
is_fresh cutoff t = not (ltb_ℤ t cutoff)

keep_if-of_All :
    (cutoff t : ℤ) (ts : List ℤ)
    → cutoff ≤ℤ t
    → All (λ s. t ≤ℤ s) ts
    → keep_if (is_fresh cutoff) ts ≡ ts
keep_if-of_All cutoff t [] h a = refl
keep_if-of_All cutoff t (s ∷ ts) h a = ground (arith, keep_if-of_All cutoff t ts h a.1)

-- On a sorted deque the loop at the front removes every expired time, not just a prefix.
pub pop_expired-eq-keep_if :
    (now cutoff : ℤ) (ts : List ℤ)
    → IsSorted now ts
    → pop_expired cutoff ts ≡ keep_if (is_fresh cutoff) ts
unfolding pop_expired
pop_expired-eq-keep_if now cutoff [] h = refl
pop_expired-eq-keep_if now cutoff (t ∷ ts) h =
    ground (arith, pop_expired-eq-keep_if now cutoff ts h.2, keep_if-of_All cutoff t ts)

pub pop_expired-IsSorted :
    (now cutoff : ℤ) (ts : List ℤ) → IsSorted now ts → IsSorted now (pop_expired cutoff ts)
unfolding pop_expired
pop_expired-IsSorted now cutoff [] h = tt
pop_expired-IsSorted now cutoff (t ∷ ts) h = ground (arith, pop_expired-IsSorted now cutoff ts h.2)

pub IsSorted-mono :
    (now later : ℤ) (ts : List ℤ) → now ≤ℤ later → IsSorted now ts → IsSorted later ts
IsSorted-mono now later [] le h = tt
IsSorted-mono now later (t ∷ ts) le h = (omega arith, h.1, IsSorted-mono now later ts le h.2)

All-le-append :
    (t now : ℤ) (ts : List ℤ) → t ≤ℤ now → All (λ s. t ≤ℤ s) ts → All (λ s. t ≤ℤ s) (ts ++ now ∷ [])
All-le-append t now [] le h = (le, tt)
All-le-append t now (s ∷ ts) le h = (h.0, All-le-append t now ts le h.1)

pub IsSorted-append : (now : ℤ) (ts : List ℤ) → IsSorted now ts → IsSorted now (ts ++ now ∷ [])
IsSorted-append now [] h = (omega arith, tt, tt)
IsSorted-append now (t ∷ ts) h = (h.0, All-le-append t now ts h.0 h.1, IsSorted-append now ts h.2)

pub length-pop_expired-le : (cutoff : ℤ) (ts : List ℤ) → length (pop_expired cutoff ts) ≤ length ts
unfolding pop_expired
length-pop_expired-le cutoff [] = omega arith
length-pop_expired-le cutoff (t ∷ ts) = ground (arith, length-pop_expired-le cutoff ts)

pub length-keep_if : (p : ℤ → Bool) (ts : List ℤ) → length (keep_if p ts) ≡ count_if p ts
length-keep_if p [] = refl
length-keep_if p (t ∷ ts) = ground (arith, length-keep_if p ts)

-- Cleaning twice, the later cutoff last, is cleaning once.
pub pop_expired-pop_expired :
    (c d : ℤ) (ts : List ℤ) → c ≤ℤ d → pop_expired d (pop_expired c ts) ≡ pop_expired d ts
unfolding pop_expired
pop_expired-pop_expired c d [] h = refl
pop_expired-pop_expired c d (t ∷ ts) h = ground (arith, pop_expired-pop_expired c d ts h)

-- A time that is fresh at a cutoff is not removed by a cleaning at an earlier one.
pub count_if-pop_expired :
    (c d : ℤ) (ts : List ℤ)
    → c ≤ℤ d
    → count_if (is_fresh d) (pop_expired c ts) ≡ count_if (is_fresh d) ts
unfolding pop_expired
count_if-pop_expired c d [] h = refl
count_if-pop_expired c d (t ∷ ts) h = ground (arith, count_if-pop_expired c d ts h)
