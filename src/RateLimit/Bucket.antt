-- ===== src/RateLimit/Bucket.antt =====
-- One bucket against the requests of its window.
use eitoh_forge.Prelude.{
  ℕ, ◌+◌, ◌≤◌, ◌<◌, ◌≡◌, refl, List, [], ◌∷◌, ◌++◌, if◌then◌else◌, ltb, length, arith, All,
}
use eitoh_forge.RateLimit.{evict}

-- The requests that the window ending at `now` still holds.
unfoldable pub live : ℕ → ℕ → List ℕ → ℕ
live w now [] = 0
live w now (t ∷ ts) = (if ltb now (t + w) then 1 else 0) + live w now ts

-- Times do not fall along a bucket, and end at `last` at the latest.
abbrev pub SortedTo : ℕ → List ℕ → Type 0
SortedTo last [] = Unit {0}
SortedTo last (t ∷ ts) = (t ≤ last) × All (λ s. t ≤ s) ts × SortedTo last ts

pub live-append :
    (w now : ℕ) (ts us : List ℕ) → live w now (ts ++ us) ≡ live w now ts + live w now us
unfolding live
live-append w now [] us = omega arith
live-append w now (t ∷ ts) us = omega (arith, live-append w now ts us)

pub live-le-length : (w now : ℕ) (ts : List ℕ) → live w now ts ≤ length ts
unfolding live
live-le-length w now [] = omega arith
live-le-length w now (t ∷ ts) = ground (arith, live-le-length w now ts)

-- Eviction drops nothing that a later window holds.
pub live-evict :
    (w now later : ℕ) (ts : List ℕ) → now ≤ later → live w later (evict w now ts) ≡ live w later ts
unfolding live evict
live-evict w now later [] h = refl
live-evict w now later (t ∷ ts) h = ground (arith, live-evict w now later ts h)

pub evict-SortedTo :
    (w now last : ℕ) (ts : List ℕ) → SortedTo last ts → SortedTo last (evict w now ts)
unfolding evict
evict-SortedTo w now last [] h = tt
evict-SortedTo w now last (t ∷ ts) (a, b, c) = ground (arith, evict-SortedTo w now last ts c)

pub live_at :
    (w now t : ℕ) (ts : List ℕ) → now < t + w → All (λ s. t ≤ s) ts → live w now ts ≡ length ts
unfolding live
live_at w now t [] h a = refl
live_at w now t (s ∷ ts) h a = ground (arith, live_at w now t ts h a.1)

-- In a sorted bucket eviction leaves exactly what the window holds.
pub length-evict :
    (w now last : ℕ) (ts : List ℕ) → SortedTo last ts → length (evict w now ts) ≡ live w now ts
unfolding evict live
length-evict w now last [] h = refl
length-evict w now last (t ∷ ts) (a, b, c) =
    ground (arith, length-evict w now last ts c, live_at w now t ts)

pub length-evict-le : (w now : ℕ) (ts : List ℕ) → length (evict w now ts) ≤ length ts
unfolding evict
length-evict-le w now [] = omega arith
length-evict-le w now (t ∷ ts) = ground (arith, length-evict-le w now ts)

All-append_one :
    (t now : ℕ) (ts : List ℕ) → All (λ s. t ≤ s) ts → t ≤ now → All (λ s. t ≤ s) (ts ++ now ∷ [])
All-append_one t now [] h le = (le, tt)
All-append_one t now (s ∷ ts) h le = (h.0, All-append_one t now ts h.1 le)

pub SortedTo-append :
    (last now : ℕ) (ts : List ℕ) → last ≤ now → SortedTo last ts → SortedTo now (ts ++ now ∷ [])
SortedTo-append last now [] le h = (omega arith, tt, tt)
SortedTo-append last now (t ∷ ts) le (a, b, c) =
    (omega arith, All-append_one t now ts b (omega arith), SortedTo-append last now ts le c)

pub SortedTo-mono : (a b : ℕ) (ts : List ℕ) → a ≤ b → SortedTo a ts → SortedTo b ts
SortedTo-mono a b [] le h = tt
SortedTo-mono a b (t ∷ ts) le (x, y, z) = (omega arith, y, SortedTo-mono a b ts le z)
