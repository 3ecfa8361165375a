-- ===== src/RequestSigning/Nonces.antt =====
-- The store of nonces: what pruning leaves, and that a marked nonce stays until it expires.
use eitoh_forge.Prelude.{
  ℕ, ◌≤◌, ◌<◌, ◌≡◌, refl, String, str_eq, true, false, not, ◌&&◌, Option, none, some, is_some, List,
  [], ◌∷◌, if◌then◌else◌, arith, eq_iff, inl, inr, Option-cases,
}
use eitoh_forge.Prelude.Dict.{get, remove, get-put, get-remove}
use eitoh_forge.Prelude.Sets.{has}
use eitoh_forge.RequestSigning.{NonceStore, keys_of, expired, prune_keys, prune, mark}

abbrev pub live_at : ℕ → Option ℕ → Option ℕ
live_at now o = if expired o now then none else o

get-keys : (d : NonceStore) (k : String) → has k (keys_of d) ≡ is_some (get d k)
unfolding has get
get-keys [] k = refl
get-keys ((j, e) ∷ d) k = ground (arith, get-keys d k)

get-expire :
    (now : ℕ) (d : NonceStore) (j k : String)
    → get (if expired (get d j) now then remove d j else d) k
      ≡ (if str_eq j k then live_at now (get d k) else get d k)
get-expire now d j k = ground (arith, get-remove d j k, eq_iff j k)

live_at_twice : (now : ℕ) (o : Option ℕ) → live_at now (live_at now o) ≡ live_at now o
live_at_twice now none = refl
live_at_twice now (some e) = ground arith

get-prune_keys :
    (keys : List String) (now : ℕ) (d : NonceStore) (k : String)
    → get (prune_keys keys now d) k ≡ (if has k keys then live_at now (get d k) else get d k)
unfolding prune_keys has
get-prune_keys [] now d k = refl
get-prune_keys (j ∷ keys) now d k = ground (
  arith,
  get-prune_keys keys now (if expired (get d j) now then remove d j else d) k,
  get-expire now d j k,
  live_at_twice now (get d k),
)

pub get-prune :
    (now : ℕ) (d : NonceStore) (k : String) → get (prune now d) k ≡ live_at now (get d k)
unfolding prune
get-prune now d k = elim (Option-cases (get d k)) [
  | inl e ↦ ground (arith, e, get-prune_keys (keys_of d) now d k, get-keys d k)
  | inr (x, e) ↦ ground (arith, e, get-prune_keys (keys_of d) now d k, get-keys d k)
]

-- A mark is fresh exactly if no record of the nonce is alive.
pub mark_fresh :
    (d : NonceStore) (k : String) (e now : ℕ)
    → (mark d k e now).0 ≡ not (is_some (live_at now (get d k)))
unfolding mark
mark_fresh d k e now = ground (arith, get-prune now d k)

pub get-mark :
    (d : NonceStore) (k j : String) (e now : ℕ)
    → get (mark d k e now).1 j
      ≡ (if (mark d k e now).0 && str_eq k j then some e else live_at now (get d j))
unfolding mark
get-mark d k j e now =
    ground (arith, get-prune now d j, get-prune now d k, get-put (prune now d) k j e)

-- From the time `now` on, until it expires, the record of `k` is there.
abbrev pub Guards : NonceStore → String → (expires_at now : ℕ) → Type 0
Guards d k e now = now < e → get d k ≡ some e

pub mark-Guards :
    (d : NonceStore) (k : String) (e now : ℕ)
    → (mark d k e now).0 ≡ true
    → Guards (mark d k e now).1 k e now
mark-Guards d k e now h before = ground (arith, get-mark d k k e now, h, eq_iff k k)

pub mark-Guards_later :
    (d : NonceStore) (k j : String) (e f now later : ℕ)
    → now ≤ later
    → Guards d k e now
    → Guards (mark d j f later).1 k e later
mark-Guards_later d k j e f now later h g before =
    ground (arith, get-mark d j k f later, mark_fresh d j f later, eq_iff j k, g (omega arith))

pub Guards-mark :
    (d : NonceStore) (k : String) (e f now later : ℕ)
    → now ≤ later
    → later < e
    → Guards d k e now
    → (mark d k f later).0 ≡ false
Guards-mark d k e f now later h before g = ground (arith, mark_fresh d k f later, g (omega arith))
