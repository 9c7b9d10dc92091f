-- ===== src/Server/Calls/Dropping.antt =====
-- What deleteSomeFinishedCalls of memodb/lib/Server.cpp keeps.
use bcdb.Prelude.{
  ℕ, ◌+◌, ◌≤◌, ◌≡◌, refl, Bool, true, false, ◌⊎◌, List, [], ◌∷◌, Option, none, some, if◌then◌else◌,
  arith, Bool-cases, inl, inr,
}
use bcdb.Server.Calls.{Key, same_key, PendingCall, Calls, erase_call, is_finished, drop_finished}
use bcdb.Server.Calls.Keys.{count, same_key→eq, count-same, count-other}

-- How often a call has to stand in the queues.
abbrev pub places : Option PendingCall → ℕ
places none = 0
places (some pending) = if pending.assigned then 0 else 1

places-le_one : (o : Option PendingCall) → places o ≤ 1
places-le_one none = omega arith
places-le_one (some pending) = ground arith

pub drop_finished-count :
    (queue : List Key) (calls : Calls) (other : Key → ℕ)
    → ((k : Key) → count k queue + other k ≡ places (calls k))
    → (k : Key)
    → let (kept, left) = drop_finished queue calls in count k kept + other k ≡ places (left k)
unfolding drop_finished
drop_finished-count [] calls other h k = h k
drop_finished-count (key ∷ queue) calls other h k = elim (Bool-cases (is_finished (calls key))) [
  | inl e ↦ rw (e, drop_finished) (drop_finished-count queue (erase_call key calls) other shorter k)
  | inr e ↦ rw (e, drop_finished) (h k)
]
  where
    shorter : (j : Key) → count j queue + other j ≡ places (erase_call key calls j)
    shorter j = elim (Bool-cases (same_key j key)) [
      | inl e ↦ rw e (omega (arith, h j, count-same j key queue e, places-le_one (calls j)))
      | inr e ↦ rw e (omega (arith, h j, count-other j key queue e))
    ]

drop_finished-none :
    (queue : List Key) (calls : Calls) (k : Key)
    → calls k ≡ none
    → (drop_finished queue calls).1 k ≡ none
unfolding drop_finished
drop_finished-none [] calls k h = h
drop_finished-none (key ∷ queue) calls k h = elim (Bool-cases (is_finished (calls key))) [
  | inl e ↦
      rw (e, drop_finished)
        (drop_finished-none queue (erase_call key calls) k (still (same_key k key)))
  | inr e ↦ rw (e, drop_finished) h
]
  where
    still : (b : Bool) → (if b then none else calls k) ≡ none
    still true = refl
    still false = h

-- A PendingCall is kept, or it is erased and was finished.
pub drop_finished-cases :
    (queue : List Key) (calls : Calls) (k : Key)
    → let (kept, left) = drop_finished queue calls in
      (left k ≡ calls k) ⊎ ((left k ≡ none) × (is_finished (calls k) ≡ true))
unfolding drop_finished
drop_finished-cases [] calls k = inl refl
drop_finished-cases (key ∷ queue) calls k = elim (Bool-cases (is_finished (calls key))) [
  | inl e ↦
      rw (e, drop_finished)
        (elim (Bool-cases (same_key k key)) [
          | inl same ↦ inr (gone same, rw ((same_key→eq k key same)) e)
          | inr other ↦ rw other at (drop_finished-cases queue (erase_call key calls) k)
        ])
  | inr e ↦ rw (e, drop_finished) (inl refl)
]
  where
    gone : same_key k key ≡ true → (drop_finished queue (erase_call key calls)).1 k ≡ none
    gone same = drop_finished-none queue (erase_call key calls) k (rw same refl)

-- The front of the queue that is left is not finished.
pub drop_finished-front :
    (queue : List Key) (calls : Calls) {key : Key} {rest : List Key}
    → (drop_finished queue calls).0 ≡ key ∷ rest
    → is_finished ((drop_finished queue calls).1 key) ≡ false
unfolding drop_finished
drop_finished-front [] calls h = absurd (cc)
drop_finished-front (k ∷ queue) calls h = elim (Bool-cases (is_finished (calls k))) [
  | inl e ↦
      rw (e, drop_finished)
        (drop_finished-front queue (erase_call k calls) (rw (e, drop_finished) at h))
  | inr e ↦ let same = (rw (e, drop_finished) at h) in rw (e, drop_finished) cc
]
