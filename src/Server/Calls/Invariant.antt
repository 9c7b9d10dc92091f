-- ===== src/Server/Calls/Invariant.antt =====
-- The queues and the pending calls of a group fit together: memodb/lib/Server.cpp and
-- memodb/include/memodb/Server.h.
use bcdb.Prelude.{
  ℕ, suc, ◌+◌, ◌≡◌, refl, ap, ◌∙◌, true, false, ◌&&◌, ◌⊎◌, List, [], ◌∷◌, ◌++◌, Option, none, some,
  arith, leb, Bool-cases, Option-cases, inl, inr,
}
use bcdb.Name.{Call}
use bcdb.Server.Calls.{
  Key, call_key, same_key, PendingCall, pending_call, Calls, CallGroup, empty_group, erase_call,
  assign_call, is_finished, drop_finished, delete_some_finished_calls, delete_if_possible,
  finish_call, retry_call, minutes_between, request_call,
}
use bcdb.Server.Calls.Keys.{
  count, same_key_self, same_key→eq, count-append, count-same, count-other,
}
use bcdb.Server.Calls.Dropping.{places, drop_finished-count, drop_finished-cases}

abbrev pub total : Key → CallGroup → ℕ
total k group = count k group.unstarted_calls + count k group.calls_to_retry

-- A PendingCall under the key of its call, not assigned to a worker once it is finished.
abbrev pub IsKept : Key → Option PendingCall → Type 0
IsKept k none = Unit
IsKept k (some pending) =
    ((pending.assigned && pending.finished) ≡ false) × (call_key pending.call ≡ k)

-- A PendingCall stands in the queues once if it is not assigned to a worker, and no other call
-- stands there.
pub record IsSound (group : CallGroup) : Type 0 where
  pub queued : (k : Key) → total k group ≡ places (group.calls k)
  pub kept : (k : Key) → IsKept k (group.calls k)

pub empty_group-IsSound : IsSound empty_group
empty_group-IsSound = record { queued = λ k. unfold count in refl; kept = λ k. tt }

-- To change one PendingCall.
pub IsSound-assign_call :
    (group next : CallGroup) (key : Key) (pending : PendingCall)
    → IsSound group
    → ((k : Key) → next.calls k ≡ assign_call key pending group.calls k)
    → IsKept key (some pending)
    → total key next ≡ places (some pending)
    → ((k : Key) → same_key k key ≡ false → total k next ≡ total k group)
    → IsSound next
IsSound-assign_call group next key pending sound calls kept here there = record {
  queued = λ k. elim (Bool-cases (same_key k key)) [
    | inl e ↦ rw (calls k, e, same_key→eq k key e) here
    | inr e ↦ rw (calls k, e) (there k e ∙ sound.queued k)
  ];
  kept = λ k. elim (Bool-cases (same_key k key)) [
    | inl e ↦ rw (calls k, e, same_key→eq k key e) kept
    | inr e ↦ rw (calls k, e) (sound.kept k)
  ];
}

IsKept-or_none :
    (k : Key) (o o' : Option PendingCall)
    → IsKept k o
    → (o' ≡ o) ⊎ ((o' ≡ none) × (is_finished o ≡ true))
    → IsKept k o'
IsKept-or_none k o o' h (inl e) = rw e h
IsKept-or_none k o o' h (inr e) = rw (e.0) tt

cases_trans :
    {o o' o'' : Option PendingCall}
    → (o' ≡ o) ⊎ ((o' ≡ none) × (is_finished o ≡ true))
    → (o'' ≡ o') ⊎ ((o'' ≡ none) × (is_finished o' ≡ true))
    → (o'' ≡ o) ⊎ ((o'' ≡ none) × (is_finished o ≡ true))
cases_trans (inl e) (inl f) = inl (f ∙ e)
cases_trans (inl e) (inr (f, g)) = inr (f, rw e at g)
cases_trans (inr (e, d)) (inl f) = inr (f ∙ e, d)
cases_trans (inr (e, d)) (inr (f, g)) = inr (f, d)

pub delete_some_finished_calls-cases :
    (group : CallGroup) (k : Key)
    → let next = delete_some_finished_calls group in
      (next.calls k ≡ group.calls k)
      ⊎ ((next.calls k ≡ none) × (is_finished (group.calls k) ≡ true))
unfolding delete_some_finished_calls
delete_some_finished_calls-cases group k =
    let calls = (drop_finished group.unstarted_calls group.calls).1 in
    cases_trans (drop_finished-cases group.unstarted_calls group.calls k)
      (drop_finished-cases group.calls_to_retry calls k)

pub delete_some_finished_calls-IsSound :
    (group : CallGroup) → IsSound group → IsSound (delete_some_finished_calls group)
unfolding delete_some_finished_calls
delete_some_finished_calls-IsSound group sound = record {
  queued = λ k.
      let second =
        drop_finished-count group.calls_to_retry first.1 (λ j. count j first.0)
          (λ j. omega (arith, one j)) k in
      omega (arith, second);
  kept = λ k. IsKept-or_none k _ _ (sound.kept k) (delete_some_finished_calls-cases group k);
}
  where
    first : List Key × Calls
    first = drop_finished group.unstarted_calls group.calls

    one : (j : Key) → count j first.0 + count j group.calls_to_retry ≡ places (first.1 j)
    one =
        drop_finished-count group.unstarted_calls group.calls (λ j. count j group.calls_to_retry)
          sound.queued

delete_if_possible-IsSound :
    (key : Key) (pending : PendingCall) (group : CallGroup)
    → (pending.assigned ≡ true → IsSound (record group { calls = erase_call key group.calls }))
    → (pending.assigned ≡ false → IsSound group)
    → IsSound (delete_if_possible key pending group)
unfolding delete_if_possible
delete_if_possible-IsSound key pending group h k = elim (Bool-cases pending.assigned) [
  | inl a ↦ rw (a, delete_if_possible) (h a)
  | inr a ↦ rw (a, delete_if_possible) (delete_some_finished_calls-IsSound group (k a))
]

pub finish_call-IsSound :
    (key : Key) (group : CallGroup) → IsSound group → IsSound (finish_call key group)
unfolding finish_call
finish_call-IsSound key group sound = elim (Option-cases (group.calls key)) [
  | inl e ↦ rw (e, finish_call) sound
  | inr (pending, e) ↦
      let finished = record pending { finished = true } in
      rw (e, finish_call)
        (delete_if_possible-IsSound key finished
          (record group { calls = assign_call key finished group.calls })
          (erased pending finished e)
          (λ a.
            IsSound-assign_call group _ key finished sound (λ k. refl)
              (rw a (refl, (rw e at (sound.kept key)).1)) (sound.queued key ∙ rw e refl)
              (λ k f. refl)))
]
  where
    erased :
        (pending other : PendingCall)
        → group.calls key ≡ some pending
        → pending.assigned ≡ true
        → IsSound (record group { calls = erase_call key (assign_call key other group.calls) })
    erased pending other e a = record {
      queued = λ k. elim (Bool-cases (same_key k key)) [
        | inl f ↦ rw f (
            sound.queued k
            ∙ ap (λ t. places (group.calls t)) (same_key→eq k key f)
            ∙ rw (e, a) refl)
        | inr f ↦ rw f (sound.queued k)
      ];
      kept =
          λ k. elim (Bool-cases (same_key k key)) [ inl f ↦ rw f tt | inr f ↦ rw f (sound.kept k) ];
    }

-- A key at the back of a queue.
count-nil : (k : Key) → count k [] ≡ 0
unfolding count
count-nil k = refl

count-back_self :
    (key : Key) (queue : List Key) → count key (queue ++ (key ∷ [])) ≡ suc (count key queue)
count-back_self key queue = omega (
  arith,
  count-append key queue (key ∷ []),
  count-same key key [] (same_key_self key),
  count-nil key,
)

count-back_other :
    (k key : Key) (queue : List Key)
    → same_key k key ≡ false
    → count k (queue ++ (key ∷ [])) ≡ count k queue
count-back_other k key queue f =
    omega (arith, count-append k queue (key ∷ []), count-other k key [] f, count-nil k)

retry_call-IsSound :
    (now : ℕ) (key : Key) (pending : PendingCall) (group : CallGroup)
    → group.calls key ≡ some pending
    → IsSound group
    → IsSound (retry_call now key pending group)
unfolding retry_call
retry_call-IsSound now key pending group e sound =
    elim (Bool-cases
      (pending.assigned && leb pending.timeout_minutes (minutes_between pending.start_time now))) [
        | inl t ↦
            let busy : places (some pending) ≡ 0 = assigned-places t in
            let kept = rw e at (sound.kept key) in
            rw t (
              IsSound-assign_call group _ key _ sound (λ k. refl) (refl, kept.1)
                (omega
                  (arith, count-back_self key group.calls_to_retry, sound.queued key, ap places e))
                (λ k f. omega (arith, count-back_other k key group.calls_to_retry f)))
        | inr t ↦ rw t sound
      ]
  where
    assigned-places :
        (pending.assigned && leb pending.timeout_minutes (minutes_between pending.start_time now))
          ≡ true
        → places (some pending) ≡ 0
    assigned-places t = ground arith

pub request_call-IsSound :
    (now : ℕ) (call : Call) (group : CallGroup)
    → IsSound group
    → IsSound (request_call now call group)
unfolding request_call retry_call
request_call-IsSound now call group sound =
    let key = call_key call in
    elim (Option-cases (group.calls (call_key call))) [
      | inl e ↦
          rw (e, request_call)
            (IsSound-assign_call group _ key (pending_call call) sound (λ k. refl) (refl, refl)
              (omega
                (arith, count-back_self key group.unstarted_calls, sound.queued key, ap places e))
              (λ k f. omega (arith, count-back_other k key group.unstarted_calls f)))
      | inr (pending, e) ↦ rw (e, request_call) (retry_call-IsSound now key pending group e sound)
    ]
