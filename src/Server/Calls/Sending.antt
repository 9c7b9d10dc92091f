-- ===== src/Server/Calls/Sending.antt =====
-- What goes to a worker, and every event keeps the invariant: memodb/lib/Server.cpp.
use mathlib.Core.Path.{subst}
use mathlib.Core.Option.{some-injective}
use bcdb.Prelude.{
  ℕ, suc, ◌+◌, ◌≡◌, refl, ap, ◌∙◌, sym, true, false, ◌⊎◌, List, [], ◌∷◌, Option, none, some, arith,
  Bool-cases, Option-cases, inl, inr,
}
use bcdb.Name.{Call}
use bcdb.Server.Calls.{
  Key, call_key, same_key, PendingCall, CallGroup, empty_group, is_finished, drop_finished,
  delete_some_finished_calls, send_call, send_unstarted, send_retry, poll_unstarted, poll_retry,
  Event, requested, result_stored, worker_asked, worker_asked_again, step, run,
}
use bcdb.Server.Calls.Keys.{count, same_key_self, same_key→eq, count-same, count-other}
use bcdb.Server.Calls.Dropping.{places, drop_finished-cases, drop_finished-front}
use bcdb.Server.Calls.Invariant.{
  IsSound, total, IsSound-assign_call, empty_group-IsSound, delete_some_finished_calls-cases,
  delete_some_finished_calls-IsSound, finish_call-IsSound, request_call-IsSound,
}

-- A call that was waiting goes to a worker, and the worker has it alone.
pub record IsSent (now : ℕ) (key : Key) (before : CallGroup) (call : Option Call)
    (after : CallGroup) : Type 0 where
  pub pending : PendingCall
  pub found : before.calls key ≡ some pending
  pub waiting : pending.assigned ≡ false
  pub unfinished : pending.finished ≡ false
  pub sent : call ≡ some pending.call
  pub taken : after.calls key ≡ some (record pending { assigned = true; start_time = now })
  pub gone : total key after ≡ 0
  pub as_finished : (k : Key) → is_finished (after.calls k) ≡ is_finished (before.calls k)

pub send_call-is_finished :
    (now : ℕ) (key : Key) (group : CallGroup) (k : Key)
    → is_finished ((send_call now key group).1.calls k) ≡ is_finished (group.calls k)
unfolding send_call
send_call-is_finished now key group k = elim (Option-cases (group.calls key)) [
  | inl e ↦ rw (e, send_call) refl
  | inr (pending, e) ↦ elim (Bool-cases (same_key k key)) [
    | inl f ↦ rw (e, send_call, f, same_key→eq k key f, e) refl
    | inr f ↦ rw (e, send_call, f) refl
  ]
]

module _ (now : ℕ) (key : Key) (group next : CallGroup) (sound : IsSound group)
    (unfinished : is_finished (group.calls key) ≡ false)
    (calls : (k : Key) → next.calls k ≡ group.calls k)
    (here : suc (total key next) ≡ total key group)
    (there : (k : Key) → same_key k key ≡ false → total k next ≡ total k group) where
  waiting-places :
      (pending : PendingCall) → group.calls key ≡ some pending → places (some pending) ≡ 1
  waiting-places pending e =
      let busy : suc (total key next) ≡ places (some pending) =
        here ∙ sound.queued key ∙ ap places e in
      ground arith

  not_assigned : (pending : PendingCall) → group.calls key ≡ some pending → pending.assigned ≡ false
  not_assigned pending e = let one = waiting-places pending e in ground arith

  send-IsSent : IsSent now key group (send_call now key next).0 (send_call now key next).1
  unfolding send_call
  send-IsSent = elim (Option-cases (group.calls key)) [
    | inl e ↦ absurd (omega (arith, here, sound.queued key, ap places e))
    | inr (pending, e) ↦
        let found = calls key ∙ e in
        let one = waiting-places pending e in
        record {
          pending = pending;
          found = e;
          waiting = not_assigned pending e;
          unfinished = rw e at unfinished;
          sent = rw (found, send_call) refl;
          taken = rw (found, send_call) (rw (same_key_self key) refl);
          gone = rw (found, send_call) (omega (arith, here, sound.queued key, ap places e, one));
          as_finished = λ k. send_call-is_finished now key next k ∙ ap is_finished (calls k);
        }
  ]

  send-IsSound : IsSound (send_call now key next).1
  unfolding send_call
  send-IsSound = elim (Option-cases (group.calls key)) [
    | inl e ↦ absurd (omega (arith, here, sound.queued key, ap places e))
    | inr (pending, e) ↦
        let found = calls key ∙ e in
        let one = waiting-places pending e in
        rw (found, send_call)
          (IsSound-assign_call group _ key (record pending { assigned = true; start_time = now })
            sound (λ k. rw (calls k) refl) (rw e at unfinished, (rw e at (sound.kept key)).1)
            (omega (arith, here, sound.queued key, ap places e, one)) there)
  ]

-- Without a call the group is only cleaned of finished calls, and has none in the queue.
abbrev pub Polled : ℕ → CallGroup → (CallGroup → List Key) → Option Call × CallGroup → Type 0
Polled now group queue (call, after) =
    let cleaned = delete_some_finished_calls group in
    ((call ≡ none) × (after ≡ cleaned) × (queue cleaned ≡ []))
    ⊎ ((key : Key) × (rest : List Key) × (queue cleaned ≡ key ∷ rest)
        × (queue after ≡ rest)
        × IsSent now key cleaned call after
        × IsSound after)

front_unstarted :
    (group : CallGroup) {key : Key} {rest : List Key}
    → (delete_some_finished_calls group).unstarted_calls ≡ key ∷ rest
    → is_finished ((delete_some_finished_calls group).calls key) ≡ false
unfolding delete_some_finished_calls
front_unstarted group {key} e =
    let first = drop_finished group.unstarted_calls group.calls in
    still (drop_finished-front group.unstarted_calls group.calls e)
      (drop_finished-cases group.calls_to_retry first.1 key)
  where
    still :
        {o o' : Option PendingCall}
        → is_finished o ≡ false
        → (o' ≡ o) ⊎ ((o' ≡ none) × (is_finished o ≡ true))
        → is_finished o' ≡ false
    still h (inl e) = rw e h
    still h (inr (e, f)) = rw e refl

front_retry :
    (group : CallGroup) {key : Key} {rest : List Key}
    → (delete_some_finished_calls group).calls_to_retry ≡ key ∷ rest
    → is_finished ((delete_some_finished_calls group).calls key) ≡ false
unfolding delete_some_finished_calls
front_retry group e =
    drop_finished-front group.calls_to_retry (drop_finished group.unstarted_calls group.calls).1 e

pub send_call-queues :
    (now : ℕ) (key : Key) (group : CallGroup)
    → let after = (send_call now key group).1 in
      (after.unstarted_calls ≡ group.unstarted_calls)
      × (after.calls_to_retry ≡ group.calls_to_retry)
unfolding send_call
send_call-queues now key group = elim (Option-cases (group.calls key)) [
  | inl e ↦ rw (e, send_call) (refl, refl)
  | inr (pending, e) ↦ rw (e, send_call) (refl, refl)
]

count_front :
    (key : Key) (rest queue : List Key)
    → queue ≡ key ∷ rest
    → suc (count key rest) ≡ count key queue
count_front key rest queue e = rw e (sym (count-same key key rest (same_key_self key)))

count_behind :
    (k key : Key) (rest queue : List Key)
    → queue ≡ key ∷ rest
    → same_key k key ≡ false
    → count k rest ≡ count k queue
count_behind k key rest queue e f = rw e (sym (count-other k key rest f))

module _ (now : ℕ) (group : CallGroup) (sound : IsSound group) where
  cleaned : CallGroup
  cleaned = delete_some_finished_calls group

  cleaned-IsSound : IsSound cleaned
  unfolding cleaned
  cleaned-IsSound = delete_some_finished_calls-IsSound group sound

  Polled-send_unstarted :
      (queue : List Key)
      → cleaned.unstarted_calls ≡ queue
      → Polled now group (λ g. g.unstarted_calls) (send_unstarted now queue cleaned)
  unfolding cleaned
  Polled-send_unstarted [] e = inl (refl, refl, e)
  Polled-send_unstarted (key ∷ rest) e =
      let next = record cleaned { unstarted_calls = rest } in
      let front = front_unstarted group e in
      let here : suc (total key next) ≡ total key cleaned =
        omega (arith, count_front key rest cleaned.unstarted_calls e) in
      let there = λ (k : Key) (f : same_key k key ≡ false).
        ap (λ t. t + count k cleaned.calls_to_retry)
          (count_behind k key rest cleaned.unstarted_calls e f) in
      inr (
        key,
        rest,
        e,
        (send_call-queues now key next).0,
        send-IsSent now key cleaned next cleaned-IsSound front (λ k. refl) here there,
        send-IsSound now key cleaned next cleaned-IsSound front (λ k. refl) here there,
      )

  Polled-send_retry :
      (queue : List Key)
      → cleaned.calls_to_retry ≡ queue
      → Polled now group (λ g. g.calls_to_retry) (send_retry now queue cleaned)
  unfolding cleaned
  Polled-send_retry [] e = inl (refl, refl, e)
  Polled-send_retry (key ∷ rest) e =
      let next = record cleaned { calls_to_retry = rest } in
      let front = front_retry group e in
      let here : suc (total key next) ≡ total key cleaned =
        omega (arith, count_front key rest cleaned.calls_to_retry e) in
      let there = λ (k : Key) (f : same_key k key ≡ false).
        ap (λ t. count k cleaned.unstarted_calls + t)
          (count_behind k key rest cleaned.calls_to_retry e f) in
      inr (
        key,
        rest,
        e,
        (send_call-queues now key next).1,
        send-IsSent now key cleaned next cleaned-IsSound front (λ k. refl) here there,
        send-IsSound now key cleaned next cleaned-IsSound front (λ k. refl) here there,
      )

  pub poll_unstarted-cases : Polled now group (λ g. g.unstarted_calls) (poll_unstarted now group)
  unfolding poll_unstarted cleaned
  poll_unstarted-cases = Polled-send_unstarted cleaned.unstarted_calls refl

  pub poll_retry-cases : Polled now group (λ g. g.calls_to_retry) (poll_retry now group)
  unfolding poll_retry cleaned
  poll_retry-cases = Polled-send_retry cleaned.calls_to_retry refl

Polled-IsSound :
    (now : ℕ) (group : CallGroup) (queue : CallGroup → List Key) (result : Option Call × CallGroup)
    → IsSound group
    → Polled now group queue result
    → IsSound result.1
Polled-IsSound now group queue result sound (inl (e, same, f)) =
    subst IsSound (sym same) (delete_some_finished_calls-IsSound group sound)
Polled-IsSound now group queue result sound (inr h) = h.5

pub poll_unstarted-IsSound :
    (now : ℕ) (group : CallGroup) → IsSound group → IsSound (poll_unstarted now group).1
poll_unstarted-IsSound now group sound =
    Polled-IsSound now group (λ g. g.unstarted_calls) _ sound (poll_unstarted-cases now group sound)

pub poll_retry-IsSound :
    (now : ℕ) (group : CallGroup) → IsSound group → IsSound (poll_retry now group).1
poll_retry-IsSound now group sound =
    Polled-IsSound now group (λ g. g.calls_to_retry) _ sound (poll_retry-cases now group sound)

pub step-IsSound :
    (event : Event) (group : CallGroup) → IsSound group → IsSound (step event group).1
unfolding step
step-IsSound (requested now call) group sound = request_call-IsSound now call group sound
step-IsSound (result_stored call) group sound = finish_call-IsSound (call_key call) group sound
step-IsSound (worker_asked now) group sound = poll_unstarted-IsSound now group sound
step-IsSound (worker_asked_again now) group sound = poll_retry-IsSound now group sound

pub run-IsSound_from :
    (events : List Event) (group : CallGroup) → IsSound group → IsSound (run events group)
unfolding run
run-IsSound_from [] group sound = sound
run-IsSound_from (event ∷ events) group sound =
    run-IsSound_from events (step event group).1 (step-IsSound event group sound)

-- Whatever the handlers do with a group, and in whichever order: a PendingCall stands in the two
-- queues exactly once while it is not assigned to a worker, nothing else stands there, a call that
-- is assigned is not finished, and each PendingCall is under its own call's key.
pub run-IsSound : (events : List Event) → IsSound (run events empty_group)
run-IsSound events = run-IsSound_from events empty_group empty_group-IsSound

-- A call goes to a worker only if it was asked for, is not finished and no worker has it; after
-- that a worker has it, and it stands in no queue.
abbrev pub IsHandedOver : CallGroup → Call → CallGroup → Type 0
IsHandedOver before call after =
    let key = call_key call in
    (pending : PendingCall) × (before.calls key ≡ some pending)
    × (pending.call ≡ call)
    × (pending.assigned ≡ false)
    × (pending.finished ≡ false)
    × (total key after ≡ 0)
    × ((sent : PendingCall) × (after.calls key ≡ some sent) × (sent.assigned ≡ true))

Polled-IsHandedOver :
    (now : ℕ) (group : CallGroup) (queue : CallGroup → List Key) (call : Option Call)
    (after : CallGroup) {handed : Call}
    → IsSound group
    → Polled now group queue (call, after)
    → call ≡ some handed
    → IsHandedOver group handed after
Polled-IsHandedOver now group queue call after sound (inl (e, same, f)) h = absurd (cc)
Polled-IsHandedOver now group queue call after {handed} sound (inr (key, rest, e, q, sent, s)) h =
    let is_it : sent.pending.call ≡ handed = some-injective _ _ (sym sent.sent ∙ h) in
    let kept = rw (sent.found) at ((delete_some_finished_calls-IsSound group sound).kept key) in
    let at_key : call_key handed ≡ key = ap call_key (sym is_it) ∙ kept.1 in
    let there = delete_some_finished_calls-cases group key in
    rw at_key (
      sent.pending,
      elim there [
        | inl same ↦ sym same ∙ sent.found
        | inr none_left ↦ let found = sent.found in let (gone, f) = none_left in absurd (cc)
      ],
      is_it,
      sent.waiting,
      sent.unfinished,
      sent.gone,
      (_, sent.taken, refl),
    )

-- Whatever event it is: the call that goes to a worker was asked for, is not finished, and no
-- worker had it; after the event a worker has it, and it stands in no queue.
pub step-IsHandedOver :
    (event : Event) (group : CallGroup) (call : Call)
    → IsSound group
    → (step event group).0 ≡ some call
    → IsHandedOver group call (step event group).1
unfolding step
step-IsHandedOver (requested now c) group call sound h = absurd (cc)
step-IsHandedOver (result_stored c) group call sound h = absurd (cc)
step-IsHandedOver (worker_asked now) group call sound h =
    Polled-IsHandedOver now group (λ g. g.unstarted_calls) _ _ sound
      (poll_unstarted-cases now group sound) h
step-IsHandedOver (worker_asked_again now) group call sound h =
    Polled-IsHandedOver now group (λ g. g.calls_to_retry) _ _ sound
      (poll_retry-cases now group sound) h
