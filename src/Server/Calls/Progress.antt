-- ===== src/Server/Calls/Progress.antt =====
-- A call in the first queue of a group, unstarted_calls, reaches a worker: memodb/lib/Server.cpp.
use bcdb.Prelude.{
  ℕ, suc, ◌-◌, ◌≤◌, ◌<◌, ◌≡◌, refl, ap, ◌∙◌, sym, Bool, true, false, ◌&&◌, ◌||◌, ◌⊎◌, List, [], ◌∷◌,
  ◌++◌, append-nil, append_assoc, length, Option, none, some, arith, leb, Bool-cases, Option-cases,
  inl, inr,
}
use bcdb.Name.{Call}
use bcdb.Server.Calls.{
  Key, call_key, same_key, PendingCall, pending_call, Calls, CallGroup, erase_call, assign_call,
  is_finished, drop_finished, delete_some_finished_calls, delete_if_possible, finish_call,
  retry_call, minutes_between, request_call, send_retry, poll_unstarted, poll_retry, Event,
  requested, result_stored, worker_asked, worker_asked_again, step,
}
use bcdb.Server.Calls.Keys.{same_key_self, same_key→eq}
use bcdb.Server.Calls.Invariant.{
  IsSound, delete_some_finished_calls-cases, delete_some_finished_calls-IsSound,
}
use bcdb.Server.Calls.Sending.{
  Polled, poll_unstarted-cases, send_call-queues, send_call-is_finished, step-IsSound,
}

-- A call that is not finished stands in the first queue with `n` calls at most in front of it.
pub record IsWaiting (key : Key) (n : ℕ) (group : CallGroup) : Type 0 where
  pub front : List Key
  pub back : List Key
  pub place : group.unstarted_calls ≡ front ++ (key ∷ back)
  pub close : length front ≤ n
  pub unfinished : is_finished (group.calls key) ≡ false

erase_call-is_finished :
    (key f : Key) (calls : Calls)
    → is_finished (calls key) ≡ false
    → is_finished (erase_call f calls key) ≡ false
erase_call-is_finished key f calls h = elim (Bool-cases (same_key key f)) [
  | inl e ↦ rw e refl
  | inr e ↦ rw e h
]

drop_finished-keeps :
    (key : Key) (front back : List Key) (calls : Calls)
    → is_finished (calls key) ≡ false
    → (front' : List Key) × ((drop_finished (front ++ (key ∷ back)) calls).0
        ≡ front' ++ (key ∷ back))
      × (length front' ≤ length front)
unfolding drop_finished
drop_finished-keeps key [] back calls h = ([], rw (h, drop_finished) refl, omega arith)
drop_finished-keeps key (f ∷ front) back calls h = elim (Bool-cases (is_finished (calls f))) [
  | inl e ↦
      let (front', same, short) =
        drop_finished-keeps key front back (erase_call f calls)
          (erase_call-is_finished key f calls h) in
      (front', rw (e, drop_finished) same, omega arith)
  | inr e ↦ (f ∷ front, rw (e, drop_finished) refl, omega arith)
]

unfinished_cases :
    {o o' : Option PendingCall}
    → is_finished o ≡ false
    → (o' ≡ o) ⊎ ((o' ≡ none) × (is_finished o ≡ true))
    → is_finished o' ≡ false
unfinished_cases h (inl e) = rw e h
unfinished_cases h (inr (e, f)) = rw e refl

delete-IsWaiting :
    (key : Key) (n : ℕ) (group : CallGroup)
    → IsWaiting key n group
    → IsWaiting key n (delete_some_finished_calls group)
unfolding delete_some_finished_calls
delete-IsWaiting key n group w =
    let (front', same, short) = drop_finished-keeps key w.front w.back group.calls w.unfinished in
    let close = w.close in
    record {
      front = front';
      back = w.back;
      place = rw (w.place) same;
      close = omega arith;
      unfinished = unfinished_cases w.unfinished (delete_some_finished_calls-cases group key);
    }

-- What changes no queue but by its back, and finishes nothing.
later-IsWaiting :
    (key : Key) (n : ℕ) (group next : CallGroup) (added : List Key)
    → next.unstarted_calls ≡ group.unstarted_calls ++ added
    → is_finished (next.calls key) ≡ is_finished (group.calls key)
    → IsWaiting key n group
    → IsWaiting key n next
later-IsWaiting key n group next added queue same w = record {
  front = w.front;
  back = w.back ++ added;
  place = queue ∙ rw (w.place) (append_assoc w.front (key ∷ w.back) added);
  close = w.close;
  unfinished = same ∙ w.unfinished;
}

assign_call-is_finished :
    (key k : Key) (pending : PendingCall) (calls : Calls)
    → pending.finished ≡ is_finished (calls k)
    → is_finished (assign_call k pending calls key) ≡ is_finished (calls key)
assign_call-is_finished key k pending calls h = elim (Bool-cases (same_key key k)) [
  | inl e ↦ rw (e, same_key→eq key k e) h
  | inr e ↦ rw e refl
]

retry-IsWaiting :
    (key k : Key) (n now : ℕ) (pending : PendingCall) (group : CallGroup)
    → group.calls k ≡ some pending
    → IsWaiting key n group
    → IsWaiting key n (retry_call now k pending group)
unfolding retry_call
retry-IsWaiting key k n now pending group e w =
    elim (Bool-cases
      (pending.assigned && leb pending.timeout_minutes (minutes_between pending.start_time now))) [
        | inl t ↦ rw t (
            later-IsWaiting key n group _ [] (sym (append-nil group.unstarted_calls))
              (assign_call-is_finished key k _ group.calls (sym (ap is_finished e))) w)
        | inr t ↦ rw t w
      ]

request-IsWaiting :
    (key : Key) (n now : ℕ) (call : Call) (group : CallGroup)
    → IsWaiting key n group
    → IsWaiting key n (request_call now call group)
unfolding request_call
request-IsWaiting key n now call group w =
    let k = call_key call in
    elim (Option-cases (group.calls (call_key call))) [
      | inl e ↦
          rw (e, request_call)
            (later-IsWaiting key n group _ (k ∷ []) refl
              (assign_call-is_finished key k (pending_call call) group.calls
                (sym (ap is_finished e)))
              w)
      | inr (pending, e) ↦ rw (e, request_call) (retry-IsWaiting key k n now pending group e w)
    ]

delete_if_possible-IsWaiting :
    (key k : Key) (n : ℕ) (pending : PendingCall) (group : CallGroup)
    → same_key key k ≡ false
    → IsWaiting key n group
    → IsWaiting key n (delete_if_possible k pending group)
unfolding delete_if_possible
delete_if_possible-IsWaiting key k n pending group other w = elim (Bool-cases pending.assigned) [
  | inl a ↦
      rw (a, delete_if_possible)
        (later-IsWaiting key n group _ [] (sym (append-nil group.unstarted_calls)) (rw other refl)
          w)
  | inr a ↦ rw (a, delete_if_possible) (delete-IsWaiting key n group w)
]

finish-IsWaiting :
    (key k : Key) (n : ℕ) (group : CallGroup)
    → same_key key k ≡ false
    → IsWaiting key n group
    → IsWaiting key n (finish_call k group)
unfolding finish_call
finish-IsWaiting key k n group other w = elim (Option-cases (group.calls k)) [
  | inl e ↦ rw (e, finish_call) w
  | inr (pending, e) ↦
      rw (e, finish_call)
        (delete_if_possible-IsWaiting key k n (record pending { finished = true }) _ other
          (later-IsWaiting key n group _ [] (sym (append-nil group.unstarted_calls)) (rw other refl)
            w))
]

send_retry-IsWaiting :
    (key : Key) (n now : ℕ) (queue : List Key) (group : CallGroup)
    → IsWaiting key n group
    → IsWaiting key n (send_retry now queue group).1
send_retry-IsWaiting key n now [] group w = w
send_retry-IsWaiting key n now (k ∷ queue) group w =
    let next = record group { calls_to_retry = queue } in
    later-IsWaiting key n group _ []
      ((send_call-queues now k next).0 ∙ sym (append-nil group.unstarted_calls))
      (send_call-is_finished now k next key) w

poll_retry-IsWaiting :
    (key : Key) (n now : ℕ) (group : CallGroup)
    → IsWaiting key n group
    → IsWaiting key n (poll_retry now group).1
unfolding poll_retry
poll_retry-IsWaiting key n now group w =
    send_retry-IsWaiting key n now _ _ (delete-IsWaiting key n group w)

abbrev pub is_call : Key → Option Call → Bool
is_call key none = false
is_call key (some call) = same_key key (call_key call)

-- The front call goes to the worker, and the others move up.
moved_up :
    (key : Key) (n now : ℕ) (group : CallGroup) (call : Option Call) (after : CallGroup)
    → IsSound group
    → (front back : List Key)
    → (delete_some_finished_calls group).unstarted_calls ≡ front ++ (key ∷ back)
    → length front ≤ n
    → is_finished ((delete_some_finished_calls group).calls key) ≡ false
    → Polled now group (λ g. g.unstarted_calls) (call, after)
    → (is_call key call ≡ true) ⊎ ((m : ℕ) × (n ≡ suc m) × IsWaiting key m after)
moved_up key n now group call after sound [] back place close open_ (inl (e, f, g)) = absurd (cc)
moved_up key n now group call after sound (f ∷ front) back place close open_ (inl (e, d, g)) =
    absurd (cc)
moved_up key n now group call after sound [] back place close open_ (inr (k, rest, e, q, sent, s)) =
    let same : key ≡ k = cc in
    let kept = rw (sent.found) at ((delete_some_finished_calls-IsSound group sound).kept k) in
    inl (rw (sent.sent, kept.1, same) (same_key_self k))
moved_up key n now group call after sound (f ∷ front) back place close open_
      (inr (k, rest, e, q, sent, s)) =
    let same : rest ≡ front ++ (key ∷ back) = cc in
    inr (
      n - 1,
      omega arith,
      record {
        front = front;
        back = back;
        place = q ∙ same;
        close = omega arith;
        unfinished = sent.as_finished key ∙ open_;
      },
    )

poll_unstarted-IsWaiting :
    (key : Key) (n now : ℕ) (group : CallGroup)
    → IsSound group
    → IsWaiting key n group
    → (is_call key (poll_unstarted now group).0 ≡ true)
      ⊎ ((m : ℕ) × (n ≡ suc m) × IsWaiting key m (poll_unstarted now group).1)
poll_unstarted-IsWaiting key n now group sound w =
    let c = delete-IsWaiting key n group w in
    moved_up key n now group _ _ sound c.front c.back c.place c.close c.unfinished
      (poll_unstarted-cases now group sound)

-- How often a worker asks the group for a call that no worker has had.
unfoldable pub asks : List Event → ℕ
asks [] = 0
asks (requested now call ∷ events) = asks events
asks (result_stored call ∷ events) = asks events
asks (worker_asked now ∷ events) = suc (asks events)
asks (worker_asked_again now ∷ events) = asks events

-- Whether the call goes to a worker, or its result is stored.
unfoldable pub is_served : Key → List Event → CallGroup → Bool
unfolding step
is_served key [] group = false
is_served key (requested now call ∷ events) group =
    is_served key events (step (requested now call) group).1
is_served key (result_stored call ∷ events) group =
    same_key key (call_key call) || is_served key events (step (result_stored call) group).1
is_served key (worker_asked now ∷ events) group =
    is_call key (step (worker_asked now) group).0
    || is_served key events (step (worker_asked now) group).1
is_served key (worker_asked_again now ∷ events) group =
    is_call key (step (worker_asked_again now) group).0
    || is_served key events (step (worker_asked_again now) group).1

-- In a group that satisfies the invariant: an unfinished call that stands in unstarted_calls with
-- `n` calls at most in front of it goes to a worker, or its result is stored, by the time that
-- workers have polled this group's unstarted_calls `n + 1` times, whatever other events there are in
-- between. A call in calls_to_retry is not covered.
pub is_served-IsWaiting :
    (events : List Event) (key : Key) (n : ℕ) (group : CallGroup)
    → IsSound group
    → IsWaiting key n group
    → n < asks events
    → is_served key events group ≡ true
unfolding is_served asks step
is_served-IsWaiting [] key n group sound w h = absurd (omega arith)
is_served-IsWaiting (requested now call ∷ events) key n group sound w h =
    is_served-IsWaiting events key n _ (step-IsSound (requested now call) group sound)
      (request-IsWaiting key n now call group w) h
is_served-IsWaiting (result_stored call ∷ events) key n group sound w h =
    elim (Bool-cases (same_key key (call_key call))) [
      | inl e ↦ rw e refl
      | inr e ↦ rw e (
          is_served-IsWaiting events key n _ (step-IsSound (result_stored call) group sound)
            (finish-IsWaiting key (call_key call) n group e w) h)
    ]
is_served-IsWaiting (worker_asked now ∷ events) key n group sound w h =
    elim (poll_unstarted-IsWaiting key n now group sound w) [
      | inl e ↦ rw e refl
      | inr (m, less, later) ↦
          let rest =
            is_served-IsWaiting events key m _ (step-IsSound (worker_asked now) group sound) later
              (omega arith) in
          ground (arith, rest)
    ]
is_served-IsWaiting (worker_asked_again now ∷ events) key n group sound w h =
    let rest =
      is_served-IsWaiting events key n _ (step-IsSound (worker_asked_again now) group sound)
        (poll_retry-IsWaiting key n now group w) h in
    ground (arith, rest)
