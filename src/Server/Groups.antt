-- ===== src/Server/Groups.antt =====
-- The call groups of a server under its operations: memodb/lib/Server.cpp.
use mathlib.Core.Path.{subst}
use mathlib.Core.Option.{some-injective}
use bcdb.Prelude.{
  ℕ, ◌≡◌, refl, ◌∙◌, List, [], ◌∷◌, Option, some, Bool-cases, Option-cases, inl, inr,
}
use bcdb.Cid.{Cid}
use bcdb.Name.{Call}
use bcdb.Node.Map.{key_eq}
use bcdb.Server.State.{
  Server, put_group, group_of, handle_call_result, poll_groups, make_groups, add_worker_group,
}
use bcdb.Server.Calls.{CallGroup, call_key}
use bcdb.Server.Calls.Invariant.{IsSound, empty_group-IsSound, finish_call-IsSound}

-- Each group satisfies its invariant.
abbrev pub AllSound : {State : Type 0} → Server State → Type 0
AllSound server =
    (name : List ℕ) (group : CallGroup) → server.call_groups name ≡ some group → IsSound group

-- The groups keep their invariant, and the store is as it was.
pub record IsKept {State : Type 0} (before after : Server State) : Type 0 where
  pub store_same : after.store ≡ before.store
  pub sound : AllSound before → AllSound after

module _ {State : Type 0} where
  pub IsKept-self : (server : Server State) → IsKept server server
  IsKept-self server = record { store_same = refl; sound = λ all. all }

  pub IsKept-trans : {a b c : Server State} → IsKept a b → IsKept b c → IsKept a c
  IsKept-trans h k = record {
    store_same = k.store_same ∙ h.store_same;
    sound = λ all. k.sound (h.sound all);
  }

  pub put_group-AllSound :
      (name : List ℕ) (group : CallGroup) (server : Server State)
      → IsSound group
      → AllSound server
      → AllSound (put_group name group server)
  put_group-AllSound name group server sound all n g e = elim (Bool-cases (key_eq n name)) [
    | inl k ↦ subst IsSound (some-injective _ _ (rw k at e)) sound
    | inr k ↦ all n g (rw k at e)
  ]

  pub group_of-IsSound :
      (name : List ℕ) (server : Server State) → AllSound server → IsSound (group_of name server)
  unfolding group_of
  group_of-IsSound name server all = elim (Option-cases (server.call_groups name)) [
    | inl e ↦ rw (e, group_of) empty_group-IsSound
    | inr (group, e) ↦ rw (e, group_of) (all name group e)
  ]

  -- To change a group by what keeps its invariant.
  pub put_group-IsKept :
      (name : List ℕ) (change : CallGroup → CallGroup) (server : Server State)
      → ((group : CallGroup) → IsSound group → IsSound (change group))
      → IsKept server (put_group name (change (group_of name server)) server)
  put_group-IsKept name change server keeps = record {
    store_same = refl;
    sound =
        λ all. put_group-AllSound name _ server (keeps _ (group_of-IsSound name server all)) all;
  }

  pub handle_call_result-IsKept :
      (call : Call) (server : Server State) → IsKept server (handle_call_result call server)
  unfolding handle_call_result
  handle_call_result-IsKept call server = elim (Option-cases (server.call_groups call.name)) [
    | inl e ↦ rw (e, handle_call_result) (IsKept-self server)
    | inr (group, e) ↦
        rw (e, handle_call_result)
          (record {
            store_same = refl;
            sound = λ all.
                put_group-AllSound call.name _ server
                  (finish_call-IsSound (call_key call) group (all call.name group e)) all;
          })
  ]

  pub poll_groups-IsKept :
      (now : ℕ) (poll : ℕ → CallGroup → Option Call × CallGroup) (names : List (List ℕ))
      (server : Server State)
      → ((group : CallGroup) → IsSound group → IsSound (poll now group).1)
      → IsKept server (poll_groups now poll names server).1
  unfolding poll_groups
  poll_groups-IsKept now poll [] server keeps = IsKept-self server
  poll_groups-IsKept now poll (name ∷ names) server keeps =
      let first = put_group-IsKept name (λ g. (poll now g).1) server keeps in
      elim (Option-cases (poll now (group_of name server)).0) [
        | inl e ↦
            rw (e, poll_groups) (IsKept-trans first (poll_groups-IsKept now poll names _ keeps))
        | inr (call, e) ↦ rw (e, poll_groups) first
      ]

  pub make_groups-IsKept :
      (funcs : List (List ℕ)) (server : Server State) → IsKept server (make_groups funcs server)
  unfolding make_groups
  make_groups-IsKept [] server = IsKept-self server
  make_groups-IsKept (func ∷ funcs) server =
      IsKept-trans (put_group-IsKept func (λ g. g) server (λ g h. h)) (make_groups-IsKept funcs _)

  pub add_worker_group-IsKept :
      (cid : Cid) (funcs : List (List ℕ)) (server : Server State)
      → IsKept server (add_worker_group cid funcs server)
  unfolding add_worker_group
  add_worker_group-IsKept cid funcs server =
      let made = make_groups-IsKept funcs server in
      record { store_same = made.store_same; sound = made.sound }
