-- ===== src/Store.antt =====
-- memodb/include/memodb/Store.h and memodb/lib/Store.cpp: what every store does. The state of a
-- store is a parameter, and an operation that the source declares virtual is a field. `each_head`
-- and `each_call` give what the callback sees if it does not stop.
use bcdb.Cid.{Cid}
use bcdb.Name.{Head, Call, Name, cid_name, head_name, call_name}
use bcdb.Node.{Node}
use bcdb.Prelude.{ℕ, ◌≡◌, Bool, true, false, Option, none, some, List}

pub record Store (State : Type 0) : Type 0 where
  pub get_optional : State → Cid → Option Node
  pub resolve_optional : State → Name → Option Cid
  pub put : State → Node → Cid × State
  pub set : State → Name → Cid → State
  pub list_names_using : State → Cid → List Name
  pub list_funcs : State → List (List ℕ)
  pub each_head : State → List Head
  pub each_call : State → List ℕ → List Call
  pub call_invalidate : State → List ℕ → State
  pub resolve-set_head :
      (s : State) (head : Head) (cid : Cid)
      → resolve_optional (set s (head_name head) cid) (head_name head) ≡ some cid
  pub resolve-set_call :
      (s : State) (call : Call) (cid : Cid)
      → resolve_optional (set s (call_name call) cid) (call_name call) ≡ some cid

abbrev is_some {ℓ} : {A : Type ℓ} → Option A → Bool
is_some none = false
is_some (some a) = true

module _ {State : Type 0} (store : Store State) where
  -- Store::has
  unfoldable pub has_cid : State → Cid → Bool
  has_cid s cid = is_some (store.get_optional s cid)

  unfoldable pub has : State → Name → Bool
  unfolding has_cid
  has s (cid_name cid) = has_cid s cid
  has s (head_name head) = is_some (store.resolve_optional s (head_name head))
  has s (call_name call) = is_some (store.resolve_optional s (call_name call))
