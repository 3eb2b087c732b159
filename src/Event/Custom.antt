-- ===== src/Event/Custom.antt =====
-- The custom events of src/event.cpp: event_listen, event_trigger and custom_event_cb. The hash map
-- of the library bsl is a parameter with its laws. A callback is known by its number, and what it
-- does is not modelled: the calls are listed.
pub mod Dispatch
pub mod Names
pub mod Setup
use nd.Base.{
  ℕ, zero, suc, ◌+◌, ◌≡◌, Bool, true, false, Option, none, some, List, [], ◌∷◌, ◌++◌, ◌==◌,
  if◌then◌else◌, ◌>>=◌, ℤ, pos, negsuc,
}
use nd.Hash.{strhash}
use nd.Event.TsList.{Node, Store, list_produce, list_consume}

-- bsl::hashmap from hashes to callbacks: `empty` is what `create` makes of one, and `set` is called
-- so that it overwrites.
pub record HashMap : Type 1 where
  pub Map : Type 0
  pub empty : Map
  pub get : ℕ → Map → Option ℕ
  pub set : ℕ → ℕ → Map → Map
  pub get-empty : (k : ℕ) → get k empty ≡ none
  pub get-set : (k j v : ℕ) (m : Map) → get j (set k v m) ≡ (if k == j then some v else get j m)

abbrev pub is_zero : ℤ → Bool
is_zero (pos zero) = true
is_zero (pos (suc n)) = false
is_zero (negsuc n) = false

module _ (H : HashMap) where
  open H use {Map, get, set}

  -- The list, custom_event_map, how often custom_event was made active, and the calls of callbacks
  -- so far with their values.
  pub record State : Type 0 where
    pub store : Store
    pub custom_event_map : Map
    pub activated : ℕ
    pub calls : List (ℕ × ℕ)

  unfoldable pub event_listen : List ℕ → ℕ → State → ℤ × State
  event_listen event cb s =
      (pos 0, record s { custom_event_map = set (strhash event) cb s.custom_event_map })

  -- malloc gives node `fresh`, or 0.
  unfoldable pub event_trigger : ℕ → Node → List ℕ → ℕ → State → Option (ℤ × State)
  event_trigger fresh junk event param s = do
    (ret, st) ← list_produce fresh junk (strhash event) param s.store
    some (
        if is_zero ret
        then (pos 0, record s { store = st; activated = s.activated + 1 })
        else (negsuc 0, record s { store = st }))

  -- One item in the loop: the callback is called if there is one.
  unfoldable pub dispatch : ℕ → ℕ → State → State
  dispatch key value s = elim (get key s.custom_event_map) [
    | none ↦ s
    | some cb ↦ record s { calls = s.calls ++ (cb, value) ∷ [] }
  ]

  -- The test of the loop on what list_consume returned, and the body in front of the next round.
  unfoldable pub after_consume :
      (State → Option State) → State → ℤ × Option (ℕ × ℕ) × Store → Option State
  after_consume continue s (pos zero, some (key, value), st) =
      continue (dispatch key value (record s { store = st }))
  after_consume continue s (pos zero, none, st) = continue (record s { store = st })
  after_consume continue s (pos (suc n), got, st) = some (record s { store = st })
  after_consume continue s (negsuc n, got, st) = some (record s { store = st })

  -- The loop runs until list_consume does not return 0. `none` is a fault or the end of the fuel.
  unfoldable pub custom_event_cb : ℕ → State → Option State
  unfolding after_consume
  custom_event_cb zero s = none
  custom_event_cb (suc fuel) s = list_consume s.store >>= after_consume (custom_event_cb fuel) s
