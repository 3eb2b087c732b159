-- ===== src/Event/Custom/Names.antt =====
-- Two names of events whose callbacks stay apart.
use nd.Base.{
  ℕ, ◌+◌, ◌≤◌, ◌<◌, ◌≡◌, ◌≢◌, Bool-cases, inl, inr, none, some, List, [], ◌∷◌, ◌++◌, length, ◌==◌,
  pos, arith,
}
use nd.Hash.{c_string, strhash}
use nd.Hash.Steps.{AllBytes}
use nd.Hash.Collisions.{strhash_inj}
use nd.Event.TsList.{Node}
use nd.Event.TsList.Seg.{Items, payload}
use nd.Event.TsList.Steps.{Ready}
use nd.Event.Custom.{HashMap, State, event_listen, event_trigger, custom_event_cb}
use nd.Event.Custom.Dispatch.{calls_for, known_called}

module _ (H : HashMap) (event event' : List ℕ) where
  open H use {get, set, get-set}

  -- A name keeps its callback when a callback is set for a different name of the same length, up to
  -- eight bytes.
  listen_keeps :
      (cb cb' : ℕ) (s : State H)
      → AllBytes (c_string event)
      → AllBytes (c_string event')
      → length (c_string event) ≡ length (c_string event')
      → length (c_string event) ≤ 8
      → c_string event ≢ c_string event'
      → get
          (strhash event)
          (event_listen H event' cb' (event_listen H event cb s).1).1.custom_event_map
        ≡ some cb
  unfolding event_listen
  listen_keeps cb cb' s a a' same short apart =
      let k = strhash event in
      let k' = strhash event' in
      let m = s.custom_event_map in
      elim (Bool-cases (k' == k)) [
        | inl e ↦ absurd (apart (strhash_inj event event' a a' same short (ground (arith, e))))
        | inr n ↦
            let first : get k (set k cb m) ≡ some cb = ground (arith, get-set k k cb m) in
            ground (arith, n, first, get-set k' k cb' (set k cb m))
      ]

  -- From an event_listen for each of two different names of the same length, up to eight bytes, an
  -- event_trigger of the first with a value, for which malloc gave a node, and a run of
  -- custom_event_cb: the callback of the first is called with the value, behind the calls for what
  -- was in the list before.
  pub names_apart :
      (fuel fresh : ℕ) (junk : Node) (cb cb' value : ℕ) (s : State H) (xs : Items)
      → AllBytes (c_string event)
      → AllBytes (c_string event')
      → length (c_string event) ≡ length (c_string event')
      → length (c_string event) ≤ 8
      → c_string event ≢ c_string event'
      → Ready s.store s.store.tail xs
      → fresh ≢ 0
      → s.store.cells fresh ≡ none
      → length xs + 1 < fuel
      → let both = (event_listen H event' cb' (event_listen H event cb s).1).1 in
        (t u : State H) × (event_trigger H fresh junk event value both ≡ some (pos 0, t))
        × (custom_event_cb H fuel t ≡ some u)
        × (u.calls
            ≡ (s.calls ++ calls_for H both.custom_event_map (payload xs)) ++ (cb, value) ∷ [])
  unfolding event_listen
  names_apart fuel fresh junk cb cb' value s xs a a' same short apart r ne unused h =
      known_called H fuel fresh junk event cb value
        (event_listen H event' cb' (event_listen H event cb s).1).1 xs r ne unused h
        (listen_keeps cb cb' s a a' same short apart)
