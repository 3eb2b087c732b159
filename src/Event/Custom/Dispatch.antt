-- ===== src/Event/Custom/Dispatch.antt =====
-- What custom_event_cb makes of the list, and an event from event_listen to the call.
use nd.Base.{
  ℕ, zero, suc, ◌+◌, ◌<◌, ◌≡◌, ◌≢◌, refl, ap, sym, ◌∙◌, Option, none, some, List, [], ◌∷◌, ◌++◌,
  append_assoc, append-nil, length, length-append, pos, arith,
}
use nd.Hash.{strhash}
use nd.Event.TsList.{Node, put}
use nd.Event.TsList.Seg.{Items, payload, length-payload}
use nd.Event.TsList.Steps.{Ready}
use nd.Event.TsList.Consume.{consume_empty, consume_item}
use nd.Event.TsList.Produce.{list_produce_lem}
use nd.Event.Custom.{HashMap, State, event_listen, event_trigger, dispatch, custom_event_cb}

module _ (H : HashMap) where
  open H use {Map, get, set, get-set}

  -- The calls for some keys and values: those with a callback, in order.
  abbrev pub calls_for : Map → List (ℕ × ℕ) → List (ℕ × ℕ)
  calls_for m [] = []
  calls_for m ((key, value) ∷ q) = elim (get key m) [
    | none ↦ calls_for m q
    | some cb ↦ (cb, value) ∷ calls_for m q
  ]

  -- What a run of custom_event_cb has done.
  pub record Ran (last : ℕ) (q : List (ℕ × ℕ)) (s s' : State H) : Type 0 where
    pub same_map : s'.custom_event_map ≡ s.custom_event_map
    pub same_tail : s'.store.tail ≡ s.store.tail
    pub empty : Ready s'.store last []
    pub called : s'.calls ≡ s.calls ++ calls_for s.custom_event_map q

  dispatch_lem :
      (key value : ℕ) (s : State H)
      → (cs : List (ℕ × ℕ)) × (dispatch H key value s ≡ record s { calls = s.calls ++ cs })
        × ((q : List (ℕ × ℕ))
            → calls_for s.custom_event_map ((key, value) ∷ q)
              ≡ cs ++ calls_for s.custom_event_map q)
  unfolding dispatch
  dispatch_lem key value s = go (get key s.custom_event_map) refl
    where
      go :
          (o : Option ℕ)
          → get key s.custom_event_map ≡ o
          → (cs : List (ℕ × ℕ)) × (dispatch H key value s ≡ record s { calls = s.calls ++ cs })
            × ((q : List (ℕ × ℕ))
                → calls_for s.custom_event_map ((key, value) ∷ q)
                  ≡ cs ++ calls_for s.custom_event_map q)
      go none e = ([], rw (e, dispatch, append-nil), λ q. rw (e, calls_for))
      go (some cb) e = ((cb, value) ∷ [], rw (e, dispatch), λ q. rw (e, calls_for))

  -- On a list in order, with more fuel than items, custom_event_cb ends without a fault, has taken
  -- every item, and has called, for each item whose key has a callback, that callback with the
  -- item's value, oldest first. The map stays.
  pub custom_event_cb_lem :
      (fuel : ℕ) (s : State H) {last : ℕ} (xs : Items)
      → Ready s.store last xs
      → length xs < fuel
      → (s' : State H) × (custom_event_cb H fuel s ≡ some s') × Ran last (payload xs) s s'
  unfolding custom_event_cb
  custom_event_cb_lem zero s xs r h = absurd (omega arith)
  custom_event_cb_lem (suc fuel) s [] r h = (
    s,
    rw (consume_empty r),
    record { same_map = refl; same_tail = refl; empty = r; called = sym (append-nil s.calls) },
  )
  custom_event_cb_lem (suc fuel) s ((a, k, v) ∷ xs) r h =
      let (n, e, r', _) = consume_item r in
      let st = record s.store { cells = put s.store.cells a none; head = n.next } in
      let (cs, d, c) = dispatch_lem k v (record s { store = st }) in
      let (s', e', ran) =
        custom_event_cb_lem fuel (record s { store = st; calls = s.calls ++ cs }) xs r'
          (omega arith) in
      (
        s',
        rw (e, d) e',
        record {
          same_map = ran.same_map;
          same_tail = ran.same_tail;
          empty = ran.empty;
          called =
              ran.called
              ∙ append_assoc s.calls cs (calls_for s.custom_event_map (payload xs))
              ∙ ap (λ t. s.calls ++ t) (sym (c (payload xs)));
        },
      )

  calls_for-append :
      (m : Map) (p q : List (ℕ × ℕ)) → calls_for m (p ++ q) ≡ calls_for m p ++ calls_for m q
  calls_for-append m [] q = refl
  calls_for-append m ((key, value) ∷ p) q = go (get key m) refl (calls_for-append m p q)
    where
      go :
          (o : Option ℕ)
          → get key m ≡ o
          → calls_for m (p ++ q) ≡ calls_for m p ++ calls_for m q
          → calls_for m ((key, value) ∷ (p ++ q)) ≡ calls_for m ((key, value) ∷ p) ++ calls_for m q
      go none e ih = ground (arith, e, ih)
      go (some cb) e ih = ground (arith, e, ih)

  -- An event_trigger of a name that has a callback, for which malloc gave a node, and a run of
  -- custom_event_cb: nothing faults, and the callback is called with the value, behind the calls for
  -- what was in the list before.
  pub known_called :
      (fuel fresh : ℕ) (junk : Node) (event : List ℕ) (cb value : ℕ) (s : State H) (xs : Items)
      → Ready s.store s.store.tail xs
      → fresh ≢ 0
      → s.store.cells fresh ≡ none
      → length xs + 1 < fuel
      → get (strhash event) s.custom_event_map ≡ some cb
      → (t u : State H) × (event_trigger H fresh junk event value s ≡ some (pos 0, t))
        × (custom_event_cb H fuel t ≡ some u)
        × (u.calls ≡ (s.calls ++ calls_for s.custom_event_map (payload xs)) ++ (cb, value) ∷ [])
  unfolding event_trigger
  known_called fuel fresh junk event cb value s xs r ne unused h known =
      let (st, ys, e, r', p) = list_produce_lem fresh junk (strhash event) value r ne unused in
      let m = s.custom_event_map in
      let t = record s { store = st; activated = s.activated + 1 } in
      let (u, e', ran) = custom_event_cb_lem fuel t ys r' (
        omega (
          arith,
          ap length p,
          length-append (payload xs) ((strhash event, value) ∷ []),
          length-payload xs,
          length-payload ys,
        )) in
      let last : calls_for m ((strhash event, value) ∷ []) ≡ (cb, value) ∷ [] =
        ground (arith, known) in
      (
        t,
        u,
        rw e,
        e',
        ran.called
            ∙ ap (λ q. s.calls ++ calls_for m q) p
            ∙ ap (λ q. s.calls ++ q)
                (calls_for-append m (payload xs) ((strhash event, value) ∷ [])
                  ∙ ap (λ q. calls_for m (payload xs) ++ q) last)
            ∙ sym (append_assoc s.calls (calls_for m (payload xs)) ((cb, value) ∷ [])),
      )

  -- From an event_listen for a name, an event_trigger of that name with a value, for which malloc
  -- gave a node, and a run of custom_event_cb: nothing faults, and the callback is called with the
  -- value, behind the calls for what was in the list before.
  pub trigger_called :
      (fuel fresh : ℕ) (junk : Node) (event : List ℕ) (cb value : ℕ) (s : State H) (xs : Items)
      → Ready s.store s.store.tail xs
      → fresh ≢ 0
      → s.store.cells fresh ≡ none
      → length xs + 1 < fuel
      → (t u : State H) × (event_trigger H fresh junk event value (event_listen H event cb s).1
          ≡ some (pos 0, t))
        × (custom_event_cb H fuel t ≡ some u)
        × (u.calls
            ≡ (s.calls ++ calls_for (event_listen H event cb s).1.custom_event_map (payload xs))
              ++ (cb, value) ∷ [])
  unfolding event_listen
  trigger_called fuel fresh junk event cb value s xs r ne unused h =
      let k = strhash event in
      let m = s.custom_event_map in
      known_called fuel fresh junk event cb value (record s { custom_event_map = set k cb m }) xs r
        ne unused h (ground (arith, get-set k k cb m))
