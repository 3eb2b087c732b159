-- ===== src/Event/Custom/Setup.antt =====
-- event_init of src/event.cpp, and the events from there on.
use nd.Base.{
  ℕ, ◌≡◌, ◌≢◌, refl, ap, ◌∙◌, Bool, true, not, Option, none, some, List, [], ◌∷◌, ◌++◌, append-nil,
  if◌then◌else◌, ◌>>=◌, ℤ, pos, negsuc, arith,
}
use nd.Event.TsList.{Node, Store, put, list_init}
use nd.Event.TsList.Steps.{Ready}
use nd.Event.Custom.{HashMap, State, is_zero, event_listen, event_trigger, custom_event_cb}
use nd.Event.Custom.Dispatch.{trigger_called}

-- The list with the one node that list_init makes.
abbrev pub first_store : ℕ → Node → Store → Store
first_store fresh junk s = record {
  cells = put s.cells fresh (some (record junk { is_placeholder = true; next = 0 }));
  head = fresh;
  tail = fresh;
}

first_store-Ready :
    (fresh : ℕ) (junk : Node) (s : Store) → Ready (first_store fresh junk s) fresh []
first_store-Ready fresh junk s = record {
  seg = refl;
  out = refl;
  node = record junk { is_placeholder = true; next = 0 };
  holds = ground arith;
  placeholder = refl;
}

module _ (H : HashMap) where
  open H use {Map, empty}

  -- Behind list_init: custom_event_map.create throws or makes an empty map.
  unfoldable pub after_list_init : Bool → State H → ℤ × Store → ℤ × State H
  after_list_init creates s (ret, st) =
      if not (is_zero ret)
      then (negsuc 0, record s { store = st })
      else if not creates
      then (negsuc 0, record s { store = st })
      else (pos 0, record s { store = st; custom_event_map = empty })

  -- `makes` says whether event_base_new gives a base, and malloc gives `fresh`, or 0.
  unfoldable pub event_init : Bool → ℕ → Node → Bool → State H → Option (ℤ × State H)
  unfolding after_list_init
  event_init makes fresh junk creates s =
      if not makes
      then some (pos 1, s)
      else list_init fresh junk s.store.cells >>= (λ p. some (after_list_init creates s p))

  -- From event_init through event_listen and event_trigger to custom_event_cb: the callback is
  -- called once, with the value, and nothing else is.
  pub event_init_called :
      (fresh fresh' : ℕ) (junk junk' : Node) (event : List ℕ) (cb value : ℕ) (s : State H)
      → fresh ≢ 0
      → fresh' ≢ 0
      → fresh' ≢ fresh
      → s.store.cells fresh' ≡ none
      → (r t u : State H) × (event_init true fresh junk true s ≡ some (pos 0, r))
        × (event_trigger H fresh' junk' event value (event_listen H event cb r).1 ≡ some (pos 0, t))
        × (custom_event_cb H 2 t ≡ some u)
        × (u.calls ≡ s.calls ++ (cb, value) ∷ [])
  unfolding event_init list_init
  event_init_called fresh fresh' junk junk' event cb value s n n' apart unused =
      let st = first_store fresh junk s.store in
      let r = record s { store = st; custom_event_map = empty } in
      let (t, u, e, f, c) =
        trigger_called H 2 fresh' junk' event cb value r [] (first_store-Ready fresh junk s.store)
          n' (ground (arith, apart, unused)) (omega arith) in
      (r, t, u, ground (arith, n), e, f, c ∙ ap (λ q. q ++ (cb, value) ∷ []) (append-nil s.calls))
