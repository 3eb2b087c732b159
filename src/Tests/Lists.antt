-- ===== src/Tests/Lists.antt =====
-- Examples on the list of events and the callbacks.
use nd.Base.{
  ℕ, ◌≡◌, refl, true, false, Option, none, some, List, [], ◌∷◌, ◌++◌, ◌==◌, if◌then◌else◌, codes,
  pos, arith,
}
use nd.Event.TsList.{
  Node, Store, put, alloc, Job, write, job, list_init, list_produce, list_consume,
}
use nd.Event.TsList.Seg.{Items, payload}
use nd.Event.TsList.Steps.{Ready}
use nd.Event.TsList.Run.{State, lock, work, Reach, here, next, IsFresh, nth_write}
use nd.Event.TsList.Held.{pop}
use nd.Event.TsList.Fifo.{list_consume_fifo, producer_works}
use nd.Event.TsList.Produce.{list_produce_lem}
use nd.Event.Custom
use nd.Event.Custom.{HashMap, event_listen, event_trigger, custom_event_cb}
use nd.Event.Custom.Setup.{event_init, event_init_called}
use nd.Event.Custom.Dispatch.{Ran, custom_event_cb_lem}

abbrev pub junk : Node
junk = record { next = 3; key = 1; value = 2; is_placeholder = false }

abbrev no_cells : ℕ → Option Node
no_cells p = none

-- The list after list_init, with its node at address 8.
abbrev fresh_store : Store
fresh_store = record {
  cells = put no_cells 8 (some (record junk { is_placeholder = true; next = 0 }));
  head = 8;
  tail = 8;
}

abbrev fresh_state : State
fresh_state = record { store = fresh_store; lock = none; writes = 0; released = []; taken = [] }

fresh_state-IsFresh : IsFresh fresh_state
unfolding list_init
fresh_state-IsFresh = record {
  fresh = 8;
  junk = junk;
  cells = no_cells;
  nonnull = λ h. absurd (omega arith);
  start = refl;
  unlocked = refl;
  none_released = refl;
  none_taken = refl;
}

-- A producer takes the lock for key 5 and value 6 with a node at address 16.
abbrev a_job : Job
a_job = job fresh_store 16 5 6

abbrev locked : State
locked = record fresh_state { store = alloc 16 junk fresh_store; lock = some a_job; writes = 0 }

locked-Reach : Reach fresh_state locked
locked-Reach = next here (lock 16 junk 5 6 refl (λ h. absurd (omega arith)) refl)

abbrev cell : ℕ → Node → Store → Store
cell p n st = record st { cells = put st.cells p (some n) }

-- The two nodes as the writes of the producer leave them.
abbrev keyed : Node
keyed = record junk { is_placeholder = true; next = 0; key = 5 }

abbrev valued : Node
valued = record keyed { value = 6 }

abbrev linked : Node
linked = record valued { next = 16 }

abbrev ending : Node
ending = record junk { next = 0 }

abbrev ending_placeholder : Node
ending_placeholder = record ending { is_placeholder = true }

abbrev released_store : Store
released_store =
    cell 8 (record linked { is_placeholder = false })
      (cell 16 ending_placeholder
        (cell 16 ending (cell 8 linked (cell 8 valued (cell 8 keyed (alloc 16 junk fresh_store))))))

-- The item is released, and the producer still holds the lock.
abbrev released_state : State
released_state = record {
  store = released_store;
  lock = some a_job;
  writes = 6;
  released = (5, 6) ∷ [];
  taken = [];
}

released_state-Reach : Reach fresh_state released_state
unfolding write alloc
released_state-Reach =
    next
      (next
        (next
          (next
            (next (next locked-Reach (work a_job _ refl (omega arith) refl))
              (work a_job _ refl (omega arith) refl))
            (work a_job _ refl (omega arith) refl))
          (work a_job _ refl (omega arith) refl))
        (work a_job _ refl (omega arith) refl))
      (work a_job released_store refl (omega arith) refl)

list_consume_fifo_example :
    (q : List (ℕ × ℕ)) × (st : Store) × (released_state.taken ++ q ≡ released_state.released)
    × (list_consume released_store ≡ some ((pop q).0, (pop q).1, st))
list_consume_fifo_example = list_consume_fifo fresh_state-IsFresh released_state-Reach

producer_works_example :
    (st : Store) × (write a_job (nth_write locked.writes) locked.store ≡ some st)
producer_works_example = producer_works fresh_state-IsFresh locked-Reach a_job refl (omega arith)

pub fresh_store-Ready : Ready fresh_store 8 []
fresh_store-Ready = record {
  seg = refl;
  out = refl;
  node = record junk { is_placeholder = true; next = 0 };
  holds = refl;
  placeholder = refl;
}

list_produce_lem_example :
    (st' : Store) × (ys : Items) × (list_produce 16 junk 5 6 fresh_store ≡ some (pos 0, st'))
    × Ready st' st'.tail ys
    × (payload ys ≡ [] ++ (5, 6) ∷ [])
list_produce_lem_example =
    list_produce_lem 16 junk 5 6 fresh_store-Ready (λ h. absurd (omega arith)) refl

-- Maps as functions.
abbrev pub functions : HashMap
functions = record {
  Map = ℕ → Option ℕ;
  empty = λ k. none;
  get = λ k m. m k;
  set = λ k v m j. if k == j then some v else m j;
  get-empty = λ k. refl;
  get-set = λ k j v m. refl;
}

abbrev pub quiet_state : Custom.State functions
quiet_state = record {
  store = fresh_store;
  custom_event_map = λ k. none;
  activated = 0;
  calls = [];
}

-- The list of released_store, once the tail is moved on.
abbrev one_item : Custom.State functions
one_item = record {
  store = record released_store { tail = 16 };
  custom_event_map = λ k. if k == 5 then some 33 else none;
  activated = 1;
  calls = [];
}

one_item-Ready : Ready one_item.store 16 ((8, 5, 6) ∷ [])
unfolding alloc
one_item-Ready = record {
  seg = (
    record linked { is_placeholder = false },
    refl,
    record { holds = refl; filled = refl; key = refl; value = refl },
    refl,
    refl,
  );
  out = refl;
  node = ending_placeholder;
  holds = refl;
  placeholder = refl;
}

custom_event_cb_lem_example :
    (s' : Custom.State functions) × (custom_event_cb functions 2 one_item ≡ some s')
    × Ran functions 16 ((5, 6) ∷ []) one_item s'
custom_event_cb_lem_example =
    custom_event_cb_lem functions 2 one_item ((8, 5, 6) ∷ []) one_item-Ready (omega arith)

-- Before event_init.
abbrev no_state : Custom.State functions
no_state = record {
  store = record { cells = no_cells; head = 0; tail = 0 };
  custom_event_map = λ k. some 1;
  activated = 0;
  calls = [];
}

event_init_called_example :
    (r t u : Custom.State functions) × (event_init functions true 8 junk true no_state
      ≡ some (pos 0, r))
    × (event_trigger functions 16 junk
          (codes "reload")
          6
          (event_listen functions (codes "reload") 33 r).1
        ≡ some (pos 0, t))
    × (custom_event_cb functions 2 t ≡ some u)
    × (u.calls ≡ [] ++ (33, 6) ∷ [])
event_init_called_example =
    event_init_called functions 8 16 junk junk (codes "reload") 33 6 no_state
      (λ h. absurd (omega arith)) (λ h. absurd (omega arith)) (λ h. absurd (omega arith)) refl
