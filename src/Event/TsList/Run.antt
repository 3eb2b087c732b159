-- ===== src/Event/TsList/Run.antt =====
-- Any number of producers and the one consumer of the list of src/event.cpp, interleaved.
use nd.Base.{
  ℕ, zero, suc, ◌<◌, ◌≡◌, ◌≢◌, Option, none, some, List, [], ◌∷◌, ◌++◌, ◌==◌, if◌then◌else◌, ℤ, pos,
}
use nd.Event.TsList.{
  Node, Store, alloc, Job, Write, cur_placeholder, list_tail, write, job, list_consume, list_init,
}
use nd.Event.TsList.Writes.{early_write}

-- The list, the producer that holds the lock with the number of its writes done, and, for the
-- statements, what was released by the producers and taken by the consumer so far, in order.
pub record State : Type 0 where
  pub store : Store
  pub lock : Option Job
  pub writes : ℕ
  pub released : List (ℕ × ℕ)
  pub taken : List (ℕ × ℕ)

abbrev pub nth_write : ℕ → Write
nth_write (suc (suc (suc (suc (suc zero))))) = cur_placeholder
nth_write (suc (suc (suc (suc (suc (suc i)))))) = list_tail
nth_write i = early_write i

-- The write after which the consumer can see the item.
abbrev pub release : Job → ℕ → List (ℕ × ℕ)
release j i = if i == 5 then (j.key, j.value) ∷ [] else []

abbrev pub to_list : Option (ℕ × ℕ) → List (ℕ × ℕ)
to_list none = []
to_list (some x) = x ∷ []

-- A producer allocates a node and takes the lock, the holder makes its next write, the holder gives
-- the lock back, or the consumer calls list_consume. Only `lock` is barred by a holder.
pub data Step (s : State) : State → Type 0 where
  lock :
      (fresh : ℕ) (junk : Node) (key value : ℕ)
      → s.lock ≡ none
      → fresh ≢ 0
      → s.store.cells fresh ≡ none
      → Step s (record s {
        store = alloc fresh junk s.store;
        lock = some (job s.store fresh key value);
        writes = 0;
      })
  work :
      (j : Job) (st : Store)
      → s.lock ≡ some j
      → s.writes < 7
      → write j (nth_write s.writes) s.store ≡ some st
      → Step s (record s {
        store = st;
        writes = suc s.writes;
        released = s.released ++ release j s.writes;
      })
  unlock : s.writes ≡ 7 → Step s (record s { lock = none })
  consume :
      (ret : ℤ) (got : Option (ℕ × ℕ)) (st : Store)
      → list_consume s.store ≡ some (ret, got, st)
      → Step s (record s { store = st; taken = s.taken ++ to_list got })

pub data Reach (s : State) : State → Type 0 where
  here : Reach s s
  next : {t u : State} → Reach s t → Step t u → Reach s u

-- The list right after list_init.
pub record IsFresh (s : State) : Type 0 where
  pub fresh : ℕ
  pub junk : Node
  pub cells : ℕ → Option Node
  pub nonnull : fresh ≢ 0
  pub start : list_init fresh junk cells ≡ some (pos 0, s.store)
  pub unlocked : s.lock ≡ none
  pub none_released : s.released ≡ []
  pub none_taken : s.taken ≡ []
