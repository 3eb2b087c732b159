-- ===== src/Event/TsList.antt =====
-- The list "multiple producer single consumer" of src/event.cpp: list_init, list_produce and
-- list_consume over an explicit heap. Each write of list_produce inside the lock is a step of its
-- own, so that the consumer, which takes no lock, can run between any two. Null is address 0, and
-- `none` is a fault: an access to memory that is not allocated.
pub mod Seg
pub mod Steps
pub mod Writes
pub mod Consume
pub mod Run
pub mod Held
pub mod Fifo
pub mod Produce
use nd.Base.{
  ℕ, ◌≡◌, Bool, true, false, Option, none, some, List, [], ◌∷◌, ◌==◌, if◌then◌else◌, ◌>>=◌, ℤ, pos,
  negsuc,
}

pub record Node : Type 0 where
  pub next : ℕ
  pub key : ℕ
  pub value : ℕ
  pub is_placeholder : Bool

-- The allocated nodes, and the variable ts_list.
pub record Store : Type 0 where
  pub cells : ℕ → Option Node
  pub head : ℕ
  pub tail : ℕ

abbrev pub put : (ℕ → Option Node) → ℕ → Option Node → ℕ → Option Node
put cells p n q = if p == q then n else cells q

-- malloc gives node `fresh`, or 0. What is in it is arbitrary.
unfoldable pub alloc : ℕ → Node → Store → Store
alloc fresh junk s = record s { cells = put s.cells fresh (some junk) }

unfoldable pub modify : ℕ → (Node → Node) → Store → Option Store
modify p f s = s.cells p >>= (λ n. some (record s { cells = put s.cells p (some (f n)) }))

-- What one call of list_produce works with.
pub record Job : Type 0 where
  pub cur_tail : ℕ
  pub new_tail : ℕ
  pub key : ℕ
  pub value : ℕ

-- The writes between lock and unlock.
pub data Write : Type 0 where
  cur_key cur_value cur_next new_next new_placeholder cur_placeholder list_tail : Write

unfoldable pub write : Job → Write → Store → Option Store
unfolding modify
write j cur_key s = modify j.cur_tail (λ n. record n { key = j.key }) s
write j cur_value s = modify j.cur_tail (λ n. record n { value = j.value }) s
write j cur_next s = modify j.cur_tail (λ n. record n { next = j.new_tail }) s
write j new_next s = modify j.new_tail (λ n. record n { next = 0 }) s
write j new_placeholder s = modify j.new_tail (λ n. record n { is_placeholder = true }) s
write j cur_placeholder s = modify j.cur_tail (λ n. record n { is_placeholder = false }) s
write j list_tail s = some (record s { tail = j.new_tail })

abbrev pub program : List Write
program =
    cur_key ∷ cur_value ∷ cur_next ∷ new_next ∷ new_placeholder ∷ cur_placeholder ∷ list_tail ∷ []

unfoldable pub run_writes : Job → List Write → Store → Option Store
run_writes j [] s = some s
run_writes j (w ∷ ws) s = write j w s >>= run_writes j ws

abbrev pub job : Store → ℕ → ℕ → ℕ → Job
job s fresh key value = record { cur_tail = s.tail; new_tail = fresh; key = key; value = value }

unfoldable pub list_produce : ℕ → Node → ℕ → ℕ → Store → Option (ℤ × Store)
list_produce fresh junk key value s =
    if fresh == 0
    then some (negsuc 0, s)
    else run_writes (job s fresh key value) program (alloc fresh junk s)
      >>= (λ s'. some (pos 0, s'))

-- The consumer gets its key and value through pointers.
unfoldable pub list_consume : Store → Option (ℤ × Option (ℕ × ℕ) × Store)
list_consume s = s.cells s.head >>= (λ n.
    if n.is_placeholder
    then some (negsuc 0, none, s)
    else some
        (pos 0, some (n.key, n.value), record s { cells = put s.cells s.head none; head = n.next }))

unfoldable pub list_init : ℕ → Node → (ℕ → Option Node) → Option (ℤ × Store)
list_init fresh junk cells =
    if fresh == 0
    then some (negsuc 0, record { cells = cells; head = 0; tail = 0 })
    else some (
      pos 0,
      record {
        cells = put cells fresh (some (record junk { is_placeholder = true; next = 0 }));
        head = fresh;
        tail = fresh;
      },
    )
