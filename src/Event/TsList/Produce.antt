-- ===== src/Event/TsList/Produce.antt =====
-- list_produce of src/event.cpp as a whole, with no one else at work.
use nd.Base.{ℕ, ◌≡◌, ◌≢◌, subst, sym, some, none, [], ◌∷◌, ◌++◌, pos, arith}
use nd.Event.TsList.{Node, Store, alloc, Job, program, run_writes, job, list_produce}
use nd.Event.TsList.Seg.{Items, payload, payload-snoc}
use nd.Event.TsList.Steps.{Ready, Before, After, alloc-Before}
use nd.Event.TsList.Writes.{write_early, write_release, write_tail}

module _ {st : Store} {xs : Items} where
  program_lem :
      (j : Job)
      → Before st j 0 xs
      → (st' : Store) × (run_writes j program st ≡ some st')
        × After st' j 7 (xs ++ (j.cur_tail, j.key, j.value) ∷ [])
  unfolding run_writes
  program_lem j b₀ =
      let (s₁, e₁, b₁) = write_early 0 (omega arith) b₀ in
      let (s₂, e₂, b₂) = write_early 1 (omega arith) b₁ in
      let (s₃, e₃, b₃) = write_early 2 (omega arith) b₂ in
      let (s₄, e₄, b₄) = write_early 3 (omega arith) b₃ in
      let (s₅, e₅, b₅) = write_early 4 (omega arith) b₄ in
      let (s₆, e₆, a₆) = write_release b₅ in
      let (s₇, e₇, a₇) = write_tail a₆ in (s₇, rw (e₁, e₂, e₃, e₄, e₅, e₆, e₇), a₇)

module _ {st : Store} {xs : Items} where
  -- On a list in order, with a node that malloc has just given, list_produce does not fault: it
  -- returns 0, puts the key and value behind the items, and leaves the list in order.
  pub list_produce_lem :
      (fresh : ℕ) (junk : Node) (key value : ℕ)
      → Ready st st.tail xs
      → fresh ≢ 0
      → st.cells fresh ≡ none
      → (st' : Store) × (ys : Items) × (list_produce fresh junk key value st ≡ some (pos 0, st'))
        × Ready st' st'.tail ys
        × (payload ys ≡ payload xs ++ (key, value) ∷ [])
  unfolding list_produce
  list_produce_lem fresh junk key value r ne unused =
      let (st', e, a) = program_alloc in
      (
        st',
        xs ++ (st.tail, key, value) ∷ [],
        ground (arith, e),
        subst (λ t. Ready st' t (xs ++ (st.tail, key, value) ∷ [])) (sym (a.tail (omega arith)))
            a.ready,
        payload-snoc xs st.tail key value,
      )
    where
      program_alloc :
          (st' : Store) × (run_writes (job st fresh key value) program (alloc fresh junk st)
            ≡ some st')
          × After st' (job st fresh key value) 7 (xs ++ (st.tail, key, value) ∷ [])
      program_alloc =
          program_lem (job st fresh key value) (alloc-Before fresh junk key value r unused)
