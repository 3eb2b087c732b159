-- ===== src/Event/TsList/Writes.antt =====
-- What each write of list_produce does to the list.
use nd.Base.{ℕ, zero, suc, ◌<◌, ◌≡◌, refl, true, false, some, [], ◌∷◌, ◌++◌, arith}
use nd.Event.TsList.{
  Store, Job, Write, cur_key, cur_value, cur_next, new_next, new_placeholder, cur_placeholder,
  list_tail, write,
}
use nd.Event.TsList.Seg.{Items}
use nd.Event.TsList.Steps.{Before, After, Before-cur, Before-new, Before-release}

-- The writes in front of the release, by their number.
abbrev pub early_write : ℕ → Write
early_write zero = cur_key
early_write (suc zero) = cur_value
early_write (suc (suc zero)) = cur_next
early_write (suc (suc (suc zero))) = new_next
early_write (suc (suc (suc (suc i)))) = new_placeholder

module _ {st : Store} {j : Job} {xs : Items} where
  pub write_early :
      (i : ℕ)
      → i < 5
      → Before st j i xs
      → (st' : Store) × (write j (early_write i) st ≡ some st') × Before st' j (suc i) xs
  unfolding write
  write_early zero h b = (
    _,
    rw b.ready.holds refl,
    Before-cur b (record b.ready.node { key = j.key }) 1 b.ready.placeholder (omega arith)
        (λ _. refl) (λ e. absurd (omega arith)) (λ e. absurd (omega arith)),
  )
  write_early (suc zero) h b = (
    _,
    rw b.ready.holds refl,
    Before-cur b (record b.ready.node { value = j.value }) 2 b.ready.placeholder (omega arith)
        (λ _. b.key (omega arith)) (λ _. refl) (λ e. absurd (omega arith)),
  )
  write_early (suc (suc zero)) h b = (
    _,
    rw b.ready.holds refl,
    Before-cur b (record b.ready.node { next = j.new_tail }) 3 b.ready.placeholder (omega arith)
        (λ _. b.key (omega arith)) (λ _. b.value (omega arith)) (λ _. refl),
  )
  write_early (suc (suc (suc zero))) h b = (
    _,
    rw b.new_holds refl,
    Before-new b (record b.new { next = 0 }) 4 (omega arith) (λ e. absurd (omega arith)),
  )
  write_early (suc (suc (suc (suc zero)))) h b = (
    _,
    rw b.new_holds refl,
    Before-new b (record b.new { is_placeholder = true }) 5 (omega arith) (λ e. refl),
  )
  write_early (suc (suc (suc (suc (suc i))))) h b = absurd (omega arith)

  pub write_release :
      Before st j 5 xs
      → (st' : Store) × (write j cur_placeholder st ≡ some st')
        × After st' j 6 (xs ++ (j.cur_tail, j.key, j.value) ∷ [])
  unfolding write
  write_release b = (
    _,
    rw b.ready.holds refl,
    Before-release b (omega arith) (record b.ready.node { is_placeholder = false }) refl
        (b.next (omega arith)) (b.key (omega arith)) (b.value (omega arith)),
  )

  pub write_tail :
      After st j 6 xs → (st' : Store) × (write j list_tail st ≡ some st') × After st' j 7 xs
  unfolding write
  write_tail a = (
    record st { tail = j.new_tail },
    refl,
    record {
      ready = record {
        seg = a.ready.seg;
        out = a.ready.out;
        node = a.ready.node;
        holds = a.ready.holds;
        placeholder = a.ready.placeholder;
      };
      tail = λ _. refl;
    },
  )
