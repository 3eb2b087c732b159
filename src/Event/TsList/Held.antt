-- ===== src/Event/TsList/Held.antt =====
-- What the producer that holds the lock has made of the list, write by write, and what the consumer
-- finds in it then (src/event.cpp).
use nd.Base.{
  ℕ, zero, suc, ◌≤◌, ◌<◌, ◌≡◌, refl, ap, sym, subst, ◌∙◌, ◌⊎◌, inl, inr, Bool-cases, Option, none,
  some, List, [], ◌∷◌, ◌++◌, append-nil, ◌==◌, if◌then◌else◌, ℤ, pos, negsuc, arith,
}
use nd.Event.TsList.{Node, Store, put, Job, write, list_consume}
use nd.Event.TsList.Seg.{Items, payload, payload-snoc}
use nd.Event.TsList.Steps.{Ready, Before, After}
use nd.Event.TsList.Writes.{early_write, write_early, write_release, write_tail}
use nd.Event.TsList.Consume.{consume_empty, consume_item}
use nd.Event.TsList.Run.{nth_write, release, to_list}

-- What the holder of the lock has made of the list.
abbrev pub Held : Store → Option Job → ℕ → Items → Type 0
Held st none i xs = Ready st st.tail xs
Held st (some j) i xs = ((i ≤ 5) × Before st j i xs) ⊎ ((5 < i) × (i ≤ 7) × After st j i xs)

-- The item that the holder's next write releases.
abbrev pub grown : Job → ℕ → Items → Items
grown j i xs = if i == 5 then xs ++ (j.cur_tail, j.key, j.value) ∷ [] else xs

early_work :
    (st : Store) (j : Job) (i : ℕ) (xs : Items)
    → i < 5
    → Held st (some j) i xs
    → (st' : Store) × (write j (early_write i) st ≡ some st') × Held st' (some j) (suc i) xs
early_work st j i xs lt (inl (_, b)) =
    let (st', e, b') = write_early i lt b in (st', e, inl (lt, b'))
early_work st j i xs lt (inr (late, _, _)) = absurd (omega arith)

pub held_work :
    (st : Store) (j : Job) (i : ℕ) (xs : Items)
    → Held st (some j) i xs
    → i < 7
    → (st' : Store) × (write j (nth_write i) st ≡ some st')
      × Held st' (some j) (suc i) (grown j i xs)
held_work st j zero xs h lt = early_work st j 0 xs (omega arith) h
held_work st j (suc zero) xs h lt = early_work st j 1 xs (omega arith) h
held_work st j (suc (suc zero)) xs h lt = early_work st j 2 xs (omega arith) h
held_work st j (suc (suc (suc zero))) xs h lt = early_work st j 3 xs (omega arith) h
held_work st j (suc (suc (suc (suc zero)))) xs h lt = early_work st j 4 xs (omega arith) h
held_work st j (suc (suc (suc (suc (suc zero))))) xs (inl (_, b)) lt =
    let (st', e, a) = write_release b in (st', e, inr (omega arith, omega arith, a))
held_work st j (suc (suc (suc (suc (suc zero))))) xs (inr (late, _, _)) lt = absurd (omega arith)
held_work st j (suc (suc (suc (suc (suc (suc zero)))))) xs (inl (early, _)) lt =
    absurd (omega arith)
held_work st j (suc (suc (suc (suc (suc (suc zero)))))) xs (inr (_, _, a)) lt =
    let (st', e, a') = write_tail a in (st', e, inr (omega arith, omega arith, a'))
held_work st j (suc (suc (suc (suc (suc (suc (suc i))))))) xs h lt = absurd (omega arith)

-- The placeholder that the consumer would meet last.
held-Ready :
    (st : Store) (l : Option Job) (i : ℕ) (xs : Items)
    → Held st l i xs
    → (last : ℕ) × Ready st last xs
held-Ready st none i xs r = (st.tail, r)
held-Ready st (some j) i xs (inl (_, b)) = (j.cur_tail, b.ready)
held-Ready st (some j) i xs (inr (_, _, a)) = (j.new_tail, a.ready)

-- Taking the oldest item does not disturb the holder.
held_consume :
    (st : Store) (l : Option Job) (i a k v : ℕ) (xs : Items)
    → Held st l i ((a, k, v) ∷ xs)
    → (st' : Store) × (list_consume st ≡ some (pos 0, some (k, v), st')) × Held st' l i xs
held_consume st none i a k v xs r =
    let (n, e, r', _) = consume_item r in
    (record st { cells = put st.cells a none; head = n.next }, e, r')
held_consume st (some j) i a k v xs (inl (early, b)) =
    let (n, e, r', same) = consume_item b.ready in
    (
      record st { cells = put st.cells a none; head = n.next },
      e,
      inl (
        early,
        record {
          ready = r';
          new_out = ground (arith, b.new_out);
          apart = b.apart;
          tail = b.tail;
          key = λ h. ap (λ (m : Node). m.key) same ∙ b.key h;
          value = λ h. ap (λ (m : Node). m.value) same ∙ b.value h;
          next = λ h. ap (λ (m : Node). m.next) same ∙ b.next h;
          new = b.new;
          new_holds = ground (arith, b.new_holds, b.new_out);
          new_placeholder = b.new_placeholder;
        },
      ),
    )
held_consume st (some j) i a k v xs (inr (late, most, f)) =
    let (n, e, r', _) = consume_item f.ready in
    (
      record st { cells = put st.cells a none; head = n.next },
      e,
      inr (late, most, record { ready = r'; tail = f.tail }),
    )

-- Giving back the lock.
pub held_unlock :
    (st : Store) (l : Option Job) (i : ℕ) (xs : Items) → Held st l i xs → i ≡ 7 → Held st none i xs
held_unlock st none i xs r h = r
held_unlock st (some j) i xs (inl (early, b)) h = absurd (omega arith)
held_unlock st (some j) i xs (inr (_, _, a)) h =
    subst (λ t. Ready st t xs) (sym (a.tail (omega arith))) a.ready

pub payload-grown :
    (j : Job) (i : ℕ) (xs : Items) → payload (grown j i xs) ≡ payload xs ++ release j i
payload-grown j i xs = elim (Bool-cases (i == 5)) [
  | inl e ↦ rw e (payload-snoc xs j.cur_tail j.key j.value)
  | inr e ↦ rw e (sym (append-nil (payload xs)))
]

-- A queue: what taking from it returns, with the code of list_consume, and what stays.
pub pop : List (ℕ × ℕ) → ℤ × Option (ℕ × ℕ) × List (ℕ × ℕ)
pop [] = (negsuc 0, none, [])
pop (x ∷ q) = (pos 0, some x, q)

abbrev pub rest : Items → Items
rest [] = []
rest (x ∷ xs) = xs

-- What the consumer gets, whatever the producers are at.
pub consume_pop :
    (st : Store) (l : Option Job) (i : ℕ) (xs : Items)
    → Held st l i xs
    → (st' : Store) × (list_consume st ≡ some ((pop (payload xs)).0, (pop (payload xs)).1, st'))
      × Held st' l i (rest xs)
      × (to_list (pop (payload xs)).1 ++ payload (rest xs) ≡ payload xs)
unfolding pop
consume_pop st l i [] h = let (last, r) = held-Ready st l i [] h in (st, consume_empty r, h, refl)
consume_pop st l i ((a, k, v) ∷ xs) h =
    let (st', e, h') = held_consume st l i a k v xs h in (st', e, h', refl)
