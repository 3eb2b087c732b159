-- ===== src/Event/TsList/Fifo.antt =====
-- Any number of producers and the one consumer, interleaved: the list of src/event.cpp is a queue.
use nd.Base.{
  ℕ, suc, ◌<◌, ◌≡◌, refl, ap, sym, subst, ◌∙◌, inl, true, some, List, [], ◌++◌, append_assoc, arith,
}
use nd.Event.TsList.{Store, Job, write, list_consume, list_init}
use nd.Event.TsList.Seg.{Items, payload}
use nd.Event.TsList.Steps.{alloc-Before}
use nd.Event.TsList.Run.{
  State, Step, lock, work, unlock, consume, Reach, here, next, IsFresh, nth_write, release, to_list,
}
use nd.Event.TsList.Held.{
  Held, grown, held_work, held_unlock, payload-grown, pop, rest, consume_pop,
}

record Inv (s : State) : Type 0 where
  items : Items
  held : Held s.store s.lock s.writes items
  order : s.taken ++ payload items ≡ s.released

Step-Inv : {s t : State} → Step s t → Inv s → Inv t
Step-Inv {s} (lock fresh junk key value free ne unused) v = record {
  items = v.items;
  held = inl (
    omega arith,
    alloc-Before fresh junk key value (subst (λ l. Held s.store l s.writes v.items) free v.held)
        unused,
  );
  order = v.order;
}
Step-Inv {s} (work j st held lt w) v =
    let (st', e, h) =
      held_work s.store j s.writes v.items
        (subst (λ l. Held s.store l s.writes v.items) held v.held) lt in
    let same : st' ≡ st = cc in
    record {
      items = grown j s.writes v.items;
      held =
          subst (λ l. Held st l (suc s.writes) (grown j s.writes v.items)) (sym held)
            (subst (λ t. Held t (some j) (suc s.writes) (grown j s.writes v.items)) same h);
      order =
          ap (λ t. s.taken ++ t) (payload-grown j s.writes v.items)
          ∙ sym (append_assoc s.taken (payload v.items) (release j s.writes))
          ∙ ap (λ t. t ++ release j s.writes) v.order;
    }
Step-Inv {s} (unlock done) v = record {
  items = v.items;
  held = held_unlock s.store s.lock s.writes v.items v.held done;
  order = v.order;
}
Step-Inv {s} (consume ret got st c) v =
    let (st', e, h, split) = consume_pop s.store s.lock s.writes v.items v.held in
    let same : st' ≡ st = cc in
    let out : (pop (payload v.items)).1 ≡ got = cc in
    record {
      items = rest v.items;
      held = subst (λ t. Held t s.lock s.writes (rest v.items)) same h;
      order =
          append_assoc s.taken (to_list got) (payload (rest v.items))
          ∙ ap (λ t. s.taken ++ t) (ap (λ o. to_list o ++ payload (rest v.items)) (sym out) ∙ split)
          ∙ v.order;
    }

IsFresh-Inv : {s : State} → IsFresh s → Inv s
unfolding list_init
IsFresh-Inv {s} f = record {
  items = [];
  held =
      subst (λ l. Held s.store l s.writes []) (sym f.unlocked)
        (record {
          seg = ground (arith, f.start, f.nonnull);
          out = refl;
          node = record f.junk { is_placeholder = true; next = 0 };
          holds = ground (arith, f.start, f.nonnull);
          placeholder = refl;
        });
  order = rw (f.none_taken, f.none_released);
}

Reach-Inv : {s t : State} → Inv s → Reach s t → Inv t
Reach-Inv v here = v
Reach-Inv v (next r st) = Step-Inv st (Reach-Inv v r)

module _ {s t : State} (f : IsFresh s) (r : Reach s t) where
  -- At any point of any interleaving of producers with the consumer, what the consumer has taken is
  -- what the producers have released, in that order, without what is still in the list; and
  -- list_consume does not fault: it returns 0 with the oldest of what is there, or -1 when nothing
  -- is, also between any two writes of a producer.
  pub list_consume_fifo :
      (q : List (ℕ × ℕ)) × (st : Store) × (t.taken ++ q ≡ t.released)
      × (list_consume t.store ≡ some ((pop q).0, (pop q).1, st))
  list_consume_fifo =
      let v = Reach-Inv (IsFresh-Inv f) r in
      let (st, e, _, _) = consume_pop t.store t.lock t.writes v.items v.held in
      (payload v.items, st, v.order, e)

  -- At any such point the producer that holds the lock can make its next write without a fault.
  pub producer_works :
      (j : Job)
      → t.lock ≡ some j
      → t.writes < 7
      → (st : Store) × (write j (nth_write t.writes) t.store ≡ some st)
  producer_works j held lt =
      let v = Reach-Inv (IsFresh-Inv f) r in
      let (st, e, _) =
        held_work t.store j t.writes v.items
          (subst (λ l. Held t.store l t.writes v.items) held v.held) lt in
      (st, e)
