-- ===== src/Event/TsList/Steps.antt =====
-- The list inside and outside the lock of list_produce, and what a change of one node does to it.
use nd.Base.{ℕ, ◌≤◌, ◌<◌, ◌≡◌, ◌≢◌, refl, subst, true, false, none, some, [], ◌∷◌, ◌++◌, arith}
use nd.Event.TsList.{Node, Store, put, alloc, Job, job}
use nd.Event.TsList.Seg.{Items, has, Filled, Seg, Seg-put, Seg-snoc, has-none, has-snoc}

-- From the head filled nodes lead through the items to the placeholder `last`.
pub record Ready (st : Store) (last : ℕ) (xs : Items) : Type 0 where
  pub seg : Seg st.cells xs st.head last
  pub out : has last xs ≡ false
  pub node : Node
  pub holds : st.cells last ≡ some node
  pub placeholder : node.is_placeholder ≡ true

-- Inside the lock, `i` writes done, the placeholder not yet released.
pub record Before (st : Store) (j : Job) (i : ℕ) (xs : Items) : Type 0 where
  pub ready : Ready st j.cur_tail xs
  pub new_out : has j.new_tail xs ≡ false
  pub apart : j.cur_tail ≢ j.new_tail
  pub tail : st.tail ≡ j.cur_tail
  pub key : 1 ≤ i → ready.node.key ≡ j.key
  pub value : 2 ≤ i → ready.node.value ≡ j.value
  pub next : 3 ≤ i → ready.node.next ≡ j.new_tail
  pub new : Node
  pub new_holds : st.cells j.new_tail ≡ some new
  pub new_placeholder : 5 ≤ i → new.is_placeholder ≡ true

-- Inside the lock, with the placeholder released.
pub record After (st : Store) (j : Job) (i : ℕ) (xs : Items) : Type 0 where
  pub ready : Ready st j.new_tail xs
  pub tail : 7 ≤ i → st.tail ≡ j.new_tail

module _ {st : Store} {xs : Items} where
  pub alloc-Before :
      (fresh : ℕ) (junk : Node) (key value : ℕ)
      → Ready st st.tail xs
      → st.cells fresh ≡ none
      → Before (alloc fresh junk st) (job st fresh key value) 0 xs
  unfolding alloc
  alloc-Before fresh junk key value r h =
      let out = has-none st.cells xs st.head st.tail fresh r.seg h in
      record {
        ready = record {
          seg = Seg-put st.cells xs st.head st.tail fresh (some junk) r.seg out;
          out = r.out;
          node = r.node;
          holds = ground (arith, r.holds);
          placeholder = r.placeholder;
        };
        new_out = out;
        apart = ground (arith, r.holds);
        tail = refl;
        key = λ k. absurd (omega arith);
        value = λ k. absurd (omega arith);
        next = λ k. absurd (omega arith);
        new = junk;
        new_holds = ground arith;
        new_placeholder = λ k. absurd (omega arith);
      }

module _ {st : Store} {j : Job} {xs : Items} {i : ℕ} (b : Before st j i xs) where
  -- A write to the old placeholder, which stays one.
  pub Before-cur :
      (n : Node) (i' : ℕ)
      → n.is_placeholder ≡ true
      → i' < 5
      → (1 ≤ i' → n.key ≡ j.key)
      → (2 ≤ i' → n.value ≡ j.value)
      → (3 ≤ i' → n.next ≡ j.new_tail)
      → Before (record st { cells = put st.cells j.cur_tail (some n) }) j i' xs
  Before-cur n i' h early k v x = record {
    ready = record {
      seg = Seg-put st.cells xs st.head j.cur_tail j.cur_tail (some n) b.ready.seg b.ready.out;
      out = b.ready.out;
      node = n;
      holds = ground arith;
      placeholder = h;
    };
    new_out = b.new_out;
    apart = b.apart;
    tail = b.tail;
    key = k;
    value = v;
    next = x;
    new = b.new;
    new_holds = ground (arith, b.new_holds, b.apart);
    new_placeholder = λ e. absurd (omega arith);
  }

  -- A write to the new node.
  pub Before-new :
      (m : Node) (i' : ℕ)
      → 3 ≤ i
      → (5 ≤ i' → m.is_placeholder ≡ true)
      → Before (record st { cells = put st.cells j.new_tail (some m) }) j i' xs
  Before-new m i' late h = record {
    ready = record {
      seg = Seg-put st.cells xs st.head j.cur_tail j.new_tail (some m) b.ready.seg b.new_out;
      out = b.ready.out;
      node = b.ready.node;
      holds = ground (arith, b.ready.holds, b.apart);
      placeholder = b.ready.placeholder;
    };
    new_out = b.new_out;
    apart = b.apart;
    tail = b.tail;
    key = λ _. b.key (omega arith);
    value = λ _. b.value (omega arith);
    next = λ _. b.next late;
    new = m;
    new_holds = ground arith;
    new_placeholder = h;
  }

  -- The release: the old placeholder becomes an item, the new node the placeholder.
  pub Before-release :
      5 ≤ i
      → (n : Node) → n.is_placeholder ≡ false
      → n.next ≡ j.new_tail
      → n.key ≡ j.key
      → n.value ≡ j.value
      → After
          (record st { cells = put st.cells j.cur_tail (some n) })
          j
          6
          (xs ++ (j.cur_tail, j.key, j.value) ∷ [])
  Before-release late n h x k v =
      let filled : Filled (put st.cells j.cur_tail (some n)) j.cur_tail j.key j.value n = record {
        holds = ground arith;
        filled = h;
        key = k;
        value = v;
      } in
      record {
        ready = record {
          seg =
              subst
                (Seg (put st.cells j.cur_tail (some n)) (xs ++ (j.cur_tail, j.key, j.value) ∷ [])
                  st.head)
                x
                (Seg-snoc xs st.head j.cur_tail j.key j.value n
                  (Seg-put st.cells xs st.head j.cur_tail j.cur_tail (some n) b.ready.seg
                    b.ready.out)
                  b.ready.out filled);
          out = ground (arith, has-snoc j.new_tail xs j.cur_tail j.key j.value, b.new_out, b.apart);
          node = b.new;
          holds = ground (arith, b.new_holds, b.apart);
          placeholder = b.new_placeholder late;
        };
        tail = λ e. absurd (omega arith);
      }
