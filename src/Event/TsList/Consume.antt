-- ===== src/Event/TsList/Consume.antt =====
-- One list_consume of src/event.cpp.
use nd.Base.{ℕ, ◌≡◌, refl, none, some, [], ◌∷◌, pos, negsuc, arith}
use nd.Event.TsList.{Node, Store, put, list_consume}
use nd.Event.TsList.Seg.{Items, Seg-put}
use nd.Event.TsList.Steps.{Ready}

module _ {st : Store} {last : ℕ} where
  pub consume_empty : Ready st last [] → list_consume st ≡ some (negsuc 0, none, st)
  unfolding list_consume
  consume_empty r = rw (r.seg, r.holds, r.placeholder)

  -- The oldest item comes out, its node is freed, and no other node is touched.
  pub consume_item :
      {a k v : ℕ} {xs : Items}
      → (r : Ready st last ((a, k, v) ∷ xs))
      → (n : Node) × (list_consume st
          ≡ some (pos 0, some (k, v), record st { cells = put st.cells a none; head = n.next }))
        × (r' : Ready (record st { cells = put st.cells a none; head = n.next }) last xs) × (r'.node
            ≡ r.node)
  unfolding list_consume
  consume_item {a} {k} {v} {xs} r =
      let (n, e, f, d, s) = r.seg in
      (
        n,
        ground (arith, f.holds, f.filled, f.key, f.value),
        record {
          seg = Seg-put st.cells xs n.next last a none s d;
          out = ground (arith, r.out);
          node = r.node;
          holds = ground (arith, r.holds, r.out);
          placeholder = r.placeholder;
        },
        refl,
      )
