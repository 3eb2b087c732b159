-- ===== src/Log/Data/Laws.antt =====
-- What a chain of log_data_t nodes holds after a push, and what log_printf then reads.
use nd.Base.{
  ℕ, zero, suc, ◌+◌, ◌≤◌, ◌<◌, ◌≡◌, ◌≢◌, refl, ap, sym, ◌∙◌, inl, inr, false, ◌||◌, Bool-cases,
  Option, none, some, List, [], ◌∷◌, ◌++◌, append_assoc, append-nil, length, length-append, leb,
  ◌==◌, if◌then◌else◌, arith,
}
use nd.Log.Line.{Entry}
use nd.Log.Data.{
  LogData, Chain, log_data_size, put_cell, new_data, log_data_new, add, grow, push, nodes,
  log_data_free,
}
use nd.Log.Data.Seg.{
  Cells, Full, has, flat, held, Seg, Seg-put_cell, has-append, Seg-append, has-none, InRoom,
  InRoom-append, held-append, flat-append,
}

module _ {D : Type 0} where
  -- The chain from `head` holds the entries `es`, in order.
  pub record IsChain (head : ℕ) (c : Chain D) (es : List (Entry D)) : Type 0 where
    pub full : Full D
    pub last : LogData D
    pub seg : Seg c.cells full head c.tail
    pub out : has c.tail full ≡ false
    pub nonnull : c.tail ≢ 0
    pub holds : c.cells c.tail ≡ some last
    pub ends : last.next ≡ 0
    pub room : length last.entries ≤ log_data_size
    pub rooms : InRoom (held full)
    pub order : flat (held full) ++ last.entries ≡ es

  pub log_data_new-IsChain :
      (fresh : ℕ) (cells : Cells D)
      → fresh ≢ 0
      → (c : Chain D) × (log_data_new fresh cells ≡ some c) × IsChain fresh c []
  unfolding log_data_new
  log_data_new-IsChain fresh cells z = (
    record { cells = put_cell cells fresh (some new_data); tail = fresh },
    ground (arith, z),
    record {
      full = [];
      last = new_data;
      seg = refl;
      out = refl;
      nonnull = z;
      holds = ground arith;
      ends = refl;
      room = omega arith;
      rooms = tt;
      order = refl;
    },
  )

  -- One more entry in the last node.
  add-IsChain :
      {head : ℕ} {c : Chain D} {es : List (Entry D)} (e : Entry D) (v : IsChain head c es)
      → length v.last.entries < log_data_size
      → (c' : Chain D) × (add e c ≡ some c') × IsChain head c' (es ++ e ∷ [])
  unfolding add
  add-IsChain {head} {c} {es} e v less =
      let n : LogData D = record { entries = v.last.entries ++ e ∷ []; next = v.last.next } in
      (
        record c { cells = put_cell c.cells c.tail (some n) },
        rw v.holds refl,
        record {
          full = v.full;
          last = n;
          seg = Seg-put_cell c.cells v.full head c.tail c.tail (some n) v.seg v.out;
          out = v.out;
          nonnull = v.nonnull;
          holds = ground arith;
          ends = v.ends;
          room = omega (arith, length-append v.last.entries (e ∷ []));
          rooms = v.rooms;
          order =
              sym (append_assoc (flat (held v.full)) v.last.entries (e ∷ []))
              ∙ ap (λ t. t ++ e ∷ []) v.order;
        },
      )

  tail_apart : {n m : Option (LogData D)} {k : LogData D} → n ≡ m → n ≡ some k → m ≡ none → ⊥
  tail_apart e f g = ground (arith, e, f, g)

  -- A new last node, with nothing in it.
  grow-IsChain :
      {head : ℕ} {c : Chain D} {es : List (Entry D)} (fresh : ℕ) (v : IsChain head c es)
      → fresh ≢ 0
      → c.cells fresh ≡ none
      → (c' : Chain D) × (grow fresh v.last c ≡ some c')
        × (v' : IsChain head c' es) × (v'.last.entries ≡ [])
  unfolding grow log_data_new
  grow-IsChain {head} {c} {es} fresh v z unused =
      let n : LogData D = record { entries = v.last.entries; next = fresh } in
      let cells = put_cell (put_cell c.cells fresh (some new_data)) c.tail (some n) in
      let apart : c.tail ≢ fresh = λ q. tail_apart (ap c.cells q) v.holds unused in
      let fresh_out : has fresh v.full ≡ false =
        has-none c.cells v.full head c.tail fresh v.seg unused in
      let seg : Seg cells v.full head c.tail =
        Seg-put_cell _ v.full head c.tail c.tail (some n)
          (Seg-put_cell c.cells v.full head c.tail fresh (some new_data) v.seg fresh_out) v.out in
      (
        record { cells = cells; tail = fresh },
        ground (arith, z),
        record {
          full = v.full ++ (c.tail, v.last.entries) ∷ [];
          last = new_data;
          seg = Seg-append cells v.full head c.tail n seg v.out v.nonnull (ground arith);
          out = ground (arith, has-append fresh v.full c.tail v.last.entries, fresh_out, apart);
          nonnull = z;
          holds = ground (arith, apart);
          ends = refl;
          room = omega arith;
          rooms =
              rw (held-append v.full c.tail v.last.entries)
                (InRoom-append (held v.full) v.last.entries v.rooms v.room);
          order =
              append-nil _
              ∙ rw (held-append v.full c.tail v.last.entries)
                  (flat-append (held v.full) v.last.entries)
              ∙ v.order;
        },
        refl,
      )

  -- A push on a chain, for which malloc gives an unused node if it is called: nothing faults, and
  -- the new entry comes behind the others, in the last node or in a new one.
  pub push_lem :
      {head : ℕ} {c : Chain D} {es : List (Entry D)} (fresh : ℕ) (e : Entry D)
      → IsChain head c es
      → fresh ≢ 0
      → c.cells fresh ≡ none
      → (c' : Chain D) × (push fresh e c ≡ some c') × IsChain head c' (es ++ e ∷ [])
  unfolding push
  push_lem fresh e v z unused = elim (Bool-cases (leb log_data_size (length v.last.entries))) [
    | inr less ↦
        let (c', f, v') = add-IsChain e v (ground (arith, less)) in (c', rw (v.holds, less) f, v')
    | inl full ↦
        let (c₁, g, v₁, empty) = grow-IsChain fresh v z unused in
        let (c', f, v') = add-IsChain e v₁ (rw empty (omega arith)) in
        (c', rw (v.holds, full, g) f, v')
  ]

  nodes-Seg :
      (fuel : ℕ) (cells : Cells D) (xs : Full D) (p last : ℕ) (n : LogData D)
      → Seg cells xs p last
      → last ≢ 0
      → cells last ≡ some n
      → n.next ≡ 0
      → length xs + 1 < fuel
      → nodes fuel p cells ≡ some (held xs ++ n.entries ∷ [])
  unfolding nodes
  nodes-Seg zero cells xs p last n s z h f lt = absurd (omega arith)
  nodes-Seg (suc zero) cells xs p last n s z h f lt = absurd (omega arith)
  nodes-Seg (suc (suc fuel)) cells [] p last n s z h f lt = ground (arith, s, z, h, f)
  nodes-Seg (suc (suc fuel)) cells ((a, es) ∷ xs) p last n (m, e, y, g, d, o, s) z h f lt =
      ground (arith, e, y, g, d, nodes-Seg (suc fuel) cells xs m.next last n s z h f (omega arith))

  -- With more fuel than nodes, the walk that log_printf makes over a chain ends without a fault, and
  -- meets the entries in the order of the pushes, at most sixteen in each node.
  pub nodes_lem :
      {head : ℕ} {c : Chain D} {es : List (Entry D)} (fuel : ℕ) (v : IsChain head c es)
      → length v.full + 1 < fuel
      → (ess : List (List (Entry D))) × (nodes fuel head c.cells ≡ some ess)
        × (flat ess ≡ es)
        × InRoom ess
  nodes_lem {head} {c} fuel v lt = (
    held v.full ++ v.last.entries ∷ [],
    nodes-Seg fuel c.cells v.full head c.tail v.last v.seg v.nonnull v.holds v.ends lt,
    flat-append (held v.full) v.last.entries ∙ v.order,
    InRoom-append (held v.full) v.last.entries v.rooms v.room,
  )

  free-Seg :
      (fuel : ℕ) (cells : Cells D) (xs : Full D) (p last : ℕ) (n : LogData D)
      → Seg cells xs p last
      → has last xs ≡ false
      → last ≢ 0
      → cells last ≡ some n
      → n.next ≡ 0
      → length xs + 1 < fuel
      → (cells' : Cells D) × (log_data_free fuel p cells ≡ some cells')
        × ((b : ℕ) → cells' b ≡ (if has b xs || b == last then none else cells b))
  unfolding log_data_free
  free-Seg zero cells xs p last n s out z h f lt = absurd (omega arith)
  free-Seg (suc zero) cells xs p last n s out z h f lt = absurd (omega arith)
  free-Seg (suc (suc fuel)) cells [] p last n s out z h f lt =
      (put_cell cells last none, ground (arith, s, z, h, f), λ b. ground arith)
  free-Seg (suc (suc fuel)) cells ((a, es) ∷ xs) p last n (m, e, y, g, d, o, s) out z h f lt =
      let (cells', r, q) =
        free-Seg (suc fuel) (put_cell cells a none) xs m.next last n
          (Seg-put_cell cells xs m.next last a none s o) (ground arith) z (ground arith) f
          (omega arith) in
      (cells', ground (arith, e, y, g, r), λ b. q b ∙ ground arith)

  -- With more fuel than nodes, log_data_free ends without a fault, has freed each node of a chain
  -- once, and has left all other memory alone.
  pub log_data_free_lem :
      {head : ℕ} {c : Chain D} {es : List (Entry D)} (fuel : ℕ) (v : IsChain head c es)
      → length v.full + 1 < fuel
      → (cells' : Cells D) × (log_data_free fuel head c.cells ≡ some cells')
        × ((b : ℕ) → cells' b ≡ (if has b v.full || b == c.tail then none else c.cells b))
  log_data_free_lem {head} {c} fuel v lt =
      free-Seg fuel c.cells v.full head c.tail v.last v.seg v.out v.nonnull v.holds v.ends lt
