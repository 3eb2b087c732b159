-- ===== src/Event/TsList/Seg.antt =====
-- What the nodes of the list stand for.
use nd.Base.{
  ℕ, suc, length, ap, ◌≡◌, refl, Bool, true, false, ◌||◌, Option, none, some, List, [], ◌∷◌, ◌++◌,
  ◌==◌, arith,
}
use nd.Event.TsList.{Node, put}

-- The address, key and value of each node, oldest first.
abbrev pub Items : Type 0
Items = List (ℕ × ℕ × ℕ)

abbrev pub has : ℕ → Items → Bool
has a [] = false
has a ((p, _, _) ∷ xs) = (a == p) || has a xs

abbrev pub payload : Items → List (ℕ × ℕ)
payload [] = []
payload ((_, k, v) ∷ xs) = (k, v) ∷ payload xs

-- Node `p` is there, filled, and leads to `next`.
pub record Filled (cells : ℕ → Option Node) (p k v : ℕ) (n : Node) : Type 0 where
  pub holds : cells p ≡ some n
  pub filled : n.is_placeholder ≡ false
  pub key : n.key ≡ k
  pub value : n.value ≡ v

-- From `p` filled nodes lead through the items to `last`, no address twice.
abbrev pub Seg : (ℕ → Option Node) → Items → ℕ → ℕ → Type 0
Seg cells [] p last = p ≡ last
Seg cells ((a, k, v) ∷ xs) p last =
    (n : Node) × (p ≡ a) × Filled cells a k v n × (has a xs ≡ false) × Seg cells xs n.next last

-- A segment survives any change that spares its own nodes.
pub Seg-frame :
    {cells cells' : ℕ → Option Node} (xs : Items) (p last : ℕ)
    → Seg cells xs p last
    → ((a : ℕ) → has a xs ≡ true → cells' a ≡ cells a)
    → Seg cells' xs p last
Seg-frame [] p last s same = s
Seg-frame ((a, k, v) ∷ xs) p last (n, e, f, d, s) same = (
  n,
  e,
  record {
    holds = ground (arith, same a, f.holds);
    filled = f.filled;
    key = f.key;
    value = f.value;
  },
  d,
  Seg-frame xs n.next last s (λ b h. same b (ground arith)),
)

pub Seg-put :
    (cells : ℕ → Option Node) (xs : Items) (p last q : ℕ) (m : Option Node)
    → Seg cells xs p last
    → has q xs ≡ false
    → Seg (put cells q m) xs p last
Seg-put cells xs p last q m s out = Seg-frame xs p last s (λ a h. ground arith)

pub has-snoc :
    (a : ℕ) (xs : Items) (b k v : ℕ) → has a (xs ++ (b, k, v) ∷ []) ≡ (has a xs || (a == b))
has-snoc a [] b k v = ground arith
has-snoc a (x ∷ xs) b k v = ground (arith, has-snoc a xs b k v)

-- A filled node behind a segment makes it longer.
pub Seg-snoc :
    {cells : ℕ → Option Node} (xs : Items) (p last k v : ℕ) (n : Node)
    → Seg cells xs p last
    → has last xs ≡ false
    → Filled cells last k v n
    → Seg cells (xs ++ (last, k, v) ∷ []) p n.next
Seg-snoc [] p last k v n s out f = (n, s, f, refl, refl)
Seg-snoc ((a, k', v') ∷ xs) p last k v n (m, e, f', d, s) out f = (
  m,
  e,
  f',
  ground (arith, has-snoc a xs last k v),
  Seg-snoc xs m.next last k v n s (ground arith) f,
)

pub has-none :
    (cells : ℕ → Option Node) (xs : Items) (p last a : ℕ)
    → Seg cells xs p last
    → cells a ≡ none
    → has a xs ≡ false
has-none cells [] p last a s h = refl
has-none cells ((b, k, v) ∷ xs) p last a (n, e, f, d, s) h =
    ground (arith, has-none cells xs n.next last a s h, f.holds)

pub payload-snoc :
    (xs : Items) (b k v : ℕ) → payload (xs ++ (b, k, v) ∷ []) ≡ payload xs ++ (k, v) ∷ []
payload-snoc [] b k v = refl
payload-snoc ((a, k', v') ∷ xs) b k v = ground (arith, payload-snoc xs b k v)

pub length-payload : (xs : Items) → length (payload xs) ≡ length xs
length-payload [] = refl
length-payload ((a, k, v) ∷ xs) = ap suc (length-payload xs)
