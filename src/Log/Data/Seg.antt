-- ===== src/Log/Data/Seg.antt =====
-- Segments of log_data_t nodes, and what they hold.
use nd.Base.{
  ℕ, ◌≤◌, ◌≡◌, ◌≢◌, refl, ap, sym, ◌∙◌, Bool, true, false, ◌||◌, Option, none, some, List, [], ◌∷◌,
  ◌++◌, append_assoc, append-nil, length, ◌==◌, arith,
}
use nd.Log.Line.{Entry}
use nd.Log.Data.{LogData, log_data_size, put_cell}

abbrev pub Cells : Type 0 → Type 0
Cells D = ℕ → Option (LogData D)

-- The nodes in front of the last, with what they hold.
abbrev pub Full : Type 0 → Type 0
Full D = List (ℕ × List (Entry D))

module _ {D : Type 0} where
  abbrev pub has : ℕ → Full D → Bool
  has a [] = false
  has a ((p, _) ∷ xs) = (a == p) || has a xs

  abbrev pub flat : List (List (Entry D)) → List (Entry D)
  flat [] = []
  flat (es ∷ ess) = es ++ flat ess

  abbrev pub held : Full D → List (List (Entry D))
  held [] = []
  held ((p, es) ∷ xs) = es ∷ held xs

  abbrev pub Seg : Cells D → Full D → ℕ → ℕ → Type 0
  Seg cells [] p last = p ≡ last
  Seg cells ((a, es) ∷ xs) p last =
      (n : LogData D) × (p ≡ a)
      × (a ≢ 0)
      × (cells a ≡ some n)
      × (n.entries ≡ es)
      × (has a xs ≡ false)
      × Seg cells xs n.next last

  pub Seg-frame :
      {cells cells' : Cells D} (xs : Full D) (p last : ℕ)
      → Seg cells xs p last
      → ((a : ℕ) → has a xs ≡ true → cells' a ≡ cells a)
      → Seg cells' xs p last
  Seg-frame [] p last s same = s
  Seg-frame ((a, es) ∷ xs) p last (n, e, z, h, f, d, s) same = (
    n,
    e,
    z,
    ground (arith, same a, h),
    f,
    d,
    Seg-frame xs n.next last s (λ b q. same b (ground arith)),
  )

  pub Seg-put_cell :
      (cells : Cells D) (xs : Full D) (p last q : ℕ) (m : Option (LogData D))
      → Seg cells xs p last
      → has q xs ≡ false
      → Seg (put_cell cells q m) xs p last
  Seg-put_cell cells xs p last q m s out = Seg-frame xs p last s (λ a h. ground arith)

  pub has-append :
      (a : ℕ) (xs : Full D) (b : ℕ) (es : List (Entry D))
      → has a (xs ++ (b, es) ∷ []) ≡ (has a xs || (a == b))
  has-append a [] b es = ground arith
  has-append a (x ∷ xs) b es = ground (arith, has-append a xs b es)

  pub Seg-append :
      (cells : Cells D) (xs : Full D) (p last : ℕ) (n : LogData D)
      → Seg cells xs p last
      → has last xs ≡ false
      → last ≢ 0
      → cells last ≡ some n
      → Seg cells (xs ++ (last, n.entries) ∷ []) p n.next
  Seg-append cells [] p last n s out z h = (n, s, z, h, refl, refl, refl)
  Seg-append cells ((a, es) ∷ xs) p last n (m, e, y, g, f, d, s) out z h = (
    m,
    e,
    y,
    g,
    f,
    ground (arith, has-append a xs last n.entries),
    Seg-append cells xs m.next last n s (ground arith) z h,
  )

  pub has-none :
      (cells : Cells D) (xs : Full D) (p last a : ℕ)
      → Seg cells xs p last
      → cells a ≡ none
      → has a xs ≡ false
  has-none cells [] p last a s h = refl
  has-none cells ((b, es) ∷ xs) p last a (n, e, z, g, f, d, s) h =
      ground (arith, has-none cells xs n.next last a s h, g)

  -- No node holds more than its arrays have room for.
  abbrev pub InRoom : List (List (Entry D)) → Type 0
  InRoom [] = Unit
  InRoom (es ∷ ess) = (length es ≤ log_data_size) × InRoom ess

  pub InRoom-append :
      (ess : List (List (Entry D))) (es : List (Entry D))
      → InRoom ess
      → length es ≤ log_data_size
      → InRoom (ess ++ es ∷ [])
  InRoom-append [] es r h = (h, tt)
  InRoom-append (fs ∷ ess) es (g, r) h = (g, InRoom-append ess es r h)

  pub held-append :
      (xs : Full D) (b : ℕ) (es : List (Entry D)) → held (xs ++ (b, es) ∷ []) ≡ held xs ++ es ∷ []
  held-append [] b es = refl
  held-append ((a, fs) ∷ xs) b es = ap (λ t. fs ∷ t) (held-append xs b es)

  pub flat-append :
      (ess : List (List (Entry D))) (es : List (Entry D)) → flat (ess ++ es ∷ []) ≡ flat ess ++ es
  flat-append [] es = append-nil es
  flat-append (fs ∷ ess) es =
      ap (λ t. fs ++ t) (flat-append ess es) ∙ sym (append_assoc fs (flat ess) es)
