-- ===== src/Log/Ring/Store.antt =====
-- What log_printf does to a ring (src/log.cpp): the copies stay inside the buffer, and the line
-- comes behind what the ring held.
use native.Mathlib.Nat.{mod-lt}
use nd.Base.{
  ℕ, zero, suc, length-set, length-take, length-tabulate, ◌+◌, ◌-◌, ◌%◌, ◌≤◌, ◌<◌, ◌≡◌, refl, ap,
  ap₂, ◌∙◌, ◌⊎◌, inl, inr, some, List, [], ◌∷◌, ◌++◌, length, set, newline, get_or, take, tabulate,
  ltb, ltb→lt, ltb→le, Bool-cases, arith, tabulate_ext, tabulate-append, tabulate-get_or,
}
use nd.Log.Ring.{
  Ring, copied, memcpy, held, place, store, byte_at, contents, fit, put_line, buf_left_size,
}
use nd.Log.Ring.Wrap.{
  IsValid, mod_below, mod_above, held_straight, held_wrapped, held_index, held-lt, read-add-held,
}

-- The buffer `buf'` has the line from the write offset on, and what was unread as before.
record Placed (cap : ℕ) (r : Ring) (line : List ℕ) (buf' : ℕ → ℕ) : Type 0 where
  fresh : (j : ℕ) → j < length line → buf' ((r.write + j) % cap) ≡ get_or line j 0
  kept : (i : ℕ) → i < held cap r → buf' ((r.read + i) % cap) ≡ byte_at cap r i

copied_inside :
    (buf : ℕ → ℕ) (target : ℕ) (line : List ℕ) (source n k m : ℕ)
    → target ≤ k
    → k < target + n
    → source + (k - target) ≡ m
    → copied buf target line source n k ≡ get_or line m 0
unfolding copied
copied_inside buf target line source n k m lo hi e = ground arith

copied_outside :
    (buf : ℕ → ℕ) (target : ℕ) (line : List ℕ) (source n k : ℕ)
    → (k < target) ⊎ (target + n ≤ k)
    → copied buf target line source n k ≡ buf k
unfolding copied
copied_outside buf target line source n k h = ground arith

module _ {cap : ℕ} {r : Ring} (v : IsValid cap r) where
  -- What is held and what is free do not meet.
  module _ (line : List ℕ) (room : held cap r + length line < cap) where
    free_straight : r.write < r.read → r.write + length line < r.read
    free_straight h = omega (arith, held_wrapped v h)

    free_wrapped : cap ≤ r.write + length line → r.write + length line < r.read + cap
    free_wrapped h = elim (Bool-cases (ltb r.write r.read)) [
      | inl w ↦ omega (arith, free_straight (ltb→lt _ _ w))
      | inr s ↦ omega (arith, held_straight v (ltb→le _ _ s), ltb→le _ _ s)
    ]

    place_straight :
        r.write + length line < cap → Placed cap r line (copied r.buf r.write line 0 (length line))
    place_straight h = record {
      fresh = λ j k. rw (mod_below (r.write + j) cap (omega arith)) (
          copied_inside r.buf r.write line 0 (length line) (r.write + j) j (omega arith)
            (omega arith) (omega arith));
      kept = λ i k.
          copied_outside r.buf r.write line 0 (length line) ((r.read + i) % cap)
            (ground (arith, held_index v i k, free_straight));
    }

    place_wrapped :
        cap ≤ r.write + length line
        → Placed cap r line (
            copied
              (copied r.buf r.write line 0 (cap - r.write))
              0
              line
              (cap - r.write)
              (length line + r.write - cap))
    place_wrapped h = record {
      fresh = λ j k. elim (Bool-cases (ltb (r.write + j) cap)) [
        | inl b ↦ rw (mod_below (r.write + j) cap (ltb→lt _ _ b)) (
            copied_outside first 0 line (cap - r.write) rest (r.write + j) (inr (omega arith))
            ∙ copied_inside r.buf r.write line 0 (cap - r.write) (r.write + j) j (omega arith)
                (omega (arith, ltb→lt _ _ b)) (omega arith))
        | inr a ↦ rw (mod_above (r.write + j) cap (ltb→le _ _ a) (omega arith)) (
            copied_inside first 0 line (cap - r.write) rest (r.write + j - cap) j (omega arith)
              (omega (arith, ltb→le _ _ a)) (omega (arith, ltb→le _ _ a)))
      ];
      kept = λ i k.
          copied_outside first 0 line (cap - r.write) rest ((r.read + i) % cap)
            (ground (arith, held_index v i k, free_wrapped h, free_straight))
          ∙ copied_outside r.buf r.write line 0 (cap - r.write) ((r.read + i) % cap)
              (ground (arith, held_index v i k, free_wrapped h, free_straight));
    }
      where
        rest : ℕ
        rest = length line + r.write - cap

        first : ℕ → ℕ
        first = copied r.buf r.write line 0 (cap - r.write)

    place_lem : (buf' : ℕ → ℕ) × (place cap r line ≡ some buf') × Placed cap r line buf'
    unfolding place memcpy
    place_lem = elim (Bool-cases (ltb (r.write + length line) cap)) [
      | inl s ↦ (
        copied r.buf r.write line 0 (length line),
        ground (arith, ltb→lt _ _ s),
        place_straight (ltb→lt _ _ s),
      )
      | inr w ↦ (
        copied (copied r.buf r.write line 0 (cap - r.write)) 0 line (cap - r.write)
            (length line + r.write - cap),
        ground (arith, ltb→le _ _ w),
        place_wrapped (ltb→le _ _ w),
      )
    ]

    module _ (buf' : ℕ → ℕ) where
      abbrev after : Ring
      after = record r { buf = buf'; write = (r.write + length line) % cap }

      after-IsValid : IsValid cap after
      after-IsValid = record { write_in = mod-lt _ (omega arith); read_in = v.read_in }

      held-after : held cap after ≡ held cap r + length line
      held-after = elim (Bool-cases (ltb (r.write + length line) cap)) [
        | inl s ↦
            let e = mod_below (r.write + length line) cap (ltb→lt _ _ s) in
            elim (Bool-cases (ltb r.write r.read)) [
              | inl w ↦ omega (
                arith,
                e,
                free_straight (ltb→lt _ _ w),
                held_wrapped v (ltb→lt _ _ w),
                held_wrapped after-IsValid (omega (arith, e, free_straight (ltb→lt _ _ w))),
              )
              | inr s' ↦ omega (
                arith,
                e,
                ltb→le _ _ s',
                held_straight v (ltb→le _ _ s'),
                held_straight after-IsValid (omega (arith, e, ltb→le _ _ s')),
              )
            ]
        | inr a ↦
            let e = mod_above (r.write + length line) cap (ltb→le _ _ a) (omega arith) in
            let f = free_wrapped (ltb→le _ _ a) in
            let h : r.read ≤ r.write = ground (arith, ltb→le _ _ a, free_straight) in
            omega (
              arith,
              e,
              f,
              h,
              ltb→le _ _ a,
              held_straight v h,
              held_wrapped after-IsValid (omega (arith, e, f, ltb→le _ _ a)),
            )
      ]

      contents-after : Placed cap r line buf' → contents cap after ≡ contents cap r ++ line
      contents-after p =
          ap (λ n. tabulate n (byte_at cap after)) held-after
          ∙ tabulate-append (held cap r) (length line) (byte_at cap after)
          ∙ ap₂ ◌++◌ (tabulate_ext (held cap r) (byte_at cap after) (byte_at cap r) p.kept) (
              tabulate_ext (length line) (λ i. byte_at cap after (held cap r + i))
                (λ i. get_or line i 0) (λ i h. ap buf' (read-add-held v i) ∙ p.fresh i h)
              ∙ tabulate-get_or line 0)

    -- A line that leaves a byte free is stored without a fault, keeps the offsets in range, leaves
    -- the read offset alone, and comes behind what the ring held.
    pub store_lem :
        (r' : Ring) × (store cap r line ≡ some r')
        × IsValid cap r'
        × (r'.read ≡ r.read)
        × (contents cap r' ≡ contents cap r ++ line)
    unfolding store
    store_lem =
        let (buf', e, p) = place_lem in
        (after buf', rw e, after-IsValid buf', refl, contents-after buf' p)

module _ {ℓ} {A : Type ℓ} where
  set-take :
      (n : ℕ) (xs : List A) (v : A)
      → n < length xs
      → set (take (suc n) xs) n v ≡ take n xs ++ v ∷ []
  set-take n [] v h = absurd (omega arith)
  set-take zero (x ∷ xs) v h = refl
  set-take (suc n) (x ∷ xs) v h = ap (λ t. x ∷ t) (set-take n xs v (omega arith))

-- A line that fits stays as it is, one that does not is cut to the free bytes with a newline for
-- its last byte, and goes wholly where there is no free byte.
pub fit_lem :
    (left : ℕ) (line : List ℕ)
    → (length line < left → fit left line ≡ line)
      × (1 < left → left ≤ length line → fit left line ≡ take (left - 2) line ++ newline ∷ [])
      × (left ≡ 1 → fit left line ≡ [])
unfolding fit
fit_lem zero line =
    (λ h. absurd (omega arith), λ h k. absurd (omega arith), λ h. absurd (omega arith))
fit_lem (suc zero) [] = (λ h. refl, λ h k. absurd (omega arith), λ h. refl)
fit_lem (suc zero) (x ∷ xs) =
    (λ h. absurd (omega arith), λ h k. absurd (omega arith), λ h. ground arith)
fit_lem (suc (suc n)) line = (
  λ h. ground arith,
  λ h k. ground (arith, set-take n line newline (omega arith)),
  λ h. absurd (omega arith),
)

pub length-fit : (left : ℕ) (line : List ℕ) → 0 < left → length (fit left line) < left
unfolding fit
length-fit left line h =
    ground
      (arith, length-set (take (left - 1) line) (left - 1 - 1) newline, length-take (left - 1) line)

-- log_printf puts a line into a ring without a fault: the offsets stay in range, the read offset is
-- left alone, and the line, cut to the free bytes, comes behind what the ring held.
pub put_line_lem :
    {cap : ℕ} {r : Ring} (line : List ℕ)
    → IsValid cap r
    → (r' : Ring) × (put_line cap r line ≡ some r')
      × IsValid cap r'
      × (r'.read ≡ r.read)
      × (contents cap r' ≡ contents cap r ++ fit (cap - length (contents cap r)) line)
unfolding put_line buf_left_size
put_line_lem {cap} {r} line v = rw (length-tabulate (held cap r) (byte_at cap r)) (
    store_lem v (fit (cap - held cap r) line)
      (omega (arith, held-lt v, length-fit (cap - held cap r) line (omega (arith, held-lt v)))))
