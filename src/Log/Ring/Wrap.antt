-- ===== src/Log/Ring/Wrap.antt =====
-- Offsets round the end of a ring.
use native.Mathlib.Nat.{mod-eq_of_lt, mod-eq-sub-mod}
use nd.Base.{
  ℕ, ◌+◌, ◌-◌, ◌%◌, ◌≤◌, ◌<◌, ◌≡◌, ap, ◌∙◌, ◌⊎◌, inl, inr, ltb, ltb→lt, ltb→le, Bool-cases, arith,
}
use nd.Log.Ring.{Ring, held}

-- Both offsets are indices of the buffer.
pub record IsValid (cap : ℕ) (r : Ring) : Type 0 where
  pub write_in : r.write < cap
  pub read_in : r.read < cap

pub mod_below : (x cap : ℕ) → x < cap → x % cap ≡ x
mod_below x cap h = mod-eq_of_lt h

pub mod_above : (x cap : ℕ) → cap ≤ x → x < cap + cap → x % cap ≡ x - cap
mod_above x cap h k = mod-eq-sub-mod h ∙ mod-eq_of_lt {n = x - cap} {m = cap} (omega arith)

module _ {cap : ℕ} {r : Ring} (v : IsValid cap r) where
  pub held_straight : r.read ≤ r.write → held cap r ≡ r.write - r.read
  held_straight h =
      omega (arith, mod_above (r.write + cap - r.read) cap (omega arith) (omega arith))

  pub held_wrapped : r.write < r.read → held cap r ≡ r.write + cap - r.read
  held_wrapped h = omega (arith, mod_below (r.write + cap - r.read) cap (omega arith))

  pub held-lt : held cap r < cap
  held-lt = elim (Bool-cases (ltb r.write r.read)) [
    | inl w ↦ omega (arith, held_wrapped (ltb→lt _ _ w), ltb→lt _ _ w)
    | inr s ↦ omega (arith, held_straight (ltb→le _ _ s), ltb→le _ _ s)
  ]

  -- The write offset lies `held` bytes behind the read offset.
  pub read-add-held : (i : ℕ) → (r.read + (held cap r + i)) % cap ≡ (r.write + i) % cap
  read-add-held i = elim (Bool-cases (ltb r.write r.read)) [
    | inl w ↦
        ap (λ k. k % cap) (omega (arith, held_wrapped (ltb→lt _ _ w), ltb→lt _ _ w))
        ∙ mod-eq-sub-mod {n = r.write + i + cap} {m = cap} (omega arith)
        ∙ ap (λ k. k % cap) (omega arith)
    | inr s ↦ ap (λ k. k % cap) (omega (arith, held_straight (ltb→le _ _ s), ltb→le _ _ s))
  ]

  -- Where an unread byte lies.
  pub held_index :
      (i : ℕ)
      → i < held cap r
      → let k = (r.read + i) % cap in
        ((r.read ≤ k) × (k < r.write))
        ⊎ ((r.write < r.read) × (k < r.write))
        ⊎ ((r.write < r.read) × (r.read ≤ k) × (k < cap))
  held_index i h = elim (Bool-cases (ltb r.write r.read)) [
    | inl w ↦ elim (Bool-cases (ltb (r.read + i) cap)) [
      | inl b ↦ inr (
          inr (
            ltb→lt _ _ w,
            rw (mod_below (r.read + i) cap (ltb→lt _ _ b)) (omega arith),
            rw (mod_below (r.read + i) cap (ltb→lt _ _ b)) (ltb→lt _ _ b),
          ))
      | inr a ↦ inr (
          inl (
            ltb→lt _ _ w,
            omega (
              arith,
              ltb→le _ _ a,
              held_wrapped (ltb→lt _ _ w),
              mod_above (r.read + i) cap (ltb→le _ _ a) (omega (arith, held-lt)),
            ),
          ))
    ]
    | inr s ↦ inl (
      omega (
        arith,
        held_straight (ltb→le _ _ s),
        ltb→le _ _ s,
        mod_below (r.read + i) cap (omega (arith, held_straight (ltb→le _ _ s), ltb→le _ _ s)),
      ),
      omega (
        arith,
        held_straight (ltb→le _ _ s),
        ltb→le _ _ s,
        mod_below (r.read + i) cap (omega (arith, held_straight (ltb→le _ _ s), ltb→le _ _ s)),
      ),
    )
  ]
