-- ===== src/Log/Ring/Advance.antt =====
-- The ring of src/log.cpp with its read offset moved on, and one fwrite of its bytes.
use Prim.Native.Nat.{min}
use native.Mathlib.Nat.{mod-add-mod}
use nd.Base.{
  ℕ, ◌+◌, ◌-◌, ◌%◌, ◌^◌, ◌≤◌, ◌<◌, ◌≡◌, ap, sym, ◌∙◌, ◌⊎◌, inl, inr, Bool, true, false, some, [],
  length, take, drop, tabulate, ltb, if◌then◌else◌, ltb→lt, ltb→le, Bool-cases, arith, tabulate_ext,
  take-tabulate, drop-tabulate, take-take, length-take, length-tabulate,
}
use nd.Log.Ring.{Ring, held, byte_at, contents, bytes_from, size_from, flush_span}
use nd.Log.Ring.Wrap.{IsValid, mod_below, mod_above, held_straight, held_wrapped, held-lt}

-- The ring with its read offset moved on by `k`.
abbrev pub advance : ℕ → Ring → ℕ → Ring
advance cap r k = record r { read = (r.read + k) % cap }

module _ {cap : ℕ} {r : Ring} (v : IsValid cap r) where
  pub read_on :
      (k : ℕ)
      → k ≤ held cap r
      → ((r.read + k < cap) × ((r.read + k) % cap ≡ r.read + k))
        ⊎ ((cap ≤ r.read + k) × ((r.read + k) % cap ≡ r.read + k - cap))
  read_on k h = elim (Bool-cases (ltb (r.read + k) cap)) [
    | inl b ↦ inl (ltb→lt _ _ b, mod_below (r.read + k) cap (ltb→lt _ _ b))
    | inr a ↦
        inr (ltb→le _ _ a, mod_above (r.read + k) cap (ltb→le _ _ a) (omega (arith, held-lt v)))
  ]

  pub held_cases :
      ((r.read ≤ r.write) × (held cap r ≡ r.write - r.read))
      ⊎ ((r.write < r.read) × (held cap r ≡ r.write + cap - r.read))
  held_cases = elim (Bool-cases (ltb r.write r.read)) [
    | inl w ↦ inr (ltb→lt _ _ w, held_wrapped v (ltb→lt _ _ w))
    | inr s ↦ inl (ltb→le _ _ s, held_straight v (ltb→le _ _ s))
  ]

module _ {cap : ℕ} {r : Ring} (v : IsValid cap r) (k : ℕ) (h : k ≤ held cap r) where
  pub advance-IsValid : IsValid cap (advance cap r k)
  advance-IsValid = record {
    write_in = v.write_in;
    read_in = omega (arith, read_on v k h, held-lt v);
  }

  pub held-advance : held cap (advance cap r k) ≡ held cap r - k
  held-advance =
      omega
        (arith, h, read_on v k h, held_cases v, held_cases advance-IsValid, v.write_in, v.read_in)

  pub contents-advance : contents cap (advance cap r k) ≡ drop k (contents cap r)
  contents-advance =
      ap (λ n. tabulate n (byte_at cap (advance cap r k))) held-advance
      ∙ tabulate_ext (held cap r - k) (byte_at cap (advance cap r k)) (λ i. byte_at cap r (k + i))
          (λ i b. ap r.buf (mod-add-mod (r.read + k) cap i ∙ ap (λ t. t % cap) (omega arith)))
      ∙ sym (drop-tabulate k (held cap r) (byte_at cap r) h)

  -- The bytes up to the end of the buffer are the first of the contents.
  bytes_from-take :
      r.read + k ≤ cap → bytes_from cap r.buf r.read k ≡ some (take k (contents cap r))
  unfolding bytes_from
  bytes_from-take room = ground (
    arith,
    take-tabulate k (held cap r) (byte_at cap r) h,
    tabulate_ext k (λ i. r.buf (r.read + i)) (byte_at cap r)
        (λ i b. ap r.buf (sym (mod_below (r.read + i) cap (omega arith)))),
  )

  take-take-contents :
      (accepted : ℕ)
      → take accepted (take k (contents cap r)) ≡ take (min accepted k) (contents cap r)
  take-take-contents accepted = take-take accepted k (contents cap r)

  length-taken : (accepted : ℕ) → length (take (min accepted k) (contents cap r)) ≡ min accepted k
  length-taken accepted = omega (
    arith,
    h,
    length-take {0} (min accepted k) (contents cap r),
    length-tabulate {0} (held cap r) (byte_at cap r),
  )

  -- fwrite takes the first bytes of the contents, and the read offset moves on by as many.
  pub flush_span_lem :
      (echo : Bool) (accepted : ℕ)
      → r.read + k ≤ cap
      → flush_span cap echo r.buf r.read k k accepted
        ≡ some (
          (r.read + min accepted k) % cap,
          record {
            file = take (min accepted k) (contents cap r);
            err = if echo then take k (contents cap r) else [];
          },
        )
  unfolding flush_span
  flush_span_lem true accepted room =
      rw (bytes_from-take room, take-take-contents accepted, length-taken accepted)
  flush_span_lem false accepted room =
      rw (bytes_from-take room, take-take-contents accepted, length-taken accepted)

pub size_from-sub :
    (write read : ℕ) → read ≤ write → write < 2 ^ 64 → size_from write read ≡ write - read
size_from-sub write read h k = omega arith
