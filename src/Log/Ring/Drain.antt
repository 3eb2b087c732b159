-- ===== src/Log/Ring/Drain.antt =====
-- What a round of log_thread_loop does to a ring (src/log.cpp).
use Prim.Native.Nat.{min}
use native.Mathlib.Nat.{mod-add-mod, add_assoc}
use nd.Base.{
  ℕ, ◌+◌, ◌-◌, ◌%◌, ◌^◌, ◌≤◌, ◌<◌, ◌≡◌, refl, ap, sym, ◌∙◌, inl, inr, Bool, not, true, false,
  Option, some, List, [], ◌++◌, length, take, drop, tabulate, ltb, ◌==◌, if◌then◌else◌, ltb→lt,
  ltb→le, Bool-cases, arith, take-add, length-tabulate, take-all,
}
use nd.Log.Ring.{
  Ring, Output, held, byte_at, contents, size_from, drain_straight, drain_wrapped, drain, quiet,
}
use nd.Log.Ring.Wrap.{IsValid, mod_below, held_straight, held_wrapped, held-lt}
use nd.Log.Ring.Advance.{
  advance, read_on, held_cases, advance-IsValid, held-advance, contents-advance, flush_span_lem,
  size_from-sub,
}

module _ {cap : ℕ} {r : Ring} (v : IsValid cap r) (small : cap < 2 ^ 64) (echo : Bool) where
  advance-advance : (j k : ℕ) → advance cap (advance cap r j) k ≡ advance cap r (j + k)
  advance-advance j k =
      ap (λ n. record r { read = n })
        (mod-add-mod (r.read + j) cap k ∙ ap (λ t. t % cap) (omega arith))

  -- All of the contents, in so many bytes.
  contents-all : (k : ℕ) → held cap r ≤ k → take k (contents cap r) ≡ contents cap r
  contents-all k h =
      take-all k (contents cap r) (omega (arith, length-tabulate {0} (held cap r) (byte_at cap r)))

  drain_straight_lem :
      (first : ℕ)
      → r.read < r.write
      → drain_straight cap echo (quiet r) first r
        ≡ some (
          advance cap r (min first (held cap r)),
          record {
            file = take (min first (held cap r)) (contents cap r);
            err = if echo then contents cap r else [];
          },
          true,
        )
  unfolding drain_straight
  drain_straight_lem first h =
      let e : held cap r ≡ r.write - r.read = held_straight v (omega arith) in
      rw (
        size_from-sub r.write r.read (omega arith) (omega (arith, v.write_in)),
        ← e,
        flush_span_lem v (held cap r) (omega arith) echo first (omega (arith, v.write_in)),
        contents-all (held cap r) (omega arith),
      )

  both_echoes :
      (b : Bool) (m n : ℕ)
      → held cap r ≤ m + n
      → (if b then take m (contents cap r) else [])
          ++ (if b then take n (drop m (contents cap r)) else [])
        ≡ (if b then contents cap r else [])
  both_echoes true m n h = sym (take-add m n (contents cap r)) ∙ contents-all (m + n) h
  both_echoes false m n h = refl

  drain_wrapped_lem :
      (first second : ℕ)
      → r.write < r.read
      → cap - r.read ≤ first
      → drain_wrapped cap echo (quiet r) first second r
        ≡ some (
          advance cap r (cap - r.read + min second r.write),
          record {
            file = take (cap - r.read + min second r.write) (contents cap r);
            err = if echo then contents cap r else [];
          },
          true,
        )
  unfolding drain_wrapped
  drain_wrapped_lem first second h enough =
      let e = held_wrapped v h in
      let fits : cap - r.read ≤ held cap r = omega (arith, e) in
      let v' = advance-IsValid v (cap - r.read) fits in
      let whole : min first (cap - r.read) ≡ cap - r.read = omega arith in
      let at_start : (r.read + (cap - r.read)) % cap ≡ 0 =
        omega (arith, read_on v (cap - r.read) fits, v.read_in) in
      let e' : held cap (advance cap r (cap - r.read)) ≡ r.write =
        omega (arith, held-advance v (cap - r.read) fits, e, h, v.read_in) in
      let size : size_from r.write ((r.read + (cap - r.read)) % cap)
          ≡ held cap (advance cap r (cap - r.read)) =
        size_from-sub r.write _ (omega arith) (omega (arith, v.write_in)) ∙ omega arith in
      rw (
        flush_span_lem v (cap - r.read) fits echo first (omega (arith, v.read_in)),
        whole,
        size,
        flush_span_lem v' (held cap (advance cap r (cap - r.read))) (omega arith) echo second
            (omega (arith, v.write_in)),
        contents-advance v (cap - r.read) fits,
        e',
        ← take-add (cap - r.read) (min second r.write) (contents cap r),
        mod-add-mod (r.read + (cap - r.read)) cap (min second r.write),
        add_assoc r.read (cap - r.read) (min second r.write),
        both_echoes echo (cap - r.read) r.write (omega (arith, e)),
      )

  -- What a round does that takes the first `k` bytes.
  pub record Drained (first second k : ℕ) : Type 0 where
    pub within : k ≤ length (contents cap r)
    pub result :
        drain cap echo (quiet r) first second r
        ≡ some (
          advance cap r k,
          record { file = take k (contents cap r); err = if echo then contents cap r else [] },
          not (length (contents cap r) == 0),
        )
    pub valid : IsValid cap (advance cap r k)
    pub left : contents cap (advance cap r k) ≡ drop k (contents cap r)
    pub whole : cap ≤ first → cap ≤ second → k ≡ length (contents cap r)

  length-contents : length (contents cap r) ≡ held cap r
  length-contents = length-tabulate (held cap r) (byte_at cap r)

  drained :
      (first second k : ℕ) (b : Bool)
      → k ≤ held cap r
      → drain cap echo (quiet r) first second r
        ≡ some (
          advance cap r k,
          record { file = take k (contents cap r); err = if echo then contents cap r else [] },
          b,
        )
      → b ≡ not (held cap r == 0)
      → (cap ≤ first → cap ≤ second → k ≡ held cap r)
      → Drained first second k
  drained first second k b h e f whole = record {
    within = rw length-contents h;
    result = rw (length-contents, ← f) e;
    valid = advance-IsValid v k h;
    left = contents-advance v k h;
    whole = λ x y. rw length-contents (whole x y);
  }

  idle :
      (b : Bool) (read : ℕ) (bytes : List ℕ)
      → read ≡ r.read
      → bytes ≡ []
      → ◌≡◌ {A = Option (Ring × Output × Bool)} (some (r, record { file = []; err = [] }, false)) (
          some
            (record r { read = read }, record { file = []; err = if b then bytes else [] }, false))
  idle true read bytes e f = rw (e, f)
  idle false read bytes e f = rw e

  -- With no producer at work a round does not fault where the first fwrite takes all that it is
  -- given when the bytes go round the end of the buffer. It writes the first bytes of the contents
  -- to the file, in order, and moves the read offset on by as many; stderr, if it is on, gets all
  -- of the contents. The round tells whether there was anything, and empties the ring if the calls
  -- of fwrite take all.
  pub drain_lem :
      (first second : ℕ)
      → (r.write < r.read → cap - r.read ≤ first)
      → (k : ℕ) × Drained first second k
  unfolding drain
  drain_lem first second enough = elim (Bool-cases (r.write == r.read)) [
    | inl empty ↦
        let none_held : held cap r ≡ 0 = ground (arith, held_cases v) in
        (
          0,
          drained first second 0 false (omega arith)
              (rw empty (
                idle echo ((r.read + 0) % cap) (contents cap r)
                  (omega (arith, mod_below (r.read + 0) cap (omega (arith, v.read_in))))
                  (ap (λ n. tabulate n (byte_at cap r)) none_held)))
              (rw none_held) (λ x y. omega arith),
        )
    | inr some_held ↦ elim (Bool-cases (ltb r.read r.write)) [
      | inl straight ↦ (
        min first (held cap r),
        drained first second (min first (held cap r)) true (omega arith)
            (rw (some_held, straight) (drain_straight_lem first (ltb→lt _ _ straight)))
            (ground (arith, held_cases v, ltb→lt _ _ straight)) (λ x y. omega (arith, held-lt v)),
      )
      | inr wrapped ↦ (
        cap - r.read + min second r.write,
        wrapped_round (ground (arith, ltb→le _ _ wrapped)) some_held wrapped,
      )
    ]
  ]
    where
      wrapped_round :
          r.write < r.read
          → (r.write == r.read) ≡ false
          → ltb r.read r.write ≡ false
          → Drained first second (cap - r.read + min second r.write)
      wrapped_round w e f =
          let h = held_wrapped v w in
          drained first second (cap - r.read + min second r.write) true
            (omega (arith, h, v.read_in)) (rw (e, f) (drain_wrapped_lem first second w (enough w)))
            (ground (arith, h, v.read_in)) (λ x y. omega (arith, h, v.read_in, v.write_in))
