-- ===== src/Req/Post/Bounds.antt =====
-- What get_post_data returns and copies.
use nd.Base.{
  to_int32, ℕ, zero, suc, ◌+◌, ◌*◌, ◌%◌, ◌^◌, ◌≤◌, ◌<◌, ◌≡◌, refl, ap, ◌∙◌, inl, inr, Bool-cases,
  List, take, take-all, length, leb, ltb, ltb→le, ◌==◌, if◌then◌else◌, ℤ, pos, negsuc, arith,
}
use nd.Req.Post.{
  max_post_data_size, errno_post_data_empty, errno_post_data_too_large, copy_post_data,
  get_post_data,
}

-- A copy, or one of the two refusals with the buffer as it was.
pub data Posted (input post_data : List ℕ) : ℤ × List ℕ → Type 0 where
  copied :
      (n : ℕ)
      → 0 < n
      → n ≤ max_post_data_size
      → n ≤ length input
      → Posted input post_data (pos n, take n input)
  empty : Posted input post_data (errno_post_data_empty, post_data)
  too_large : Posted input post_data (errno_post_data_too_large, post_data)

to_int32-le : (n m : ℕ) → to_int32 n ≡ pos m → m ≤ n
unfolding to_int32
to_int32-le n m h = ground arith

copy-Posted :
    (len : ℤ) (input post_data : List ℕ)
    → ((m : ℕ) → len ≡ pos m → m ≤ length input)
    → Posted input post_data (copy_post_data len input post_data)
unfolding copy_post_data
copy-Posted (negsuc n) input post_data h = empty
copy-Posted (pos zero) input post_data h = empty
copy-Posted (pos (suc n)) input post_data h = elim (Bool-cases (ltb max_post_data_size (suc n))) [
  | inl big ↦ rw big too_large
  | inr small ↦ rw small (copied (suc n) (omega arith) (ltb→le _ _ small) (h (suc n) refl))
]

-- For a body of any length get_post_data either copies a first part of it, at least one byte and
-- no more than the buffer holds in front of its last byte, never past the end of the body, and
-- returns how much; or it leaves the buffer alone and returns one of its two codes.
pub get_post_data-Posted :
    (input post_data : List ℕ) → Posted input post_data (get_post_data input post_data)
unfolding get_post_data
get_post_data-Posted input post_data =
    copy-Posted (to_int32 (length input)) input post_data (to_int32-le (length input))

to_int32_small : (n : ℕ) → n < 2 ^ 31 → to_int32 n ≡ pos n
unfolding to_int32
to_int32_small n h = ground arith

-- A body of fewer than 2^31 bytes is taken whole where it has a byte and fits, and otherwise
-- refused by the code that says why.
pub get_post_data_exact :
    (input post_data : List ℕ)
    → length input < 2 ^ 31
    → get_post_data input post_data ≡ (
        if length input == 0
        then (errno_post_data_empty, post_data)
        else if leb (length input) max_post_data_size
        then (pos (length input), input)
        else (errno_post_data_too_large, post_data))
unfolding get_post_data copy_post_data
get_post_data_exact input post_data h =
    let e = to_int32_small (length input) h in
    elim (Bool-cases (length input == 0)) [
      | inl z ↦ let z' : length input ≡ 0 = ground (arith, z) in rw (e, z')
      | inr nz ↦ elim (Bool-cases (leb (length input) max_post_data_size)) [
        | inl fits ↦
            rw (e, nz, fits)
              (copies (length input) (ground (arith, nz)) (ground (arith, fits))
                ∙ ap (λ t. (pos (length input), t)) (take-all (length input) input (omega arith)))
        | inr big ↦ rw (e, nz, big) (refuses (length input) (ground (arith, big)))
      ]
    ]
  where
    copies :
        (n : ℕ)
        → 0 < n
        → n ≤ max_post_data_size
        → copy_post_data (pos n) input post_data ≡ (pos n, take n input)
    copies zero p m = absurd (omega arith)
    copies (suc n) p m = ground arith

    refuses :
        (n : ℕ)
        → max_post_data_size < n
        → copy_post_data (pos n) input post_data ≡ (errno_post_data_too_large, post_data)
    refuses zero b = absurd (omega arith)
    refuses (suc n) b = ground arith

-- A body whose length is by `n` more than a multiple of 2^32 is taken for one of `n` bytes: it is
-- not refused, and only its first `n` bytes are copied.
pub get_post_data_wraps :
    (input post_data : List ℕ) (n k : ℕ)
    → length input ≡ 2 ^ 32 * k + n
    → 0 < n
    → n ≤ max_post_data_size
    → get_post_data input post_data ≡ (pos n, take n input)
unfolding get_post_data copy_post_data to_int32
get_post_data_wraps input post_data zero k e p m = absurd (omega arith)
get_post_data_wraps input post_data (suc n) k e p m =
    let f : length input % 2 ^ 32 ≡ suc n = omega arith in ground (arith, f)
