-- ===== src/Req/Post.antt =====
-- get_post_data of src/req.cpp: the body of a request is copied into the one global buffer.
pub mod Bounds
use nd.Base.{
  to_int32, ℕ, zero, suc, ◌+◌, ◌-◌, ◌%◌, ◌^◌, Bool, true, false, List, take, length, ltb,
  if◌then◌else◌, ℤ, pos, negsuc,
}

abbrev pub max_post_data_size : ℕ
max_post_data_size = 16000000

-- The codes of ndsim_define.h; `negsuc n` is -(n + 1).
abbrev pub errno_success : ℤ
errno_success = pos 0

abbrev pub errno_illegal_cmdno : ℤ
errno_illegal_cmdno = negsuc 9

abbrev pub errno_not_support_cmdno : ℤ
errno_not_support_cmdno = negsuc 10

abbrev pub errno_post_data_too_large : ℤ
errno_post_data_too_large = negsuc 11

abbrev pub errno_post_data_empty : ℤ
errno_post_data_empty = negsuc 12

-- Given the length as an int: the result, and the bytes that are then in front in the buffer.
unfoldable pub copy_post_data : ℤ → List ℕ → List ℕ → ℤ × List ℕ
copy_post_data (negsuc n) input post_data = (errno_post_data_empty, post_data)
copy_post_data (pos zero) input post_data = (errno_post_data_empty, post_data)
copy_post_data (pos (suc n)) input post_data =
    if ltb max_post_data_size (suc n)
    then (errno_post_data_too_large, post_data)
    else (pos (suc n), take (suc n) input)

-- `input` is the request's input buffer, `post_data` what the global buffer held.
unfoldable pub get_post_data : List ℕ → List ℕ → ℤ × List ℕ
unfolding to_int32 copy_post_data
get_post_data input post_data = copy_post_data (to_int32 (length input)) input post_data
