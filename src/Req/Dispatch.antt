-- ===== src/Req/Dispatch.antt =====
-- http_handler of src/req.cpp: the command number of a request, and what is done for it.
pub mod Faults
pub mod Handler
pub mod Refused
pub mod Replies
use Prim.Native.Nat.{min}
use nd.Base.{
  to_int32, ℕ, zero, suc, ◌+◌, ◌-◌, ◌*◌, ◌^◌, Bool, true, false, ◌||◌, ◌&&◌, Option, none, some,
  List, [], ◌∷◌, ltb, leb, ◌==◌, if◌then◌else◌, ◌>>=◌, codes, ℤ, pos, negsuc,
}
use nd.HttpClient.World.{Parts}
use nd.HttpClient.Request.{Response}
use nd.Req.Post.{errno_success, errno_illegal_cmdno, errno_not_support_cmdno, get_post_data}
use nd.Req.Handler.{ReqT, Ctx, Happening, failure_process, base_new, search, search2, test_backend}

abbrev pub is_digit : ℕ → Bool
is_digit c = leb b'0' c && leb c b'9'

abbrev pub is_space : ℕ → Bool
is_space c = c == 32 || (leb 9 c && leb c 13)

-- The number that the digits in front stand for.
unfoldable pub digits_value : ℕ → List ℕ → ℕ
digits_value acc [] = acc
digits_value acc (c ∷ s) =
    let more = digits_value (acc * 10 + (c - b'0')) s in if is_digit c then more else acc

-- strtol stops at the bounds of a long, and the result is taken as an int.
unfoldable pub signed_value : List ℕ → ℤ
unfolding digits_value to_int32
signed_value [] = pos 0
signed_value (c ∷ s) =
    if c == b'-'
    then to_int32 (2 ^ 64 - min (digits_value 0 s) (2 ^ 63))
    else if c == b'+'
    then to_int32 (min (digits_value 0 s) (2 ^ 63 - 1))
    else to_int32 (min (digits_value 0 (c ∷ s)) (2 ^ 63 - 1))

-- atoi of the C library.
unfoldable pub atoi : List ℕ → ℤ
unfolding signed_value
atoi [] = pos 0
atoi (c ∷ s) = let rest = atoi s in if is_space c then rest else signed_value (c ∷ s)

-- What a request brings: the header "cmdno" of its query, its uri, its body, and what the loops of
-- its backend requests come to.
pub record Incoming : Type 0 where
  pub cmdno : Option (List ℕ)
  pub uri : List ℕ
  pub input : List ℕ
  pub happenings : List Happening
  pub responses : List (Option Response)

unfoldable pub command_no : Option (List ℕ) → ℤ
unfolding atoi
command_no none = pos 0
command_no (some []) = pos 0
command_no (some (c ∷ s)) = atoi (c ∷ s)

abbrev pub is_cmd : ℤ → ℕ → Bool
is_cmd (pos n) k = n == k
is_cmd (negsuc n) k = false

-- The commands of ndsim_define.h.
abbrev pub cmdno_search : ℕ
cmdno_search = 1

abbrev pub cmdno_sample_and_sign : ℕ
cmdno_sample_and_sign = 2

abbrev pub cmdno_get_docs_by_sign : ℕ
cmdno_get_docs_by_sign = 3

abbrev pub cmdno_get_signs_by_doc : ℕ
cmdno_get_signs_by_doc = 4

abbrev pub cmdno_get_docs_by_doc : ℕ
cmdno_get_docs_by_doc = 5

abbrev pub cmdno_wordseg : ℕ
cmdno_wordseg = 6

abbrev pub cmdno_class : ℕ
cmdno_class = 7

abbrev pub cmdno_test_backend : ℕ
cmdno_test_backend = 12

abbrev pub set_err : ℤ → ReqT → ReqT
set_err e r = record r { err_no = e }

abbrev pub http_badrequest : ℕ
http_badrequest = 400

abbrev pub http_notfound : ℕ
http_notfound = 404

-- The branches that answer by failure_process.
unfoldable pub not_supported : ReqT → ReqT
unfolding failure_process
not_supported r =
    failure_process errno_not_support_cmdno (codes "cmdno not support") http_notfound
      (set_err errno_illegal_cmdno r)

unfoldable pub illegal : ReqT → ReqT
unfolding failure_process
illegal r =
    failure_process errno_illegal_cmdno (codes "illegal cmdno") http_badrequest
      (set_err errno_illegal_cmdno r)

-- req_new: malloc leaves `timeout` as it finds it.
unfoldable pub req_new : Bool → List ℕ → Ctx → ReqT × Ctx
unfolding base_new
req_new junk uri c =
    let (base, c') = base_new c in
    (
      record {
        uri = uri;
        req_base = base;
        timeout = junk;
        readbuf_len = pos 0;
        command_no = pos 0;
        err_no = pos 0;
        writebuf = [];
        replies = [];
      },
      c',
    )

-- `r->readbuf_len = get_post_data(evhttp_req, post_data);`
unfoldable pub read_post : List ℕ → ReqT → Ctx → ReqT × Ctx
unfolding get_post_data
read_post input r c =
    let (len, bytes) = get_post_data input c.post_data in
    (record r { readbuf_len = len }, record c { post_data = bytes })

-- `r->err_no = search(r);`, where the function returns 0.
abbrev pub with_success : ReqT × Ctx → Option (ReqT × Ctx)
with_success (r, c) = some (set_err errno_success r, c)

module _ (parse : List ℕ → Option Parts) where
  -- The switch.
  unfoldable pub distribute : Incoming → ReqT → Ctx → Option (ReqT × Ctx)
  distribute inc r c =
      if is_cmd r.command_no cmdno_search
      then search parse inc.happenings (read_post inc.input r c).0 (read_post inc.input r c).1
        >>= with_success
      else if is_cmd r.command_no cmdno_sample_and_sign
      then search2 parse inc.responses (read_post inc.input r c).0 (read_post inc.input r c).1
        >>= with_success
      else if is_cmd r.command_no cmdno_get_docs_by_sign
          || is_cmd r.command_no cmdno_get_signs_by_doc
          || is_cmd r.command_no cmdno_get_docs_by_doc
      then some (not_supported r, c)
      else if is_cmd r.command_no cmdno_wordseg || is_cmd r.command_no cmdno_class
      then some (not_supported (read_post inc.input r c).0, (read_post inc.input r c).1)
      else if is_cmd r.command_no cmdno_test_backend
      then test_backend parse inc.happenings r c >>= with_success
      else some (illegal r, c)

  -- req_free gives the response buffer back, and no more.
  unfoldable pub http_handler : Bool → Incoming → Ctx → Option (ReqT × Ctx)
  unfolding req_new command_no distribute
  http_handler junk inc c =
      let (r, c') = req_new junk inc.uri c in
      distribute inc (record r { command_no = command_no inc.cmdno }) c' >>= λ p.
      some (record (p.0) { writebuf = [] }, p.1)
