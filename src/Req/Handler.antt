-- ===== src/Req/Handler.antt =====
-- http_handler, timeout_handler, failure_process, req_new and req_free of src/req.cpp, and search,
-- search2 and test_backend of src/function.cpp. What libevent does is given: what the request's
-- loop comes to, in order, and the header and the body of the request. Calls of the logger and the
-- measured time are left out.
use nd.Base.{
  ℕ, suc, Bool, true, Option, none, some, List, [], ◌∷◌, ◌++◌, ◌==◌, if◌then◌else◌, ◌>>=◌, codes,
  newline, ℤ, signed_decimal,
}
use nd.HttpClient.World.{Parts, get_flag, World, loopexit}
use nd.HttpClient.Request.{
  Request, Response, mem, start_http_request, deliver, http_request_cb, http_request_free,
}
use nd.Req.Post.{errno_success}

-- One call of evhttp_send_reply.
pub record Reply : Type 0 where
  pub status : ℕ
  pub reason : List ℕ
  pub body : List ℕ

-- req_t, with the replies that went out on its evhttp_req so far, and the uri of that.
pub record ReqT : Type 0 where
  pub uri : List ℕ
  pub req_base : ℕ
  pub timeout : Bool
  pub readbuf_len : ℤ
  pub command_no : ℤ
  pub err_no : ℤ
  pub writebuf : List ℕ
  pub replies : List Reply

-- The world of http_client.cpp, the live event bases, and the global buffer of req.cpp.
pub record Ctx : Type 0 where
  pub world : World
  pub next_base : ℕ
  pub bases : List ℕ
  pub post_data : List ℕ

-- What the loop of a base comes to: a response to the outgoing request, or the request's timer.
pub data Happening : Type 0 where
  answer : Option Response → Happening
  timer : Happening

-- evbuffer_add_printf and evhttp_send_reply: the reply takes all of the buffer.
abbrev pub send_reply : ℕ → List ℕ → List ℕ → ReqT → ReqT
send_reply status reason text r = record r {
  writebuf = [];
  replies =
      r.replies ++ record { status = status; reason = reason; body = r.writebuf ++ text } ∷ [];
}

abbrev pub timeout_text : List ℕ → List ℕ
timeout_text uri = codes "Server Responsed Timeout. Requested: " ++ uri ++ newline ∷ []

unfoldable pub timeout_handler : ReqT → World → Option (ReqT × World)
unfolding loopexit
timeout_handler r w = loopexit r.req_base w >>= λ p.
    some (send_reply 504 (codes "Timeout") (timeout_text r.uri) (record r { timeout = true }), p.1)

abbrev pub failed_text : ℤ → List ℕ → List ℕ
failed_text ret_errno ret_errmsg =
    codes "Server process failed, errno: "
    ++ signed_decimal ret_errno
    ++ codes ", errmsg:"
    ++ ret_errmsg
    ++ newline ∷ []

unfoldable pub failure_process : ℤ → List ℕ → ℕ → ReqT → ReqT
failure_process ret_errno ret_errmsg ret_status r =
    send_reply ret_status ret_errmsg (failed_text ret_errno ret_errmsg) r

abbrev pub done_text : List ℕ → List ℕ
done_text name =
    codes "Server process done, function: "
    ++ name
    ++ codes ", errno: "
    ++ signed_decimal errno_success
    ++ codes ", errmsg:"
    ++ codes "success"
    ++ newline ∷ []

-- event_base_new and event_base_free.
unfoldable pub base_new : Ctx → ℕ × Ctx
base_new c = (c.next_base, record c { next_base = suc c.next_base; bases = c.next_base ∷ c.bases })

unfoldable pub base_drop : ℕ → List ℕ → List ℕ
base_drop b [] = []
base_drop b (c ∷ cs) = if b == c then cs else c ∷ base_drop b cs

unfoldable pub base_free : ℕ → Ctx → Option Ctx
unfolding base_drop
base_free b c = if mem b c.bases then some (record c { bases = base_drop b c.bases }) else none

module _ (parse : List ℕ → Option Parts) where
  -- event_base_dispatch of the request's base, which holds its timer too.
  unfoldable pub run_base :
      List Happening → Request → ReqT → World → Option (Request × ReqT × World)
  run_base [] q r w = some (q, r, w)
  run_base (answer resp ∷ hs) q r w =
      if mem r.req_base w.exited
      then some (q, r, w)
      else (http_request_cb parse get_flag q resp w >>= λ p. run_base hs p.0 r p.1)
  run_base (timer ∷ hs) q r w =
      if mem r.req_base w.exited
      then some (q, r, w)
      else (timeout_handler r w >>= λ p. run_base hs q p.0 p.1)

  -- search and test_backend, which differ in their name, on the request's own base.
  unfoldable pub backend : List ℕ → List ℕ → List Happening → ReqT → Ctx → Option (ReqT × Ctx)
  backend name url hs r c =
      start_http_request parse r.req_base url get_flag none none 1 c.world >>= λ p.
      run_base hs p.0 r p.1 >>= λ q. http_request_free q.0 q.2 >>= λ f.
      base_free r.req_base (record c { world = f.1 }) >>= λ c'.
      some (send_reply 200 (codes "success") (done_text name) q.1, c')

  unfoldable pub search : List Happening → ReqT → Ctx → Option (ReqT × Ctx)
  unfolding backend
  search = backend (codes "search") (codes "http://www.google.com/")

  unfoldable pub test_backend : List Happening → ReqT → Ctx → Option (ReqT × Ctx)
  unfolding backend
  test_backend = backend (codes "test_backend") (codes "http://www.google.com/")

  -- search2 makes a base of its own, which the request's timer is not on.
  unfoldable pub search2 : List (Option Response) → ReqT → Ctx → Option (ReqT × Ctx)
  search2 resps r c =
      let (base, c₁) = base_new c in
      start_http_request parse base (codes "http://www.baidu.com/") get_flag none none 1 c₁.world
      >>= λ p. deliver parse get_flag resps p.0 p.1 >>= λ q. http_request_free q.0 q.1 >>= λ f.
          base_free base (record c₁ { world = f.1 }) >>= λ c'.
          some (send_reply 200 (codes "success") (done_text (codes "search2")) r, c')
