-- ===== src/Req/Dispatch/Handler.antt =====
-- http_handler as a whole, by the command number of the request.
use nd.Base.{
  sym, ℕ, suc, ◌+◌, if◌then◌else◌, ◌≡◌, refl, ◌∙◌, Bool, true, false, Option, some, List, [], ◌∷◌,
  codes, pos, arith,
}
use nd.HttpClient.World.{Parts, get_flag}
use nd.HttpClient.Overrun.{overrun_of}
use nd.HttpClient.Request.{mem}
use nd.HttpClient.Handles.{AllAnswered}
use nd.Req.Post.{errno_success, errno_illegal_cmdno, get_post_data}
use nd.Req.Handler.{ReqT, Ctx, send_reply, done_text, base_drop, search, test_backend}
use nd.Req.Dispatch.{Incoming, command_no, is_cmd, read_post, distribute, http_handler}
use nd.Req.Dispatch.Replies.{
  timeout_reply, done_reply, Waited, quiet, timed_out, AllHappen, timer_comes, loop_overruns,
  backend_lem, search2_lem,
}
use nd.Req.Dispatch.Refused.{
  refusal, len_of, len_of_unread, len_of_read, distribute_refuses, Refused-some,
}

-- The request that req_new makes, with its command number.
abbrev started : Bool → Incoming → Ctx → ReqT
started junk inc c = record {
  uri = inc.uri;
  req_base = c.next_base;
  timeout = junk;
  readbuf_len = pos 0;
  command_no = command_no inc.cmdno;
  err_no = pos 0;
  writebuf = [];
  replies = [];
}

abbrev with_base : Ctx → Ctx
with_base c = record c { next_base = suc c.next_base; bases = c.next_base ∷ c.bases }

base_drop_head : (b : ℕ) (bs : List ℕ) → base_drop b (b ∷ bs) ≡ bs
unfolding base_drop
base_drop_head b bs = ground arith

mem_head : (b : ℕ) (bs : List ℕ) → mem b (b ∷ bs) ≡ true
mem_head b bs = ground arith

-- The end of a request on a backend: the reply of success, and its code.
abbrev finished : List ℕ → ReqT → ReqT
finished name r = record (send_reply 200 (codes "success") (done_text name) r) {
  err_no = errno_success;
  writebuf = [];
}

module _ (parse : List ℕ → Option Parts) (junk : Bool) (inc : Incoming) (c : Ctx) where
  -- A command number that is not 1, 2 or 12 gets one reply and the error code -10: 404 for the
  -- numbers 3 to 7, and 400 for any other and for none. Nothing goes out to a backend, and the
  -- event base that was made for the request stays live. The request keeps its number, and the
  -- result of get_post_data for 6 and 7.
  pub http_handler_refuses :
      is_cmd (command_no inc.cmdno) 1 ≡ false
      → is_cmd (command_no inc.cmdno) 2 ≡ false
      → is_cmd (command_no inc.cmdno) 12 ≡ false
      → (r : ReqT) × (c' : Ctx) × (http_handler parse junk inc c ≡ some (r, c'))
        × (r.replies ≡ refusal (command_no inc.cmdno) ∷ [])
        × (r.err_no ≡ errno_illegal_cmdno)
        × (r.command_no ≡ command_no inc.cmdno)
        × (r.readbuf_len ≡ len_of (command_no inc.cmdno) inc.input c.post_data)
        × (c'.world ≡ c.world)
        × (c'.bases ≡ c.next_base ∷ c.bases)
  unfolding http_handler
  http_handler_refuses one two twelve =
      let (r, c', e, replies, err, command, len, world, bases) = Refused-some (
        distribute_refuses parse inc (started junk inc c) (with_base c) refl refl one two twelve) in
      (record r { writebuf = [] }, c', rw e, replies, err, command, len, world, bases)

  -- Whether the timer of the request fires: its base was not told to exit before, and in its loop
  -- the timer comes before a response that ends the loop.
  abbrev pub timer_fires : Bool
  timer_fires = if mem c.next_base c.world.exited then false else timer_comes inc.happenings

  -- What a request on a backend at `parts` comes to: 0 for the error code, its number, what
  -- get_post_data returned, the reply of the function's name, with the timeout's before it where the
  -- timer fires and only there, no handle kept, and the bytes written past the ends of blocks.
  pub record Served (parts : Parts) (name : List ℕ) (r : ReqT) (c' : Ctx) : Type 0 where
    pub err_no : r.err_no ≡ errno_success
    pub command : r.command_no ≡ command_no inc.cmdno
    pub len : r.readbuf_len ≡ len_of (command_no inc.cmdno) inc.input c.post_data
    pub replies : r.replies ≡ (
        if timer_fires then timeout_reply inc.uri ∷ done_reply name ∷ [] else done_reply name ∷ [])
    pub timeout : r.timeout ≡ (if timer_fires then true else junk)
    pub overrun :
        c'.world.overrun
        ≡ c.world.overrun
          + (overrun_of get_flag parts
              + (if mem c.next_base c.world.exited then 0 else loop_overruns parse inc.happenings))
    pub uris : c'.world.uris ≡ c.world.uris
    pub conns : c'.world.conns ≡ c.world.conns
    pub bases : c'.bases ≡ c.bases

  replies_of :
      (name : List ℕ) {b : Bool} (r r₁ : ReqT)
      → Waited r b r₁
      → r.replies ≡ []
      → r.writebuf ≡ []
      → r.uri ≡ inc.uri
      → r.timeout ≡ junk
      → ((finished name r₁).replies
          ≡ (if b then timeout_reply inc.uri ∷ done_reply name ∷ [] else done_reply name ∷ []))
        × ((finished name r₁).timeout ≡ (if b then true else junk))
        × (r₁.command_no ≡ r.command_no)
        × (r₁.readbuf_len ≡ r.readbuf_len)
  replies_of name r r₁ quiet e w u t = (rw (e, w), t, refl, refl)
  replies_of name r r₁ timed_out e w u t = (rw (e, w, u), refl, refl, refl)

  pub http_handler_search :
      (parts : Parts)
      → is_cmd (command_no inc.cmdno) 1 ≡ true
      → parse (codes "http://www.google.com/") ≡ some parts
      → AllHappen parse inc.happenings
      → (r : ReqT) × (c' : Ctx) × (http_handler parse junk inc c ≡ some (r, c'))
        × Served parts (codes "search") r c'
  unfolding http_handler distribute read_post search
  http_handler_search parts one p all =
      let (len, bytes) = get_post_data inc.input c.post_data in
      let r₀ = record (started junk inc c) { readbuf_len = len } in
      let (r₁, c', e, k, over, us, cs, bs) =
        backend_lem parse (codes "search") (codes "http://www.google.com/") inc.happenings r₀
          (record (with_base c) { post_data = bytes }) parts p all (mem_head c.next_base c.bases) in
      let (replies, timeout, command, len') =
        replies_of (codes "search") r₀ r₁ k refl refl refl refl in
      (
        finished (codes "search") r₁,
        c',
        rw (one, e),
        record {
          err_no = refl;
          command = command;
          len =
              len'
              ∙ sym
                  (len_of_read (command_no inc.cmdno) inc.input c.post_data (ground (arith, one)));
          replies = replies;
          timeout = timeout;
          overrun = over;
          uris = us;
          conns = cs;
          bases = bs ∙ base_drop_head c.next_base c.bases;
        },
      )

  -- Command 12, for whatever its loop comes to, where the url is a uri and each response is one that
  -- the callback can take: nothing faults, the error code is 0, and the uris, the connections and
  -- the bases are those of before. There is the reply of test_backend's success, and before it the
  -- timeout's, on the same request, if the timer comes before a response that ends the loop, and only
  -- then. The writes past the ends of blocks are counted exactly.
  pub http_handler_test_backend :
      (parts : Parts)
      → command_no inc.cmdno ≡ pos 12
      → parse (codes "http://www.google.com/") ≡ some parts
      → AllHappen parse inc.happenings
      → (r : ReqT) × (c' : Ctx) × (http_handler parse junk inc c ≡ some (r, c'))
        × Served parts (codes "test_backend") r c'
  unfolding http_handler distribute test_backend
  http_handler_test_backend parts twelve p all =
      let r₀ = record (started junk inc c) { command_no = pos 12 } in
      let (r₁, c', e, k, over, us, cs, bs) =
        backend_lem parse (codes "test_backend") (codes "http://www.google.com/") inc.happenings r₀
          (with_base c) parts p all (mem_head c.next_base c.bases) in
      let (replies, timeout, command, len') =
        replies_of (codes "test_backend") r₀ r₁ k refl refl refl refl in
      (
        finished (codes "test_backend") r₁,
        c',
        rw (twelve, e),
        record {
          err_no = refl;
          command = command ∙ sym twelve;
          len =
              len'
              ∙ sym (len_of_unread (command_no inc.cmdno) inc.input c.post_data (rw twelve refl));
          replies = replies;
          timeout = timeout;
          overrun = over;
          uris = us;
          conns = cs;
          bases = bs ∙ base_drop_head c.next_base c.bases;
        },
      )

  -- Command 2, whatever responses come: one reply, that of success, and the timeout of the request
  -- cannot come before it. The base that search2 makes is given back; that of the request, the
  -- first that was made, stays live. The error code is 0, and the request keeps its number and the
  -- result of get_post_data.
  pub http_handler_search2 :
      (parts : Parts)
      → command_no inc.cmdno ≡ pos 2
      → parse (codes "http://www.baidu.com/") ≡ some parts
      → AllAnswered parse inc.responses
      → (r : ReqT) × (c' : Ctx) × (http_handler parse junk inc c ≡ some (r, c'))
        × (r.replies ≡ done_reply (codes "search2") ∷ [])
        × (r.timeout ≡ junk)
        × (r.err_no ≡ errno_success)
        × (r.command_no ≡ command_no inc.cmdno)
        × (r.readbuf_len ≡ len_of (command_no inc.cmdno) inc.input c.post_data)
        × (c'.world.uris ≡ c.world.uris)
        × (c'.world.conns ≡ c.world.conns)
        × (c'.bases ≡ c.next_base ∷ c.bases)
  unfolding http_handler distribute read_post
  http_handler_search2 parts two p all =
      let (len, bytes) = get_post_data inc.input c.post_data in
      let r₀ = record (started junk inc c) { readbuf_len = len; command_no = pos 2 } in
      let (c', e, us, cs, bs) =
        search2_lem parse inc.responses r₀ (record (with_base c) { post_data = bytes }) parts p
          all in
      (
        finished (codes "search2") r₀,
        c',
        rw (two, e),
        refl,
        refl,
        refl,
        sym two,
        sym (len_of_read (command_no inc.cmdno) inc.input c.post_data (rw two refl)),
        us,
        cs,
        bs,
      )
