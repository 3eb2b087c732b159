-- ===== src/Req/Serving.antt =====
-- Requests one after the other, as evhttp hands them to http_handler of src/req.cpp.
use nd.Base.{
  sym, false, ℕ, ◌+◌, ◌<◌, ◌≡◌, refl, ap, ◌∙◌, inl, inr, Bool, true, Bool-cases, ◌||◌, Option, some,
  List, [], ◌∷◌, length, if◌then◌else◌, ◌>>=◌, codes, ℤ, pos, negsuc, arith,
}
use nd.Req.Post.{errno_success, errno_illegal_cmdno}
use nd.HttpClient.World.{Parts}
use nd.HttpClient.Handles.{AllAnswered}
use nd.Req.Handler.{Reply, ReqT, Ctx}
use nd.Req.Dispatch.{
  Incoming, command_no, is_cmd, http_handler, cmdno_sample_and_sign, cmdno_search,
  cmdno_test_backend,
}
use nd.Req.Dispatch.Replies.{AllHappen}
use nd.Req.Dispatch.Handler.{
  Served, http_handler_refuses, http_handler_search, http_handler_search2,
  http_handler_test_backend,
}
use nd.Req.Dispatch.Refused.{len_of}

-- A request, and what malloc leaves in the flag of its timeout.
abbrev pub Arrival : Type 0
Arrival = Bool × Incoming

-- The functions of these commands free the base of the request.
abbrev pub frees_base : Incoming → Bool
frees_base inc =
    is_cmd (command_no inc.cmdno) cmdno_search || is_cmd (command_no inc.cmdno) cmdno_test_backend

-- The bases that are left behind.
abbrev pub leaks : List Arrival → ℕ
leaks [] = 0
leaks ((junk, inc) ∷ more) = (if frees_base inc then 0 else 1) + leaks more

module _ (parse : List ℕ → Option Parts) where
  -- The replies to each request, and what is left.
  unfoldable pub serve : List Arrival → Ctx → Option (List (List Reply) × Ctx)
  serve [] c = some ([], c)
  serve ((junk, inc) ∷ more) c =
      http_handler parse junk inc c >>= λ p. serve more p.1 >>= λ q. some (p.0.replies ∷ q.0, q.1)

  -- Each response to a backend request is one that the callback can take.
  abbrev pub AllServable : List Arrival → Type 0
  AllServable [] = Unit
  AllServable ((junk, inc) ∷ more) =
      AllHappen parse inc.happenings × (AllAnswered parse inc.responses × AllServable more)

-- Every request has a reply, and none more than two.
abbrev pub AllReplied : List Arrival → List (List Reply) → Type 0
AllReplied [] [] = Unit
AllReplied [] (rs ∷ rss) = ⊥
AllReplied (a ∷ more) [] = ⊥
AllReplied (a ∷ more) (rs ∷ rss) = (0 < length rs) × ((length rs < 3) × AllReplied more rss)

-- The error code that a command leads to.
abbrev pub has_backend : ℤ → Bool
has_backend k =
    is_cmd k cmdno_search || is_cmd k cmdno_sample_and_sign || is_cmd k cmdno_test_backend

abbrev pub errno_of : ℤ → ℤ
errno_of k = if has_backend k then errno_success else errno_illegal_cmdno

errno_of_success : (k : ℤ) → has_backend k ≡ true → errno_of k ≡ errno_success
errno_of_success k h = ground (arith, h)

errno_of_illegal : (k : ℤ) → has_backend k ≡ false → errno_of k ≡ errno_illegal_cmdno
errno_of_illegal k h = ground (arith, h)

is_cmd-true : (z : ℤ) (k : ℕ) → is_cmd z k ≡ true → z ≡ pos k
is_cmd-true (pos n) k h = ap pos (ground (arith, h))
is_cmd-true (negsuc n) k h = ground (arith, h)

module _ (parse : List ℕ → Option Parts) (google baidu : Parts)
    (p : parse (codes "http://www.google.com/") ≡ some google)
    (q : parse (codes "http://www.baidu.com/") ≡ some baidu) where
  -- What a request comes to.
  pub record Handled (inc : Incoming) (c : Ctx) (r : ReqT) (c' : Ctx) : Type 0 where
    pub err_no : r.err_no ≡ errno_of (command_no inc.cmdno)
    pub command : r.command_no ≡ command_no inc.cmdno
    pub len : r.readbuf_len ≡ len_of (command_no inc.cmdno) inc.input c.post_data
    pub replied : 0 < length r.replies
    pub twice : length r.replies < 3
    pub uris : c'.world.uris ≡ c.world.uris
    pub conns : c'.world.conns ≡ c.world.conns
    pub bases : length c'.bases ≡ length c.bases + (if frees_base inc then 0 else 1)

  Served-Handled :
      (parts : Parts) (junk : Bool) (inc : Incoming) (c : Ctx) (name : List ℕ) (r : ReqT) (c' : Ctx)
      → frees_base inc ≡ true
      → Served parse junk inc c parts name r c'
      → Handled inc c r c'
  Served-Handled parts junk inc c name r c' frees s =
      let number : (0 < length r.replies) × (length r.replies < 3) = ground (arith, s.replies) in
      record {
        err_no = s.err_no ∙ sym (errno_of_success (command_no inc.cmdno) (ground (arith, frees)));
        command = s.command;
        len = s.len;
        replied = number.0;
        twice = number.1;
        uris = s.uris;
        conns = s.conns;
        bases = ground (arith, ap length s.bases, frees);
      }

  -- A run of http_handler that leaves the request handled.
  abbrev pub Completes : Bool → Incoming → Ctx → Type 0
  Completes junk inc c =
      (r : ReqT) × (c' : Ctx) × (http_handler parse junk inc c ≡ some (r, c')) × Handled inc c r c'

  search2-Completes :
      (junk : Bool) (inc : Incoming) (c : Ctx)
      → AllAnswered parse inc.responses
      → is_cmd (command_no inc.cmdno) 1 ≡ false
      → is_cmd (command_no inc.cmdno) 12 ≡ false
      → is_cmd (command_no inc.cmdno) 2 ≡ true
      → Completes junk inc c
  search2-Completes junk inc c answered not_one not_twelve two =
      let (r, c', e, replies, timeout, err, command, len, uris, conns, bases) =
        http_handler_search2 parse junk inc c baidu (is_cmd-true _ 2 two) q answered in
      (
        r,
        c',
        e,
        record {
          err_no = err ∙ sym (errno_of_success (command_no inc.cmdno) (ground (arith, two)));
          command = command;
          len = len;
          replied = rw replies (omega arith);
          twice = rw replies (omega arith);
          uris = uris;
          conns = conns;
          bases = ground (arith, ap length bases, not_one, not_twelve);
        },
      )

  refused-Completes :
      (junk : Bool) (inc : Incoming) (c : Ctx)
      → is_cmd (command_no inc.cmdno) 1 ≡ false
      → is_cmd (command_no inc.cmdno) 2 ≡ false
      → is_cmd (command_no inc.cmdno) 12 ≡ false
      → Completes junk inc c
  refused-Completes junk inc c not_one not_two not_twelve =
      let (r, c', e, replies, err, command, len, world, bases) =
        http_handler_refuses parse junk inc c not_one not_two not_twelve in
      let illegal =
        errno_of_illegal (command_no inc.cmdno) (ground (arith, not_one, not_two, not_twelve)) in
      (
        r,
        c',
        e,
        record {
          err_no = err ∙ sym illegal;
          command = command;
          len = len;
          replied = rw replies (omega arith);
          twice = rw replies (omega arith);
          uris = rw world refl;
          conns = rw world refl;
          bases = ground (arith, ap length bases, not_one, not_twelve);
        },
      )

  pub http_handler-Handled :
      (junk : Bool) (inc : Incoming) (c : Ctx)
      → AllHappen parse inc.happenings
      → AllAnswered parse inc.responses
      → Completes junk inc c
  http_handler-Handled junk inc c happen answered =
      elim (Bool-cases (is_cmd (command_no inc.cmdno) 1)) [
        | inl one ↦
            let (r, c', e, s) = http_handler_search parse junk inc c google one p happen in
            (
              r,
              c',
              e,
              Served-Handled google junk inc c (codes "search") r c' (ground (arith, one)) s,
            )
        | inr not_one ↦ elim (Bool-cases (is_cmd (command_no inc.cmdno) 12)) [
          | inl twelve ↦
              let (r, c', e, s) =
                http_handler_test_backend parse junk inc c google (is_cmd-true _ 12 twelve) p
                  happen in
              let frees : frees_base inc ≡ true = ground (arith, twelve) in
              (r, c', e, Served-Handled google junk inc c (codes "test_backend") r c' frees s)
          | inr not_twelve ↦ elim (Bool-cases (is_cmd (command_no inc.cmdno) 2)) [
            | inl two ↦ search2-Completes junk inc c answered not_one not_twelve two
            | inr not_two ↦ refused-Completes junk inc c not_one not_two not_twelve
          ]
        ]
      ]

  -- Any sequence of requests is served without a fault, where the urls of the backends are uris and
  -- each response is one that the callback can take. Every request has one reply or two, the uris
  -- and the connections are those of before, and for each request whose command is not 1 or 12 one
  -- event base more is live than before.
  pub serve_lem :
      (arrivals : List Arrival) (c : Ctx)
      → AllServable parse arrivals
      → (rss : List (List Reply)) × (c' : Ctx) × (serve parse arrivals c ≡ some (rss, c'))
        × AllReplied arrivals rss
        × (c'.world.uris ≡ c.world.uris)
        × (c'.world.conns ≡ c.world.conns)
        × (length c'.bases ≡ length c.bases + leaks arrivals)
  unfolding serve
  serve_lem [] c all = ([], c, refl, tt, refl, refl, omega arith)
  serve_lem ((junk, inc) ∷ more) c (happen, (answered, all)) =
      let (r, c₁, e, h) = http_handler-Handled junk inc c happen answered in
      let (rss, c', e', replied, uris, conns, bases) = serve_lem more c₁ all in
      (
        r.replies ∷ rss,
        c',
        rw (e, e'),
        (h.replied, (h.twice, replied)),
        uris ∙ h.uris,
        conns ∙ h.conns,
        omega (arith, bases, h.bases),
      )
