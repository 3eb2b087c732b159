-- ===== src/Server/Loop/Laws.antt =====
-- What server_init comes to, with its requests.
use nd.Base.{
  ℕ, ◌+◌, ◌<◌, ◌≤◌, ◌≡◌, ◌≢◌, refl, ap, ◌∙◌, inl, inr, ◌⊎◌, Bool, true, false, Bool-cases, ◌&&◌,
  Option, none, some, List, [], ◌∷◌, length, codes, ℤ, pos, negsuc, leb, arith,
}
use nd.HttpClient.World.{Parts}
use nd.Req.Handler.{Reply, Ctx}
use nd.Req.Serving.{Arrival, AllServable, AllReplied, leaks}
use nd.Req.Memory.{Memory, Run, goes_on, faults, and_then, serve_all}
use nd.Req.Memory.Laws.{all_given, given}
use nd.Req.Memory.Leaks.{AllLeft, IsFresh, serve_all-LeftBehind}
use nd.Req.Memory.Branches.{http_handler_overflows}
use nd.Server.{
  Conf, Settings, positive_or, timeout_s_default, thread_num_default, read_conf, read_port,
  read_timeout,
}
use nd.Server.Loop.{seconds, Outcome, server_run, run_after, server_init, with_zero}

empty_or : {A : Type 0} (xs : List A) → (xs ≡ []) ⊎ ((x : A) × (more : List A) × (xs ≡ x ∷ more))
empty_or [] = inl refl
empty_or (x ∷ more) = inr (x, more, refl)

module _ (parse : List ℕ → Option Parts) (timeout_s : ℕ) where
  serve_all-none : (c : Ctx) (m : Memory) → serve_all parse timeout_s [] c m ≡ goes_on ([], c, m)
  unfolding serve_all
  serve_all-none c m = refl

  serve_all-overflows :
      (x : Arrival) (more : List Arrival) (c : Ctx) (m : Memory)
      → 2147 < timeout_s
      → serve_all parse timeout_s (all_given (x ∷ more)) c m ≡ faults
  unfolding serve_all and_then
  serve_all-overflows (junk, inc) more c m h =
      let e = http_handler_overflows parse timeout_s junk inc c m given h in rw e refl

module _ (parse : List ℕ → Option Parts) (google baidu : Parts)
    (p : parse (codes "http://www.google.com/") ≡ some google)
    (q : parse (codes "http://www.baidu.com/") ≡ some baidu) (made : Bool) (binds : ℤ → Bool)
    (conf : Conf) (todo : List Arrival) (c : Ctx) (m : Memory) where
  -- What server_init comes to.
  pub data Session : Run Outcome → Type 0 where
    refused : (conf.port ≡ none) ⊎ (conf.timeout_s ≡ none) → Session (goes_on (negsuc 0, [], c, m))
    unbound :
        (port : ℤ)
        → conf.port ≡ some port
        → (made && binds port) ≡ false
        → Session (goes_on (pos 0, [], c, m))
    served :
        (port n : ℤ) (rss : List (List Reply)) (c' : Ctx) (m' : Memory)
        → conf.port ≡ some port
        → (made && binds port) ≡ true
        → conf.timeout_s ≡ some n
        → seconds (positive_or timeout_s_default n) ≤ 2147
        → AllReplied todo rss
        → m'.buffers ≡ m.buffers
        → length c'.bases ≡ length c.bases + leaks todo
        → AllLeft todo m.next m'
        → Session (goes_on (pos 0, rss, c', m'))
    overflows :
        (port n : ℤ)
        → conf.port ≡ some port
        → (made && binds port) ≡ true
        → conf.timeout_s ≡ some n
        → 2147 < seconds (positive_or timeout_s_default n)
        → todo ≢ []
        → Session faults
    idle :
        (port n : ℤ)
        → conf.port ≡ some port
        → (made && binds port) ≡ true
        → conf.timeout_s ≡ some n
        → 2147 < seconds (positive_or timeout_s_default n)
        → todo ≡ []
        → Session (goes_on (pos 0, [], c, m))

  -- server_run, where the settings are those of the configuration.
  looped :
      (t : Settings) (n : ℤ)
      → conf.port ≡ some t.port
      → conf.timeout_s ≡ some n
      → t.timeout_s ≡ positive_or timeout_s_default n
      → IsFresh m
      → AllServable parse todo
      → Session (
          and_then
            (server_run parse made binds (all_given todo) c m t)
            (with_zero parse made binds (all_given todo) c m))
  unfolding server_run and_then
  looped t n e f g fresh servable = elim (Bool-cases (made && binds t.port)) [
    | inr no_port ↦ rw (not_run no_port) (unbound t.port e no_port)
    | inl runs ↦ elim (Bool-cases (leb (seconds t.timeout_s) 2147)) [
      | inl short ↦
          let (rss, c', m', e', replied, uris, conns, buffers, bases, left) =
            serve_all-LeftBehind parse google baidu p q (seconds t.timeout_s) todo c m
              (ground (arith, short)) fresh servable in
          let r = does_run runs e' in
          rw r (
            served t.port n rss c' m' e runs f (ground (arith, short, same)) replied buffers bases
              left)
      | inr long ↦ elim (empty_or todo) [
        | inl none_left ↦
            let e' =
              ap (λ xs. serve_all parse (seconds t.timeout_s) (all_given xs) c m) none_left
              ∙ serve_all-none parse (seconds t.timeout_s) c m in
            let r = does_run runs e' in
            rw r (idle t.port n e runs f (ground (arith, long, same)) none_left)
        | inr (x, more, cons_left) ↦
            let e' =
              ap (λ xs. serve_all parse (seconds t.timeout_s) (all_given xs) c m) cons_left
              ∙ serve_all-overflows parse (seconds t.timeout_s) x more c m (ground (arith, long)) in
            let r = does_run runs e' in
            rw r (
              overflows t.port n e runs f (ground (arith, long, same))
                (λ h. ground (arith, cons_left, h)))
      ]
    ]
  ]
    where
      same : seconds t.timeout_s ≡ seconds (positive_or timeout_s_default n)
      same = ap seconds g

      does_run :
          {o : Run (List (List Reply) × Ctx × Memory)}
          → (made && binds t.port) ≡ true
          → serve_all parse (seconds t.timeout_s) (all_given todo) c m ≡ o
          → server_run parse made binds (all_given todo) c m t
            ≡ and_then o λ q. goes_on (pos 0, q.0, q.1, q.2)
      does_run h e' = ground (arith, h, e')

      not_run :
          (made && binds t.port) ≡ false
          → server_run parse made binds (all_given todo) c m t ≡ goes_on (negsuc 0, [], c, m)
      not_run h = ground (arith, h)

  -- The requests that come in the loop of server_init, the timeout being that of the configuration,
  -- or 100 seconds in place of one that is not above 0. Where the configuration lacks the port or
  -- the timeout, server_init returns -1, and where libevent makes no server or cannot bind the port
  -- it returns 0; both serve nothing. Else, up to 2147 seconds, all requests are served, each with
  -- one reply or two, the response buffers are those of before, each request leaves its blocks
  -- behind, and server_init returns 0; past 2147 seconds the first request faults. Here malloc and
  -- evbuffer_new give all that is asked for, the urls of the backends are uris, and each response is
  -- one that the callback can take.
  pub server_init-Session :
      (s : Settings)
      → IsFresh m
      → AllServable parse todo
      → Session (server_init parse made binds (all_given todo) c m conf s)
  unfolding server_init read_conf read_port read_timeout run_after
  server_init-Session s fresh servable = go conf.port conf.timeout_s refl refl
    where
      go :
          (port timeout_s : Option ℤ)
          → conf.port ≡ port
          → conf.timeout_s ≡ timeout_s
          → Session (
              run_after parse made binds
                (all_given todo)
                c
                m
                (read_port (record conf { timeout_s = timeout_s }) port s))
      go none timeout_s e f = refused (inl e)
      go (some port) none e f = refused (inr f)
      go (some port) (some n) e f =
          let t : Settings = record {
            port = port;
            thread_num = positive_or thread_num_default conf.thread_num;
            timeout_s = positive_or timeout_s_default n;
          } in
          looped t n e f refl fresh servable
