-- ===== src/Req/Dispatch/Replies.antt =====
-- Which replies a request gets, and what is left of its handles.
use nd.Base.{
  ℕ, suc, ◌+◌, ◌≡◌, ap, sym, subst, ◌∙◌, if◌then◌else◌, false, Bool, refl, inl, inr, true,
  Bool-cases, Option, none, some, List, [], ◌∷◌, codes, arith,
}
use nd.HttpClient.World.{Parts, get_flag, World, loopexit}
use nd.HttpClient.Request.{Request, Response, mem}
use nd.HttpClient.Handles.{Rest, Owns, Answered, AllAnswered}
use nd.HttpClient.Overrun.{overrun_of, ends_loop, redirection_overrun}
use nd.HttpClient.Lifetime.{start_http_request_lem}
use nd.HttpClient.Owning.{Owns-exited, http_request_free_lem}
use nd.HttpClient.Callbacks.{mem-Stepped, http_request_cb_lem, deliver_lem}
use nd.Req.Handler.{
  Reply, ReqT, Ctx, Happening, answer, timer, send_reply, timeout_text, timeout_handler, done_text,
  base_new, base_drop, base_free, run_base, backend, search2,
}

abbrev pub timeout_reply : List ℕ → Reply
timeout_reply uri = record { status = 504; reason = codes "Timeout"; body = timeout_text uri }

abbrev pub done_reply : List ℕ → Reply
done_reply name = record { status = 200; reason = codes "success"; body = done_text name }

-- Whether the timer comes before a response that ends the loop.
abbrev pub timer_comes : List Happening → Bool
timer_comes [] = false
timer_comes (answer resp ∷ hs) = let rest = timer_comes hs in if ends_loop resp then false else rest
timer_comes (timer ∷ hs) = true

-- What a run of the request's loop does to the request: the timeout's reply where the timer came,
-- and else nothing.
pub data Waited (r : ReqT) : Bool → ReqT → Type 0 where
  quiet : Waited r false r
  timed_out :
      Waited r true
        (send_reply 504 (codes "Timeout") (timeout_text r.uri) (record r { timeout = true }))

module _ (parse : List ℕ → Option Parts) where
  -- What the redirections before the end of the loop write past the ends of their blocks.
  abbrev pub loop_overruns : List Happening → ℕ
  loop_overruns [] = 0
  loop_overruns (answer resp ∷ hs) =
      let rest = loop_overruns hs in
      redirection_overrun parse get_flag resp + (if ends_loop resp then 0 else rest)
  loop_overruns (timer ∷ hs) = 0

  -- Each response is one that a callback can take.
  pub data AllHappen : List Happening → Type 0 where
    nil : AllHappen []
    answered :
        {resp : Option Response} {hs : List Happening}
        → Answered parse resp
        → AllHappen hs
        → AllHappen (answer resp ∷ hs)
    timed : {hs : List Happening} → AllHappen hs → AllHappen (timer ∷ hs)

  run_base_stopped :
      (hs : List Happening) (q : Request) (r : ReqT) (w : World)
      → mem r.req_base w.exited ≡ true
      → run_base parse hs q r w ≡ some (q, r, w)
  unfolding run_base
  run_base_stopped [] q r w h = refl
  run_base_stopped (answer resp ∷ hs) q r w h = rw h
  run_base_stopped (timer ∷ hs) q r w h = rw h

  run_base_lem :
      (rest : Rest) (hs : List Happening) (q : Request) (r : ReqT) (w : World)
      → AllHappen hs
      → Owns rest q w
      → q.base ≡ r.req_base
      → (q' : Request) × (r' : ReqT) × (w' : World) × (run_base parse hs q r w ≡ some (q', r', w'))
        × Owns rest q' w'
        × Waited r (if mem r.req_base w.exited then false else timer_comes hs) r'
        × (w'.overrun ≡ w.overrun + (if mem r.req_base w.exited then 0 else loop_overruns hs))
  unfolding run_base timeout_handler loopexit
  run_base_lem rest [] q r w all o same = elim (Bool-cases (mem r.req_base w.exited)) [
    | inl done ↦ (q, r, w, refl, o, rw done quiet, rw done (omega arith))
    | inr more ↦ (q, r, w, refl, o, rw more quiet, rw more (omega arith))
  ]
  run_base_lem rest (answer resp ∷ hs) q r w (answered a all) o same =
      elim (Bool-cases (mem r.req_base w.exited)) [
        | inl done ↦ (q, r, w, ground arith, o, rw done quiet, rw done (omega arith))
        | inr more ↦
            let (q₁, w₁, e, d) = http_request_cb_lem rest parse get_flag q w resp a o tt in
            let same₁ : q₁.base ≡ r.req_base = d.same_base ∙ same in
            let (q₂, r₂, w₂, e₂, o₂, k, n) = run_base_lem rest hs q₁ r w₁ all d.owns same₁ in
            let ended : mem r.req_base w₁.exited ≡ ends_loop resp =
              ap (λ b. mem b w₁.exited) (sym same₁)
              ∙ mem-Stepped rest parse get_flag (ends_loop resp)
                  (ap (λ b. mem b w.exited) same ∙ more) d in
            (
              q₂,
              r₂,
              w₂,
              ground (arith, e, e₂),
              o₂,
              subst (λ b. Waited r b r₂)
                  (ap (λ b. if b then false else timer_comes hs) ended ∙ rw more refl) k,
              n ∙ rw (ended, more, d.overrun) (omega arith),
            )
      ]
  run_base_lem rest (timer ∷ hs) q r w (timed all) o same =
      elim (Bool-cases (mem r.req_base w.exited)) [
        | inl done ↦ (q, r, w, ground arith, o, rw done quiet, rw done (omega arith))
        | inr more ↦
            let r₁ =
              send_reply 504 (codes "Timeout") (timeout_text r.uri) (record r { timeout = true }) in
            let w₁ = record w { exited = r.req_base ∷ w.exited } in
            (
              q,
              r₁,
              w₁,
              ground (arith, run_base_stopped hs q r₁ w₁ (ground arith)),
              Owns-exited rest q w r.req_base o,
              rw more timed_out,
              rw more (omega arith),
            )
      ]

  -- search and test_backend on a request whose base is live.
  pub backend_lem :
      (name url : List ℕ) (hs : List Happening) (r : ReqT) (c : Ctx) (parts : Parts)
      → parse url ≡ some parts
      → AllHappen hs
      → mem r.req_base c.bases ≡ true
      → (r₁ : ReqT) × (c' : Ctx) × (backend parse name url hs r c
          ≡ some (send_reply 200 (codes "success") (done_text name) r₁, c'))
        × Waited r (if mem r.req_base c.world.exited then false else timer_comes hs) r₁
        × (c'.world.overrun
            ≡ c.world.overrun
              + (overrun_of get_flag parts
                  + (if mem r.req_base c.world.exited then 0 else loop_overruns hs)))
        × (c'.world.uris ≡ c.world.uris)
        × (c'.world.conns ≡ c.world.conns)
        × (c'.bases ≡ base_drop r.req_base c.bases)
  unfolding backend base_free
  backend_lem name url hs r c parts p all live =
      let rest : Rest = record { uris = c.world.uris; conns = c.world.conns } in
      let (q₁, w₁, e₁, o₁, _, x, same, n₁) =
        start_http_request_lem parse get_flag r.req_base url none none 1 c.world parts p tt in
      let (q₂, r₂, w₂, e₂, o₂, k, n₂) = run_base_lem rest hs q₁ r w₁ all o₁ same in
      let (w₃, e₃, us, cs, n₃) = http_request_free_lem rest q₂ w₂ o₂ in
      (
        r₂,
        record c { world = w₃; bases = base_drop r.req_base c.bases },
        ground (arith, e₁, e₂, e₃, live),
        subst (λ es. Waited r (if mem r.req_base es then false else timer_comes hs) r₂) x k,
        n₃ ∙ n₂ ∙ rw (x, n₁) (omega arith),
        us,
        cs,
        refl,
      )

  -- search2 on any request.
  pub search2_lem :
      (resps : List (Option Response)) (r : ReqT) (c : Ctx) (parts : Parts)
      → parse (codes "http://www.baidu.com/") ≡ some parts
      → AllAnswered parse resps
      → (c' : Ctx) × (search2 parse resps r c
          ≡ some (send_reply 200 (codes "success") (done_text (codes "search2")) r, c'))
        × (c'.world.uris ≡ c.world.uris)
        × (c'.world.conns ≡ c.world.conns)
        × (c'.bases ≡ c.bases)
  unfolding search2 base_free base_new base_drop
  search2_lem resps r c parts p all =
      let rest : Rest = record { uris = c.world.uris; conns = c.world.conns } in
      let (q₁, w₁, e₁, o₁, b₁, _, _, _) =
        start_http_request_lem parse get_flag c.next_base (codes "http://www.baidu.com/") none none
          1 c.world parts p tt in
      let (q₂, w₂, e₂, o₂, _) = deliver_lem rest parse get_flag resps q₁ w₁ all o₁ b₁ in
      let (w₃, e₃, us, cs, _) = http_request_free_lem rest q₂ w₂ o₂ in
      (
        record c { next_base = suc c.next_base; world = w₃ },
        ground (arith, e₁, e₂, e₃),
        us,
        cs,
        refl,
      )
