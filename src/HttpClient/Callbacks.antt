-- ===== src/HttpClient/Callbacks.antt =====
-- Who owns the uris and connections through the callbacks of a request.
use nd.Base.{
  ℕ, suc, ◌≡◌, refl, ◌∙◌, ◌+◌, if◌then◌else◌, inl, inr, Bool, true, false, Bool-cases, Option, some,
  List, [], ◌∷◌, ◌==◌, arith,
}
use nd.HttpClient.World.{Parts, Uri, Flag, World, uri_new, uri_free, conn_free, loopexit}
use nd.HttpClient.Request.{
  Request, Response, free_if_set, http_moveperm, http_movetemp, redirect, mem, deliver,
  http_request_cb,
}
use nd.HttpClient.Overrun.{overrun_of, ends_loop, redirection_overrun, later_overruns}
use nd.HttpClient.Handles.{
  Rest, Owns, HasBody, HasBody-same, remove_head, remove_second, Answered, plain, moved,
  AllAnswered, cons,
}
use nd.HttpClient.Owning.{Stepped, start_from, Owns-exited}

module _ (rest : Rest) (parse : List ℕ → Option Parts) (flag : Flag) where
  redirect_lem :
      (r : Request) (w : World) (resp : Response) (loc : List ℕ) (parts : Parts)
      → resp.location ≡ some loc
      → parse loc ≡ some parts
      → Owns rest r w
      → HasBody flag r
      → (r' : Request) × (w' : World) × (redirect parse flag r resp w ≡ some (r', w'))
        × Stepped rest flag r w false (overrun_of flag parts) r' w'
  unfolding redirect uri_new uri_free conn_free
  redirect_lem r w resp loc parts e p o b =
      let u : Uri = record { handle = w.next; parts = parts } in
      let w₁ = record w { next = suc w.next; uris = w.next ∷ rest.uris } in
      let w₂ = record w₁ { conns = rest.conns } in
      let freed : free_if_set r.cn w₁ ≡ some (tt, w₂) =
        ground (arith, o.live, o.set, remove_head o.cn rest.conns) in
      let (r', w', s, d) =
        start_from rest flag (record r { uri = some u }) w₁ w₂ u freed refl refl refl
          (HasBody-same flag r (record r { uri = some u }) refl b) in
      (
        r',
        w',
        ground (
          arith,
          e,
          p,
          o.has_uri.set,
          o.has_uri.live,
          remove_second w.next o.has_uri.uri.handle rest.uris,
          s,
        ),
        record {
          owns = d.owns;
          body = d.body;
          same_base = d.same_base;
          exited = d.exited;
          overrun = d.overrun;
        },
      )

  -- A run of a callback after which the request still owns its handles.
  abbrev pub Kept : Option Response → Request → World → Type 0
  Kept resp r w =
      (r' : Request) × (w' : World) × (http_request_cb parse flag r resp w ≡ some (r', w'))
      × Stepped rest flag r w (ends_loop resp) (redirection_overrun parse flag resp) r' w'

  exit_Kept :
      (r : Request) (w : World) (resp : Option Response)
      → Owns rest r w
      → HasBody flag r
      → http_request_cb parse flag r resp w ≡ some (r, record w { exited = r.base ∷ w.exited })
      → ends_loop resp ≡ true
      → redirection_overrun parse flag resp ≡ 0
      → Kept resp r w
  exit_Kept r w resp o b e ends none_over = (
    r,
    record w { exited = r.base ∷ w.exited },
    e,
    record {
      owns = Owns-exited rest r w r.base o;
      body = b;
      same_base = refl;
      exited = rw ends refl;
      overrun = omega (arith, none_over);
    },
  )

  stay_Kept :
      (r : Request) (w : World) (resp : Option Response)
      → Owns rest r w
      → HasBody flag r
      → http_request_cb parse flag r resp w ≡ some (r, w)
      → ends_loop resp ≡ false
      → redirection_overrun parse flag resp ≡ 0
      → Kept resp r w
  stay_Kept r w resp o b e goes_on none_over = (
    r,
    w,
    e,
    record {
      owns = o;
      body = b;
      same_base = refl;
      exited = rw goes_on refl;
      overrun = omega (arith, none_over);
    },
  )

  -- Whatever code comes back, the request stays the owner of one uri and one connection.
  pub http_request_cb_lem :
      (r : Request) (w : World) (resp : Option Response)
      → Answered parse resp
      → Owns rest r w
      → HasBody flag r
      → Kept resp r w
  unfolding http_request_cb loopexit
  http_request_cb_lem r w resp' (plain resp ne) o b =
      elim (Bool-cases (resp.code == http_moveperm)) [
        | inl perm ↦ stay_Kept r w (some resp) o b (ground arith) (ground arith) (ground arith)
        | inr other ↦ exit_Kept r w (some resp) o b (ground arith) (ground arith) (ground arith)
      ]
  http_request_cb_lem r w resp' (moved resp loc parts e p) o b =
      elim (Bool-cases (resp.code == http_moveperm)) [
        | inl perm ↦ stay_Kept r w (some resp) o b (ground arith) (ground arith) (ground arith)
        | inr other ↦ elim (Bool-cases (resp.code == http_movetemp)) [
          | inl temp ↦
              let (r', w', s, d) = redirect_lem r w resp loc parts e p o b in
              (
                r',
                w',
                ground (arith, s),
                record {
                  owns = d.owns;
                  body = d.body;
                  same_base = d.same_base;
                  exited = ground (arith, d.exited);
                  overrun = d.overrun ∙ ground (arith, e, p);
                },
              )
          | inr any ↦ exit_Kept r w (some resp) o b (ground arith) (ground arith) (ground arith)
        ]
      ]

  -- After a callback the base was told to exit if the response ends the loop.
  pub mem-Stepped :
      {r r' : Request} {w w' : World} {n : ℕ} (ends : Bool)
      → mem r.base w.exited ≡ false
      → Stepped rest flag r w ends n r' w'
      → mem r'.base w'.exited ≡ ends
  mem-Stepped true more d = rw (d.same_base, d.exited) (ground arith)
  mem-Stepped false more d = rw (d.same_base, d.exited) more

  pub deliver_lem :
      (resps : List (Option Response)) (r : Request) (w : World)
      → AllAnswered parse resps
      → Owns rest r w
      → HasBody flag r
      → (r' : Request) × (w' : World) × (deliver parse flag resps r w ≡ some (r', w'))
        × Owns rest r' w'
        × (w'.overrun
            ≡ w.overrun + (if mem r.base w.exited then 0 else later_overruns parse flag resps))
  unfolding deliver
  deliver_lem [] r w all o b = (r, w, refl, o, ground arith)
  deliver_lem (resp ∷ resps) r w (cons a all) o b = elim (Bool-cases (mem r.base w.exited)) [
    | inl done ↦ (r, w, rw done refl, o, rw done (omega arith))
    | inr more ↦
        let (r₁, w₁, e, d) = http_request_cb_lem r w resp a o b in
        let (r₂, w₂, e₂, o₂, n) = deliver_lem resps r₁ w₁ all d.owns d.body in
        let ended = mem-Stepped (ends_loop resp) more d in
        (r₂, w₂, ground (arith, more, e, e₂), o₂, n ∙ rw (ended, more, d.overrun) (omega arith))
  ]
