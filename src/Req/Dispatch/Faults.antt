-- ===== src/Req/Dispatch/Faults.antt =====
-- The responses of a backend that the callback cannot take.
use nd.Base.{ℕ, ◌≡◌, refl, ap, ◌∙◌, true, false, Bool, Option, none, some, List, ◌∷◌, codes, arith}
use nd.HttpClient.World.{Parts, Flag, get_flag, World, uri_new, uri_free, conn_free}
use nd.HttpClient.Request.{
  Request, Response, http_movetemp, start_url_request, redirect, mem, http_request_cb,
}
use nd.HttpClient.Handles.{Rest, Owns, remove_head}
use nd.HttpClient.Lifetime.{start_http_request_lem}
use nd.Req.Post.{get_post_data}
use nd.Req.Handler.{ReqT, Ctx, Happening, answer, run_base, backend, search}
use nd.Req.Dispatch.{Incoming, command_no, is_cmd, read_post, req_new, distribute, http_handler}

-- No response, as where the backend cannot be reached, or a redirection to nowhere or to what is no
-- uri.
pub data Unfit (parse : List ℕ → Option Parts) : Option Response → Type 0 where
  silent : Unfit parse none
  lost :
      (resp : Response) → resp.code ≡ http_movetemp → resp.location ≡ none → Unfit parse (some resp)
  misled :
      (resp : Response) (loc : List ℕ)
      → resp.code ≡ http_movetemp
      → resp.location ≡ some loc
      → parse loc ≡ none
      → Unfit parse (some resp)

module _ (parse : List ℕ → Option Parts) where
  -- The callback reads through null.
  http_request_cb_faults :
      (flag : Flag) (rest : Rest) (r : Request) (w : World) (resp : Option Response)
      → Unfit parse resp
      → Owns rest r w
      → http_request_cb parse flag r resp w ≡ none
  unfolding http_request_cb redirect start_url_request uri_new uri_free conn_free
  http_request_cb_faults flag rest r w resp' silent o = refl
  http_request_cb_faults flag rest r w resp' (lost resp m l) o = ground (arith, m, l)
  http_request_cb_faults flag rest r w resp' (misled resp loc m l p) o =
      let gone = remove_head o.has_uri.uri.handle rest.uris in
      let cut = remove_head o.cn rest.conns in
      ground (arith, m, l, p, o.has_uri.set, o.has_uri.live, o.set, o.live, gone, cut)

  backend_faults :
      (name url : List ℕ) (resp : Option Response) (hs : List Happening) (r : ReqT) (c : Ctx)
      (parts : Parts)
      → parse url ≡ some parts
      → Unfit parse resp
      → mem r.req_base c.world.exited ≡ false
      → backend parse name url (answer resp ∷ hs) r c ≡ none
  unfolding backend run_base
  backend_faults name url resp hs r c parts p unfit running =
      let rest : Rest = record { uris = c.world.uris; conns = c.world.conns } in
      let (q, w, e, o, _, x, _, _) =
        start_http_request_lem parse get_flag r.req_base url none none 1 c.world parts p tt in
      let f : http_request_cb parse get_flag q resp w ≡ none =
        http_request_cb_faults get_flag rest q w resp unfit o in
      let still : mem r.req_base w.exited ≡ false = ap (mem r.req_base) x ∙ running in
      ground (arith, e, f, still)

  -- Command 1, where what comes first for its backend request is no response, as from a backend
  -- that cannot be reached, or a redirection without a location or to one that is no uri:
  -- http_handler faults, so that the server goes down. The url is a uri, and the base of the
  -- request is not one that was told to exit.
  pub http_handler_faults :
      (junk : Bool) (inc : Incoming) (c : Ctx) (parts : Parts) (resp : Option Response)
      (hs : List Happening)
      → is_cmd (command_no inc.cmdno) 1 ≡ true
      → parse (codes "http://www.google.com/") ≡ some parts
      → inc.happenings ≡ answer resp ∷ hs
      → Unfit parse resp
      → mem c.next_base c.world.exited ≡ false
      → http_handler parse junk inc c ≡ none
  unfolding http_handler distribute read_post search
  http_handler_faults junk inc c parts resp hs one p first unfit running =
      let (len, bytes) = get_post_data inc.input c.post_data in
      let r : ReqT = record ((req_new junk inc.uri c).0) {
        command_no = command_no inc.cmdno;
        readbuf_len = len;
      } in
      let c' : Ctx = record ((req_new junk inc.uri c).1) { post_data = bytes } in
      let f =
        backend_faults (codes "search") (codes "http://www.google.com/") resp hs r c' parts p unfit
          running in
      rw (one, first, f) refl
