-- ===== src/HttpClient/Lifetime.antt =====
-- A request from start_http_request to http_request_free.
use nd.Base.{ℕ, suc, ◌+◌, ◌≡◌, refl, Option, none, some, List, ◌∷◌, arith}
use nd.HttpClient.World.{Parts, Uri, Flag, World, uri_new}
use nd.HttpClient.Request.{
  Request, new_content_type, new_id, new_post_data, http_request_new, start_http_request,
}
use nd.HttpClient.Handles.{Rest, Owns, HasBody, NeedsBody, NeedsBody-HasBody}
use nd.HttpClient.Overrun.{overrun_of}
use nd.HttpClient.Owning.{start_from}

-- What start_http_request leaves: a request that owns the newest uri and connection, and no base
-- that was told to exit.
pub start_http_request_lem :
    (parse : List ℕ → Option Parts) (flag : Flag) (base : ℕ) (url : List ℕ)
    (content_type post_data : Option (List ℕ)) (id : ℕ) (w : World) (parts : Parts)
    → parse url ≡ some parts
    → NeedsBody flag post_data
    → (r' : Request) × (w' : World) × (start_http_request parse base url flag content_type post_data
          id w
        ≡ some (r', w'))
      × Owns (record { uris = w.uris; conns = w.conns }) r' w'
      × HasBody flag r'
      × (w'.exited ≡ w.exited)
      × (r'.base ≡ base)
      × (w'.overrun ≡ w.overrun + overrun_of flag parts)
unfolding start_http_request http_request_new uri_new
start_http_request_lem parse flag base url content_type post_data id w parts p b =
    let rest : Rest = record { uris = w.uris; conns = w.conns } in
    let u : Uri = record { handle = w.next; parts = parts } in
    let r : Request = record {
      uri = some u;
      base = base;
      cn = none;
      content_type = new_content_type flag content_type;
      post_data = new_post_data flag post_data;
      id = new_id flag id;
    } in
    let w₁ = record w { next = suc w.next; uris = w.next ∷ w.uris } in
    let (r₂, w₂, e₂, d) =
      start_from rest flag r w₁ w₁ u refl refl refl refl
        (NeedsBody-HasBody flag r post_data refl b) in
    (r₂, w₂, ground (arith, p, e₂), d.owns, d.body, d.exited, d.same_base, d.overrun)
