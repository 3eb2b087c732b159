-- ===== src/HttpClient/Handles.antt =====
-- Which handles a request of src/http_client.cpp owns, and what send leaves of them.
use nd.Base.{
  ℕ, ◌+◌, ◌≡◌, ◌≢◌, refl, ◌∙◌, inl, inr, ltb, ltb→lt, ltb→le, Bool-cases, Option, some, List, [],
  ◌∷◌, arith,
}
use nd.HttpClient.World.{
  Parts, Uri, Flag, post_flag, get_flag, World, remove, make_request, overran,
}
use nd.HttpClient.Overrun.{overrun_of}
use nd.HttpClient.Target.{get_target_overruns, get_target_slash}
use nd.HttpClient.Request.{
  Request, Response, new_post_data, http_movetemp, strlen_or_zero, post_made, get_made, get_target,
  send,
}

-- The handles that the rest of the program holds.
pub record Rest : Type 0 where
  pub uris : List ℕ
  pub conns : List ℕ

-- Of the live handles the newest uri is the request's, and the others are the rest's.
pub record HasUri (rest : Rest) (r : Request) (w : World) : Type 0 where
  pub uri : Uri
  pub set : r.uri ≡ some uri
  pub live : w.uris ≡ uri.handle ∷ rest.uris

-- So too of the connections.
pub record Owns (rest : Rest) (r : Request) (w : World) : Type 0 where
  pub has_uri : HasUri rest r w
  pub cn : ℕ
  pub set : r.cn ≡ some cn
  pub live : w.conns ≡ cn ∷ rest.conns

-- A post request has a body, so that its length can be taken.
abbrev pub HasBody : Flag → Request → Type 0
HasBody get_flag r = Unit
HasBody post_flag r = (body : List ℕ) × (r.post_data ≡ some body)

-- The request goes out, `n` bytes are written past the end of a block, and no handle comes or goes.
pub record Sent (n : ℕ) (w w' : World) : Type 0 where
  pub uris : w'.uris ≡ w.uris
  pub conns : w'.conns ≡ w.conns
  pub next : w'.next ≡ w.next
  pub exited : w'.exited ≡ w.exited
  pub overrun : w'.overrun ≡ w.overrun + n

get_target_lem :
    (u : Parts) (w : World)
    → (t : List ℕ) × (w' : World) × (get_target u w ≡ some (t, w'))
      × Sent (overrun_of get_flag u) w w'
unfolding overran
get_target_lem u w = elim (Bool-cases (ltb 0 (strlen_or_zero u.path + strlen_or_zero u.query))) [
  | inl some_part ↦ (
    _,
    _,
    get_target_overruns u w (ltb→lt _ _ some_part),
    record {
      uris = refl;
      conns = refl;
      next = refl;
      exited = refl;
      overrun = ground (arith, some_part);
    },
  )
  | inr none_there ↦ (
    _,
    _,
    get_target_slash u w (omega (arith, ltb→le _ _ none_there)),
    record {
      uris = refl;
      conns = refl;
      next = refl;
      exited = refl;
      overrun = ground (arith, none_there);
    },
  )
]

pub send_lem :
    (flag : Flag) (r : Request) (u : Parts) (w : World)
    → HasBody flag r
    → (w' : World) × (send flag r u w ≡ some (tt, w')) × Sent (overrun_of flag u) w w'
unfolding send make_request
send_lem get_flag r u w h =
    let (t, w', e, s) = get_target_lem u w in
    (
      record w' { made = get_made u t ∷ w'.made },
      ground (arith, e),
      record {
        uris = s.uris;
        conns = s.conns;
        next = s.next;
        exited = s.exited;
        overrun = s.overrun;
      },
    )
send_lem post_flag r u w (body, e) = (
  record w { made = post_made r u body ∷ w.made },
  rw e refl,
  record { uris = refl; conns = refl; next = refl; exited = refl; overrun = omega arith },
)

pub HasBody-same :
    (flag : Flag) (r r' : Request) → r'.post_data ≡ r.post_data → HasBody flag r → HasBody flag r'
HasBody-same get_flag r r' e b = b
HasBody-same post_flag r r' e (body, h) = (body, e ∙ h)

pub remove_head : (h : ℕ) (hs : List ℕ) → remove h (h ∷ hs) ≡ some hs
unfolding remove
remove_head h hs = ground arith

pub remove_second : (n h : ℕ) (hs : List ℕ) → remove h (n ∷ h ∷ hs) ≡ some (n ∷ hs)
unfolding remove
remove_second n h hs = ground arith

module _ (parse : List ℕ → Option Parts) where
  -- libevent had a response, and a redirection names a uri.
  pub data Answered : Option Response → Type 0 where
    plain : (resp : Response) → resp.code ≢ http_movetemp → Answered (some resp)
    moved :
        (resp : Response) (loc : List ℕ) (parts : Parts)
        → resp.location ≡ some loc
        → parse loc ≡ some parts
        → Answered (some resp)

  pub data AllAnswered : List (Option Response) → Type 0 where
    nil : AllAnswered []
    cons :
        {resp : Option Response} {resps : List (Option Response)}
        → Answered resp
        → AllAnswered resps
        → AllAnswered (resp ∷ resps)

-- The body that is handed to http_request_new.
abbrev pub NeedsBody : Flag → Option (List ℕ) → Type 0
NeedsBody get_flag d = Unit
NeedsBody post_flag d = (body : List ℕ) × (d ≡ some body)

pub NeedsBody-HasBody :
    (flag : Flag) (r : Request) (d : Option (List ℕ))
    → r.post_data ≡ new_post_data flag d
    → NeedsBody flag d
    → HasBody flag r
NeedsBody-HasBody get_flag r d e b = b
NeedsBody-HasBody post_flag r d e (body, h) = (body, e ∙ h)
