-- ===== src/HttpClient/Request.antt =====
-- The functions of src/http_client.cpp on a request. A post request has two fields more than a get
-- request; they are `none` in that.
use nd.Base.{
  ℕ, zero, ◌+◌, ◌-◌, Bool, false, ◌||◌, Option, none, some, List, [], ◌∷◌, ◌++◌, length, ltb, ◌==◌,
  if◌then◌else◌, codes, percent_s, ℤ, pos, negsuc,
}
use nd.HttpClient.World.{
  Parts, Uri, Flag, post_flag, get_flag, Made, M, pure, ◌>>=◌, ◌>>◌, fault, deref, uri_new,
  uri_free, conn_new, conn_free, loopexit, make_request, overran,
}

pub record Request : Type 0 where
  pub uri : Option Uri
  pub base : ℕ
  pub cn : Option ℕ
  pub content_type : Option (List ℕ)
  pub post_data : Option (List ℕ)
  pub id : ℕ

-- What comes back for a request: libevent calls back with null where it got no response.
pub record Response : Type 0 where
  pub code : ℕ
  pub location : Option (List ℕ)

abbrev pub http_ok : ℕ
http_ok = 200

abbrev pub http_moveperm : ℕ
http_moveperm = 301

abbrev pub http_movetemp : ℕ
http_movetemp = 302

abbrev pub strlen_or_zero : Option (List ℕ) → ℕ
strlen_or_zero none = 0
strlen_or_zero (some s) = length s

-- The size of the block for the path and query, and the text that sprintf writes into it.
unfoldable pub path_query_len : Parts → ℕ
path_query_len u = strlen_or_zero u.query + strlen_or_zero u.path + 1

unfoldable pub path_query_text : Parts → List ℕ
path_query_text u = percent_s u.path ++ codes "?" ++ percent_s u.query

-- The text with its final zero, beyond the block.
unfoldable pub path_query_overrun : Parts → ℕ
unfolding path_query_len path_query_text
path_query_overrun u = length (path_query_text u) + 1 - path_query_len u

-- path_query where it was written, "/" where it is null.
unfoldable pub get_target : Parts → M (List ℕ)
unfolding path_query_len path_query_text path_query_overrun
get_target u =
    if ltb 1 (path_query_len u)
    then (overran (path_query_overrun u) >> pure (path_query_text u))
    else pure (codes "/")

abbrev pub or_slash : Option (List ℕ) → List ℕ
or_slash none = codes "/"
or_slash (some path) = path

abbrev pub port_or_80 : ℤ → ℤ
port_or_80 (negsuc zero) = pos 80
port_or_80 port = port

abbrev pub free_if_set : Option ℕ → M (Unit {0})
free_if_set none = pure tt
free_if_set (some c) = conn_free c

-- The requests that are made.
abbrev pub post_made : Request → Parts → List ℕ → Made
post_made r u body = record {
  flag = post_flag;
  host = u.host;
  port = port_or_80 u.port;
  target = or_slash u.path;
  body = some body;
  content_type = r.content_type;
}

abbrev pub get_made : Parts → List ℕ → Made
get_made u target = record {
  flag = get_flag;
  host = u.host;
  port = port_or_80 u.port;
  target = target;
  body = none;
  content_type = none;
}

-- Step 4 and what follows it, by the flag.
unfoldable pub send : Flag → Request → Parts → M (Unit {0})
unfolding make_request
send post_flag r u = do body ← deref r.post_data; make_request (post_made r u body)
send get_flag r u = do target ← get_target u; make_request (get_made u target)

unfoldable pub start_url_request : Flag → Request → M Request
start_url_request flag r = do
  free_if_set r.cn
  u ← deref r.uri
  cn ← conn_new
  send flag r u.parts
  pure (record r { cn = some cn })

abbrev pub url_encoded : List ℕ
url_encoded = codes "application/x-www-form-urlencoded"

abbrev pub or_url_encoded : Option (List ℕ) → Option (List ℕ)
or_url_encoded none = some url_encoded
or_url_encoded (some t) = some t

abbrev pub new_content_type : Flag → Option (List ℕ) → Option (List ℕ)
new_content_type post_flag t = or_url_encoded t
new_content_type get_flag t = none

abbrev pub new_post_data : Flag → Option (List ℕ) → Option (List ℕ)
new_post_data post_flag d = d
new_post_data get_flag d = none

-- `http_req_get->id = id` on a block that calloc made. In http_request_post the id stands behind the
-- two pointers: the assignment goes to content_type, which is set after it, and the id stays 0.
abbrev pub new_id : Flag → ℕ → ℕ
new_id post_flag id = 0
new_id get_flag id = id

abbrev pub mem : ℕ → List ℕ → Bool
mem b [] = false
mem b (c ∷ cs) = (b == c) || mem b cs

-- A url that is no uri gives null, and the next read through it faults.
module _ (parse : List ℕ → Option Parts) where
  unfoldable pub http_request_new :
      ℕ → List ℕ → Flag → Option (List ℕ) → Option (List ℕ) → ℕ → M Request
  http_request_new base url flag content_type post_data id = do
    uri ← uri_new (parse url)
    pure (record {
      uri = uri;
      base = base;
      cn = none;
      content_type = new_content_type flag content_type;
      post_data = new_post_data flag post_data;
      id = new_id flag id;
    })

  unfoldable pub start_http_request :
      ℕ → List ℕ → Flag → Option (List ℕ) → Option (List ℕ) → ℕ → M Request
  start_http_request base url flag content_type post_data id =
      http_request_new base url flag content_type post_data id >>= start_url_request flag

  -- The case HTTP_MOVETEMP.
  unfoldable pub redirect : Flag → Request → Response → M Request
  redirect flag r resp = do
    new_location ← deref resp.location
    new_uri ← uri_new (parse new_location)
    old ← deref r.uri
    uri_free old
    start_url_request flag (record r { uri = new_uri })

  -- http_request_post_cb and http_request_get_cb.
  unfoldable pub http_request_cb : Flag → Request → Option Response → M Request
  http_request_cb flag r none = fault
  http_request_cb flag r (some resp) =
      if resp.code == http_ok
      then (loopexit r.base >> pure r)
      else if resp.code == http_moveperm
      then pure r
      else if resp.code == http_movetemp
      then redirect flag r resp
      else (loopexit r.base >> pure r)

  -- event_base_dispatch, given what libevent calls back with, in order, until the loop is told to
  -- exit.
  unfoldable pub deliver : Flag → List (Option Response) → Request → M Request
  deliver flag [] r w = some (r, w)
  deliver flag (resp ∷ resps) r w =
      if mem r.base w.exited
      then some (r, w)
      else (http_request_cb flag r resp >>= deliver flag resps) w

-- free of null does nothing; the connection and the uri are read through.
unfoldable pub http_request_free : Request → M (Unit {0})
http_request_free r = do cn ← deref r.cn; conn_free cn; u ← deref r.uri; uri_free u
