-- ===== src/Tests/Http.antt =====
-- Examples on requests to a backend.
use nd.Base.{ℕ, ◌+◌, ◌≡◌, Option, none, some, List, [], ◌∷◌, codes, negsuc, arith}
use nd.HttpClient.World.{Parts, World}
use nd.HttpClient.Request.{Response, path_query_text, get_target}
use nd.HttpClient.Target.{null_text, get_target_overruns}

abbrev google : Parts
google = record {
  host = codes "www.google.com";
  port = negsuc 0;
  path = some (codes "/");
  query = none;
}

abbrev parse_google : List ℕ → Option Parts
parse_google url = some google

abbrev a_world : World
a_world = record { next = 7; uris = 3 ∷ []; conns = 4 ∷ []; exited = []; overrun = 0; made = [] }

abbrev redirection : Response
redirection = record { code = 302; location = some (codes "http://www.google.com/") }

abbrev success : Response
success = record { code = 200; location = none }

get_target_overruns_example :
    get_target google a_world
    ≡ some (
      path_query_text google,
      record a_world {
        overrun = a_world.overrun + (1 + null_text google.path + null_text google.query);
      },
    )
get_target_overruns_example = get_target_overruns google a_world (omega arith)
