-- ===== src/HttpClient/Owning.antt =====
-- The connection that start_url_request makes for a request, and http_request_free.
use nd.Base.{ℕ, suc, ◌≡◌, refl, ap, ◌∙◌, ◌+◌, if◌then◌else◌, Bool, false, some, ◌∷◌, arith}
use nd.HttpClient.World.{Uri, Flag, World, uri_free, conn_new, conn_free}
use nd.HttpClient.Request.{Request, free_if_set, start_url_request, http_request_free}
use nd.HttpClient.Overrun.{overrun_of}
use nd.HttpClient.Handles.{Rest, Owns, HasBody, send_lem, HasBody-same, remove_head}

-- A step of a request that still owns its handles: whether its base is told to exit, and how many
-- bytes are written past the end of a block.
pub record Stepped (rest : Rest) (flag : Flag) (r : Request) (w : World) (ends : Bool) (n : ℕ)
    (r' : Request) (w' : World) : Type 0 where
  pub owns : Owns rest r' w'
  pub body : HasBody flag r'
  pub same_base : r'.base ≡ r.base
  pub exited : w'.exited ≡ (if ends then r.base ∷ w.exited else w.exited)
  pub overrun : w'.overrun ≡ w.overrun + n

module _ (rest : Rest) where
  -- Once the old connection is gone, a new one is the request's.
  pub start_from :
      (flag : Flag) (r : Request) (w w₀ : World) (u : Uri)
      → free_if_set r.cn w ≡ some (tt, w₀)
      → r.uri ≡ some u
      → w₀.conns ≡ rest.conns
      → w₀.uris ≡ u.handle ∷ rest.uris
      → HasBody flag r
      → (r' : Request) × (w' : World) × (start_url_request flag r w ≡ some (r', w'))
        × Stepped rest flag r w₀ false (overrun_of flag u.parts) r' w'
  unfolding start_url_request conn_new
  start_from flag r w w₀ u n e c l b =
      let w₁ = record w₀ { next = suc w₀.next; conns = w₀.next ∷ w₀.conns } in
      let (w₂, s, k) = send_lem flag r u.parts w₁ b in
      (
        record r { cn = some w₀.next },
        w₂,
        ground (arith, n, e, s),
        record {
          owns = record {
            has_uri = record { uri = u; set = e; live = k.uris ∙ l };
            cn = w₀.next;
            set = refl;
            live = k.conns ∙ ap (λ t. w₀.next ∷ t) c;
          };
          body = HasBody-same flag r (record r { cn = some w₀.next }) refl b;
          same_base = refl;
          exited = k.exited;
          overrun = k.overrun;
        },
      )

  pub Owns-exited :
      (r : Request) (w : World) (base : ℕ)
      → Owns rest r w
      → Owns rest r (record w { exited = base ∷ w.exited })
  Owns-exited r w base o = record {
    has_uri = record { uri = o.has_uri.uri; set = o.has_uri.set; live = o.has_uri.live };
    cn = o.cn;
    set = o.set;
    live = o.live;
  }

  -- http_request_free gives back the uri and the connection, and nothing else.
  pub http_request_free_lem :
      (r : Request) (w : World)
      → Owns rest r w
      → (w' : World) × (http_request_free r w ≡ some (tt, w'))
        × (w'.uris ≡ rest.uris)
        × (w'.conns ≡ rest.conns)
        × (w'.overrun ≡ w.overrun)
  unfolding http_request_free conn_free uri_free
  http_request_free_lem r w o = (
    record w { uris = rest.uris; conns = rest.conns },
    ground (
      arith,
      o.live,
      o.has_uri.live,
      o.set,
      o.has_uri.set,
      remove_head o.cn rest.conns,
      remove_head o.has_uri.uri.handle rest.uris,
    ),
    refl,
    refl,
    refl,
  )
