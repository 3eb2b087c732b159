-- ===== src/Tests/Sockets.antt =====
-- An example on event_connect.
use nd.Base.{some, [], ◌∷◌, codes, pos, negsuc, decimal, arith}
use nd.Event.Socket.{Network, event_connect, Connected, event_connect-Connected}

-- Any name has the address 9, which libevent does not take.
abbrev refusing : Network
refusing = record { getaddrinfo = λ node service. some 9; connect = λ ai_addr. negsuc 0 }

event_connect-Connected_example :
    Connected refusing
      (codes "localhost")
      (decimal 8080)
      (3 ∷ [])
      (event_connect refusing (codes "localhost") (pos 8080) 4 (3 ∷ []))
event_connect-Connected_example =
    event_connect-Connected refusing (codes "localhost") 8080 4 (3 ∷ []) (omega arith)
