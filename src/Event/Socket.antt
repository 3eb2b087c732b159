-- ===== src/Event/Socket.antt =====
-- event_connect of src/event.cpp by a name and a port. What getaddrinfo finds and what libevent makes
-- of an address is given. `none` is a fault.
use nd.Base.{
  ℕ, ◌<◌, ◌≡◌, refl, ap, ◌∙◌, inl, inr, true, false, Bool-cases, Option, none, some, List, [], ◌∷◌,
  take, take-all, ◌==◌, if◌then◌else◌, ◌>>=◌, ℤ, pos, negsuc, decimal, signed_decimal,
  signed_decimal-pos, length-decimal, arith,
}
use nd.Hash.{c_string}
use nd.Event.Custom.{is_zero}

-- `getaddrinfo`: the first address for a name and a service, `none` where it does not return 0.
-- `connect`: what bufferevent_socket_connect returns for an address.
pub record Network : Type 0 where
  pub getaddrinfo : List ℕ → List ℕ → Option ℕ
  pub connect : ℕ → ℤ

-- snprintf to the 8 bytes of port_buf.
unfoldable pub port_buf : ℤ → List ℕ
port_buf port = take 7 (signed_decimal port)

-- One of the lists that getaddrinfo has made goes; it faults on what is none.
unfoldable pub freeaddrinfo : ℕ → List ℕ → Option (List ℕ)
freeaddrinfo servinfo [] = none
freeaddrinfo servinfo (i ∷ infos) =
    let rest = freeaddrinfo servinfo infos in
    if servinfo == i then some infos else rest >>= (λ left. some (i ∷ left))

-- The result, and the lists of addresses that are live; getaddrinfo makes `servinfo`.
unfoldable pub event_connect : Network → List ℕ → ℤ → ℕ → List ℕ → Option (ℤ × List ℕ)
unfolding port_buf freeaddrinfo
event_connect net addr port servinfo infos =
    elim (net.getaddrinfo (c_string addr) (port_buf port)) [
      | none ↦ some (negsuc 0, infos)
      | some ai_addr ↦
          if is_zero (net.connect ai_addr)
          then freeaddrinfo servinfo (servinfo ∷ infos) >>= (λ left. some (pos 0, left))
          else freeaddrinfo servinfo (servinfo ∷ infos) >>= (λ left. some (negsuc 0, left))
    ]

-- What a call comes to, by what is found for the name and the service.
pub data Connected (net : Network) (addr service : List ℕ) (infos : List ℕ)
    : Option (ℤ × List ℕ) → Type 0 where
  unresolved :
      net.getaddrinfo (c_string addr) service ≡ none
      → Connected net addr service infos (some (negsuc 0, infos))
  refused :
      (ai_addr : ℕ)
      → net.getaddrinfo (c_string addr) service ≡ some ai_addr
      → is_zero (net.connect ai_addr) ≡ false
      → Connected net addr service infos (some (negsuc 0, infos))
  connected :
      (ai_addr : ℕ)
      → net.getaddrinfo (c_string addr) service ≡ some ai_addr
      → is_zero (net.connect ai_addr) ≡ true
      → Connected net addr service infos (some (pos 0, infos))

port_buf_whole : (n : ℕ) → n < 65536 → port_buf (pos n) ≡ decimal n
unfolding port_buf
port_buf_whole n h =
    ap (take 7) (signed_decimal-pos n)
    ∙ take-all 7 (decimal n) (omega (arith, length-decimal 4 n (omega arith)))

freeaddrinfo_head : (i : ℕ) (infos : List ℕ) → freeaddrinfo i (i ∷ infos) ≡ some infos
unfolding freeaddrinfo
freeaddrinfo_head i infos = ground arith

-- For a port below 65536 event_connect asks getaddrinfo for the name and the whole number of the
-- port, gives back what that made on every branch, and returns 0 only where there was an address and
-- libevent took it, and else -1.
pub event_connect-Connected :
    (net : Network) (addr : List ℕ) (port servinfo : ℕ) (infos : List ℕ)
    → port < 65536
    → Connected net addr (decimal port) infos (event_connect net addr (pos port) servinfo infos)
unfolding event_connect
event_connect-Connected net addr port servinfo infos h =
    go (net.getaddrinfo (c_string addr) (decimal port)) refl
  where
    go :
        (o : Option ℕ)
        → net.getaddrinfo (c_string addr) (decimal port) ≡ o
        → Connected net addr (decimal port) infos (event_connect net addr (pos port) servinfo infos)
    go none e =
        let f : event_connect net addr (pos port) servinfo infos ≡ some (negsuc 0, infos) =
          rw (event_connect, port_buf_whole port h, e) refl in
        rw f (unresolved e)
    go (some ai_addr) e = elim (Bool-cases (is_zero (net.connect ai_addr))) [
      | inl took ↦
          let f : event_connect net addr (pos port) servinfo infos ≡ some (pos 0, infos) =
            rw (event_connect, port_buf_whole port h, e, took, freeaddrinfo_head servinfo infos)
              refl in
          rw f (connected ai_addr e took)
      | inr not_took ↦
          let f : event_connect net addr (pos port) servinfo infos ≡ some (negsuc 0, infos) =
            rw (event_connect, port_buf_whole port h, e, not_took, freeaddrinfo_head servinfo infos)
              refl in
          rw f (refused ai_addr e not_took)
    ]
