-- ===== src/Tests/Hashes.antt =====
-- Examples on the hash of names, and on the callbacks of two of them.
use nd.Base.{
  ℕ, ◌≡◌, ◌≢◌, refl, Bool, true, ◌&&◌, some, List, [], ◌∷◌, ◌++◌, ltb, ltb→lt, codes, pos, arith,
}
use nd.Hash.{c_string, murmur_hash_64a}
use nd.Hash.Steps.{AllBytes}
use nd.Hash.Collisions.{murmur_hash_64a_apart}
use nd.Event.Custom
use nd.Event.Custom.{event_listen, event_trigger, custom_event_cb}
use nd.Event.Custom.Names.{names_apart}
use nd.Tests.Lists.{functions, quiet_state, fresh_store-Ready, junk}

all_bytes : List ℕ → Bool
all_bytes [] = true
all_bytes (b ∷ bs) = ltb b 256 && all_bytes bs

all_bytes-AllBytes : (bs : List ℕ) → all_bytes bs ≡ true → AllBytes bs
unfolding all_bytes
all_bytes-AllBytes [] h = tt
all_bytes-AllBytes (b ∷ bs) h =
    (ltb→lt b 256 (ground (arith, h)), all_bytes-AllBytes bs (ground (arith, h)))

-- Two keys of two words and a byte.
abbrev on : List ℕ
on = codes "switch: is now on"

abbrev of : List ℕ
of = codes "switch: it was on"

murmur_hash_64a_apart_example : murmur_hash_64a on 7 ≢ murmur_hash_64a of 7
unfolding all_bytes
murmur_hash_64a_apart_example =
    murmur_hash_64a_apart 7 1 on of (omega arith) (all_bytes-AllBytes on refl)
      (all_bytes-AllBytes of refl) refl refl refl (λ e. ground (arith, e))

names_apart_example :
    (t u : Custom.State functions) × (event_trigger functions 16 junk
        (codes "reload")
        6
        (event_listen functions
          (codes "config")
          34
          (event_listen functions (codes "reload") 33 quiet_state).1).1
      ≡ some (pos 0, t))
    × (custom_event_cb functions 2 t ≡ some u)
    × (u.calls ≡ ([] ++ []) ++ (33, 6) ∷ [])
unfolding c_string all_bytes
names_apart_example =
    names_apart functions (codes "reload") (codes "config") 2 16 junk 33 34 6 quiet_state []
      (all_bytes-AllBytes (codes "reload") refl) (all_bytes-AllBytes (codes "config") refl) refl
      (omega arith) (λ e. ground (arith, e)) fresh_store-Ready (λ h. absurd (omega arith)) refl
      (omega arith)
