-- ===== src/HttpClient/World.antt =====
-- The handles of libevent that src/http_client.cpp uses. evhttp_uri_parse is a parameter.
use nd.Base.{ℕ, suc, ◌+◌, Option, none, some, List, [], ◌∷◌, ◌==◌, if◌then◌else◌, ℤ}

-- What evhttp_uri_get_host and its kin return for a uri. A port of -1 stands for none.
pub record Parts : Type 0 where
  pub host : List ℕ
  pub port : ℤ
  pub path : Option (List ℕ)
  pub query : Option (List ℕ)

pub record Uri : Type 0 where
  pub handle : ℕ
  pub parts : Parts

-- REQUEST_POST_FLAG and REQUEST_GET_FLAG.
pub data Flag : Type 0 where
  post_flag get_flag : Flag

-- A request that went to evhttp_make_request, with what was set on it afterwards.
pub record Made : Type 0 where
  pub flag : Flag
  pub host : List ℕ
  pub port : ℤ
  pub target : List ℕ
  pub body : Option (List ℕ)
  pub content_type : Option (List ℕ)

pub record World : Type 0 where
  pub next : ℕ
  pub uris : List ℕ
  pub conns : List ℕ
  pub exited : List ℕ
  pub overrun : ℕ
  pub made : List Made

-- A step on the world that may fault.
abbrev pub M : Type 0 → Type 0
M A = World → Option (A × World)

abbrev pub pure : {A : Type 0} → A → M A
pure a w = some (a, w)

infixl 5 ◌>>=◌ ◌>>◌
abbrev pub ◌>>=◌ : {A B : Type 0} → M A → (A → M B) → M B
◌>>=◌ m f w = elim (m w) [ none ↦ none | some (a, w') ↦ f a w' ]

abbrev pub ◌>>◌ : {B : Type 0} → M (Unit {0}) → M B → M B
m >> k = m >>= λ _. k

abbrev pub fault : {A : Type 0} → M A
fault w = none

-- A live handle leaves the list.
unfoldable pub remove : ℕ → List ℕ → Option (List ℕ)
remove h [] = none
remove h (k ∷ ks) =
    if h == k then some ks else elim (remove h ks) [ none ↦ none | some rest ↦ some (k ∷ rest) ]

-- Reading through a pointer.
abbrev pub deref : {A : Type 0} → Option A → M A
deref none = fault
deref (some a) = pure a

-- evhttp_uri_parse, given what it makes of the text: null where that is no uri.
unfoldable pub uri_new : Option Parts → M (Option Uri)
uri_new none w = some (none, w)
uri_new (some parts) w = some (
  some (record { handle = w.next; parts = parts }),
  record w { next = suc w.next; uris = w.next ∷ w.uris },
)

unfoldable pub uri_free : Uri → M (Unit {0})
uri_free u w = elim (remove u.handle w.uris) [
  | none ↦ none
  | some us ↦ some (tt, record w { uris = us })
]

unfoldable pub conn_new : M ℕ
conn_new w = some (w.next, record w { next = suc w.next; conns = w.next ∷ w.conns })

unfoldable pub conn_free : ℕ → M (Unit {0})
conn_free c w = elim (remove c w.conns) [
  | none ↦ none
  | some cs ↦ some (tt, record w { conns = cs })
]

-- event_base_loopexit.
unfoldable pub loopexit : ℕ → M (Unit {0})
loopexit base w = some (tt, record w { exited = base ∷ w.exited })

unfoldable pub make_request : Made → M (Unit {0})
make_request r w = some (tt, record w { made = r ∷ w.made })

unfoldable pub overran : ℕ → M (Unit {0})
overran n w = some (tt, record w { overrun = w.overrun + n })
