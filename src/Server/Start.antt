-- ===== src/Server/Start.antt =====
-- What read_conf leaves, and what server_init tells of it.
use nd.Base.{
  ℕ, zero, suc, ◌≡◌, refl, Bool, Option, none, some, ℤ, pos, negsuc, if◌then◌else◌, inl, inr, ◌⊎◌,
  Bool-cases, ◌&&◌,
}
use nd.Server.{Conf, Settings, positive_or, read_port, server_run, run_after, server_init}

abbrev pub IsPositive : ℤ → Type 0
IsPositive n = (k : ℕ) × (n ≡ pos (suc k))

positive_or_lem : (k : ℕ) (n : ℤ) → IsPositive (positive_or (pos (suc k)) n)
unfolding positive_or
positive_or_lem k (pos zero) = (k, refl)
positive_or_lem k (pos (suc n)) = (n, refl)
positive_or_lem k (negsuc n) = (k, refl)

-- What a run of server_init comes to.
pub data Started (made : Bool) (binds : ℤ → Bool) (conf : Conf)
    : ℤ × Settings × Option ℤ → Type 0 where
  refused :
      (s : Settings)
      → (conf.port ≡ none) ⊎ (conf.timeout_s ≡ none)
      → Started made binds conf (negsuc 0, s, none)
  ran :
      (s : Settings)
      → conf.port ≡ some s.port
      → (n : ℤ) × (conf.timeout_s ≡ some n)
      → IsPositive s.thread_num
      → IsPositive s.timeout_s
      → Started made binds conf (pos 0, s, (if made && binds s.port then some s.port else none))

module _ (made : Bool) (binds : ℤ → Bool) (conf : Conf) (s : Settings) where
  -- Where the configuration lacks the port or the timeout, server_init returns -1 and serves nothing.
  -- Where it has both, server_init returns 0, with that port and a number of threads and a timeout
  -- that are above 0; it returns 0 also where libevent made no server or could not bind the port,
  -- and then serves nothing.
  pub server_init-Started : Started made binds conf (server_init made binds conf s)
  unfolding server_init server_run
  server_init-Started = go conf.port conf.timeout_s refl refl
    where
      served :
          (t : Settings)
          → (server_run made binds t).1 ≡ (if made && binds t.port then some t.port else none)
      served t = elim (Bool-cases made) [
        | inl m ↦ elim (Bool-cases (binds t.port)) [
          | inl b ↦ rw (m, b) refl
          | inr b ↦ rw (m, b) refl
        ]
        | inr m ↦ rw m refl
      ]

      go :
          (port timeout_s : Option ℤ)
          → conf.port ≡ port
          → conf.timeout_s ≡ timeout_s
          → Started made binds conf
              (run_after made binds (read_port (record conf { timeout_s = timeout_s }) port s))
      go none timeout_s e f = refused s (inl e)
      go (some port) none e f = refused _ (inr f)
      go (some port) (some n) e f =
          rw (served _) (ran _ e (n, f) (positive_or_lem 3 _) (positive_or_lem 99 _))
