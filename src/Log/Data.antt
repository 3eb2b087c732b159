-- ===== src/Log/Data.antt =====
-- The chain of log_data_t nodes in src/log.cpp. The field `prev` is only written and is left out;
-- `tail` is read and written in the first node alone, and is kept beside the nodes. Null is address
-- 0, and `none` is a fault.
pub mod Seg
pub mod Laws
use nd.Base.{
  ℕ, zero, suc, Bool, not, Option, none, some, List, [], ◌∷◌, ◌++◌, length, leb, ◌==◌,
  if◌then◌else◌, guard, ◌>>=◌, ◌>>◌,
}
use nd.Log.Line.{Entry}

abbrev pub log_data_size : ℕ
log_data_size = 16

-- The keys, values and types up to `size`.
pub record LogData (D : Type 0) : Type 0 where
  pub entries : List (Entry D)
  pub next : ℕ

pub record Chain (D : Type 0) : Type 0 where
  pub cells : ℕ → Option (LogData D)
  pub tail : ℕ

module _ {D : Type 0} where
  abbrev pub put_cell : (ℕ → Option (LogData D)) → ℕ → Option (LogData D) → ℕ → Option (LogData D)
  put_cell cells p n q = if p == q then n else cells q

  abbrev pub new_data : LogData D
  new_data = record { entries = []; next = 0 }

  -- malloc gives node `fresh`. Its result is not tested: 0 is a fault.
  unfoldable pub log_data_new : ℕ → (ℕ → Option (LogData D)) → Option (Chain D)
  log_data_new fresh cells =
      guard (not (fresh == 0))
      >> some (record { cells = put_cell cells fresh (some new_data); tail = fresh })

  -- The four statements behind the if of _PUSH.
  unfoldable pub add : Entry D → Chain D → Option (Chain D)
  add e c = c.cells c.tail >>= (λ n. some (record c {
    cells = put_cell c.cells c.tail (some (record n { entries = n.entries ++ e ∷ [] }));
  }))

  -- The body of the if.
  unfoldable pub grow : ℕ → LogData D → Chain D → Option (Chain D)
  unfolding log_data_new
  grow fresh node c = log_data_new fresh c.cells >>= (λ new. some (record {
    cells = put_cell new.cells c.tail (some (record node { next = fresh }));
    tail = fresh;
  }))

  -- _PUSH, and with it log_data_push_str and its three kin.
  unfoldable pub push : ℕ → Entry D → Chain D → Option (Chain D)
  push fresh e c = c.cells c.tail >>= (λ node.
      if leb log_data_size (length node.entries) then grow fresh node c >>= add e else add e c)

  -- The walk of log_printf over the nodes: what they hold. The fuel is above their number.
  unfoldable pub nodes : ℕ → ℕ → (ℕ → Option (LogData D)) → Option (List (List (Entry D)))
  nodes zero p cells = none
  nodes (suc fuel) p cells =
      if p == 0
      then some []
      else cells p >>= (λ n. nodes fuel n.next cells >>= (λ rest. some (n.entries ∷ rest)))

  -- log_data_free: reads the next address, then frees.
  unfoldable pub log_data_free : ℕ → ℕ → (ℕ → Option (LogData D)) → Option (ℕ → Option (LogData D))
  log_data_free zero p cells = none
  log_data_free (suc fuel) p cells =
      if p == 0
      then some cells
      else cells p >>= (λ n. log_data_free fuel n.next (put_cell cells p none))
