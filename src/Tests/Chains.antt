-- ===== src/Tests/Chains.antt =====
-- Examples on chains of keys and values.
use nd.Base.{
  ℕ, ◌+◌, ◌<◌, ◌≡◌, refl, ◌||◌, none, some, List, [], ◌∷◌, ◌++◌, length, tabulate, ◌==◌,
  if◌then◌else◌, codes, arith,
}
use nd.Log.Line.{Entry, uint}
use nd.Log.Data.{LogData, Chain, put_cell, push, nodes, log_data_free}
use nd.Log.Data.Seg.{Cells, has, flat, InRoom}
use nd.Log.Data.Laws.{IsChain, push_lem, nodes_lem, log_data_free_lem}

abbrev sixteen : List (Entry ℕ)
sixteen = tabulate 16 (λ i. (codes "key", uint i))

-- One node, with no room left.
abbrev full_data : LogData ℕ
full_data = record { entries = sixteen; next = 0 }

abbrev full_chain : Chain ℕ
full_chain = record { cells = put_cell (λ p. none) 8 (some full_data); tail = 8 }

full_chain-IsChain : IsChain 8 full_chain sixteen
full_chain-IsChain = record {
  full = [];
  last = full_data;
  seg = refl;
  out = refl;
  nonnull = λ h. absurd (omega arith);
  holds = refl;
  ends = refl;
  room = omega arith;
  rooms = tt;
  order = refl;
}

push_lem_example :
    (c' : Chain ℕ) × (push 24 (codes "last", uint 99) full_chain ≡ some c')
    × IsChain 8 c' (sixteen ++ (codes "last", uint 99) ∷ [])
push_lem_example =
    push_lem 24 (codes "last", uint 99) full_chain-IsChain (λ h. absurd (omega arith)) refl

-- Two nodes, the first of them full.
abbrev two_cells : Cells ℕ
two_cells =
    put_cell
      (put_cell (λ p. none) 24 (some (record { entries = (codes "last", uint 99) ∷ []; next = 0 })))
      8 (some (record { entries = sixteen; next = 24 }))

abbrev two_data : Chain ℕ
two_data = record { cells = two_cells; tail = 24 }

two_data-IsChain : IsChain 8 two_data (sixteen ++ (codes "last", uint 99) ∷ [])
two_data-IsChain = record {
  full = (8, sixteen) ∷ [];
  last = record { entries = (codes "last", uint 99) ∷ []; next = 0 };
  seg = (
    record { entries = sixteen; next = 24 },
    refl,
    (λ h. absurd (omega arith)),
    refl,
    refl,
    refl,
    refl,
  );
  out = refl;
  nonnull = λ h. absurd (omega arith);
  holds = refl;
  ends = refl;
  room = omega arith;
  rooms = (omega arith, tt);
  order = refl;
}

two_data_fuel : length two_data-IsChain.full + 1 < 4
unfolding two_data-IsChain
two_data_fuel = omega arith

nodes_lem_example :
    (ess : List (List (Entry ℕ))) × (nodes 4 8 two_cells ≡ some ess)
    × (flat ess ≡ sixteen ++ (codes "last", uint 99) ∷ [])
    × InRoom ess
nodes_lem_example = nodes_lem 4 two_data-IsChain two_data_fuel

log_data_free_lem_example :
    (cells' : Cells ℕ) × (log_data_free 4 8 two_cells ≡ some cells')
    × ((b : ℕ) → cells' b ≡ (if has b two_data-IsChain.full || b == 24 then none else two_cells b))
log_data_free_lem_example = log_data_free_lem 4 two_data-IsChain two_data_fuel
