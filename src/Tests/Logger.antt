-- ===== src/Tests/Logger.antt =====
-- Examples on whole lines.
use nd.Base.{ℕ, ◌≡◌, some, List, [], ◌∷◌, ◌++◌, codes, arith, negsuc, decimal}
use nd.Log.Ring.{fit}
use nd.Log.Line.{str, int, Call, format}
use nd.Log.Line.Laws.{call_text, format-fit}

-- A double is shown as its whole part, for the examples.
abbrev pub show_whole : ℕ → List ℕ
show_whole n = decimal n ++ codes ".000000"

abbrev pub a_call : Call show_whole
a_call = record {
  level = 2;
  fileline = some (codes "req.cpp:80");
  levelstr = codes "WARNING";
  timebuf = codes "03-23 10:39:25";
  nodes = ((codes "uri", str (codes "/nd")) ∷ (codes "ret", int (negsuc 10)) ∷ []) ∷ [];
  message = some (codes "done");
}

format-fit_example :
    format show_whole 32 (codes "nd") 77 a_call
    ≡ fit 32 (call_text show_whole (codes "nd") 77 a_call)
format-fit_example = format-fit show_whole 32 (codes "nd") 77 a_call (omega arith)
