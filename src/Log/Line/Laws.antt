-- ===== src/Log/Line/Laws.antt =====
-- The line that log_printf builds is the text of all the calls of snprintf, cut to the buffer.
use Prim.Native.Nat.{min}
use native.Mathlib.Nat.{le_refl}
use nd.Base.{
  ℕ, zero, suc, ◌+◌, ◌-◌, ◌<◌, ◌≡◌, refl, ap, sym, ◌∙◌, ◌⊎◌, true, false, inl, inr, Option, none,
  some, List, [], ◌∷◌, ◌++◌, append_assoc, append-nil, length, set, get_or, take, newline, codes,
  ltb, leb, ltb→le, Bool-cases, length-append, length-take, take-all, take-take, take-append-take,
  take-append_short, arith,
}
use nd.Log.Ring.{fit}
use nd.Log.Line.{
  Entry, Cursor, emit, end_line, prefix_text, file_text, entry_text, emit_node, emit_nodes, Call,
  emit_file, format,
}

leb→lt : (a b : ℕ) → leb a b ≡ false → b < a
leb→lt a b h = ground arith

take-nil : (n : ℕ) → [] ≡ take {A = ℕ} n []
take-nil zero = refl
take-nil (suc n) = refl

-- The cursor stands behind what fits of `full` into `size` bytes with a final zero.
record Tracks (size : ℕ) (c : Cursor) (full : List ℕ) : Type 0 where
  text : c.text ≡ take (size - 1) full
  room : c.size + length c.text ≡ size
  left : 0 < c.size

-- What one call writes.
emit-take :
    (c : Cursor) (t : List ℕ)
    → emit c (some t)
      ≡ record { text = c.text ++ take (c.size - 1) t; size = c.size - min (c.size - 1) (length t) }
unfolding emit
emit-take c t = elim (Bool-cases (leb c.size (length t))) [
  | inl cut ↦ ground (arith, take-take (c.size - 1) (c.size - 1) t)
  | inr whole ↦ ground (
    arith,
    take-all (length t) t (le_refl (length t)),
    take-all (c.size - 1) t (omega (arith, leb→lt c.size (length t) whole)),
  )
]

emit-Tracks :
    {size : ℕ} {c : Cursor} {full : List ℕ} (t : List ℕ)
    → Tracks size c full
    → Tracks size (emit c (some t)) (full ++ t)
emit-Tracks {size} {c} {full} t k = rw (emit-take c t) (record {
  text = grown (Bool-cases (leb (length full) (size - 1)));
  room = omega (
    arith,
    k.room,
    k.left,
    length-append c.text (take (c.size - 1) t),
    length-take {0} (c.size - 1) t,
  );
  left = omega (arith, k.left);
})
  where
    grown :
        (leb (length full) (size - 1) ≡ true) ⊎ (leb (length full) (size - 1) ≡ false)
        → c.text ++ take (c.size - 1) t ≡ take (size - 1) (full ++ t)
    grown (inl fits) =
        let e : c.text ≡ full = k.text ∙ take-all (size - 1) full (ground arith) in
        ap (λ s. s ++ take (c.size - 1) t) e
        ∙ sym (
            take-append-take (size - 1) (c.size - 1) full t
              (omega (arith, k.room, k.left, ap length e)))
    grown (inr over) =
        let n : length c.text ≡ size - 1 =
          ap length k.text ∙ length-take (size - 1) full ∙ ground arith in
        ap (λ m. c.text ++ take m t) {x = c.size - 1} {y = 0} (omega (arith, k.room, k.left))
        ∙ append-nil c.text
        ∙ k.text
        ∙ sym (take-append_short (size - 1) full t (ground arith))

set-get_or_self : (xs : List ℕ) (i v : ℕ) → get_or xs i 0 ≡ v → i < length xs → set xs i v ≡ xs
set-get_or_self [] i v e h = refl
set-get_or_self (x ∷ xs) zero v e h = ap (λ t. t ∷ xs) (sym e)
set-get_or_self (x ∷ xs) (suc i) v e h = ap (λ t. x ∷ t) (set-get_or_self xs i v e (omega arith))

get_or-append_last :
    (xs : List ℕ) (a v i : ℕ) → i ≡ length xs + 1 → get_or (xs ++ a ∷ v ∷ []) i 0 ≡ v
get_or-append_last [] a v zero h = absurd (omega arith)
get_or-append_last [] a v (suc zero) h = refl
get_or-append_last [] a v (suc (suc i)) h = absurd (omega arith)
get_or-append_last (x ∷ xs) a v zero h = absurd (omega arith)
get_or-append_last (x ∷ xs) a v (suc i) h = get_or-append_last xs a v i (omega arith)

-- The ending makes the cut text what `fit` makes of the whole.
end_line-take :
    (size : ℕ) (full : List ℕ)
    → 1 < size
    → get_or full (length full - 1) 0 ≡ newline
    → end_line (take (size - 1) full) ≡ fit size full
unfolding end_line fit
end_line-take size full big e = elim (Bool-cases (ltb (size - 1) (length full))) [
  | inl over ↦
      let n : length (take (size - 1) full) ≡ size - 1 =
        length-take (size - 1) full ∙ ground arith in
      ground (arith, n, set-get_or_self (take (size - 1) full) (size - 1 - 1) newline)
  | inr whole ↦ ground (arith, take-all (size - 1) full (ltb→le _ _ whole))
]

finished :
    {size : ℕ} {c : Cursor} (full : List ℕ)
    → 1 < size
    → get_or full (length full - 1) 0 ≡ newline
    → Tracks size c full
    → end_line c.text ≡ fit size full
finished {size} full big e k = ap end_line k.text ∙ end_line-take size full big e

module _ {D : Type 0} (show_double : D → List ℕ) where
  -- The whole text of a call.
  abbrev pub node_text : List (Entry D) → List ℕ
  node_text [] = []
  node_text (e ∷ es) = entry_text show_double e ++ node_text es

  abbrev pub nodes_text : List (List (Entry D)) → List ℕ
  nodes_text [] = []
  nodes_text (n ∷ ns) = node_text n ++ nodes_text ns

  abbrev pub some_text : Option (List ℕ) → List ℕ
  some_text none = []
  some_text (some t) = t

  abbrev pub some_file : Option (List ℕ) → List ℕ
  some_file none = []
  some_file (some f) = file_text f

  abbrev pub call_text : List ℕ → ℕ → Call show_double → List ℕ
  call_text name pid call =
      ((((prefix_text call.levelstr call.timebuf name pid ++ some_file call.fileline)
            ++ nodes_text call.nodes)
          ++ codes "msg=")
        ++ some_text call.message)
      ++ b']' ∷ newline ∷ []

  emit_node-Tracks :
      {size : ℕ} (es : List (Entry D)) {c : Cursor} {full : List ℕ}
      → Tracks size c full
      → Tracks size (emit_node show_double c es) (full ++ node_text es)
  unfolding emit_node
  emit_node-Tracks [] {full} k = rw (append-nil full) k
  emit_node-Tracks (e ∷ es) {full} k =
      rw (← append_assoc full (entry_text show_double e) (node_text es))
        (emit_node-Tracks es (emit-Tracks (entry_text show_double e) k))

  emit_nodes-Tracks :
      {size : ℕ} (ns : List (List (Entry D))) {c : Cursor} {full : List ℕ}
      → Tracks size c full
      → Tracks size (emit_nodes show_double c ns) (full ++ nodes_text ns)
  unfolding emit_nodes
  emit_nodes-Tracks [] {full} k = rw (append-nil full) k
  emit_nodes-Tracks (n ∷ ns) {full} k =
      rw (← append_assoc full (node_text n) (nodes_text ns))
        (emit_nodes-Tracks ns (emit_node-Tracks n k))

  emit_message-Tracks :
      {size : ℕ} (m : Option (List ℕ)) {c : Cursor} {full : List ℕ}
      → Tracks size c full
      → Tracks size (emit c m) (full ++ some_text m)
  unfolding emit
  emit_message-Tracks none {full} k = rw (append-nil full) k
  emit_message-Tracks (some t) k = emit-Tracks t k

  emit_file-Tracks :
      {size : ℕ} (m : Option (List ℕ)) {c : Cursor} {full : List ℕ}
      → Tracks size c full
      → Tracks size (emit_file c m) (full ++ some_file m)
  unfolding emit_file
  emit_file-Tracks none {full} k = rw (append-nil full) k
  emit_file-Tracks (some t) k = emit-Tracks (file_text t) k

  -- The line that log_printf builds is the whole text of its calls where that fits a buffer of
  -- `size` bytes with a final zero, and otherwise as much of it as fits, with a newline for its last
  -- byte. A call of snprintf that fails adds nothing.
  pub format-fit :
      (size : ℕ) (name : List ℕ) (pid : ℕ) (call : Call show_double)
      → 1 < size
      → format show_double size name pid call ≡ fit size (call_text name pid call)
  unfolding format
  format-fit size name pid call big =
      finished (call_text name pid call) big
        (get_or-append_last before b']' newline _
          (omega (arith, length-append before (b']' ∷ newline ∷ []))))
        (emit-Tracks (b']' ∷ newline ∷ []) (
          emit_message-Tracks call.message (
            emit-Tracks (codes "msg=") (
              emit_nodes-Tracks call.nodes (
                emit_file-Tracks call.fileline
                  (emit-Tracks (prefix_text call.levelstr call.timebuf name pid) start))))))
    where
      before : List ℕ
      before =
          (((prefix_text call.levelstr call.timebuf name pid ++ some_file call.fileline)
              ++ nodes_text call.nodes)
            ++ codes "msg=")
          ++ some_text call.message

      start : Tracks size (record { text = []; size = size }) []
      start = record { text = take-nil (size - 1); room = omega arith; left = omega arith }
