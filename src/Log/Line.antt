-- ===== src/Log/Line.antt =====
-- The part of log_printf in src/log.cpp that builds a line in _log_temp_buf: a row of calls of
-- snprintf, each on what is left of the buffer. `D` is the type of a double, and `show_double` what
-- `%lf` writes for one.
pub mod Laws
use nd.Base.{
  ℕ, suc, ◌+◌, ◌-◌, ◌*◌, Bool, true, false, Option, none, some, List, [], ◌∷◌, ◌++◌, length, set,
  get_or, take, newline, ltb, leb, ◌==◌, if◌then◌else◌, codes, ℤ, decimal, signed_decimal,
}

-- sizeof(_log_temp_buf)
abbrev pub temp_buf_size : ℕ
temp_buf_size = 64 * 1024

-- A value of a log_data_t: the union with its type tag.
pub data Value (D : Type 0) : Type 0 where
  str : List ℕ → Value D
  int : ℤ → Value D
  uint : ℕ → Value D
  double : D → Value D

-- One key of a log_data_t with its value.
abbrev pub Entry : Type 0 → Type 0
Entry D = List ℕ × Value D

-- Where the next call writes: the text before `buf`, and `size`, the bytes from there on.
pub record Cursor : Type 0 where
  pub text : List ℕ
  pub size : ℕ

-- snprintf of a text to `size` bytes: what it writes in front of the final zero, and its result.
abbrev pub snprintf : ℕ → List ℕ → List ℕ × ℕ
snprintf size text = (take (size - 1) text, length text)

-- One call of snprintf with the four statements behind it. `none` is a negative result.
unfoldable pub emit : Cursor → Option (List ℕ) → Cursor
emit c none = c
emit c (some text) =
    let (written, ret) = snprintf c.size text in
    let ret' = if leb c.size ret then c.size - 1 else ret in
    record { text = c.text ++ take ret' written; size = c.size - ret' }

-- The ending: a newline in place of the last byte, if it is another.
unfoldable pub end_line : List ℕ → List ℕ
end_line text =
    if get_or text (length text - 1) 0 == newline then text else set text (length text - 1) newline

abbrev pub prefix_text : List ℕ → List ℕ → List ℕ → ℕ → List ℕ
prefix_text levelstr timebuf name pid =
    levelstr
    ++ codes ": "
    ++ timebuf
    ++ codes ": "
    ++ name
    ++ codes " * "
    ++ decimal pid
    ++ codes " ["

abbrev pub file_text : List ℕ → List ℕ
file_text fileline = codes "file=" ++ fileline ++ codes " "

-- The file and line, where they are given.
unfoldable pub emit_file : Cursor → Option (List ℕ) → Cursor
unfolding emit
emit_file c none = c
emit_file c (some fileline) = emit c (some (file_text fileline))

module _ {D : Type 0} (show_double : D → List ℕ) where
  abbrev pub value_text : Value D → List ℕ
  value_text (str s) = s
  value_text (int n) = signed_decimal n
  value_text (uint n) = decimal n
  value_text (double x) = show_double x

  abbrev pub entry_text : Entry D → List ℕ
  entry_text (key, value) = key ++ codes "=" ++ value_text value ++ codes " "

  -- The loop over the keys of one node, and the loop over the nodes.
  unfoldable pub emit_node : Cursor → List (Entry D) → Cursor
  emit_node c [] = c
  emit_node c (e ∷ es) = emit_node (emit c (some (entry_text e))) es

  unfoldable pub emit_nodes : Cursor → List (List (Entry D)) → Cursor
  emit_nodes c [] = c
  emit_nodes c (n ∷ ns) = emit_nodes (emit_node c n) ns

  -- The arguments of log_printf, with the text of the time and what vsnprintf makes of the message.
  pub record Call : Type 0 where
    pub level : ℕ
    pub fileline : Option (List ℕ)
    pub levelstr : List ℕ
    pub timebuf : List ℕ
    pub nodes : List (List (Entry D))
    pub message : Option (List ℕ)

  unfoldable pub format : ℕ → List ℕ → ℕ → Call → List ℕ
  unfolding emit emit_file emit_node emit_nodes end_line
  format size name pid call =
      let c₀ : Cursor = record { text = []; size = size } in
      let c₁ = emit c₀ (some (prefix_text call.levelstr call.timebuf name pid)) in
      let c₂ = emit_file c₁ call.fileline in
      let c₃ = emit_nodes c₂ call.nodes in
      let c₄ = emit c₃ (some (codes "msg=")) in
      let c₅ = emit c₄ call.message in
      let c₆ = emit c₅ (some (b']' ∷ newline ∷ [])) in end_line c₆.text
