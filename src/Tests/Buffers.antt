-- ===== src/Tests/Buffers.antt =====
-- Examples on buffered events, with a libevent whose only state is the input buffers.
use nd.Base.{
  ℕ, ◌≡◌, refl, some, List, [], length, take, drop, codes, ◌==◌, if◌then◌else◌, pos, negsuc, arith,
}
use nd.Event.Buffer.{
  Libevent, Inputs, event_read, event_get_input_len, event_read-event_get_input_len,
}

abbrev buffers_only : Libevent
buffers_only = record {
  State = ℕ → List ℕ;
  base_dispatch = λ base s. (pos 0, s);
  setcb = λ e cbs s. s;
  socket_new = λ evbase fd s. (fd, s);
  free = λ e s. s;
  listener_new_bind = λ base cb addr s. (addr, s);
  listener_free = λ e s. s;
  closesocket = λ fd s. (pos 0, s);
  socket_connect = λ e addr s. (negsuc 0, s);
  read = λ e size s. (take size (s e), λ q. if e == q then drop size (s q) else s q);
  write = λ e bytes s. (pos 0, s);
  get_length = λ e s. length (s e);
  enable = λ e d s. s;
  disable = λ e d s. s;
  setwatermark = λ e d low high s. s;
}

abbrev buffers_inputs : Inputs buffers_only
buffers_inputs = record {
  input = λ s. s;
  read_bytes = λ e size s. refl;
  read_rest = λ e size s. ground arith;
  get_length_input = λ e s. refl;
}

abbrev greeting : ℕ → List ℕ
greeting e = codes "hello"

event_read-event_get_input_len_example :
    (s' : ℕ → List ℕ) × (event_read buffers_only 4 16
        (event_get_input_len buffers_only 4 greeting)
        greeting
      ≡ some (event_get_input_len buffers_only 4 greeting, codes "hello", s'))
    × (s' 4 ≡ [])
    × (event_get_input_len buffers_only 4 s' ≡ pos 0)
event_read-event_get_input_len_example =
    event_read-event_get_input_len buffers_only buffers_inputs 4 16 greeting (omega arith)
      (omega arith)
