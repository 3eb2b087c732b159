-- ===== src/Event/Buffer.antt =====
-- The functions of src/event.cpp that hand their arguments to libevent: the buffered events, the
-- listeners and the loop. libevent is a parameter, with what it documents of its buffers. `none` is
-- an access outside the caller's buffer.
use nd.Base.{
  to_int32, to_size, ℕ, ◌-◌, ◌^◌, ◌<◌, ◌≤◌, ◌≡◌, refl, ap, ◌∙◌, subst, sym, Option, none, some,
  List, [], length, take, drop, take-all, drop-all, leb, if◌then◌else◌, ℤ, pos, negsuc, arith,
}

-- EV_READ and EV_WRITE.
pub data Direction : Type 0 where
  reading : Direction
  writing : Direction

-- The arguments of event_set_cb behind the event.
pub record Callbacks : Type 0 where
  pub rcb : ℕ
  pub wcb : ℕ
  pub ecb : ℕ
  pub ctx : ℕ

-- The functions of libevent, on its state. bufferevent_read gives the bytes that it stores, whose
-- number is its result, and bufferevent_write takes those that it is to send.
pub record Libevent : Type 1 where
  pub State : Type 0
  pub base_dispatch : ℕ → State → ℤ × State
  pub setcb : ℕ → Callbacks → State → State
  pub socket_new : ℕ → ℕ → State → ℕ × State
  pub free : ℕ → State → State
  pub listener_new_bind : ℕ → ℕ → ℕ → State → ℕ × State
  pub listener_free : ℕ → State → State
  pub closesocket : ℕ → State → ℤ × State
  pub socket_connect : ℕ → ℕ → State → ℤ × State
  pub read : ℕ → ℕ → State → List ℕ × State
  pub write : ℕ → List ℕ → State → ℤ × State
  pub get_length : ℕ → State → ℕ
  pub enable : ℕ → Direction → State → State
  pub disable : ℕ → Direction → State → State
  pub setwatermark : ℕ → Direction → ℕ → ℕ → State → State

-- The input buffer of a buffered event, and what bufferevent_read and evbuffer_get_length do on it.
pub record Inputs (L : Libevent) : Type 0 where
  pub input : L.State → ℕ → List ℕ
  pub read_bytes : (e size : ℕ) (s : L.State) → (L.read e size s).0 ≡ take size (input s e)
  pub read_rest : (e size : ℕ) (s : L.State) → input (L.read e size s).1 e ≡ drop size (input s e)
  pub get_length_input : (e : ℕ) (s : L.State) → L.get_length e s ≡ length (input s e)

module _ (L : Libevent) where
  open L use {
    State, base_dispatch, setcb, socket_new, free, listener_new_bind, listener_free, closesocket,
    socket_connect, read, write, get_length, enable, disable, setwatermark,
  }

  -- What event_base_dispatch returns is dropped.
  unfoldable pub event_loop : ℕ → State → ℤ × State
  event_loop base s = (pos 0, (base_dispatch base s).1)

  unfoldable pub event_set_cb : ℕ → Callbacks → State → ℤ × State
  event_set_cb e cbs s = (pos 0, setcb e cbs s)

  unfoldable pub event_new : ℕ → ℕ → State → ℕ × State
  event_new fd evbase s = socket_new evbase fd s

  unfoldable pub event_free : ℕ → State → ℤ × State
  event_free e s = (pos 0, free e s)

  -- event_listen for a socket, on the base of the module.
  unfoldable pub event_listen_socket : ℕ → ℕ → ℕ → State → ℕ × State
  event_listen_socket base cb addr s = listener_new_bind base cb addr s

  unfoldable pub event_listen_free : ℕ → State → ℤ × State
  event_listen_free e s = (pos 0, listener_free e s)

  unfoldable pub event_close_socket : ℕ → State → ℤ × State
  event_close_socket fd s = (pos 0, (closesocket fd s).1)

  -- event_connect by an address.
  unfoldable pub event_connect_addr : ℕ → ℕ → State → ℤ × State
  event_connect_addr e addr s = socket_connect e addr s

  -- `room` is the size of the caller's buffer.
  unfoldable pub event_read : ℕ → ℕ → ℤ → State → Option (ℤ × List ℕ × State)
  unfolding to_size to_int32
  event_read e room size s =
      let (bytes, s') = read e (to_size size) s in
      if leb (length bytes) room then some (to_int32 (length bytes), bytes, s') else none

  unfoldable pub event_write : ℕ → List ℕ → ℤ → State → Option (ℤ × State)
  unfolding to_size
  event_write e buf size s =
      if leb (to_size size) (length buf) then some (write e (take (to_size size) buf) s) else none

  unfoldable pub event_get_input_len : ℕ → State → ℤ
  unfolding to_int32
  event_get_input_len e s = to_int32 (get_length e s)

  unfoldable pub event_disable_read : ℕ → State → ℤ × State
  event_disable_read e s = (pos 0, disable e reading s)

  unfoldable pub event_enable_read : ℕ → State → ℤ × State
  event_enable_read e s = (pos 0, enable e reading s)

  unfoldable pub event_enable_write_callback : ℕ → State → ℤ × State
  event_enable_write_callback e s = (pos 0, enable e writing s)

  unfoldable pub event_set_read_watermark : ℕ → ℤ → ℤ → State → ℤ × State
  unfolding to_size
  event_set_read_watermark e low high s =
      (pos 0, setwatermark e reading (to_size low) (to_size high) s)

  unfoldable pub event_set_write_watermark : ℕ → ℤ → ℤ → State → ℤ × State
  unfolding to_size
  event_set_write_watermark e low high s =
      (pos 0, setwatermark e writing (to_size low) (to_size high) s)

length_within : (n : ℕ) → n < 2 ^ 32 → n ≤ to_size (to_int32 n)
unfolding to_size to_int32
length_within n h = ground arith

length_zero : to_int32 0 ≡ pos 0
unfolding to_int32
length_zero = refl

module _ (L : Libevent) (I : Inputs L) where
  open I use {input, read_bytes, read_rest, get_length_input}

  event_read_fits :
      (e room : ℕ) (size : ℤ) (s : L.State) (bytes : List ℕ)
      → (L.read e (to_size size) s).0 ≡ bytes
      → length bytes ≤ room
      → event_read L e room size s
        ≡ some (to_int32 (length bytes), bytes, (L.read e (to_size size) s).1)
  unfolding event_read
  event_read_fits e room size s bytes b fits = ground (arith, b, fits)

  event_get_input_len_lem :
      (e : ℕ) (s : L.State) → event_get_input_len L e s ≡ to_int32 (length (input s e))
  unfolding event_get_input_len
  event_get_input_len_lem e s = ap to_int32 (get_length_input e s)

  -- event_read, given as many bytes as event_get_input_len says, in a buffer that has room for the
  -- input: it stores all of the input, returns that number too, and leaves nothing. Here the input
  -- is below 2^32 bytes: from 2^31 on the number is negative, which as a size is more than there is.
  pub event_read-event_get_input_len :
      (e room : ℕ) (s : L.State)
      → length (input s e) < 2 ^ 32
      → length (input s e) ≤ room
      → (s' : L.State) × (event_read L e room (event_get_input_len L e s) s
          ≡ some (event_get_input_len L e s, input s e, s'))
        × (input s' e ≡ [])
        × (event_get_input_len L e s' ≡ pos 0)
  event_read-event_get_input_len e room s h fits =
      let size = event_get_input_len L e s in
      let len = event_get_input_len_lem e s in
      let n : length (input s e) ≤ to_size size =
        subst (λ k. length (input s e) ≤ to_size k) (sym len) (length_within _ h) in
      let all = read_bytes e (to_size size) s ∙ take-all (to_size size) (input s e) n in
      let s' = (L.read e (to_size size) s).1 in
      let empty = read_rest e (to_size size) s ∙ drop-all (to_size size) (input s e) n in
      (
        s',
        event_read_fits e room size s (input s e) all fits
            ∙ ap (λ k. some (k, input s e, s')) (sym len),
        empty,
        event_get_input_len_lem e s' ∙ ap (λ xs. to_int32 (length xs)) empty ∙ length_zero,
      )

  -- event_read, given a size below 0, as from a subtraction, stores all of the input, whatever room
  -- there is.
  pub event_read_overruns :
      (e room n : ℕ) (s : L.State)
      → n < 2 ^ 31
      → length (input s e) < 2 ^ 32
      → room < length (input s e)
      → event_read L e room (negsuc n) s ≡ none
  unfolding event_read to_size
  event_read_overruns e room n s small h over =
      let all =
        read_bytes e (2 ^ 64 - 1 - n) s ∙ take-all (2 ^ 64 - 1 - n) (input s e) (omega arith) in
      ground (arith, all, over)
