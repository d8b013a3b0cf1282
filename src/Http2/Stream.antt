-- ===== src/Http2/Stream.antt =====
-- One HTTP/2 stream: include/KernelHttp/http2/Http2Stream.h and
-- src/KernelHttpLib/http2/Http2Stream.cpp. The windows are `LONG`s, so they are integers here;
-- each assignment to one is cut to 32 bits by `wrap_long`. An operation that fails leaves the
-- object as it was, so its result is a new stream or a status.
use win_kernel_http.Common.{
  ℕ, List, [], ◌∷◌, ◌+◌, ◌-◌, ◌%◌, ◌^◌, Bool, true, false, not, ◌&&◌, ◌||◌, ltb, leb, ◌==◌,
  if◌then◌else◌,
}
use win_kernel_http.Common.Int.{
  ℤ, pos, negsuc, ◌+ℤ◌, ◌-ℤ◌, leb_ℤ, long_of_ulong, wrap_long, size_of_long,
}
use win_kernel_http.Common.Status.{
  Status, invalid_parameter, invalid_device_state, buffer_too_small, invalid_network_response,
  Result, ok, err, ◌>>=◌, ◌>>◌, refuse,
}
mod Windows
mod Ledger
mod Lifecycle
mod Examples

abbrev pub initial_window_size : ℕ
initial_window_size = 65535

abbrev pub max_window_size : ℕ
max_window_size = 0x7fff_ffff

pub data StreamState : Type 0 where
  idle open_ half_closed_local half_closed_remote closed : StreamState

pub record Stream : Type 0 where
  pub stream_id : ℕ
  pub state : StreamState
  pub local_window : ℤ
  pub remote_window : ℤ

-- `Initialize`.
pub initialize : ℕ → ℕ → ℕ → Stream
initialize id local remote = record {
  stream_id = id;
  state = idle;
  local_window = long_of_ulong local;
  remote_window = long_of_ulong remote;
}

-- `Reset`.
pub reset : Stream → Stream
reset s = record {
  stream_id = 0;
  state = idle;
  local_window = pos initial_window_size;
  remote_window = pos initial_window_size;
}

-- `Close`.
pub close : Stream → Stream
close s = record s { state = closed }

-- The switch of `SendHeaders`.
pub headers_sent : StreamState → Bool → Result StreamState
headers_sent idle end_stream = ok (if end_stream then half_closed_local else open_)
headers_sent open_ end_stream = ok (if end_stream then half_closed_local else open_)
headers_sent half_closed_remote end_stream = ok (if end_stream then closed else half_closed_remote)
headers_sent half_closed_local end_stream = err invalid_device_state
headers_sent closed end_stream = err invalid_device_state

pub send_headers : Bool → Stream → Result Stream
unfolding headers_sent
send_headers end_stream s = do
  state' ← headers_sent s.state end_stream
  ok (record s { state = state' })

-- The switch of `ReceiveHeaders`.
pub headers_received : StreamState → Bool → Result StreamState
headers_received idle end_stream = ok (if end_stream then half_closed_remote else open_)
headers_received open_ end_stream = ok (if end_stream then half_closed_remote else open_)
headers_received half_closed_local end_stream =
    ok (if end_stream then closed else half_closed_local)
headers_received half_closed_remote end_stream = err invalid_device_state
headers_received closed end_stream = err invalid_device_state

pub receive_headers : Bool → Stream → Result Stream
unfolding headers_received
receive_headers end_stream s = do
  state' ← headers_received s.state end_stream
  ok (record s { state = state' })

-- The states in which `SendData` goes on, with the state after END_STREAM.
pub data_sent : StreamState → Result StreamState
data_sent open_ = ok half_closed_local
data_sent half_closed_remote = ok closed
data_sent _ = err invalid_device_state

-- `(length != 0 && window <= 0) || length > static_cast<SIZE_T>(window)`
pub exceeds_window : ℕ → ℤ → Bool
unfolding size_of_long
exceeds_window length window =
    (not (length == 0) && leb_ℤ window (pos 0)) || ltb (size_of_long window) length

-- `window -= static_cast<LONG>(length)`
pub consume : ℤ → ℕ → ℤ
consume window length = wrap_long (window -ℤ long_of_ulong (length % 2 ^ 32))

pub send_data : ℕ → Bool → Stream → Result Stream
unfolding data_sent
send_data length end_stream s = do
  ended ← data_sent s.state
  refuse (exceeds_window length s.remote_window) buffer_too_small
  ok (record s {
    remote_window = consume s.remote_window length;
    state = if end_stream then ended else s.state;
  })

pub data_received : StreamState → Result StreamState
data_received open_ = ok half_closed_remote
data_received half_closed_local = ok closed
data_received _ = err invalid_device_state

pub receive_data : ℕ → Bool → Stream → Result Stream
unfolding data_received
receive_data length end_stream s = do
  ended ← data_received s.state
  refuse (exceeds_window length s.local_window) invalid_network_response
  ok (record s {
    local_window = consume s.local_window length;
    state = if end_stream then ended else s.state;
  })

-- `static_cast<LONG>(Http2MaxWindowSize - increment)`, where the `ULONG` difference wraps.
pub increase_limit : ℕ → ℤ
increase_limit increment = long_of_ulong ((max_window_size + 2 ^ 32 - increment) % 2 ^ 32)

-- The body that `IncreaseRemoteWindow` and `IncreaseLocalWindow` share, for a `ULONG` increment.
pub increase : ℤ → ℕ → Result ℤ
increase window increment = do
  refuse (increment == 0) invalid_parameter
  refuse (not (leb_ℤ window (increase_limit increment))) invalid_network_response
  ok (wrap_long (window +ℤ long_of_ulong increment))

pub increase_remote_window : ℕ → Stream → Result Stream
increase_remote_window increment s = do
  window ← increase s.remote_window increment
  ok (record s { remote_window = window })

pub increase_local_window : ℕ → Stream → Result Stream
increase_local_window increment s = do
  window ← increase s.local_window increment
  ok (record s { local_window = window })

-- `AdjustRemoteWindow`. The sum of a `LONG` and a difference of two `ULONG`s is exact in 64 bits.
pub adjust_remote_window : ℤ → Stream → Result Stream
adjust_remote_window delta s = do
  let adjusted = s.remote_window +ℤ delta
  refuse
      (not (leb_ℤ adjusted (pos max_window_size))
        || not (leb_ℤ (negsuc (max_window_size - 1)) adjusted))
      invalid_network_response
  ok (record s { remote_window = wrap_long adjusted })

-- What the connection can ask of a stream between `Initialize` and `Reset`.
pub data Event : Type 0 where
  sends_headers receives_headers : Bool → Event
  sends_data receives_data : ℕ → Bool → Event
  remote_increased local_increased : ℕ → Event
  remote_adjusted : ℤ → Event
  closes : Event

pub apply : Event → Stream → Result Stream
apply (sends_headers end_stream) = send_headers end_stream
apply (receives_headers end_stream) = receive_headers end_stream
apply (sends_data length end_stream) = send_data length end_stream
apply (receives_data length end_stream) = receive_data length end_stream
apply (remote_increased increment) = increase_remote_window increment
apply (local_increased increment) = increase_local_window increment
apply (remote_adjusted delta) = adjust_remote_window delta
apply closes = λ s. ok (close s)

-- A refused event leaves the stream as it is.
abbrev pub after : Result Stream → Stream → Stream
after (ok s') s = s'
after (err e) s = s

pub run : List Event → Stream → Stream
run [] s = s
run (e ∷ es) s = run es (after (apply e s) s)
