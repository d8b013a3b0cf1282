-- ===== src/Http2/Stream/Windows.antt =====
-- Flow control of a stream: `SendData`, `ReceiveData` and the window updates of
-- src/KernelHttpLib/http2/Http2Stream.cpp, on their own and over any sequence of events.
use win_kernel_http.Common.{
  ℕ, ◌-◌, ◌^◌, ◌≤◌, ◌<◌, ◌≡◌, Bool, true, false, arith, if◌then◌else◌, not, ◌||◌, ◌==◌,
}
use win_kernel_http.Common.Int.{
  ℤ, pos, negsuc, pos_part, neg_part, ◌+ℤ◌, ◌-ℤ◌, leb_ℤ, long_of_ulong, wrap_long,
  long_of_ulong_small, wrap_long_exact,
}
use win_kernel_http.Common.Status.{
  ◌>>=◌, invalid_parameter, invalid_device_state, buffer_too_small, invalid_network_response,
  Result, ok, err,
}
use win_kernel_http.Http2.Stream.{
  increase_remote_window, increase_local_window, max_window_size, Stream, StreamState, open_,
  half_closed_local, half_closed_remote, closed, initialize, send_data, receive_data,
  exceeds_window, consume, increase, increase_limit, adjust_remote_window, Event, sends_data,
  receives_data, remote_increased, local_increased,
}

-- A window that the peer or this side may still have: at most 2^31 - 1 either way.
abbrev pub IsWindow : ℤ → Type 0
IsWindow w = (pos_part w ≤ max_window_size) × (neg_part w ≤ max_window_size)

-- What a grant of `n` makes of a window, over exact integers.
abbrev pub grant : ℕ → ℤ → Result ℤ
grant n w =
    if n == 0
    then err invalid_parameter
    else if leb_ℤ (w +ℤ pos n) (pos max_window_size)
    then ok (w +ℤ pos n)
    else err invalid_network_response

increase-grant : (w : ℤ) (n : ℕ) → IsWindow w → n ≤ max_window_size → increase w n ≡ grant n w
unfolding increase increase_limit long_of_ulong wrap_long ◌+ℤ◌
increase-grant (pos m) n h k = ground arith
increase-grant (negsuc m) n h k = ground arith

-- For windows within 2^31 - 1 either way and an increment of at most 2^31 - 1,
-- `IncreaseRemoteWindow` and `IncreaseLocalWindow` do on every branch what the rule over exact
-- integers says: they refuse an increment of zero and a sum above 2^31 - 1, and otherwise add the
-- increment to their window alone.
pub increase_windows_lem :
    (n : ℕ) (s : Stream)
    → IsWindow s.remote_window
    → IsWindow s.local_window
    → n ≤ max_window_size
    → (increase_remote_window n s
        ≡ (grant n s.remote_window >>= λ w. ok (record s { remote_window = w })))
      × (increase_local_window n s
          ≡ (grant n s.local_window >>= λ w. ok (record s { local_window = w })))
unfolding increase_remote_window increase_local_window
increase_windows_lem n s r l k =
    (rw (increase-grant s.remote_window n r k), rw (increase-grant s.local_window n l k))

-- The states in which data may be sent, or received.
abbrev pub can_send : StreamState → Bool
can_send open_ = true
can_send half_closed_remote = true
can_send _ = false

abbrev pub can_receive : StreamState → Bool
can_receive open_ = true
can_receive half_closed_local = true
can_receive _ = false

-- `n` bytes of data fit the window, over the integers; a frame of no bytes always does.
abbrev pub fits : ℕ → ℤ → Bool
fits n w = n == 0 || leb_ℤ (pos n) w

fits_iff : (n : ℕ) (w : ℤ) → IsWindow w → n < 2 ^ 64 - 2 ^ 32 → exceeds_window n w ≡ not (fits n w)
unfolding exceeds_window
fits_iff n (pos m) h k = ground arith
fits_iff n (negsuc m) h k = ground arith

consume-fits : (n : ℕ) (w : ℤ) → IsWindow w → fits n w ≡ true → consume w n ≡ w -ℤ pos n
unfolding consume long_of_ulong wrap_long ◌-ℤ◌
consume-fits n (pos m) h e = ground arith
consume-fits n (negsuc m) h e = ground arith

-- What RFC 9113 asks of sending `n` bytes, over exact integers.
abbrev pub send_data_exact : ℕ → Bool → Stream → Result Stream
send_data_exact n end_stream s =
    if not (can_send s.state)
    then err invalid_device_state
    else if fits n s.remote_window
    then ok (record s {
      state =
          (if end_stream then elim s.state [ open_ ↦ half_closed_local | _ ↦ closed ] else s.state);
      remote_window = s.remote_window -ℤ pos n;
    })
    else err buffer_too_small

abbrev pub receive_data_exact : ℕ → Bool → Stream → Result Stream
receive_data_exact n end_stream s =
    if not (can_receive s.state)
    then err invalid_device_state
    else if fits n s.local_window
    then ok (record s {
      state =
          (if end_stream
            then elim s.state [ open_ ↦ half_closed_remote | _ ↦ closed ]
            else s.state);
      local_window = s.local_window -ℤ pos n;
    })
    else err invalid_network_response

-- For a window within 2^31 - 1 either way and a length below 2^64 - 2^32, `SendData` does on every
-- branch what the rule over exact integers says: it refuses in the wrong state, refuses what does
-- not fit the window, and otherwise takes the length off the window and ends this side with
-- END_STREAM.
pub send_data_lem :
    (n : ℕ) (end_stream : Bool) (s : Stream)
    → IsWindow s.remote_window
    → n < 2 ^ 64 - 2 ^ 32
    → send_data n end_stream s ≡ send_data_exact n end_stream s
unfolding send_data
send_data_lem n end_stream s w k =
    ground (arith, fits_iff n s.remote_window w k, consume-fits n s.remote_window w)

-- For a window within 2^31 - 1 either way and a length below 2^64 - 2^32, `ReceiveData` does on
-- every branch what the rule over exact integers says: it refuses in the wrong state, refuses what
-- does not fit the window, and otherwise takes the length off the window and ends the peer's side
-- with END_STREAM.
pub receive_data_lem :
    (n : ℕ) (end_stream : Bool) (s : Stream)
    → IsWindow s.local_window
    → n < 2 ^ 64 - 2 ^ 32
    → receive_data n end_stream s ≡ receive_data_exact n end_stream s
unfolding receive_data
receive_data_lem n end_stream s w k =
    ground (arith, fits_iff n s.local_window w k, consume-fits n s.local_window w)

-- Both windows are in range, and the window granted to the peer is never overdrawn.
pub record WindowInv (s : Stream) : Type 0 where
  pub remote_within : IsWindow s.remote_window
  pub local_within : pos_part s.local_window ≤ max_window_size
  pub local_nonneg : neg_part s.local_window ≡ 0

-- The arguments that the code passes: byte counts of buffers, and the 31-bit increments of
-- WINDOW_UPDATE frames.
abbrev pub IsEvent : Event → Type 0
IsEvent (sends_data n _) = n < 2 ^ 64 - 2 ^ 32
IsEvent (receives_data n _) = n < 2 ^ 64 - 2 ^ 32
IsEvent (remote_increased n) = n ≤ max_window_size
IsEvent (local_increased n) = n < 2 ^ 32
IsEvent _ = Unit

pub initialize-WindowInv :
    (id local remote : ℕ)
    → local ≤ max_window_size
    → remote ≤ max_window_size
    → WindowInv (initialize id local remote)
unfolding initialize
initialize-WindowInv id local remote h k =
    ground (arith, long_of_ulong_small local, long_of_ulong_small remote)

pub increase-nonneg :
    (w : ℤ) (n : ℕ) {v : ℤ}
    → pos_part w ≤ max_window_size
    → neg_part w ≡ 0
    → n < 2 ^ 32
    → increase w n ≡ ok v
    → (v ≡ w +ℤ pos n) × (pos_part v ≤ max_window_size) × (neg_part v ≡ 0)
unfolding increase increase_limit long_of_ulong wrap_long ◌+ℤ◌
increase-nonneg (pos m) n h e k l = ground arith
increase-nonneg (negsuc m) n h e k l = absurd (omega arith)

pub increase-IsWindow :
    (w : ℤ) (n : ℕ) {v : ℤ}
    → IsWindow w
    → n ≤ max_window_size
    → increase w n ≡ ok v
    → (v ≡ w +ℤ pos n) × IsWindow v
unfolding increase increase_limit long_of_ulong wrap_long ◌+ℤ◌
increase-IsWindow (pos m) n h k l = ground arith
increase-IsWindow (negsuc m) n h k l = ground arith

pub adjust_exact :
    (s : Stream) (delta : ℤ) {t : Stream}
    → adjust_remote_window delta s ≡ ok t
    → (t ≡ record s { remote_window = s.remote_window +ℤ delta })
      × IsWindow (s.remote_window +ℤ delta)
unfolding adjust_remote_window
adjust_exact s delta h = ground (arith, wrap_long_exact (s.remote_window +ℤ delta))
