-- ===== src/Http2/Stream/Lifecycle.antt =====
-- The state machine of src/KernelHttpLib/http2/Http2Stream.cpp over any sequence of events.
use win_kernel_http.Common.{ℕ, List, [], ◌∷◌, ◌≡◌, Bool, true, arith, ◌⊎◌}
use win_kernel_http.Common.Status.{ok, err, invalid_device_state}
use win_kernel_http.Http2.Stream.{
  StreamState, closed, half_closed_local, half_closed_remote, Stream, send_data, receive_data,
  increase_remote_window, increase_local_window, adjust_remote_window, Event, sends_headers,
  receives_headers, apply, after, run, send_headers, receive_headers, close,
}

-- This side has sent END_STREAM, or the stream is closed.
abbrev pub IsSendDone : StreamState → Type 0
IsSendDone st = (st ≡ half_closed_local) ⊎ (st ≡ closed)

-- The peer has sent END_STREAM, or the stream is closed.
abbrev pub IsReceiveDone : StreamState → Type 0
IsReceiveDone st = (st ≡ half_closed_remote) ⊎ (st ≡ closed)

apply-IsSendDone :
    (e : Event) (s : Stream) → IsSendDone s.state → IsSendDone (after (apply e s) s).state
unfolding apply send_headers receive_headers send_data receive_data increase_remote_window
    increase_local_window adjust_remote_window close
apply-IsSendDone (sends_headers b) s h = ground arith
apply-IsSendDone (receives_headers b) s h = ground arith
apply-IsSendDone _ s h = ground arith

apply-IsReceiveDone :
    (e : Event) (s : Stream) → IsReceiveDone s.state → IsReceiveDone (after (apply e s) s).state
unfolding apply send_headers receive_headers send_data receive_data increase_remote_window
    increase_local_window adjust_remote_window close
apply-IsReceiveDone (sends_headers b) s h = ground arith
apply-IsReceiveDone _ s h = ground arith

run-IsSendDone : (es : List Event) (s : Stream) → IsSendDone s.state → IsSendDone (run es s).state
unfolding run
run-IsSendDone [] s h = h
run-IsSendDone (e ∷ es) s h = run-IsSendDone es _ (apply-IsSendDone e s h)

run-IsReceiveDone :
    (es : List Event) (s : Stream) → IsReceiveDone s.state → IsReceiveDone (run es s).state
unfolding run
run-IsReceiveDone [] s h = h
run-IsReceiveDone (e ∷ es) s h = run-IsReceiveDone es _ (apply-IsReceiveDone e s h)

refused_send :
    (n : ℕ) (b : Bool) (s : Stream)
    → IsSendDone s.state
    → (send_data n b s ≡ err invalid_device_state) × (send_headers b s ≡ err invalid_device_state)
unfolding send_data send_headers
refused_send n b s h = ground arith

refused_receive :
    (n : ℕ) (b : Bool) (s : Stream)
    → IsReceiveDone s.state
    → (receive_data n b s ≡ err invalid_device_state)
      × (receive_headers b s ≡ err invalid_device_state)
unfolding receive_data receive_headers
refused_receive n b s h = ground arith

ended_send :
    (n : ℕ) (s : Stream) {t : Stream}
    → (send_data n true s ≡ ok t) ⊎ (send_headers true s ≡ ok t)
    → IsSendDone t.state
unfolding send_data send_headers
ended_send n s h = ground arith

ended_receive :
    (n : ℕ) (s : Stream) {t : Stream}
    → (receive_data n true s ≡ ok t) ⊎ (receive_headers true s ≡ ok t)
    → IsReceiveDone t.state
unfolding receive_data receive_headers
ended_receive n s h = ground arith

-- After a DATA or HEADERS frame with END_STREAM was sent, and then any list of events, every
-- further DATA or HEADERS frame to send is refused.
pub end_stream_sent :
    (n m : ℕ) (b : Bool) (s : Stream) {t : Stream} (es : List Event)
    → (send_data n true s ≡ ok t) ⊎ (send_headers true s ≡ ok t)
    → (send_data m b (run es t) ≡ err invalid_device_state)
      × (send_headers b (run es t) ≡ err invalid_device_state)
end_stream_sent n m b s es h = refused_send m b _ (run-IsSendDone es _ (ended_send n s h))

-- After a DATA or HEADERS frame with END_STREAM was received, and then any list of events, every
-- further DATA or HEADERS frame to receive is refused.
pub end_stream_received :
    (n m : ℕ) (b : Bool) (s : Stream) {t : Stream} (es : List Event)
    → (receive_data n true s ≡ ok t) ⊎ (receive_headers true s ≡ ok t)
    → (receive_data m b (run es t) ≡ err invalid_device_state)
      × (receive_headers b (run es t) ≡ err invalid_device_state)
end_stream_received n m b s es h =
    refused_receive m b _ (run-IsReceiveDone es _ (ended_receive n s h))
