-- ===== src/Http2/Stream/Examples.antt =====
-- Concrete streams of src/KernelHttpLib/http2/Http2Stream.cpp.
use win_kernel_http.Common.{List, [], ◌∷◌, ◌≡◌, refl, inr, true, false, arith}
use win_kernel_http.Common.Int.{pos}
use win_kernel_http.Common.Status.{◌>>=◌, invalid_device_state, ok, err}
use win_kernel_http.Http2.Stream.{
  increase_remote_window, increase_local_window, Stream, open_, half_closed_local,
  half_closed_remote, initialize, send_data, receive_data, send_headers, headers_sent,
  receive_headers, Event, sends_headers, sends_data, receives_data, remote_increased, run,
}
use win_kernel_http.Http2.Stream.Windows.{
  grant, increase_windows_lem, send_data_lem, send_data_exact, receive_data_lem, receive_data_exact,
}
use win_kernel_http.Http2.Stream.Ledger.{run-initialize-Balanced, Balanced}
use win_kernel_http.Http2.Stream.Lifecycle.{end_stream_sent}

abbrev opened : Stream
opened = record { stream_id = 1; state = open_; local_window = pos 100; remote_window = pos 50 }

send_data_lem_example : send_data 40 true opened ≡ send_data_exact 40 true opened
send_data_lem_example = send_data_lem 40 true opened (omega arith) (omega arith)

receive_data_lem_example : receive_data 101 false opened ≡ receive_data_exact 101 false opened
receive_data_lem_example = receive_data_lem 101 false opened (omega arith) (omega arith)

abbrev traffic : List Event
traffic =
    sends_headers false
    ∷ sends_data 30 false
    ∷ sends_data 30 false
    ∷ remote_increased 20
    ∷ receives_data 100 true
    ∷ []

run-initialize-Balanced_example :
    Balanced (initialize 1 100 50) traffic (run traffic (initialize 1 100 50))
run-initialize-Balanced_example =
    run-initialize-Balanced 1 100 50 traffic (omega arith) (omega arith) (omega arith)

ended : send_headers true opened ≡ ok (record opened { state = half_closed_local })
unfolding send_headers headers_sent
ended = refl

end_stream_sent_example :
    (send_data 1 false (run traffic (record opened { state = half_closed_local }))
      ≡ err invalid_device_state)
    × (send_headers false (run traffic (record opened { state = half_closed_local }))
        ≡ err invalid_device_state)
end_stream_sent_example = end_stream_sent 0 1 false opened traffic (inr ended)

peer_ended : receive_headers true opened ≡ ok (record opened { state = half_closed_remote })
unfolding receive_headers
peer_ended = refl

increase_windows_lem_example :
    (increase_remote_window 20 opened
      ≡ (grant 20 opened.remote_window >>= λ w. ok (record opened { remote_window = w })))
    × (increase_local_window 20 opened
        ≡ (grant 20 opened.local_window >>= λ w. ok (record opened { local_window = w })))
increase_windows_lem_example =
    increase_windows_lem 20 opened (omega arith) (omega arith) (omega arith)
