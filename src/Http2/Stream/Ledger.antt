-- ===== src/Http2/Stream/Ledger.antt =====
-- The windows of src/KernelHttpLib/http2/Http2Stream.cpp over any sequence of events, as a ledger
-- of grants and data.
use win_kernel_http.Common.{
  ℕ, List, [], ◌∷◌, ◌-◌, ◌^◌, ◌≤◌, ◌<◌, ◌≡◌, refl, Bool, true, arith, All, ap, ◌⊎◌, inl, inr,
}
use win_kernel_http.Common.Int.{ℤ, pos, negsuc, pos_part, neg_part, ◌+ℤ◌, ◌-ℤ◌, int_laws}
use win_kernel_http.Common.Status.{Result, ok, err, bind-eq-ok}
use win_kernel_http.Http2.Stream.{
  max_window_size, Stream, initialize, send_data, receive_data, increase_remote_window,
  increase_local_window, Event, sends_headers, receives_headers, sends_data, receives_data,
  remote_increased, local_increased, remote_adjusted, closes, apply, after, run, send_headers,
  receive_headers, close, increase,
}
use win_kernel_http.Http2.Stream.Windows.{
  fits, IsWindow, WindowInv, IsEvent, send_data_lem, receive_data_lem, increase-nonneg,
  increase-IsWindow, adjust_exact, initialize-WindowInv,
}

-- What an accepted event adds to and takes from the peer's window.
abbrev pub remote_credit : Event → ℤ
remote_credit (remote_increased n) = pos n
remote_credit (remote_adjusted delta) = delta
remote_credit _ = pos 0

abbrev pub remote_debit : Event → ℕ
remote_debit (sends_data n _) = n
remote_debit _ = 0

-- The same for the window that this side grants.
abbrev pub local_credit : Event → ℕ
local_credit (local_increased n) = n
local_credit _ = 0

abbrev pub local_debit : Event → ℕ
local_debit (receives_data n _) = n
local_debit _ = 0

record Books (s : Stream) (e : Event) (t : Stream) : Type 0 where
  inv : WindowInv t
  remote : t.remote_window +ℤ pos (remote_debit e) ≡ s.remote_window +ℤ remote_credit e
  local : t.local_window +ℤ pos (local_debit e) ≡ s.local_window +ℤ pos (local_credit e)

-- An accepted DATA frame takes its bytes off one window, and leaves the other alone.
sent :
    (n : ℕ) (b : Bool) (s : Stream) {t : Stream}
    → WindowInv s
    → n < 2 ^ 64 - 2 ^ 32
    → send_data n b s ≡ ok t
    → (fits n s.remote_window ≡ true)
      × (t.remote_window ≡ s.remote_window -ℤ pos n)
      × (t.local_window ≡ s.local_window)
sent n b s v k r = ground (arith, send_data_lem n b s v.remote_within k)

received :
    (n : ℕ) (b : Bool) (s : Stream) {t : Stream}
    → WindowInv s
    → n < 2 ^ 64 - 2 ^ 32
    → receive_data n b s ≡ ok t
    → (fits n s.local_window ≡ true)
      × (t.local_window ≡ s.local_window -ℤ pos n)
      × (t.remote_window ≡ s.remote_window)
received n b s v k r =
    ground (arith, receive_data_lem n b s (v.local_within, omega (arith, v.local_nonneg)) k)

-- Taking off what fits keeps a window in range, and above zero if it was.
fits-debit :
    (n : ℕ) (w : ℤ)
    → IsWindow w
    → fits n w ≡ true
    → (w -ℤ pos n +ℤ pos n ≡ w +ℤ pos 0)
      × (pos_part (w -ℤ pos n) ≤ pos_part w)
      × (neg_part (w -ℤ pos n) ≡ neg_part w)
fits-debit n (pos m) h f = unfold ◌-ℤ◌ ◌+ℤ◌ in ground arith
fits-debit n (negsuc m) h f = unfold ◌-ℤ◌ ◌+ℤ◌ in ground arith

add_zero : (w : ℤ) → w +ℤ pos 0 ≡ w
add_zero w = omega int_laws

same_windows :
    (s t : Stream) (e : Event)
    → WindowInv s
    → remote_debit e ≡ 0
    → local_debit e ≡ 0
    → remote_credit e ≡ pos 0
    → local_credit e ≡ 0
    → t.remote_window ≡ s.remote_window
    → t.local_window ≡ s.local_window
    → Books s e t
same_windows s t e v a b c d p q = record {
  inv = ground (arith, v);
  remote = ground arith;
  local = ground arith;
}

headers-same :
    (b : Bool) (s : Stream) {t : Stream}
    → (send_headers b s ≡ ok t) ⊎ (receive_headers b s ≡ ok t)
    → (t.remote_window ≡ s.remote_window) × (t.local_window ≡ s.local_window)
unfolding send_headers receive_headers
headers-same b s r = ground arith

apply-Books :
    (e : Event) (s : Stream) (t : Stream) → IsEvent e → WindowInv s → apply e s ≡ ok t → Books s e t
unfolding apply increase_remote_window increase_local_window
apply-Books (sends_headers b) s t h v r =
    let (p, q) = headers-same b s {t = t} (inl r) in same_windows s t _ v refl refl refl refl p q
apply-Books (receives_headers b) s t h v r =
    let (p, q) = headers-same b s {t = t} (inr r) in same_windows s t _ v refl refl refl refl p q
apply-Books (sends_data n b) s t h v r =
    let (f, p, q) = sent n b s {t = t} v h r in
    let (back, hi, lo) = fits-debit n s.remote_window v.remote_within f in
    record { inv = ground (arith, v); remote = ground arith; local = ground arith }
apply-Books (receives_data n b) s t h v r =
    let (f, p, q) = received n b s {t = t} v h r in
    let (back, hi, lo) =
      fits-debit n s.local_window (v.local_within, omega (arith, v.local_nonneg)) f in
    record { inv = ground (arith, v); remote = ground arith; local = ground arith }
apply-Books (remote_increased n) s t h v r =
    let (w, got, made) =
      bind-eq-ok (increase s.remote_window n) (λ w. ok (record s { remote_window = w })) r in
    let (p, q) = increase-IsWindow s.remote_window n v.remote_within h got in
    record { inv = ground (arith, v); remote = ground (arith, add_zero w); local = ground arith }
apply-Books (local_increased n) s t h v r =
    let (w, got, made) =
      bind-eq-ok (increase s.local_window n) (λ w. ok (record s { local_window = w })) r in
    let (p, hi, lo) = increase-nonneg s.local_window n v.local_within v.local_nonneg h got in
    record { inv = ground (arith, v); remote = ground arith; local = ground (arith, add_zero w) }
apply-Books (remote_adjusted delta) s t h v r =
    let (p, q) = adjust_exact s delta r in
    record {
      inv = ground (arith, v);
      remote = ground (arith, add_zero (s.remote_window +ℤ delta));
      local = ground arith;
    }
apply-Books closes s t h v r =
    unfold close in same_windows s t closes v refl refl refl refl (ground arith) (ground arith)

-- The amounts of the events that are not refused, summed over a run.
abbrev pub amount : (Event → ℤ) → Event → Result Stream → ℤ
amount f e (ok t) = f e
amount f e (err x) = pos 0

abbrev pub ledger : (Event → ℤ) → List Event → Stream → ℤ
ledger f [] s = pos 0
ledger f (e ∷ es) s = amount f e (apply e s) +ℤ ledger f es (after (apply e s) s)

-- What holds between the stream before a run of events and the one after it.
pub record Balanced (s : Stream) (es : List Event) (t : Stream) : Type 0 where
  pub inv : WindowInv t
  pub remote :
      t.remote_window +ℤ ledger (λ e. pos (remote_debit e)) es s
      ≡ s.remote_window +ℤ ledger remote_credit es s
  pub local :
      t.local_window +ℤ ledger (λ e. pos (local_debit e)) es s
      ≡ s.local_window +ℤ ledger (λ e. pos (local_credit e)) es s

chain : (a b c d x y z : ℤ) → b +ℤ d ≡ a +ℤ c → z +ℤ y ≡ b +ℤ x → z +ℤ (d +ℤ y) ≡ a +ℤ (c +ℤ x)
chain a b c d x y z p q =
    omega (int_laws, ap pos_part p, ap neg_part p, ap pos_part q, ap neg_part q)

skip : (a b c d : ℤ) → a +ℤ b ≡ c +ℤ d → a +ℤ (pos 0 +ℤ b) ≡ c +ℤ (pos 0 +ℤ d)
skip a b c d p = omega (int_laws, ap pos_part p, ap neg_part p)

Balanced-cons :
    (e : Event) (es : List Event) (s : Stream) (r : Result Stream)
    → apply e s ≡ r
    → IsEvent e
    → WindowInv s
    → ((t : Stream) → WindowInv t → Balanced t es (run es t))
    → Balanced s (e ∷ es) (run es (after (apply e s) s))
Balanced-cons e es s (ok t) r h v ih =
    let first = apply-Books e s t h v r in
    let rest = ih t first.inv in
    record {
      inv = rw r rest.inv;
      remote = rw r (chain _ _ _ _ _ _ _ first.remote rest.remote);
      local = rw r (chain _ _ _ _ _ _ _ first.local rest.local);
    }
Balanced-cons e es s (err x) r h v ih =
    let rest = ih s v in
    record {
      inv = rw r rest.inv;
      remote = rw r (skip _ _ _ _ rest.remote);
      local = rw r (skip _ _ _ _ rest.local);
    }

run-Balanced :
    (es : List Event) (s : Stream) → All IsEvent es → WindowInv s → Balanced s es (run es s)
unfolding run
run-Balanced [] s h v = record { inv = v; remote = refl; local = refl }
run-Balanced (e ∷ es) s h v =
    Balanced-cons e es s (apply e s) refl h.0 v (λ t k. run-Balanced es t h.1 k)

-- A stream that is initialised with windows of at most 2^31 - 1, and then sees any list of events
-- whose lengths stay below 2^64 - 2^32, whose increments fit 31 bits for the peer's window and 32
-- bits for the other: both windows stay within 2^31 - 1, the window granted to the peer is never
-- below zero, and each window is the initial one plus the accepted grants, less the accepted data.
pub run-initialize-Balanced :
    (id local remote : ℕ) (es : List Event)
    → local ≤ max_window_size
    → remote ≤ max_window_size
    → All IsEvent es
    → Balanced (initialize id local remote) es (run es (initialize id local remote))
run-initialize-Balanced id local remote es h k v =
    run-Balanced es _ v (initialize-WindowInv id local remote h k)
