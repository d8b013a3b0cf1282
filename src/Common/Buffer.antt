-- ===== src/Common/Buffer.antt =====
-- Machine words cut into bits and bytes, and the buffers that the codecs read and write.
use Prim.Native.Nat.{ℕ, ◌/◌, ◌%◌, ◌^◌, ◌<◌}
use mathlib.Core.Bool.{Bool, false, not}
use mathlib.Core.List.{List, []}
use mathlib.Core.Option.{Option, some}
use win_kernel_http.Common.Status.{Status}
use win_kernel_http.Common.Tests.{◌==◌, ltb}
use win_kernel_http.Common.Lists.{length, get_or}

abbrev pub Bytes : Type 0
Bytes = List ℕ

abbrev pub IsByte : ℕ → Type 0
IsByte b = b < 256

abbrev pub IsUlong : ℕ → Type 0
IsUlong w = w < 2 ^ 32

-- `w >> k`, `w & (2^k - 1)`, and `(w & (1 << k)) != 0`. An `|` of fields that do not overlap is
-- written as their sum.
abbrev pub shr : ℕ → ℕ → ℕ
shr w k = w / 2 ^ k

abbrev pub low_bits : ℕ → ℕ → ℕ
low_bits w k = w % 2 ^ k

abbrev pub has_bit : ℕ → ℕ → Bool
has_bit w k = not (w / 2 ^ k % 2 == 0)

-- `src[i]`; every read of the code is behind a test of the length.
abbrev pub byte_at : Bytes → ℕ → ℕ
byte_at src i = get_or src i 0

-- A pointer with a length: a null pointer with any length, or readable bytes.
pub data Buffer : Type 0 where
  null : ℕ → Buffer
  bytes : Bytes → Buffer

abbrev pub buffer_length : Buffer → ℕ
buffer_length (null n) = n
buffer_length (bytes xs) = length xs

abbrev pub contents : Buffer → Bytes
contents (null n) = []
contents (bytes xs) = xs

-- `data == nullptr && length > 0`
abbrev pub is_missing : Buffer → Bool
is_missing (null n) = ltb 0 n
is_missing (bytes xs) = false

-- What a call stored from the start of its destination, and the count that it reports.
pub record Written : Type 0 where
  pub stored : Bytes
  pub count : ℕ

-- A call that reports a count beside its status: `none` is STATUS_SUCCESS, `stored` what was
-- written from the start of the destination, `count` the value left in `*bytesWritten`.
pub record Outcome : Type 0 where
  pub status : Option Status
  pub stored : Bytes
  pub count : ℕ

abbrev pub fails : Status → Outcome
fails status = record { status = some status; stored = []; count = 0 }
