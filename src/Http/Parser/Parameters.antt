-- ===== src/Http/Parser/Parameters.antt =====
-- ValidateSemicolonParameters of src/KernelHttpLib/http/HttpParser.cpp: `;name` or `;name=value`,
-- any number of times.
use win_kernel_http.Common.{
  ℕ, zero, suc, [], ◌∷◌, Bool, true, false, not, ◌&&◌, ltb, ◌==◌, if◌then◌else◌, Option, none, some,
  length,
}
use win_kernel_http.Common.Buffer.{Bytes}
use win_kernel_http.Common.Status.{Result, ok, err, invalid_network_response}
use win_kernel_http.Http.Text.{trim_front}
use win_kernel_http.Http.Parser.Chars.{is_quoted_pair_text, skip_tchars}

-- The inside of a quoted value, behind a backslash if `escaped`: what follows the closing quote,
-- `none` where there is none or a character is refused.
pub quoted_value : (escaped : Bool) → Bytes → Option Bytes
quoted_value escaped [] = none
quoted_value true (c ∷ text) =
    let rest = quoted_value false text in if is_quoted_pair_text c then rest else none
quoted_value false (c ∷ text) =
    let rest = quoted_value (c == b'\\') text in
    if c == b'"'
    then some text
    else if not (c == b'\\') && not (c == b'\t') && ltb c 32
    then none
    else rest

-- A value behind `=`, with what follows it.
pub parameter_value : Bytes → Option Bytes
unfolding quoted_value
parameter_value [] = none
parameter_value (c ∷ text) =
    let rest = skip_tchars (c ∷ text) in
    if c == b'"'
    then quoted_value false text
    else if length rest == suc (length text)
    then none
    else some rest

-- What the value of a parameter leaves: the end, or the next `;`.
pub behind_value : Option Bytes → Option Bytes
unfolding trim_front
behind_value none = none
behind_value (some text) = stop (trim_front text)
  where
    stop : Bytes → Option Bytes
    stop [] = some []
    stop (c ∷ text) = if c == b';' then some (c ∷ text) else none

-- What stands behind a name: the end, the next `;`, or `=` and a value.
pub behind_name : Bytes → Option Bytes
unfolding trim_front parameter_value behind_value
behind_name [] = some []
behind_name (c ∷ text) =
    if c == b';'
    then some (c ∷ text)
    else if c == b'='
    then behind_value (parameter_value (trim_front text))
    else none

-- One round: from a `;` to the next one or the end. The name that it finds is always a token.
pub one_parameter : Bytes → Option Bytes
unfolding trim_front behind_name
one_parameter [] = none
one_parameter (c ∷ text) =
    let name = trim_front text in
    let rest = skip_tchars name in
    if not (c == b';')
    then none
    else if length rest == length name
    then none
    else behind_name (trim_front rest)

-- The rounds. Each one passes at least one character, so the length is fuel enough.
pub parameter_rounds : ℕ → Bytes → Result (Unit {0})
unfolding one_parameter
parameter_rounds fuel [] = ok tt
parameter_rounds zero (c ∷ text) = err invalid_network_response
parameter_rounds (suc fuel) (c ∷ text) = elim (one_parameter (c ∷ text)) [
  | none ↦ err invalid_network_response
  | some rest ↦ parameter_rounds fuel rest
]

unfoldable pub validate_semicolon_parameters : Bytes → Result (Unit {0})
unfolding parameter_rounds
validate_semicolon_parameters parameters = parameter_rounds (length parameters) parameters
