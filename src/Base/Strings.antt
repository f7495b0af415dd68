-- ===== src/Base/Strings.antt =====
-- What the source uses of Rust's `str`, on the native texts.
use Prim.Native.String.{String, [] as empty, ◌∷◌ as ◌∷ₛ◌, ◌++◌ as ◌++ₛ◌, len, slice}
use Prim.Native.Char.{code}
use Prim.Native.Nat.{ℕ, zero, suc, ◌+◌, ◌-◌, ◌/◌, ◌%◌}
use mathlib.Core.Bool.{◌&&◌}
use mathlib.Core.Option.{Option, none, some}
use mathlib.Core.List.{List, [], ◌∷◌, ◌++◌}
use cherry_core.Base.Dict.{str_eq}
use cherry_core.Base.Tests.{if◌then◌else◌, ltb, leb}

-- The UTF-8 of a character.
abbrev pub utf8_of : ℕ → List ℕ
utf8_of n =
    if ltb n 0x80
    then n ∷ []
    else if ltb n 0x800
    then (0xc0 + n / 64) ∷ (0x80 + n % 64) ∷ []
    else if ltb n 0x1_0000
    then (0xe0 + n / 4096) ∷ (0x80 + n / 64 % 64) ∷ (0x80 + n % 64) ∷ []
    else (0xf0 + n / 0x4_0000)
      ∷ (0x80 + n / 4096 % 64)
      ∷ (0x80 + n / 64 % 64)
      ∷ (0x80 + n % 64)
      ∷ []

unfoldable pub as_bytes : String → List ℕ
as_bytes empty = []
as_bytes (c ∷ₛ s) = utf8_of (code c) ++ as_bytes s

unfoldable pub strip_suffix : String → String → Option String
strip_suffix s suffix =
    if leb (len suffix) (len s) && str_eq (slice s (len s - len suffix) (len s)) suffix
    then some (slice s 0 (len s - len suffix))
    else none

-- `format!("{prefix}{n}")`: the decimal digits of a number behind a text.
digit : ℕ → String
digit n = slice "0123456789" n (n + 1)

-- With fuel for as many digits.
digits : ℕ → ℕ → String
unfolding digit
digits zero n = ""
digits (suc fuel) n =
    let front = digits fuel (n / 10) in if ltb n 10 then digit n else front ++ₛ digit (n % 10)

unfoldable pub decimal : String → ℕ → String
unfolding digits
decimal prefix n = prefix ++ₛ digits (suc n) n
