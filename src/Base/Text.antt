-- ===== src/Base/Text.antt =====
-- Strings as their UTF-8 bytes, and the test of `String::from_utf8`.
use Prim.Native.Char.{code}
use Prim.Native.String.{String}
use chu_sql.Base.{
  ℕ, ◌-◌, Bool, false, ◌&&◌, Option, none, some, List, [], ◌∷◌, ltb, leb, ◌==◌, if◌then◌else◌,
}

abbrev pub Str : Type 0
Str = List ℕ

-- The bytes of an ASCII literal.
abbrev pub ascii : String → Str
ascii String.[] = []
ascii (String.◌∷◌ c s) = code c ∷ ascii s

-- What a UTF-8 decoder waits for: continuation bytes still to come, and the range of the next one.
pub record Utf8State : Type 0 where
  pub missing : ℕ
  pub lo : ℕ
  pub hi : ℕ

abbrev start : Utf8State
start = record { missing = 0; lo = 0x80; hi = 0xbf }

-- A lead byte (Unicode, table 3-7).
lead : ℕ → Option Utf8State
lead b =
    if ltb b 0x80
    then some start
    else if leb 0xc2 b && leb b 0xdf
    then some (record { missing = 1; lo = 0x80; hi = 0xbf })
    else if b == 0xe0
    then some (record { missing = 2; lo = 0xa0; hi = 0xbf })
    else if b == 0xed
    then some (record { missing = 2; lo = 0x80; hi = 0x9f })
    else if leb 0xe1 b && leb b 0xef
    then some (record { missing = 2; lo = 0x80; hi = 0xbf })
    else if b == 0xf0
    then some (record { missing = 3; lo = 0x90; hi = 0xbf })
    else if leb 0xf1 b && leb b 0xf3
    then some (record { missing = 3; lo = 0x80; hi = 0xbf })
    else if b == 0xf4
    then some (record { missing = 3; lo = 0x80; hi = 0x8f })
    else none

next : Utf8State → ℕ → Option Utf8State
unfolding lead
next s b =
    if s.missing == 0
    then lead b
    else if leb s.lo b && leb b s.hi
    then some (record { missing = s.missing - 1; lo = 0x80; hi = 0xbf })
    else none

utf8_from : Utf8State → Str → Bool
utf8_from s [] = s.missing == 0
utf8_from s (b ∷ bs) = elim (next s b) [ none ↦ false | some s' ↦ utf8_from s' bs ]

-- `String::from_utf8(bytes).is_ok()`
unfoldable pub utf8 : Str → Bool
unfolding utf8_from next
utf8 bs = utf8_from start bs
