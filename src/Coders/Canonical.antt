-- ===== src/Coders/Canonical.antt =====
-- `BeamWindow::canonical_key` of flaredb/src/coders/primitives.rs, a window as text.
use flare_db.Base.{
  ℕ, zero, suc, ◌/◌, ◌%◌, ℤ, pos, negsuc, String, List, [], ◌∷◌, ltb, if◌then◌else◌,
}
use flare_db.Coders.Window.{BeamWindow, global, interval, opaque}
use Prim.Native.String.{slice, ◌++◌}

-- A digit below 16.
abbrev pub digit : ℕ → String
digit d = slice "0123456789abcdef" d (suc d)

-- A number in decimal, on fuel: an i64 has at most 19 digits.
unfoldable pub decimal : ℕ → ℕ → String
decimal zero n = ""
decimal (suc fuel) n =
    let rest = decimal fuel (n / 10) in if ltb n 10 then digit n else rest ++ digit (n % 10)

-- How an i64 is written in a format string.
unfoldable pub display : ℤ → String
unfolding decimal
display (pos n) = decimal 20 n
display (negsuc n) = "-" ++ decimal 20 (suc n)

-- `byte >> 4` and `byte & 0x0f`.
unfoldable pub hex_encode : List ℕ → String
hex_encode [] = ""
hex_encode (byte ∷ bytes) = digit (byte / 16) ++ (digit (byte % 16) ++ hex_encode bytes)

unfoldable pub canonical_key : BeamWindow → String
unfolding display hex_encode
canonical_key global = "global"
canonical_key (interval start_millis end_millis) =
    "interval:" ++ (display start_millis ++ (":" ++ display end_millis))
canonical_key (opaque coder_id bytes) = "opaque:" ++ (coder_id ++ (":" ++ hex_encode bytes))
