-- ===== src/Prelude/Slice.antt =====
-- The characters of a text, counted as Python counts them.
use Prim.Native.Nat.{ℕ, zero, suc, ◌-◌}
use Prim.Native.String.{String, count}
use mathlib.Core.Path.{◌≡◌, refl}

-- `s[n:]`
abbrev pub drop_chars : ℕ → String → String
drop_chars zero s = s
drop_chars (suc n) String.[] = ""
drop_chars (suc n) (String.◌∷◌ c s) = drop_chars n s

-- `s[-n:]`
abbrev pub last_chars : ℕ → String → String
last_chars n s = drop_chars (count s - n) s

kept : last_chars 2 "aλb" ≡ "λb"
kept = refl
