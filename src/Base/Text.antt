-- ===== src/Base/Text.antt =====
-- Go strings that the code only compares, as native texts.
use mathlib.Core.Path.{◌≡◌, refl}
use mathlib.Core.Logic.{◌≢◌}
use mathlib.Core.Bool.{Bool, true, false, not}
use native.Mathlib.Omega.{arith}
use text.Mathlib.Text.{◌==◌}
use text.Mathlib.TextEquality.{eq_iff}
pub use Prim.Native.String.{String}

abbrev pub str_eq : String → String → Bool
str_eq s t = s == t

-- `s != ""`
abbrev pub is_set : String → Bool
is_set s = not (str_eq s "")

pub str_eq_sound : (s t : String) → str_eq s t ≡ true → s ≡ t
str_eq_sound s t = (eq_iff s t).0

pub str_eq_refl : (s : String) → str_eq s s ≡ true
str_eq_refl s = (eq_iff s s).1 refl

pub str_eq_ne : (s t : String) → s ≢ t → str_eq s t ≡ false
str_eq_ne s t h = ground (arith, eq_iff s t)
