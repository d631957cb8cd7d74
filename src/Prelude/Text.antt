-- ===== src/Prelude/Text.antt =====
-- Equality of texts as a decision.
use Prim.Native.String.{String}
use text.Mathlib.Text.{◌==◌}
use text.Mathlib.TextEquality.{eq_iff}
use fox_fleet.Prelude.Tests.{dec_of_test}

unfoldable pub string_discrete : Discrete String
unfolding dec_of_test
string_discrete s t = dec_of_test (s == t) (eq_iff s t)
