-- ===== src/Base/Text.antt =====
-- Go's strings and byte slices: lists of bytes. Strings are compared byte by byte.
use Prim.Native.Char.{code}
use Prim.Native.String.{String}
use Prim.Native.Nat.{compare}
use acorde.Base.Ordered.{Ordering, IsWeakOrder, compare_lists, compare_lists-IsWeakOrder, nat_order}
use Prim.Native.Nat.{ℕ, zero, suc, ◌+◌, ◌/◌, ◌%◌}
use mathlib.Core.List.{List, [], ◌∷◌}

abbrev pub Text : Type 0
Text = List ℕ

-- a string literal; the ones in this program are ASCII
abbrev pub codes : String → Text
codes String.[] = []
codes (String.◌∷◌ c s) = code c ∷ codes s

-- Go's `a < b` on strings
abbrev pub compare_text : Text → Text → Ordering
compare_text = compare_lists compare

pub text_order : IsWeakOrder compare_text
text_order = compare_lists-IsWeakOrder compare nat_order

-- the digits of `%d`, in front of `tail`; a number has at most as many digits as the fuel, one more
-- than the number
digits : ℕ → ℕ → Text → Text
digits zero n tail = tail
digits (suc fuel) n tail =
    let written = (b'0' + n % 10) ∷ tail in
    let more = digits fuel (n / 10) written in
    elim (compare n 10) [ Ordering.lt ↦ written | _ ↦ more ]

unfoldable pub decimal : ℕ → Text
unfolding digits
decimal n = digits (suc n) n []
