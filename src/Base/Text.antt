-- ===== src/Base/Text.antt =====
-- `std::string` as a list of bytes: literals, equality, and the members that the program calls.
use Prim.Native.Nat.{ℕ, zero, suc, ◌+◌, ◌/◌, ◌%◌}
use Prim.Native.Char.{code}
use Prim.Native.String.{String}
use mathlib.Core.Path.{◌≡◌, refl}
use mathlib.Core.Logic.{◌↔◌}
use mathlib.Core.Bool.{Bool, true, false, ◌&&◌}
use mathlib.Core.Option
use mathlib.Core.Option.{Option, none, some}
use mathlib.Core.List.{List, [], ◌∷◌}
use native.Mathlib.Omega.{arith}
use client_server_file_syste.Base.Tests.{◌==◌, if◌then◌else◌}
use client_server_file_syste.Base.Lists.{take}

abbrev pub Bytes : Type 0
Bytes = List ℕ

-- A literal of the source.
abbrev pub text : String → Bytes
text String.[] = []
text (String.◌∷◌ c s) = code c ∷ text s

abbrev pub bytes_eq : Bytes → Bytes → Bool
bytes_eq [] [] = true
bytes_eq [] (_ ∷ _) = false
bytes_eq (_ ∷ _) [] = false
bytes_eq (a ∷ s) (b ∷ t) = (a == b) && bytes_eq s t

pub bytes_eq_iff : (s t : Bytes) → (bytes_eq s t ≡ true) ↔ (s ≡ t)
bytes_eq_iff [] [] = (λ _. refl, λ _. refl)
bytes_eq_iff [] (b ∷ t) = (λ h. cc, λ h. cc)
bytes_eq_iff (a ∷ s) [] = (λ h. cc, λ h. cc)
bytes_eq_iff (a ∷ s) (b ∷ t) = ground (arith, bytes_eq_iff s t)

-- `s.substr(0, n)` and `s.substr(n)`, with `npos` as `none`: the whole string, or no suffix.
abbrev pub prefix_to : Option ℕ → Bytes → Bytes
prefix_to none s = s
prefix_to (some n) s = take n s

-- `s.rfind(c)`, which `find_last_of` is for a set of one character.
unfoldable pub find_last_of : ℕ → Bytes → Option ℕ
find_last_of c [] = none
find_last_of c (x ∷ s) = elim (find_last_of c s) [
  | some n ↦ some (suc n)
  | none ↦ if x == c then some 0 else none
]

abbrev pub starts_with : Bytes → Bytes → Bool
starts_with [] s = true
starts_with (_ ∷ _) [] = false
starts_with (a ∷ w) (b ∷ s) = (a == b) && starts_with w s

-- `s.find(w)`: the first position at which `w` stands.
unfoldable pub find : Bytes → Bytes → Option ℕ
find w [] = if starts_with w [] then some 0 else none
find w (x ∷ s) = if starts_with w (x ∷ s) then some 0 else Option.map suc (find w s)

-- `std::to_string` of an unsigned number: its decimal digits.
unfoldable pub digits : ℕ → ℕ → Bytes → Bytes
digits zero n acc = acc
digits (suc fuel) n acc =
    let rest = digits fuel (n / 10) ((b'0' + n % 10) ∷ acc) in
    if n / 10 == 0 then (b'0' + n % 10) ∷ acc else rest

-- Each round divides by ten, so `n + 1` rounds are enough.
unfoldable pub to_string : ℕ → Bytes
unfolding digits
to_string n = digits (n + 1) n []

-- What a `const char *` shows of the memory that it points at: up to the first zero byte.
abbrev pub c_string : Bytes → Bytes
c_string [] = []
c_string (zero ∷ s) = []
c_string (suc c ∷ s) = suc c ∷ c_string s
