-- ===== src/Base/Number.antt =====
-- `std::stoi`, and that it reads what `std::to_string` prints.
use Prim.Native.Nat.{ℕ, zero, suc, ◌+◌, ◌-◌, ◌*◌, ◌/◌, ◌%◌, ◌^◌, ◌<◌, ◌≤◌}
use mathlib.Core.Path.{◌≡◌, refl, sym, ap, ◌∙◌}
use mathlib.Core.Logic.{inl, inr}
use mathlib.Core.Bool.{Bool, true, false, ◌&&◌, ◌||◌}
use mathlib.Core.Option.{Option, none, some}
use mathlib.Core.List.{[], ◌∷◌, ◌++◌, append-nil}
use native.Mathlib.Omega.{arith}
use client_server_file_syste.Base.Tests.{Bool-cases, ltb, leb, ◌==◌, if◌then◌else◌}
use client_server_file_syste.Base.Int.{ℤ, pos, neg}
use client_server_file_syste.Base.Text.{Bytes, digits, to_string}

abbrev pub is_digit : ℕ → Bool
is_digit c = leb b'0' c && leb c b'9'

-- `isspace` in the C locale.
abbrev is_space : ℕ → Bool
is_space c = c == 32 || (leb 9 c && leb c 13)

-- The value of the digits that come first, behind those that have been read.
unfoldable pub number : ℕ → Bytes → ℕ
number n [] = n
number n (c ∷ s) = let rest = number (n * 10 + (c - b'0')) s in if is_digit c then rest else n

-- An `int` of this sign and size, if there is one.
abbrev in_range : Bool → ℕ → Option ℤ
in_range minus n =
    if minus
    then (if leb n (2 ^ 31) then some (neg n) else none)
    else (if ltb n (2 ^ 31) then some (pos n) else none)

-- `strtol` behind the sign; no digit is an error too.
unsigned : Bool → Bytes → Option ℤ
unsigned minus [] = none
unsigned minus (c ∷ s) = if is_digit c then in_range minus (number 0 (c ∷ s)) else none

-- `std::stoi(s)`; `none` is an exception. What stands behind the digits is not looked at.
unfoldable pub stoi : Bytes → Option ℤ
unfolding number unsigned
stoi [] = none
stoi (c ∷ s) =
    let rest = stoi s in
    if is_space c
    then rest
    else if c == b'-'
    then unsigned true s
    else if c == b'+'
    then unsigned false s
    else unsigned false (c ∷ s)

-- What `digits` prints begins with a digit.
data Begins : Bytes → Type 0 where
  begins : (c : ℕ) (s : Bytes) → b'0' ≤ c → c ≤ b'9' → Begins (c ∷ s)

digits-Begins : (fuel n : ℕ) (acc : Bytes) → n < fuel → Begins (digits fuel n acc)
unfolding digits
digits-Begins zero n acc h = absurd (omega arith)
digits-Begins (suc fuel) n acc h = elim (Bool-cases (n / 10 == 0)) [
  | inl e ↦ rw e (begins (b'0' + n % 10) acc (omega arith) (omega arith))
  | inr e ↦ rw e (digits-Begins fuel (n / 10) ((b'0' + n % 10) ∷ acc) (ground (arith, e)))
]

number-digits : (fuel n : ℕ) (acc : Bytes) → n < fuel → number 0 (digits fuel n acc) ≡ number n acc
unfolding digits number
number-digits zero n acc h = absurd (omega arith)
number-digits (suc fuel) n acc h =
    ground (arith, number-digits fuel (n / 10) ((b'0' + n % 10) ∷ acc))

Begins-stoi : (s : Bytes) → Begins s → number 0 s < 2 ^ 31 → stoi s ≡ some (pos (number 0 s))
unfolding stoi
Begins-stoi _ (begins c s lo hi) h = ground arith

digits-append : (fuel n : ℕ) (acc s : Bytes) → digits fuel n (acc ++ s) ≡ digits fuel n acc ++ s
unfolding digits
digits-append zero n acc s = refl
digits-append (suc fuel) n acc s =
    ground (arith, digits-append fuel (n / 10) ((b'0' + n % 10) ∷ acc) s)

-- A printed number is read also if something else stands behind it.
stoi-to_string_append :
    (n : ℕ) (s : Bytes) → n < 2 ^ 31 → number n s ≡ n → stoi (to_string n ++ s) ≡ some (pos n)
unfolding to_string
stoi-to_string_append n s h ends =
    let e : number 0 (digits (n + 1) n s) ≡ n = number-digits (n + 1) n s (omega arith) ∙ ends in
    ap stoi (sym (digits-append (n + 1) n [] s))
    ∙ (Begins-stoi (digits (n + 1) n s) (digits-Begins (n + 1) n s (omega arith)) (omega (arith, e))
        ∙ ap (λ (k : ℕ). some (pos k)) e)

pub stoi-to_string : (n : ℕ) → n < 2 ^ 31 → stoi (to_string n) ≡ some (pos n)
unfolding number
stoi-to_string n h = ap stoi (sym (append-nil (to_string n))) ∙ stoi-to_string_append n [] h refl

-- Numbers with the same print are the same.
pub to_string_injective :
    (m n : ℕ) (s : Bytes)
    → m < 2 ^ 31
    → n < 2 ^ 31
    → ((k : ℕ) → number k s ≡ k)
    → to_string m ++ s ≡ to_string n ++ s
    → m ≡ n
to_string_injective m n s hm hn ends e = pos_injective (
    sym (stoi-to_string_append m s hm (ends m))
    ∙ (ap stoi e ∙ stoi-to_string_append n s hn (ends n)))
  where
    pos_injective : some (pos m) ≡ some (pos n) → m ≡ n
    pos_injective p = cc
