-- ===== src/Base/Search.antt =====
-- Where `find` finds a word.
use mathlib.Core.Path.{◌≡◌, refl}
use mathlib.Core.Bool.{Bool, true, false}
use mathlib.Core.Option.{none, some}
use mathlib.Core.List.{[], ◌∷◌, ◌++◌}
use native.Mathlib.Omega.{arith}
use client_server_file_syste.Base.Lists.{length}
use client_server_file_syste.Base.Text.{Bytes, text, starts_with, find}

-- `path.find(word) != npos`
abbrev pub contains : Bytes → Bytes → Bool
contains word path = elim (find word path) [ none ↦ false | some _ ↦ true ]

starts_with-append : (w s : Bytes) → starts_with w (w ++ s) ≡ true
starts_with-append [] s = refl
starts_with-append (c ∷ w) s = ground (arith, starts_with-append w s)

starts_with_self : (w : Bytes) → starts_with w w ≡ true
starts_with_self [] = refl
starts_with_self (c ∷ w) = ground (arith, starts_with_self w)

contains_self : (w : Bytes) → contains w w ≡ true
unfolding find
contains_self [] = refl
contains_self (c ∷ w) = ground (arith, starts_with_self w)

pub contains-append : (s w : Bytes) → contains w (s ++ w) ≡ true
unfolding find
contains-append [] w = contains_self w
contains-append (c ∷ s) w = ground (arith, contains-append s w)

-- A '.' behind a text ends it, as far as "temp" goes.
starts_with-dot :
    (s r : Bytes) → starts_with (text "temp") (s ++ (b'.' ∷ r)) ≡ starts_with (text "temp") s
starts_with-dot [] r = refl
starts_with-dot (a ∷ []) r = refl
starts_with-dot (a ∷ b ∷ []) r = refl
starts_with-dot (a ∷ b ∷ c ∷ []) r = refl
starts_with-dot (a ∷ b ∷ c ∷ d ∷ s) r = refl

-- No end of ".temp" is a beginning of it, so the first one stands behind a path without it.
pub find-temp :
    (s r : Bytes)
    → find (text ".temp") s ≡ none
    → find (text ".temp") (s ++ (text ".temp" ++ r)) ≡ some (length s)
unfolding find
find-temp [] r h = refl
find-temp (x ∷ s) r h = ground (arith, starts_with-dot s (text "temp" ++ r), find-temp s r)
