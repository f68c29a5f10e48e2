-- ===== src/Prelude/Text.antt =====
-- JavaScript strings as lists of UTF-16 code units, with the methods that the panel calls.
use Prim.Native.Nat.{ℕ, ◌+◌, ◌-◌, ◌≤◌, ◌<◌}
use Prim.Native.Char.{code}
use Prim.Native.String.{String}
use mathlib.Core.Path.{◌≡◌, refl}
use mathlib.Core.Bool.{Bool, true, false, ◌||◌, ◌&&◌}
use mathlib.Core.Logic.{inl, inr, ◌↔◌}
use mathlib.Core.List.{List, [], ◌∷◌, ◌++◌, map}
use native.Mathlib.Omega.{arith}
use argus_observability.Prelude.Tests.{if◌then◌else◌, leb, ◌==◌, Bool-cases}

abbrev pub Text : Type 0
Text = List ℕ

-- A literal of the source: its code points, which are its code units as the literals are ASCII.
unfoldable pub lit : String → Text
lit String.[] = []
lit (String.◌∷◌ c s) = code c ∷ lit s

-- `a === b`.
unfoldable pub text_eq : Text → Text → Bool
text_eq [] [] = true
text_eq [] (y ∷ ys) = false
text_eq (x ∷ xs) [] = false
text_eq (x ∷ xs) (y ∷ ys) = x == y && text_eq xs ys

pub text_eq_refl : (a : Text) → text_eq a a ≡ true
unfolding text_eq
text_eq_refl [] = refl
text_eq_refl (x ∷ xs) = ground (arith, text_eq_refl xs)

pub eq_of_text_eq : (a b : Text) → text_eq a b ≡ true → a ≡ b
unfolding text_eq
eq_of_text_eq [] [] h = refl
eq_of_text_eq [] (y ∷ ys) h = cc
eq_of_text_eq (x ∷ xs) [] h = cc
eq_of_text_eq (x ∷ xs) (y ∷ ys) h = ground (arith, eq_of_text_eq xs ys)

pub text_eq_iff : (a b : Text) → (text_eq a b ≡ true) ↔ (a ≡ b)
text_eq_iff a b = (eq_of_text_eq a b, λ e. rw e (text_eq_refl b))

-- `!s` of a string.
abbrev pub is_empty : Text → Bool
is_empty [] = true
is_empty (c ∷ s) = false

-- `a || b` of strings.
abbrev pub or_text : Text → Text → Text
or_text [] d = d
or_text (c ∷ s) d = c ∷ s

-- `s.startsWith(p)`.
unfoldable pub starts_with : Text → Text → Bool
starts_with s [] = true
starts_with [] (p ∷ ps) = false
starts_with (c ∷ s) (p ∷ ps) = c == p && starts_with s ps

-- `s.includes(p)`.
unfoldable pub includes : Text → Text → Bool
unfolding starts_with
includes [] p = starts_with [] p
includes (c ∷ s) p = starts_with (c ∷ s) p || includes s p

-- One code unit under the case mapping of ASCII.
unfoldable pub lower_unit : ℕ → ℕ
lower_unit c = if leb b'A' c && leb c b'Z' then c + 32 else c

-- `s.toLowerCase()` on ASCII text.
unfoldable pub to_lower_case : Text → Text
unfolding lower_unit
to_lower_case s = map lower_unit s

unfoldable pub upper_unit : ℕ → ℕ
upper_unit c = if leb b'a' c && leb c b'z' then c - 32 else c

unfoldable pub to_upper_case : Text → Text
unfolding upper_unit
to_upper_case s = map upper_unit s

-- The white space and line terminators that `trim` removes.
unfoldable pub is_space : ℕ → Bool
is_space c =
    (leb 9 c && leb c 13)
    || c == 32
    || c == 0xA0
    || c == 0x1680
    || (leb 0x2000 c && leb c 0x200A)
    || c == 0x2028
    || c == 0x2029
    || c == 0x202F
    || c == 0x205F
    || c == 0x3000
    || c == 0xFEFF

unfoldable pub trim_start : Text → Text
unfolding is_space
trim_start [] = []
trim_start (c ∷ s) = if is_space c then trim_start s else c ∷ s

-- A space at the end goes if nothing but spaces follows it.
unfoldable pub trim_end : Text → Text
unfolding is_space
trim_end [] = []
trim_end (c ∷ s) = let rest = trim_end s in if is_space c && is_empty rest then [] else c ∷ rest

-- `s.trim()`.
unfoldable pub trim : Text → Text
unfolding trim_start trim_end
trim s = trim_end (trim_start s)

-- `parts.join(sep)`.
unfoldable pub join : Text → List Text → Text
join sep [] = []
join sep (a ∷ []) = a
join sep (a ∷ b ∷ rest) = a ++ (sep ++ join sep (b ∷ rest))

-- `s.split(c)` for a separator of one code unit: the first part, and the others.
unfoldable pub split_at : ℕ → Text → Text × List Text
split_at c [] = ([], [])
split_at c (x ∷ s) =
    let rest = split_at c s in if x == c then ([], rest.0 ∷ rest.1) else (x ∷ rest.0, rest.1)

unfoldable pub split : ℕ → Text → List Text
unfolding split_at
split c s = (split_at c s).0 ∷ (split_at c s).1

-- `parts.pop()`.
abbrev pub last_or {ℓ} : {A : Type ℓ} → A → List A → A
last_or d [] = d
last_or d (x ∷ xs) = last_or x xs

-- `xs.includes(s)`.
unfoldable pub has_text : List Text → Text → Bool
has_text [] s = false
has_text (x ∷ xs) s = text_eq x s || has_text xs s

pub text_eq_comm : (a b : Text) → text_eq a b ≡ text_eq b a
unfolding text_eq
text_eq_comm [] [] = refl
text_eq_comm [] (y ∷ ys) = refl
text_eq_comm (x ∷ xs) [] = refl
text_eq_comm (x ∷ xs) (y ∷ ys) = ground (arith, text_eq_comm xs ys)

-- How often a text occurs in a list.
unfoldable pub occurs : Text → List Text → ℕ
unfolding text_eq
occurs x [] = 0
occurs x (y ∷ ys) = (if text_eq x y then 1 else 0) + occurs x ys

pub occurs-append : (x : Text) (ys zs : List Text) → occurs x (ys ++ zs) ≡ occurs x ys + occurs x zs
unfolding occurs
occurs-append x [] zs = omega arith
occurs-append x (y ∷ ys) zs = omega (arith, occurs-append x ys zs)

pub has_text_iff : (xs : List Text) (s : Text) → (has_text xs s ≡ true) ↔ (0 < occurs s xs)
unfolding has_text occurs
has_text_iff [] s = (λ h. cc, λ h. absurd (omega arith))
has_text_iff (x ∷ xs) s = ground (arith, has_text_iff xs s, text_eq_comm s x)

-- `set.add(s)` on a set in insertion order.
unfoldable pub add_text : Text → List Text → List Text
unfolding has_text
add_text s xs = if has_text xs s then xs else xs ++ (s ∷ [])

pub occurs-add_text :
    (x s : Text) (xs : List Text)
    → occurs x xs ≤ 1
    → occurs x (add_text s xs) ≡ (if text_eq x s then 1 else occurs x xs)
unfolding add_text occurs
occurs-add_text x s xs h = elim (Bool-cases (has_text xs s)) [
  | inl e ↦ rw (e, add_text) (ground (arith, has_text_iff xs s, text_eq_iff x s))
  | inr e ↦
      rw (e, add_text, occurs-append x xs (s ∷ []))
        (ground (arith, has_text_iff xs s, text_eq_iff x s))
]
