-- ===== src/Prelude/Strings.antt =====
-- The functions of Go's `strings` that the program calls, over the bytes of a text.
use Prim.Native.Char.{code}
use Prim.Native.Nat.{ℕ, zero, suc, ◌+◌, ◌-◌}
use Prim.Native.String.{String}
use mathlib.Core.Bool.{Bool, true, false, ◌&&◌, ◌||◌}
use mathlib.Core.List.{List, [], ◌∷◌, ◌++◌, map, reverse}
use mathlib.Core.Option.{Option, none, some}
use external_dns.Prelude.Base.{eqb, ltb, leb, if◌then◌else◌}
use external_dns.Prelude.Equality.{Text, text_beq}

-- The bytes of an ASCII literal.
abbrev pub codes : String → Text
codes String.[] = []
codes (String.◌∷◌ c s) = code c ∷ codes s

-- `len(s)`
abbrev size : Text → ℕ
size [] = 0
size (c ∷ s) = suc (size s)

-- `strings.CutPrefix`: what follows the prefix, if the text begins with it
unfoldable pub cut_prefix : Text → Text → Option Text
cut_prefix s [] = some s
cut_prefix [] (p ∷ ps) = none
cut_prefix (c ∷ s) (p ∷ ps) = if eqb c p then cut_prefix s ps else none

-- `strings.HasPrefix(s, prefix)`
unfoldable pub has_prefix : Text → Text → Bool
unfolding cut_prefix
has_prefix s p = elim (cut_prefix s p) [ none ↦ false | some r ↦ true ]

-- `strings.TrimPrefix(s, prefix)`
unfoldable pub trim_prefix : Text → Text → Text
unfolding cut_prefix
trim_prefix s p = elim (cut_prefix s p) [ none ↦ s | some r ↦ r ]

-- `strings.CutSuffix`: what stands before the suffix
unfoldable pub cut_suffix : Text → Text → Option Text
unfolding text_beq
cut_suffix [] p = if text_beq [] p then some [] else none
cut_suffix (c ∷ s) p =
    let shorter = cut_suffix s p in
    if text_beq (c ∷ s) p then some [] else elim shorter [ none ↦ none | some r ↦ some (c ∷ r) ]

-- `strings.HasSuffix(s, suffix)`
unfoldable pub has_suffix : Text → Text → Bool
unfolding cut_suffix
has_suffix s p = elim (cut_suffix s p) [ none ↦ false | some r ↦ true ]

-- `strings.TrimSuffix(s, suffix)`
unfoldable pub trim_suffix : Text → Text → Text
unfolding cut_suffix
trim_suffix s p = elim (cut_suffix s p) [ none ↦ s | some r ↦ r ]

-- the part before the first separator, and what follows it
unfoldable pub cut : ℕ → Text → Text × Option Text
cut sep [] = ([], none)
cut sep (c ∷ s) =
    let (part, rest) = cut sep s in if eqb c sep then ([], some s) else (c ∷ part, rest)

-- `strings.Split(s, sep)` at a separator of one byte: never empty
unfoldable pub split_from : ℕ → Text → Text → List Text
split_from sep cur [] = cur ∷ []
split_from sep cur (c ∷ s) = elim (eqb c sep) [
  | true ↦ cur ∷ split_from sep [] s
  | false ↦ split_from sep (cur ++ c ∷ []) s
]

unfoldable pub split : Text → ℕ → List Text
unfolding split_from
split s sep = split_from sep [] s

-- `strings.Join(parts, sep)` at a separator of one byte
unfoldable pub join : List Text → ℕ → Text
join [] sep = []
join (p ∷ []) sep = p
join (p ∷ q ∷ ps) sep = p ++ sep ∷ join (q ∷ ps) sep

-- `strings.Count(s, sep)` at a separator of one byte
unfoldable pub count_byte : ℕ → Text → ℕ
count_byte sep [] = 0
count_byte sep (c ∷ s) = (if eqb c sep then 1 else 0) + count_byte sep s

-- `strings.Contains(s, sep)` at one byte
unfoldable pub contains_byte : Text → ℕ → Bool
contains_byte [] b = false
contains_byte (c ∷ s) b = eqb c b || contains_byte s b

-- `strings.ToLower` on ASCII
unfoldable pub lower : ℕ → ℕ
lower c = if leb b'A' c && leb c b'Z' then c + 32 else c

unfoldable pub to_lower : Text → Text
unfolding lower
to_lower = map lower

-- the order of Go strings: by bytes
unfoldable pub text_ltb : Text → Text → Bool
text_ltb s [] = false
text_ltb [] (d ∷ t) = true
text_ltb (c ∷ s) (d ∷ t) = if ltb c d then true else if eqb c d then text_ltb s t else false

-- `strings.Trim(s, cut)` at a cut set of one byte
unfoldable pub trim_left_byte : ℕ → Text → Text
trim_left_byte b [] = []
trim_left_byte b (c ∷ s) = let rest = trim_left_byte b s in if eqb c b then rest else c ∷ s

unfoldable pub trim_byte : ℕ → Text → Text
unfolding trim_left_byte
trim_byte b s = reverse (trim_left_byte b (reverse (trim_left_byte b s)))

-- the white space of ASCII
abbrev pub is_space : ℕ → Bool
is_space c = (leb 9 c && leb c 13) || eqb c b' '

unfoldable pub trim_left_space : Text → Text
trim_left_space [] = []
trim_left_space (c ∷ s) = let rest = trim_left_space s in if is_space c then rest else c ∷ s

-- `strings.TrimSpace`
unfoldable pub trim_space : Text → Text
unfolding trim_left_space
trim_space s = reverse (trim_left_space (reverse (trim_left_space s)))

-- `strings.Contains(s, pattern)`
unfoldable pub contains_text : Text → Text → Bool
unfolding has_prefix
contains_text [] p = has_prefix [] p
contains_text (c ∷ s) p = has_prefix (c ∷ s) p || contains_text s p

-- `strings.ReplaceAll` for a pattern that is not empty: behind a match its other bytes are skipped
unfoldable pub replace_from : Text → Text → ℕ → Text → Text
unfolding has_prefix
replace_from pattern new k [] = []
replace_from pattern new (suc k) (c ∷ s) = replace_from pattern new k s
replace_from pattern new zero (c ∷ s) = elim (has_prefix (c ∷ s) pattern) [
  | true ↦ new ++ replace_from pattern new (size pattern - 1) s
  | false ↦ c ∷ replace_from pattern new 0 s
]

unfoldable pub replace_all : Text → Text → Text → Text
unfolding replace_from
replace_all s pattern new = replace_from pattern new 0 s

-- `strings.SplitN(s, sep, n)` for a positive n: the last part keeps its separators
unfoldable pub split_n_from : ℕ → ℕ → Text → Text → List Text
split_n_from sep n cur [] = cur ∷ []
split_n_from sep zero cur (c ∷ s) = (cur ++ c ∷ s) ∷ []
split_n_from sep (suc n) cur (c ∷ s) = elim (eqb c sep) [
  | true ↦ cur ∷ split_n_from sep n [] s
  | false ↦ split_n_from sep (suc n) (cur ++ c ∷ []) s
]

unfoldable pub split_n : Text → ℕ → ℕ → List Text
unfolding split_n_from
split_n s sep n = split_n_from sep (n - 1) [] s
