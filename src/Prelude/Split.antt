-- ===== src/Prelude/Split.antt =====
-- Splitting and joining texts, and trimming a byte.
use mathlib.Core.Path.{◌≡◌, refl, sym, ap, ◌∙◌}
use mathlib.Core.Logic.{◌≢◌, inl, inr}
use mathlib.Core.Bool.{true, false}
use mathlib.Core.List.{
  List, [], ◌∷◌, ◌++◌, append_assoc, append-nil, reverse, reverse-append, reverse-reverse,
}
use Prim.Native.Nat.{ℕ}
use native.Mathlib.Omega.{arith}
use external_dns.Prelude.Base.{eqb, eqb_iff, Bool-cases}
use external_dns.Prelude.Equality.{Text}
use external_dns.Prelude.Strings.{split_from, split, join, trim_left_byte, trim_byte}
use external_dns.Prelude.Lists.{All, All-reverse}

abbrev pub Lacks : ℕ → Text → Type 0
Lacks b = All (λ c. c ≢ b)

split_from-Lacks : (sep : ℕ) (p cur : Text) → Lacks sep p → split_from sep cur p ≡ (cur ++ p) ∷ []
unfolding split_from
split_from-Lacks sep [] cur h = rw append-nil
split_from-Lacks sep (c ∷ p) cur (hc, h) = ground (
  arith,
  eqb_iff c sep,
  hc,
  split_from-Lacks sep p (cur ++ c ∷ []) h,
  append_assoc cur (c ∷ []) p,
)

split_from-sep :
    (sep : ℕ) (p cur rest : Text)
    → Lacks sep p
    → split_from sep cur (p ++ sep ∷ rest) ≡ (cur ++ p) ∷ split_from sep [] rest
unfolding split_from
split_from-sep sep [] cur rest h = ground (arith, append-nil cur)
split_from-sep sep (c ∷ p) cur rest (hc, h) = ground (
  arith,
  eqb_iff c sep,
  hc,
  split_from-sep sep p (cur ++ c ∷ []) rest h,
  append_assoc cur (c ∷ []) p,
)

split-join_cons :
    (sep : ℕ) (p : Text) (ps : List Text)
    → All (Lacks sep) (p ∷ ps)
    → split_from sep [] (join (p ∷ ps) sep) ≡ p ∷ ps
unfolding join
split-join_cons sep p [] (h, _) = split_from-Lacks sep p [] h
split-join_cons sep p (q ∷ ps) (h, hs) =
    split_from-sep sep p [] (join (q ∷ ps) sep) h ∙ ap (λ r. p ∷ r) (split-join_cons sep q ps hs)

-- Splitting a join of parts without the separator gives the parts back.
pub split-join :
    (sep : ℕ) (p : Text) (ps : List Text)
    → All (Lacks sep) (p ∷ ps)
    → split (join (p ∷ ps) sep) sep ≡ p ∷ ps
unfolding split
split-join = split-join_cons

-- Splitting two texts at the one separator between them.
pub split-two :
    (sep : ℕ) (p q : Text) → Lacks sep p → Lacks sep q → split (p ++ sep ∷ q) sep ≡ p ∷ q ∷ []
unfolding split
split-two sep p q hp hq =
    split_from-sep sep p [] q hp ∙ ap (λ r. p ∷ r) (split_from-Lacks sep q [] hq)

pub split-Lacks : (sep : ℕ) (p : Text) → Lacks sep p → split p sep ≡ p ∷ []
unfolding split
split-Lacks sep p h = split_from-Lacks sep p [] h

pub trim_left-Lacks : (b : ℕ) (s : Text) → Lacks b s → trim_left_byte b s ≡ s
unfolding trim_left_byte
trim_left-Lacks b [] h = refl
trim_left-Lacks b (c ∷ s) (hc, h) = ground (arith, eqb_iff c b, hc)

trim_left-cons : (b : ℕ) (s : Text) → trim_left_byte b (b ∷ s) ≡ trim_left_byte b s
unfolding trim_left_byte
trim_left-cons b s = ground arith

-- A text without the byte is trimmed to itself.
pub trim_byte-Lacks : (b : ℕ) (s : Text) → Lacks b s → trim_byte b s ≡ s
unfolding trim_byte
trim_byte-Lacks b s h =
    rw (trim_left-Lacks b s h, trim_left-Lacks b (reverse s) (All-reverse (λ c. c ≢ b) s h))
      (reverse-reverse s)

keep_head : (b c : ℕ) (s : Text) → c ≢ b → trim_left_byte b (c ∷ s) ≡ c ∷ s
unfolding trim_left_byte
keep_head b c s h = ground (arith, eqb_iff c b, h)

-- So is a text with the byte before and behind it.
pub trim_byte-wrapped :
    (b c : ℕ) (s : Text) → Lacks b (c ∷ s) → trim_byte b (b ∷ (c ∷ s) ++ b ∷ []) ≡ c ∷ s
unfolding trim_byte
trim_byte-wrapped b c s (hc, h) =
    let t : trim_left_byte b (b ∷ (c ∷ s) ++ b ∷ []) ≡ (c ∷ s) ++ b ∷ [] =
      trim_left-cons b ((c ∷ s) ++ b ∷ []) ∙ keep_head b c (s ++ b ∷ []) hc in
    rw (t, reverse-append (c ∷ s) (b ∷ []))
      (ap reverse (
          trim_left-cons b (reverse (c ∷ s))
          ∙ trim_left-Lacks b (reverse (c ∷ s)) (All-reverse (λ d. d ≢ b) (c ∷ s) (hc, h)))
        ∙ reverse-reverse (c ∷ s))

-- The first part of a text with a separator.
pub split-first :
    (sep : ℕ) (p rest : Text) → Lacks sep p → split (p ++ sep ∷ rest) sep ≡ p ∷ split rest sep
unfolding split
split-first sep p rest h = split_from-sep sep p [] rest h

split_from-ne : (sep : ℕ) (s cur : Text) → split_from sep cur s ≢ []
unfolding split_from
split_from-ne sep [] cur = λ e. cc
split_from-ne sep (c ∷ s) cur = elim (Bool-cases (eqb c sep)) [
  | inl e ↦ rw (e, split_from) (λ h. cc)
  | inr e ↦ rw (e, split_from) (split_from-ne sep s (cur ++ c ∷ []))
]

join-cons :
    (sep : ℕ) (p : Text) (ps : List Text) → ps ≢ [] → join (p ∷ ps) sep ≡ p ++ sep ∷ join ps sep
unfolding join
join-cons sep p [] h = absurd (h refl)
join-cons sep p (q ∷ ps) h = refl

join-one : (sep : ℕ) (p : Text) → join (p ∷ []) sep ≡ p
unfolding join
join-one sep p = refl

at_separator :
    (sep c : ℕ) (s cur : Text)
    → eqb c sep ≡ true
    → split_from sep cur (c ∷ s) ≡ cur ∷ split_from sep [] s
unfolding split_from
at_separator sep c s cur e = rw (e, split_from) refl

at_other :
    (sep c : ℕ) (s cur : Text)
    → eqb c sep ≡ false
    → split_from sep cur (c ∷ s) ≡ split_from sep (cur ++ c ∷ []) s
unfolding split_from
at_other sep c s cur e = rw (e, split_from) refl

join-split_from : (sep : ℕ) (s cur : Text) → join (split_from sep cur s) sep ≡ cur ++ s
unfolding split_from
join-split_from sep [] cur = join-one sep cur ∙ sym (append-nil cur)
join-split_from sep (c ∷ s) cur = elim (Bool-cases (eqb c sep)) [
  | inl e ↦
      ap (λ ls. join ls sep) (at_separator sep c s cur e)
      ∙ join-cons sep cur (split_from sep [] s) (split_from-ne sep s [])
      ∙ ap (λ t. cur ++ sep ∷ t) (join-split_from sep s [])
      ∙ ap (λ d. cur ++ d ∷ s) (sym ((eqb_iff c sep).0 e))
  | inr e ↦
      ap (λ ls. join ls sep) (at_other sep c s cur e)
      ∙ join-split_from sep s (cur ++ c ∷ [])
      ∙ append_assoc cur (c ∷ []) s
]

-- A text whose parts are joined again is as it was.
pub join-split : (sep : ℕ) (s : Text) → join (split s sep) sep ≡ s
unfolding split
join-split sep s = join-split_from sep s []
