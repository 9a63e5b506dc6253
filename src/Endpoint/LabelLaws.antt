-- ===== src/Endpoint/LabelLaws.antt =====
-- Reading the text of a TXT record back into labels (endpoint/labels.go).
use external_dns.Prelude.{
  All, All-append, All-map, Bool, Bool-cases, Lacks, List, Text, [], any, ap, arith, codes, false,
  if-both, if◌then◌else◌, inl, inr, insert, int_eq, join, lookup, lookup-insert, nat_eq, none, refl,
  some, split, split-join, split-two, split_from, sym, text_beq, text_beq_iff, text_eq, text_ltb,
  trim_byte, trim_byte-Lacks, trim_byte-wrapped, true, ℕ, ◌++◌, ◌==◌, ◌∷◌, ◌≡◌, ◌≢◌,
}
use external_dns.Endpoint.Labels.{
  heritage_slash, heritage_token, keys_of, label_token, label_tokens, new_labels_from_string_plain,
  quote, read_token, read_tokens, serialize_plain, txt_encryption_nonce,
}
use external_dns.Endpoint.SortLaws.{All-insertion_sort, any-insertion_sort}
use external_dns.Endpoint.Targets.{insertion_sort}
use external_dns.Endpoint.Types.{Labels, or_empty}

-- no byte that the text uses as punctuation
abbrev pub IsPlain : Text → Type 0
IsPlain s = Lacks b',' s × Lacks b'=' s × Lacks b'"' s

abbrev pub IsPlainEntry : Text × Text → Type 0
IsPlainEntry e = IsPlain e.0 × IsPlain e.1

-- the value that the loop of `SerializePlain` reads under a key
abbrev value_of : Labels → Text → Text
value_of labels k = or_empty (lookup k labels)

lookup-IsPlain :
    (k : Text) (labels : Labels) → All IsPlainEntry labels → IsPlain (value_of labels k)
unfolding lookup
lookup-IsPlain k [] h = (tt, tt, tt)
lookup-IsPlain k ((j, v) ∷ labels) (hv, h) =
    if-both (λ o. IsPlain (or_empty o)) (j == k) (some v) (lookup k labels) hv.1
      (lookup-IsPlain k labels h)

keys-IsPlain : (labels : Labels) → All IsPlainEntry labels → All IsPlain (keys_of labels)
keys-IsPlain [] h = tt
keys-IsPlain ((j, v) ∷ labels) (hv, h) = (hv.0, keys-IsPlain labels h)

heritage_slash-Lacks :
    Lacks b',' heritage_slash × Lacks b'=' heritage_slash × Lacks b'"' heritage_slash
heritage_slash-Lacks = omega arith

heritage_token-Lacks : Lacks b',' heritage_token × Lacks b'"' heritage_token
heritage_token-Lacks = omega arith

token-Lacks :
    (b : ℕ) (labels : Labels) (k : Text)
    → b ≢ b'='
    → Lacks b heritage_slash
    → Lacks b k
    → Lacks b (value_of labels k)
    → Lacks b (label_token labels k)
unfolding label_token
token-Lacks b labels k ne hs hk hv =
    All-append (λ c. c ≢ b) heritage_slash _ hs
      (All-append (λ c. c ≢ b) k _ hk ((λ q. ne (sym q)), hv))

tokens-Lacks :
    (b : ℕ) (labels : Labels) (ks : List Text)
    → b ≢ b'='
    → Lacks b heritage_slash
    → All (Lacks b) ks
    → ((k : Text) → Lacks b (value_of labels k))
    → All (Lacks b) (label_tokens labels ks)
unfolding label_tokens
tokens-Lacks b labels [] ne hs h hv = tt
tokens-Lacks b labels (k ∷ ks) ne hs (hk, h) hv =
    if-both (All (Lacks b)) (k == txt_encryption_nonce) (label_tokens labels ks) _
      (tokens-Lacks b labels ks ne hs h hv)
      (token-Lacks b labels k ne hs hk (hv k), tokens-Lacks b labels ks ne hs h hv)

-- the labels that reading the tokens of the keys gives
abbrev pub store : Labels → List Text → Labels → Labels
store labels [] m = m
store labels (k ∷ ks) m =
    if k == txt_encryption_nonce
    then store labels ks m
    else store labels ks (insert k (value_of labels k) m)

read_label_token :
    (labels : Labels) (k : Text) (state : Labels × Bool)
    → IsPlain k
    → IsPlain (value_of labels k)
    → read_token (split (label_token labels k) b'=') state
      ≡ some (insert k (value_of labels k) state.0, state.1)
unfolding label_token read_token text_beq
read_label_token labels k (m, found) hk hv =
    let p : split (heritage_slash ++ (k ++ b'=' ∷ value_of labels k)) b'='
        ≡ (heritage_slash ++ k) ∷ value_of labels k ∷ [] =
      split-two b'=' (heritage_slash ++ k) (value_of labels k)
        (All-append (λ c. c ≢ b'=') heritage_slash k heritage_slash-Lacks.1 hk.1) hv.1 in
    rw p

read_label_tokens :
    (labels : Labels) (ks : List Text) (m : Labels) (found : Bool)
    → All IsPlain ks
    → All IsPlainEntry labels
    → read_tokens (label_tokens labels ks) (m, found) ≡ some (store labels ks m, found)
unfolding read_tokens label_tokens
read_label_tokens labels [] m found h hl = refl
read_label_tokens labels (k ∷ ks) m found (hk, h) hl =
    elim (Bool-cases (k == txt_encryption_nonce)) [
      | inl t ↦ rw t (read_label_tokens labels ks m found h hl)
      | inr f ↦ rw f (
          rw (read_label_token labels k (m, found) hk (lookup-IsPlain k labels hl), read_tokens)
            (read_label_tokens labels ks (insert k (value_of labels k) m) found h hl))
    ]

abbrev is_key : Text → Text → Bool
is_key j k = k == j

lookup-store :
    (labels : Labels) (ks : List Text) (m : Labels) (j : Text)
    → lookup j (store labels ks m) ≡ (
        if j == txt_encryption_nonce
        then lookup j m
        else if any (is_key j) ks
        then some (value_of labels j)
        else lookup j m)
unfolding any
lookup-store labels [] m j = ground arith
lookup-store labels (k ∷ ks) m j = elim (Bool-cases (k == txt_encryption_nonce)) [
  | inl t ↦ rw t (
      ground (
        arith,
        lookup-store labels ks m j,
        text_beq_iff k j,
        text_beq_iff k txt_encryption_nonce,
        text_beq_iff j txt_encryption_nonce,
        t,
      ))
  | inr f ↦ rw f (
      ground (
        arith,
        lookup-store labels ks (insert k (value_of labels k) m) j,
        lookup-insert k j (value_of labels k) m,
        text_beq_iff k j,
        text_beq_iff k txt_encryption_nonce,
        text_beq_iff j txt_encryption_nonce,
        f,
        λ (q : k ≡ j). ap (value_of labels) q,
      ))
]

any-keys_of :
    (j : Text) (labels : Labels)
    → (if any (is_key j) (keys_of labels) then some (value_of labels j) else none) ≡ lookup j labels
unfolding any lookup
any-keys_of j [] = refl
any-keys_of j ((k, v) ∷ labels) = ground (arith, any-keys_of j labels)

join-Lacks : (b : ℕ) (ts : List Text) → b ≢ b',' → All (Lacks b) ts → Lacks b (join ts b',')
unfolding join
join-Lacks b [] ne h = tt
join-Lacks b (t ∷ []) ne (h, _) = h
join-Lacks b (t ∷ u ∷ ts) ne (h, hs) =
    All-append (λ c. c ≢ b) t _ h ((λ q. ne (sym q)), join-Lacks b (u ∷ ts) ne hs)

-- the tokens of the labels behind the heritage
abbrev sorted_tokens : Labels → List Text
sorted_tokens labels = label_tokens labels (insertion_sort text_ltb (keys_of labels))

abbrev plain_text : Labels → Text
plain_text labels = join (heritage_token ∷ sorted_tokens labels) b','

sorted-IsPlain :
    (labels : Labels)
    → All IsPlainEntry labels
    → All IsPlain (insertion_sort text_ltb (keys_of labels))
sorted-IsPlain labels h =
    All-insertion_sort IsPlain text_ltb (keys_of labels) (keys-IsPlain labels h)

plain_text-Lacks : (labels : Labels) → All IsPlainEntry labels → Lacks b'"' (plain_text labels)
plain_text-Lacks labels h = join-Lacks b'"' (heritage_token ∷ sorted_tokens labels) (omega arith) (
  heritage_token-Lacks.1,
  tokens-Lacks b'"' labels _ (omega arith) heritage_slash-Lacks.2
      (All-map IsPlain (Lacks b'"') (λ k p. p.2) _ (sorted-IsPlain labels h))
      (λ k. (lookup-IsPlain k labels h).2),
)

trim-serialized :
    (labels : Labels) (with_quotes : Bool)
    → All IsPlainEntry labels
    → trim_byte b'"' (serialize_plain labels with_quotes) ≡ plain_text labels
unfolding serialize_plain
trim-serialized labels false h =
    trim_byte-Lacks b'"' (plain_text labels) (plain_text-Lacks labels h)
trim-serialized labels true h = wrapped (sorted_tokens labels) (plain_text-Lacks labels h)
  where
    wrapped :
        (ts : List Text)
        → Lacks b'"' (join (heritage_token ∷ ts) b',')
        → trim_byte b'"' (quote (join (heritage_token ∷ ts) b',')) ≡ join (heritage_token ∷ ts) b','
    wrapped [] l = unfold join in trim_byte-wrapped b'"' b'h' (codes "eritage=external-dns") l
    wrapped (t ∷ ts) l =
        unfold join in
        trim_byte-wrapped b'"' b'h' (codes "eritage=external-dns" ++ b',' ∷ join (t ∷ ts) b',') l

split-plain_text :
    (labels : Labels)
    → All IsPlainEntry labels
    → split (plain_text labels) b',' ≡ heritage_token ∷ sorted_tokens labels
split-plain_text labels h = split-join b',' heritage_token (sorted_tokens labels) (
  heritage_token-Lacks.0,
  tokens-Lacks b',' labels _ (omega arith) heritage_slash-Lacks.0
      (All-map IsPlain (Lacks b',') (λ k p. p.0) _ (sorted-IsPlain labels h))
      (λ k. (lookup-IsPlain k labels h).0),
)

read_heritage :
    (ts : List Text) → read_tokens (heritage_token ∷ ts) ([], false) ≡ read_tokens ts ([], true)
unfolding read_tokens read_token split split_from text_beq
read_heritage ts = refl

-- the labels that are read back from the text
abbrev pub restored : Labels → Labels
restored labels = store labels (insertion_sort text_ltb (keys_of labels)) []

read_serialized :
    (labels : Labels) (with_quotes : Bool)
    → All IsPlainEntry labels
    → new_labels_from_string_plain (serialize_plain labels with_quotes) ≡ some (restored labels)
unfolding new_labels_from_string_plain
read_serialized labels with_quotes h = rw (
  trim-serialized labels with_quotes h,
  split-plain_text labels h,
  read_heritage (sorted_tokens labels),
  read_label_tokens labels (insertion_sort text_ltb (keys_of labels)) [] true
      (sorted-IsPlain labels h) h,
)

lookup-nil : (j : Text) → lookup {Value = Text} j [] ≡ none
unfolding lookup
lookup-nil j = refl

lookup-restored :
    (labels : Labels) (j : Text)
    → lookup j (restored labels) ≡ (if j == txt_encryption_nonce then none else lookup j labels)
lookup-restored labels j = ground (
  arith,
  lookup-store labels (insertion_sort text_ltb (keys_of labels)) [] j,
  any-insertion_sort (is_key j) text_ltb (keys_of labels),
  any-keys_of j labels,
  lookup-nil j,
)

-- Labels whose keys and values hold no comma, equals sign or quote are read back from their text,
-- with quotes or without: every label but the encryption nonce, and no other.
pub new_labels_from_string_plain-serialize_plain :
    (labels : Labels) (with_quotes : Bool)
    → All IsPlainEntry labels
    → (m : Labels) × (new_labels_from_string_plain (serialize_plain labels with_quotes) ≡ some m)
      × ((j : Text) → lookup j m ≡ (if j == txt_encryption_nonce then none else lookup j labels))
new_labels_from_string_plain-serialize_plain labels with_quotes h =
    (restored labels, read_serialized labels with_quotes h, lookup-restored labels)
