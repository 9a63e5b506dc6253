-- ===== src/Registry/Dynamo/KeyLaws.antt =====
-- What `fromDynamoKey` and `fromDynamoLabels` of registry/dynamodb/registry.go read of what was
-- written.
use mathlib.Core.List.{append_assoc, append-nil, map}
use external_dns.Prelude.{
  Bool-cases, Lacks, List, Text, [], ap, arith, eqb, eqb_iff, false, if◌then◌else◌, inl, inr,
  insert, int_eq, keep, length, lookup, lookup-insert, nat_eq, not, refl, same_refl, same→eq, some,
  split_n, split_n_from, suc, sym, text_eq, zero, ℕ, ◌++◌, ◌-◌, ◌==◌, ◌∙◌, ◌∷◌, ◌≡◌, ◌≢◌, ◌≤◌,
}
use external_dns.Endpoint.Types.{EndpointKey, Labels, key_eq, owner_label_key}
use external_dns.Registry.Dynamo.Keys.{
  from_dynamo_key, from_dynamo_labels, key_of_parts, key_of_text, label_values, malformed_key,
  read_key, read_labels_of, to_dynamo_key, to_dynamo_labels, with_owner,
}
use external_dns.Registry.Dynamo.Types.{Service}
use external_dns.Registry.Records.{name_key}

split_n-sep :
    (sep n : ℕ) (p cur rest : Text)
    → Lacks sep p
    → split_n_from sep (suc n) cur (p ++ sep ∷ rest) ≡ (cur ++ p) ∷ split_n_from sep n [] rest
unfolding split_n_from
split_n-sep sep n [] cur rest h = ground (arith, append-nil cur, eqb_iff sep sep)
split_n-sep sep n (c ∷ p) cur rest (hc, h) = ground (
  arith,
  eqb_iff c sep,
  hc,
  split_n-sep sep n p (cur ++ c ∷ []) rest h,
  append_assoc cur (c ∷ []) p,
)

split_n-last : (sep : ℕ) (s : Text) → split_n_from sep 0 [] s ≡ s ∷ []
unfolding split_n_from
split_n-last sep [] = refl
split_n-last sep (c ∷ s) = refl

split_n-three :
    (sep : ℕ) (p q r : Text)
    → Lacks sep p
    → Lacks sep q
    → split_n (p ++ sep ∷ (q ++ sep ∷ r)) sep 3 ≡ p ∷ q ∷ r ∷ []
unfolding split_n
split_n-three sep p q r hp hq =
    let text = p ++ sep ∷ (q ++ sep ∷ r) in
    let two : 3 - 1 ≡ 2 = omega arith in
    let from_two : split_n text sep 3 ≡ split_n_from sep 2 [] text =
      ap (λ n. split_n_from sep n [] text) two in
    from_two
    ∙ split_n-sep sep 1 p [] (q ++ sep ∷ r) hp
    ∙ ap (λ t. p ∷ t) (split_n-sep sep 0 q [] r hq ∙ ap (λ t. q ∷ t) (split_n-last sep r))

split_n-one : (sep n : ℕ) (cur s : Text) → 1 ≤ length (split_n_from sep n cur s)
unfolding split_n_from
split_n-one sep n cur [] = omega arith
split_n-one sep zero cur (c ∷ s) = omega arith
split_n-one sep (suc n) cur (c ∷ s) = elim (Bool-cases (eqb c sep)) [
  | inl e ↦ rw (e, split_n_from) (omega arith)
  | inr e ↦ rw (e, split_n_from) (split_n-one sep (suc n) (cur ++ c ∷ []) s)
]

split_n-at_least_two :
    (sep n : ℕ) (p cur r : Text) → 2 ≤ length (split_n_from sep (suc n) cur (p ++ sep ∷ r))
unfolding split_n_from
split_n-at_least_two sep n [] cur r =
    rw (same_refl sep, split_n_from) (omega (arith, split_n-one sep n [] r))
split_n-at_least_two sep n (c ∷ p) cur r = elim (Bool-cases (eqb c sep)) [
  | inl e ↦ rw (e, split_n_from) (omega (arith, split_n-one sep n [] (p ++ sep ∷ r)))
  | inr e ↦ rw (e, split_n_from) (split_n-at_least_two sep n p (cur ++ c ∷ []) r)
]

split_n-at_least_three :
    (sep n : ℕ) (p q cur r : Text)
    → 3 ≤ length (split_n_from sep (suc (suc n)) cur (p ++ sep ∷ (q ++ sep ∷ r)))
unfolding split_n_from
split_n-at_least_three sep n [] q cur r =
    rw (same_refl sep, split_n_from) (omega (arith, split_n-at_least_two sep n q [] r))
split_n-at_least_three sep n (c ∷ p) q cur r = elim (Bool-cases (eqb c sep)) [
  | inl e ↦ rw (e, split_n_from) (omega (arith, split_n-at_least_two sep n p [] (q ++ sep ∷ r)))
  | inr e ↦ rw (e, split_n_from) (split_n-at_least_three sep n p q (cur ++ c ∷ []) r)
]

key_of_parts-three : (xs : List Text) → 3 ≤ length xs → key_of_parts xs ≢ malformed_key
key_of_parts-three [] h e = omega (arith, h)
key_of_parts-three (p ∷ []) h e = omega (arith, h)
key_of_parts-three (p ∷ q ∷ []) h e = omega (arith, h)
key_of_parts-three (p ∷ q ∷ r ∷ xs) h e = cc

module _ (service : Service) where
  open service use {
    text_value, map_value, unmarshal_labels, unmarshal_text, unmarshal_text_value,
    unmarshal_map_value,
  }

  from_dynamo_key-text :
      (k : EndpointKey)
      → from_dynamo_key service (to_dynamo_key service k)
        ≡ key_of_parts
            (split_n (k.dns_name ++ b'#' ∷ (k.record_type ++ b'#' ∷ k.set_identifier)) b'#' 3)
  unfolding from_dynamo_key to_dynamo_key key_of_text
  from_dynamo_key-text k = ap (key_of_text service) (unmarshal_text_value _)

  pub from_dynamo_key-to_dynamo_key :
      (k : EndpointKey)
      → Lacks b'#' k.dns_name
      → Lacks b'#' k.record_type
      → from_dynamo_key service (to_dynamo_key service k)
        ≡ read_key (name_key k.dns_name k.record_type k.set_identifier)
  from_dynamo_key-to_dynamo_key k hn ht =
      from_dynamo_key-text k ∙ ap key_of_parts (split_n-three b'#' _ _ k.set_identifier hn ht)

  -- A stored key has two separators, so that reading it does not panic.
  pub to_dynamo_key-no_panic :
      (k : EndpointKey) → from_dynamo_key service (to_dynamo_key service k) ≢ malformed_key
  unfolding split_n
  to_dynamo_key-no_panic k e =
      let two : 3 - 1 ≡ 2 = omega arith in
      let text = k.dns_name ++ b'#' ∷ (k.record_type ++ b'#' ∷ k.set_identifier) in
      let parts = split_n_from b'#' 2 [] text in
      key_of_parts-three parts
        (split_n-at_least_three b'#' 0 k.dns_name k.record_type [] k.set_identifier)
        (ap (λ n. key_of_parts (split_n_from b'#' n [] text)) (sym two)
          ∙ sym (from_dynamo_key-text k)
          ∙ e)

  label_values-keep :
      (labels : Labels)
      → label_values service labels
        ≡ map
            (λ (e : Text × Text). (e.0, text_value e.1))
            (keep (λ (e : Text × Text). not (e.0 == owner_label_key)) labels)
  unfolding label_values keep
  label_values-keep [] = refl
  label_values-keep ((k, v) ∷ labels) = elim (Bool-cases (k == owner_label_key)) [
    | inl e ↦ rw e (label_values-keep labels)
    | inr e ↦ rw e (ap (λ t. (k, text_value v) ∷ t) (label_values-keep labels))
  ]

  lookup-keep_others :
      (j : Text) (labels : Labels)
      → (owner_label_key == j) ≡ false
      → lookup j (keep (λ (e : Text × Text). not (e.0 == owner_label_key)) labels) ≡ lookup j labels
  unfolding lookup keep
  lookup-keep_others j [] h = refl
  lookup-keep_others j ((k, v) ∷ labels) h = elim (Bool-cases (k == owner_label_key)) [
    | inl e ↦ rw (e, same→eq k owner_label_key e, h) (lookup-keep_others j labels h)
    | inr e ↦ rw (e, lookup-keep_others j labels h) refl
  ]

  pub from_dynamo_labels-to_dynamo_labels :
      (labels : Labels) (owner : Text)
      → (m : Labels) × (from_dynamo_labels service (to_dynamo_labels service labels) owner
          ≡ read_labels_of m)
        × ((j : Text) → lookup j m ≡ (if owner_label_key == j then some owner else lookup j labels))
  unfolding from_dynamo_labels to_dynamo_labels
  from_dynamo_labels-to_dynamo_labels labels owner =
      let others = keep (λ (e : Text × Text). not (e.0 == owner_label_key)) labels in
      (
        insert owner_label_key owner others,
        ap (with_owner service owner) (
            ap (λ m. unmarshal_labels (map_value m)) (label_values-keep labels)
            ∙ unmarshal_map_value others),
        λ j. elim (Bool-cases (owner_label_key == j)) [
          | inl e ↦ rw (lookup-insert owner_label_key j owner others, e) refl
          | inr e ↦
              rw (lookup-insert owner_label_key j owner others, e) (lookup-keep_others j labels e)
        ],
      )

  -- A key whose name and type have no `#`, and labels, are read back from the values that are
  -- stored for them: the key with its name, type and identifier, the labels with the reading
  -- registry's owner in place of their own.
  pub entry-reads_back :
      (k : EndpointKey) (labels : Labels) (owner : Text)
      → Lacks b'#' k.dns_name
      → Lacks b'#' k.record_type
      → (from_dynamo_key service (to_dynamo_key service k)
          ≡ read_key (name_key k.dns_name k.record_type k.set_identifier))
        × ((m : Labels) × (from_dynamo_labels service (to_dynamo_labels service labels) owner
              ≡ read_labels_of m)
            × ((j : Text)
                → lookup j m ≡ (if owner_label_key == j then some owner else lookup j labels)))
  entry-reads_back k labels owner hn ht =
      (from_dynamo_key-to_dynamo_key k hn ht, from_dynamo_labels-to_dynamo_labels labels owner)
