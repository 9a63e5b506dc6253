-- ===== src/Registry/Dynamo/OrphanLaws.antt =====
-- The orphaned labels that `Records` of registry/dynamodb/registry.go finds.
use mathlib.Core.Option
use external_dns.Prelude.{
  Bool, Bool-cases, List, Option, Text, [], any, ap, arith, false, if-both, if◌then◌else◌, inl, inr,
  int_eq, lookup, lookup-remove, ltb, nat_eq, none, refl, remove, same→eq, some, sym, text_eq, true,
  ℕ, ◌==◌, ◌∙◌, ◌∷◌, ◌≡◌,
}
use external_dns.Endpoint.Labels.{Cipher, new_labels_from_string}
use external_dns.Endpoint.Owner.{is_visited}
use external_dns.Endpoint.Types.{Endpoint, EndpointKey, Labels, key, key_eq, record_type_txt}
use external_dns.Registry.ApplyLaws.{Whenever-bind}
use external_dns.Registry.Dynamo.Read.{LabelTable}
use external_dns.Registry.Dynamo.Records.{
  DynamoScan, aside_if, fill_cache, keep_record, key_set, labelled, list_provider, list_scanned,
  scan_all, scan_known, scan_txt, set_aside,
}
use external_dns.Registry.Dynamo.Types.{
  DynamoRegistry, Progress, done, panicked, stopped, unfinished,
}
use external_dns.Registry.GenerateLaws.{Whenever}
use external_dns.Registry.Mapper.{to_endpoint_name}

Whenever-imp :
    {A : Type 0} {P Q : A → Type 0} (o : Option A)
    → Whenever P o
    → ((x : A) → P x → Q x)
    → Whenever Q o
Whenever-imp none h f = tt
Whenever-imp (some x) h f = f x h

-- an endpoint with the key
abbrev pub key_listed : EndpointKey → List Endpoint → Bool
key_listed k rs = any (λ r. key r == k) rs

abbrev pub has_labels : Option Labels → Bool
has_labels none = false
has_labels (some labels) = true

SameOrphans : DynamoScan → DynamoScan → Type 0
SameOrphans s s' = s'.orphaned_labels ≡ s.orphaned_labels

module _ (cipher : Cipher) (im : DynamoRegistry) (r : Endpoint) (s : DynamoScan) where
  set_aside-SameOrphans :
      (labels : Labels) (o : Option (Text × Text))
      → Whenever (SameOrphans s) (set_aside r labels o s)
  unfolding SameOrphans
  set_aside-SameOrphans labels none = tt
  set_aside-SameOrphans labels (some (name, kind)) = refl

  aside_if-SameOrphans : (o : Option Labels) → Whenever (SameOrphans s) (aside_if im r o s)
  unfolding SameOrphans
  aside_if-SameOrphans none = refl
  aside_if-SameOrphans (some labels) =
      set_aside-SameOrphans labels (to_endpoint_name im.mapper r.dns_name)

  scan_txt-SameOrphans : (ts : List Text) → Whenever (SameOrphans s) (scan_txt cipher im r ts s)
  scan_txt-SameOrphans [] = tt
  scan_txt-SameOrphans (t ∷ ts) =
      aside_if-SameOrphans (new_labels_from_string cipher t im.txt_encrypt_aes_key)

module _ (cipher : Cipher) (im : DynamoRegistry) (labels : LabelTable) where
  -- What is orphaned is in the table.
  abbrev InTable : DynamoScan → Type 0
  InTable s = (k : EndpointKey) → lookup k labels ≡ none → lookup k s.orphaned_labels ≡ none

  -- The orphans of a scan are those at its start without those that a record has.
  abbrev Remaining : DynamoScan → List Endpoint → DynamoScan → Type 0
  Remaining s rs s' =
      (k : EndpointKey)
      → lookup k s'.orphaned_labels ≡ (if key_listed k rs then none else lookup k s.orphaned_labels)

  kept-Remaining :
      (r : Endpoint) (s : DynamoScan) (o : Option DynamoScan)
      → lookup (key r) labels ≡ none
      → InTable s
      → Whenever (SameOrphans s) o
      → Whenever (Remaining s (r ∷ [])) o
  unfolding any SameOrphans
  kept-Remaining r s none e h same_orphans = tt
  kept-Remaining r s (some s') e h same_orphans = λ k. unchanged k
    where
      unchanged :
          (k : EndpointKey)
          → lookup k s'.orphaned_labels
            ≡ (if key_listed k (r ∷ []) then none else lookup k s.orphaned_labels)
      unchanged k = elim (Bool-cases (key r == k)) [
        | inl t ↦ rw t (
            ap (λ m. lookup k m) same_orphans
            ∙ h k (ap (λ j. lookup j labels) (sym (same→eq (key r) k t)) ∙ e))
        | inr f ↦ rw f (ap (λ m. lookup k m) same_orphans)
      ]

  known-Remaining :
      (r : Endpoint) (s : DynamoScan) (known : Labels)
      → Remaining s (r ∷ []) (
          keep_record
            (labelled known r)
            (record s { orphaned_labels = remove (key r) s.orphaned_labels }))
  unfolding any
  known-Remaining r s known k =
      lookup-remove (key r) k s.orphaned_labels
      ∙ ap (λ b. if b then none else lookup k s.orphaned_labels) (once (key r == k))
    where
      once : (b : Bool) → b ≡ (if b then true else false)
      once true = refl
      once false = refl

  scan_known-Remaining :
      (r : Endpoint) (s : DynamoScan) (o : Option Labels)
      → lookup (key r) labels ≡ o
      → InTable s
      → Whenever (Remaining s (r ∷ [])) (scan_known cipher im r o s)
  unfolding scan_known SameOrphans
  scan_known-Remaining r s (some known) e h = known-Remaining r s known
  scan_known-Remaining r s none e h = kept-Remaining r s _ e h (
      if-both (Whenever (SameOrphans s)) (r.record_type == record_type_txt) _
        (some (keep_record (labelled [] r) s))
        (scan_txt-SameOrphans cipher im (labelled [] r) s r.targets) same_orphans)
    where
      same_orphans : SameOrphans s (keep_record (labelled [] r) s)
      same_orphans = refl

  Remaining-InTable :
      (r : Endpoint) (s s' : DynamoScan) → InTable s → Remaining s (r ∷ []) s' → InTable s'
  Remaining-InTable r s s' h left k e =
      left k ∙ if-both (λ o. o ≡ none) (key_listed k (r ∷ [])) none _ refl (h k e)

  Remaining-trans :
      (r : Endpoint) (rs : List Endpoint) (s s1 s2 : DynamoScan)
      → Remaining s (r ∷ []) s1
      → Remaining s1 rs s2
      → Remaining s (r ∷ rs) s2
  unfolding any
  Remaining-trans r rs s s1 s2 first second k = ground (arith, first k, second k)

  scan_all-Remaining :
      (rs : List Endpoint) (s : DynamoScan)
      → InTable s
      → Whenever (Remaining s rs) (scan_all cipher im labels rs s)
  unfolding scan_all any
  scan_all-Remaining [] s h = λ k. refl
  scan_all-Remaining (r ∷ rs) s h =
      Whenever-bind (Remaining s (r ∷ [])) (Remaining s (r ∷ rs)) _ _
        (λ s1 first.
          Whenever-imp _ (scan_all-Remaining rs s1 (Remaining-InTable r s s1 h first))
            λ s2 second. Remaining-trans r rs s s1 s2 first second)
        (scan_known-Remaining r s (lookup (key r) labels) refl h)

lookup-key_set :
    (k : EndpointKey) (labels : LabelTable)
    → lookup k (key_set labels) ≡ Option.map (λ known. tt) (lookup k labels)
unfolding lookup
lookup-key_set k [] = refl
lookup-key_set k ((j, known) ∷ labels) = elim (Bool-cases (j == k)) [
  | inl e ↦ rw e refl
  | inr e ↦ rw e (lookup-key_set k labels)
]

is_visited-has_labels : (o : Option Labels) → is_visited (Option.map (λ known. tt) o) ≡ has_labels o
is_visited-has_labels none = refl
is_visited-has_labels (some known) = refl

fill_cache-orphans :
    (now : ℕ) (eps : List Endpoint) (im : DynamoRegistry)
    → (fill_cache now eps im).orphaned_labels ≡ im.orphaned_labels
fill_cache-orphans now eps im =
    if-both (λ (i : DynamoRegistry). i.orphaned_labels ≡ im.orphaned_labels)
      (ltb 0 im.cache_interval) _ im refl refl

-- The result's registry has as orphans what the table has and no record.
abbrev pub OrphansOf :
    LabelTable → List Endpoint → Progress (DynamoRegistry × List Endpoint) → Type 0
OrphansOf labels rs (done (im, eps)) =
    (k : EndpointKey)
    → is_visited (lookup k im.orphaned_labels)
      ≡ (if key_listed k rs then false else has_labels (lookup k labels))
OrphansOf labels rs (stopped s e) = ⊥
OrphansOf labels rs panicked = Unit
OrphansOf labels rs unfinished = ⊥

list_scanned-OrphansOf :
    (cipher : Cipher) (im : DynamoRegistry) (now : ℕ) (labels : LabelTable) (rs : List Endpoint)
    (s : DynamoScan) (o : Option DynamoScan)
    → s.orphaned_labels ≡ key_set labels
    → Whenever (Remaining cipher im labels s rs) o
    → OrphansOf labels rs (list_scanned im now labels o)
list_scanned-OrphansOf cipher im now labels rs s none e h = tt
list_scanned-OrphansOf cipher im now labels rs s (some s') e h = λ k.
    ap (λ m. is_visited (lookup k m)) (fill_cache-orphans now _ _)
    ∙ ap (λ o. is_visited o) (h k)
    ∙ elim (Bool-cases (key_listed k rs)) [
      | inl t ↦ rw t refl
      | inr f ↦ rw f (
          ap (λ m. is_visited (lookup k m)) e
          ∙ ap (λ o. is_visited o) (lookup-key_set k labels)
          ∙ is_visited-has_labels (lookup k labels))
    ]

-- When `Records` has read the provider's records, its orphaned labels are those of the table's keys
-- that no record of the provider has: with them, only such entries are deleted.
pub list_provider-OrphansOf :
    (cipher : Cipher) (now : ℕ) (labels : LabelTable) (rs : List Endpoint) (im : DynamoRegistry)
    → OrphansOf labels rs (list_provider cipher now labels (some rs) im)
unfolding list_provider
list_provider-OrphansOf cipher now labels rs im =
    let first_scan : DynamoScan = record {
      orphaned_labels = key_set labels;
      endpoints = [];
      label_map = [];
      txt_records_map = [];
    } in
    list_scanned-OrphansOf cipher im now labels rs first_scan _ refl (
      scan_all-Remaining cipher im labels rs first_scan
        λ k e. lookup-key_set k labels ∙ ap (λ o. Option.map (λ known. tt) o) e)
