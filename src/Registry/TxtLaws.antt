-- ===== src/Registry/TxtLaws.antt =====
-- The configurations that `NewTXTRegistry` of registry/txt/registry.go accepts.
use external_dns.Prelude.{
  Bool, List, Option, Text, [], arith, eqb, false, if-both, if-cases, is_nil, length, none, not,
  refl, some, sym, true, ℕ, ◌&&◌, ◌||◌, ◌∙◌, ◌∷◌, ◌≡◌, ◌≢◌,
}
use external_dns.Registry.GenerateLaws.{Whenever}
use external_dns.Registry.Txt.{
  Configured, TxtRegistry, aes_key_of, configure_key, configured, key_of_decoded, new_txt_registry,
  refused,
}

-- A configuration has an owner, at most one affix, no key or one of 32 bytes, and a key if it
-- encrypts.
pub record IsConfigured (prefix suffix : Text) (im : TxtRegistry) : Type 0 where
  pub owner : im.owner_id ≢ []
  pub one_affix : (is_nil prefix || is_nil suffix) ≡ true
  pub key : (is_nil im.txt_encrypt_aes_key || eqb (length im.txt_encrypt_aes_key) 32) ≡ true
  pub encrypts : im.txt_encrypt_enabled ≡ true → im.txt_encrypt_aes_key ≢ []

-- What is configured, if it is, has `P`.
abbrev pub IfConfigured : (TxtRegistry → Type 0) → Configured TxtRegistry → Type 0
IfConfigured P (configured im) = P im
IfConfigured P (refused e) = Unit

key_of_decoded-length :
    (o : Option Text) → Whenever (λ k. (is_nil k || eqb (length k) 32) ≡ true) (key_of_decoded o)
key_of_decoded-length none = tt
key_of_decoded-length (some k) =
    if-cases (Whenever (λ k. (is_nil k || eqb (length k) 32) ≡ true)) (eqb (length k) 32) _ _
      (λ e. ground (arith, e)) (λ _. tt)

aes_key_of-length :
    (b64_decode : Text → Option Text) (k : Text)
    → Whenever (λ k. (is_nil k || eqb (length k) 32) ≡ true) (aes_key_of b64_decode k)
unfolding aes_key_of
aes_key_of-length b64_decode k =
    let P = Whenever (λ k. (is_nil k || eqb (length k) 32) ≡ true) in
    if-both P (is_nil k) (some []) _ refl (
      if-cases P (not (eqb (length k) 32)) _ _ (λ _. key_of_decoded-length (b64_decode k))
        (λ e. ground (arith, e)))

is_nil-false : (s : Text) → is_nil s ≡ false → s ≢ []
is_nil-false [] h = λ e. cc
is_nil-false (c ∷ s) h = λ e. cc

configure_key-IsConfigured :
    (o : Option Text) (encrypt : Bool) (prefix suffix : Text) (build : Text → TxtRegistry)
    → Whenever (λ k. (is_nil k || eqb (length k) 32) ≡ true) o
    → ((k : Text) → (build k).owner_id ≢ [])
    → ((k : Text) → (build k).txt_encrypt_aes_key ≡ k)
    → ((k : Text) → (build k).txt_encrypt_enabled ≡ encrypt)
    → IfConfigured (IsConfigured prefix suffix) (configure_key o encrypt prefix suffix build)
unfolding configure_key
configure_key-IsConfigured none encrypt prefix suffix build h owner key enabled = tt
configure_key-IsConfigured (some k) encrypt prefix suffix build h owner key enabled =
    let P = IfConfigured (IsConfigured prefix suffix) in
    if-cases P (encrypt && is_nil k) _ _ (λ _. tt)
      (λ no_key.
        if-cases P (not (is_nil prefix) && not (is_nil suffix)) _ _ (λ _. tt)
          (λ one. record {
            owner = owner k;
            one_affix = ground (arith, one);
            key = rw (key k) h;
            encrypts = λ on empty.
                let e : encrypt ≡ true = sym (enabled k) ∙ on in
                is_nil-false k (ground (arith, no_key, e)) (sym (key k) ∙ empty);
          }))

-- A TXT registry that `NewTXTRegistry` accepts has an owner id, not both a prefix and a suffix, no key
-- or one of 32 bytes, and a key where it encrypts; whatever base64 decodes to.
pub new_txt_registry-IsConfigured :
    (b64_decode : Text → Option Text) (prefix suffix owner_id : Text) (interval : ℕ)
    → (wildcard : Text) (managed excluded : List Text) (encrypt : Bool)
    → (aes_key old_owner_id : Text)
    → IfConfigured (IsConfigured prefix suffix) (
        new_txt_registry b64_decode prefix suffix owner_id interval wildcard managed excluded
          encrypt aes_key old_owner_id)
unfolding new_txt_registry
new_txt_registry-IsConfigured b64_decode prefix suffix owner_id interval wildcard managed excluded
      encrypt aes_key old_owner_id =
    if-cases (IfConfigured (IsConfigured prefix suffix)) (is_nil owner_id) _ _ (λ _. tt)
      (λ named.
        configure_key-IsConfigured (aes_key_of b64_decode aes_key) encrypt prefix suffix _
          (aes_key_of-length b64_decode aes_key) (λ k. is_nil-false owner_id named) (λ k. refl)
          (λ k. refl))
