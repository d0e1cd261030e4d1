-- ===== src/Signer/Capability.antt =====
-- src/x402-signer-capabilities.ts: which invocations a signer's rules permit.
use vellar_sdk.Prelude.{
  ℕ, String, Bool, true, false, not, ◌&&◌, ◌||◌, List, [], ◌∷◌, Result, ok, err, any, every, length,
  leb, codes, is_digit, ◌==◌, nat_eq, string_eq, if◌then◌else◌, ◌≡◌, refl, ◌↔◌, ◌⊎◌, inl, inr, Memᴰ,
  arith, eq_iff, Bool-cases, is_empty,
}

pub record CapabilityRule : Type 0 where
  pub resource_type : String
  pub action : String

pub record CapabilityRequest : Type 0 where
  pub resource_type : String
  pub action : String

pub data CapabilityError : Type 0 where
  capability_denied : CapabilityRequest → List CapabilityRule → CapabilityError
  invalid_resource_type invalid_action : String → CapabilityError

abbrev is_upper : ℕ → Bool
is_upper c = leb b'A' c && leb c b'Z'

abbrev is_lower : ℕ → Bool
is_lower c = leb b'a' c && leb c b'z'

-- `[A-Z2-7]`.
abbrev pub is_base32 : ℕ → Bool
is_base32 c = is_upper c || leb b'2' c && leb c b'7'

-- `[A-Za-z0-9_]`.
abbrev pub is_symbol_char : ℕ → Bool
is_symbol_char c = is_upper c || is_lower c || is_digit c || c == b'_'

-- `CONTRACT_ID`, on the text's characters.
abbrev pub is_contract_id : List ℕ → Bool
is_contract_id [] = false
is_contract_id (c ∷ cs) = c == b'C' && (length cs == 55 && every is_base32 cs)

-- `SOROBAN_SYMBOL`.
abbrev pub is_soroban_symbol : List ℕ → Bool
is_soroban_symbol cs = leb 1 (length cs) && (leb (length cs) 32 && every is_symbol_char cs)

-- The loop of `assertValidCapabilityRules`.
unfoldable pub assert_valid_capability_rules :
    List CapabilityRule → Result CapabilityError (Unit {0})
assert_valid_capability_rules [] = ok tt
assert_valid_capability_rules (rule ∷ rules) =
    let rest = assert_valid_capability_rules rules in
    if not (rule.resource_type == "*") && not (is_contract_id (codes rule.resource_type))
    then err (invalid_resource_type rule.resource_type)
    else if not (rule.action == "*") && not (is_soroban_symbol (codes rule.action))
    then err (invalid_action rule.action)
    else rest

abbrev pub rule_permits : CapabilityRequest → CapabilityRule → Bool
rule_permits request rule =
    (rule.resource_type == "*" || rule.resource_type == request.resource_type)
    && (rule.action == "*" || rule.action == request.action)

unfoldable pub evaluate_capability : List CapabilityRule → CapabilityRequest → Bool
evaluate_capability rules request =
    if is_empty rules then true else any (rule_permits request) rules

unfoldable pub assert_capability :
    List CapabilityRule → CapabilityRequest → Result CapabilityError (Unit {0})
assert_capability rules request =
    if not (evaluate_capability rules request) then err (capability_denied request rules) else ok tt

-- The rule names the value, or any.
abbrev pub Names : String → String → Type 0
Names pattern_text value = (pattern_text ≡ "*") ⊎ (pattern_text ≡ value)

rule_permits_iff :
    (request : CapabilityRequest) (rule : CapabilityRule)
    → (rule_permits request rule ≡ true)
      ↔ (Names rule.resource_type request.resource_type × Names rule.action request.action)
rule_permits_iff request rule = ground (
  arith,
  eq_iff rule.resource_type "*",
  eq_iff rule.resource_type request.resource_type,
  eq_iff rule.action "*",
  eq_iff rule.action request.action,
)

any-mem :
    (p : CapabilityRule → Bool) (l : List CapabilityRule)
    → any p l ≡ true
    → (r : CapabilityRule) × Memᴰ r l × (p r ≡ true)
any-mem p [] h = cc
any-mem p (r ∷ l) h = elim (Bool-cases (p r)) [
  | inl here ↦ (r, Memᴰ.head refl, here)
  | inr not_here ↦ let (s, m, q) = any-mem p l (ground arith) in (s, Memᴰ.tail m, q)
]

mem-any :
    (p : CapabilityRule → Bool) (l : List CapabilityRule) (r : CapabilityRule)
    → Memᴰ r l
    → p r ≡ true
    → any p l ≡ true
mem-any p [] r m h = elim m [ ]
mem-any p (s ∷ l) r (Memᴰ.head e) h = rw (← e) (ground arith)
mem-any p (s ∷ l) r (Memᴰ.tail m) h = let later = mem-any p l r m h in ground arith

-- The check passes exactly when there are no rules at all, or one of them names the requested
-- resource type, or any, and the requested action, or any.
pub assert_capability-ok_iff :
    (rules : List CapabilityRule) (request : CapabilityRequest)
    → (assert_capability rules request ≡ ok tt) ↔ (
        (rules ≡ [])
        ⊎ ((rule : CapabilityRule) × Memᴰ rule rules
            × Names rule.resource_type request.resource_type
            × Names rule.action request.action))
unfolding assert_capability evaluate_capability
assert_capability-ok_iff [] request = (λ h. inl refl, λ h. refl)
assert_capability-ok_iff (r ∷ rules) request = (
  λ h.
      let (rule, m, p) = any-mem (rule_permits request) (r ∷ rules) (ground arith) in
      let (named, action) = (rule_permits_iff request rule).0 p in inr (rule, m, named, action),
  λ h. elim h [
    | inl empty ↦ cc
    | inr (rule, m, named, action) ↦
        let found =
          mem-any (rule_permits request) (r ∷ rules) rule m
            ((rule_permits_iff request rule).1 (named, action)) in
        ground arith
  ],
)
