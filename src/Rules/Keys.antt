-- ===== src/Rules/Keys.antt =====
-- The text that an event's key is the hash of, taken apart again.
use hyper_trader.Common.{
  ℕ, ◌≡◌, refl, sym, ap, Bool, true, false, not, ◌&&◌, ◌||◌, Option, none, some, List, [], ◌∷◌,
  ◌++◌, arith, ok, plain_error, all, length, is_digit, is_lower_hex, ◌==◌, strip_prefix, codes,
  throw_if-eq-ok, >>-eq-ok, is_some,
}
use hyper_trader.Rules.{
  NotificationRuleRecord, NotificationRuleEvent, Network, testnet, mainnet, validate_rule,
  validate_event, event_key_text, is_hex_text, is_canonical_market, follows, is_pair, is_index,
  is_side, is_last, before_colon, after_colon, network_text, account_text, is_account_link,
  is_source_id,
}

not_bar : ℕ → Bool
not_bar c = not (c == b'|')

-- A text with no `|` in it.
IsPlain : List ℕ → Type 0
unfolding not_bar
IsPlain s = all not_bar s ≡ true

-- What stands before the first `|` and after it.
split_bar :
    (s t u v : List ℕ) → IsPlain s → IsPlain t → s ++ b'|' ∷ u ≡ t ++ b'|' ∷ v → (s ≡ t) × (u ≡ v)
unfolding IsPlain not_bar
split_bar [] [] u v p q e = (refl, cc)
split_bar [] (c ∷ t) u v p q e = absurd (ground arith)
split_bar (c ∷ s) [] u v p q e = absurd (ground arith)
split_bar (c ∷ s) (d ∷ t) u v p q e =
    let (h, k) = split_bar s t u v (ground arith) (ground arith) (cc) in (cc, k)

all_imp :
    (p q : ℕ → Bool)
    → ((c : ℕ) → p c ≡ true → q c ≡ true)
    → (s : List ℕ) → all p s ≡ true
    → all q s ≡ true
all_imp p q h [] e = refl
all_imp p q h (c ∷ s) e = ground (arith, h c, all_imp p q h s)

all_digits-IsPlain : (s : List ℕ) → all is_digit s ≡ true → IsPlain s
unfolding IsPlain not_bar is_digit
all_digits-IsPlain s = all_imp _ _ (λ c h. ground arith) s

hex-IsPlain : (n : ℕ) (s : List ℕ) → is_hex_text n s ≡ true → IsPlain s
unfolding IsPlain not_bar is_lower_hex is_digit
hex-IsPlain n s h = all_imp is_lower_hex _ (λ c e. ground arith) s (ground arith)

is_index-IsPlain : (s : List ℕ) → is_index s ≡ true → IsPlain s
unfolding IsPlain not_bar is_digit
is_index-IsPlain [] h = refl
is_index-IsPlain (c ∷ []) h = ground arith
is_index-IsPlain (c ∷ d ∷ s) h = ground (arith, all_digits-IsPlain (d ∷ s))

is_side-IsPlain : (s : List ℕ) → is_side s ≡ true → IsPlain s
unfolding IsPlain not_bar
is_side-IsPlain [] h = refl
is_side-IsPlain (c ∷ []) h = ground arith
is_side-IsPlain (c ∷ d ∷ s) h = ground arith

colon-IsPlain :
    (test : List ℕ → Bool)
    → ((s : List ℕ) → test s ≡ true → IsPlain s)
    → (s : List ℕ) → IsPlain (before_colon s)
    → is_last test (after_colon s) ≡ true
    → IsPlain s
unfolding IsPlain not_bar
colon-IsPlain test h [] p q = refl
colon-IsPlain test h (c ∷ s) p q = ground (arith, h s, colon-IsPlain test h s)

is_pair-IsPlain :
    (test : List ℕ → Bool)
    → ((s : List ℕ) → test s ≡ true → IsPlain s)
    → (s : List ℕ) → is_pair test s ≡ true
    → IsPlain s
is_pair-IsPlain test h s e =
    colon-IsPlain test h s (is_index-IsPlain (before_colon s) (ground arith)) (ground arith)

follows-IsPlain :
    (start : List ℕ) (test : List ℕ → Bool)
    → IsPlain start
    → ((s : List ℕ) → test s ≡ true → IsPlain s)
    → (s : List ℕ) → follows start test s ≡ true
    → IsPlain s
unfolding IsPlain not_bar strip_prefix
follows-IsPlain [] test p h s e = h s e
follows-IsPlain (c ∷ start) test p h [] e = refl
follows-IsPlain (c ∷ start) test p h (d ∷ s) e =
    ground (arith, follows-IsPlain start test (ground arith) h s)

market-IsPlain : (s : List ℕ) → is_canonical_market s ≡ true → IsPlain s
unfolding is_canonical_market IsPlain not_bar
market-IsPlain s h = ground (
  arith,
  follows-IsPlain (codes "perp:") (is_pair is_index) refl
      (is_pair-IsPlain is_index is_index-IsPlain) s,
  follows-IsPlain (codes "spot:") is_index refl is_index-IsPlain s,
  follows-IsPlain (codes "outcome:") (is_pair is_side) refl
      (is_pair-IsPlain is_side is_side-IsPlain) s,
)

network-IsPlain : (n : Network) → IsPlain (network_text n)
unfolding IsPlain not_bar
network-IsPlain testnet = refl
network-IsPlain mainnet = refl

version-IsPlain : IsPlain (codes "notification-event/v1")
unfolding IsPlain not_bar
version-IsPlain = refl

network_text_inj : (m n : Network) → network_text m ≡ network_text n → m ≡ n
network_text_inj testnet testnet e = refl
network_text_inj testnet mainnet e = absurd (ground arith)
network_text_inj mainnet testnet e = absurd (ground arith)
network_text_inj mainnet mainnet e = refl

-- No account, or one that is a link.
IsLink : Option (List ℕ) → Type 0
IsLink account = (is_some account && not (is_account_link account)) ≡ false

account-IsPlain : (a : Option (List ℕ)) → IsLink a → IsPlain (account_text a)
unfolding IsPlain not_bar IsLink
account-IsPlain none h = refl
account-IsPlain (some a) h = hex-IsPlain 32 a (ground arith)

public_short : (s : List ℕ) → is_hex_text 32 s ≡ true → codes "public" ≡ s → ⊥
public_short s h e = let n : 6 ≡ length s = ap (length {A = ℕ}) e in ground (arith, n)

account_text_inj :
    (a b : Option (List ℕ)) → IsLink a → IsLink b → account_text a ≡ account_text b → a ≡ b
unfolding IsLink
account_text_inj none none h k e = refl
account_text_inj none (some b) h k e = absurd (public_short b (ground arith) e)
account_text_inj (some a) none h k e = absurd (public_short a (ground arith) (sym e))
account_text_inj (some a) (some b) h k e = ap some e

-- What a valid rule and a valid event put into the key.
record IsKeyed (rule : NotificationRuleRecord) (event : NotificationRuleEvent) : Type 0 where
  plain_rule : IsPlain rule.rule_id
  plain_digest : IsPlain rule.identity_digest
  plain_market : IsPlain event.market_id
  link : IsLink event.event_account

valid-IsKeyed :
    (rule : NotificationRuleRecord) (event : NotificationRuleEvent)
    → validate_rule rule ≡ ok tt
    → validate_event event ≡ ok tt
    → IsKeyed rule event
unfolding validate_rule validate_event IsLink
valid-IsKeyed rule event v w =
    let r = throw_if-eq-ok _ _ v in
    let refused : Bool =
      not (is_canonical_market event.market_id)
      || (not (is_source_id event.source_id)
          || (is_some event.event_account && not (is_account_link event.event_account))) in
    let e =
      throw_if-eq-ok refused (plain_error "notification event is invalid") ((>>-eq-ok _ _ w).0) in
    record {
      plain_rule = hex-IsPlain 32 rule.rule_id (ground (arith, r));
      plain_digest = hex-IsPlain 64 rule.identity_digest (ground (arith, r));
      plain_market = market-IsPlain event.market_id (ground (arith, e));
      link = ground (arith, e);
    }

-- The parts of an event's key.
pub record IsSameKey (rule rule' : NotificationRuleRecord) (event event' : NotificationRuleEvent)
    : Type 0 where
  pub same_rule : rule.rule_id ≡ rule'.rule_id
  pub same_digest : rule.identity_digest ≡ rule'.identity_digest
  pub same_network : event.network ≡ event'.network
  pub same_market : event.market_id ≡ event'.market_id
  pub same_account : event.event_account ≡ event'.event_account
  pub same_source : event.source_id ≡ event'.source_id

-- The texts that the keys of two alerts are hashed from, of valid rules and events, are equal only if
-- the rules' ids and digests are, and the events' networks, markets, accounts and sources: the
-- separator cannot be forged, though a source may contain it.
pub event_key_text-IsSameKey :
    (rule rule' : NotificationRuleRecord) (event event' : NotificationRuleEvent)
    → validate_rule rule ≡ ok tt
    → validate_rule rule' ≡ ok tt
    → validate_event event ≡ ok tt
    → validate_event event' ≡ ok tt
    → event_key_text rule event ≡ event_key_text rule' event'
    → IsSameKey rule rule' event event'
unfolding event_key_text
event_key_text-IsSameKey rule rule' event event' v v' w w' e =
    let k = valid-IsKeyed rule event v w in
    let k' = valid-IsKeyed rule' event' v' w' in
    let (_, a) =
      split_bar (codes "notification-event/v1") (codes "notification-event/v1") _ _ version-IsPlain
        version-IsPlain e in
    let (r, b) = split_bar _ _ _ _ k.plain_rule k'.plain_rule a in
    let (d, c) = split_bar _ _ _ _ k.plain_digest k'.plain_digest b in
    let (n, f) =
      split_bar _ _ _ _ (network-IsPlain event.network) (network-IsPlain event'.network) c in
    let (m, g) = split_bar _ _ _ _ k.plain_market k'.plain_market f in
    let (l, s) =
      split_bar _ _ _ _ (account-IsPlain event.event_account k.link)
        (account-IsPlain event'.event_account k'.link) g in
    record {
      same_rule = r;
      same_digest = d;
      same_network = network_text_inj event.network event'.network n;
      same_market = m;
      same_account = account_text_inj event.event_account event'.event_account k.link k'.link l;
      same_source = s;
    }
