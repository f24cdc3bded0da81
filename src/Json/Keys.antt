-- ===== src/Json/Keys.antt =====
-- redaction.ts, `FORBIDDEN_KEY`: which keys its pattern finds, as the texts that occur in them.
use hyper_trader.Common.{
  ℕ, ◌≡◌, ◌≢◌, ◌↔◌, ◌⊎◌, inl, inr, refl, sym, ap, ◌∙◌, subst, Bool, true, false, ◌||◌, String, List,
  [], ◌∷◌, ◌++◌, arith, codes, utf16_units, to_lower, map, Bool-cases,
}
use hyper_trader.Json.{
  is_dot, starts_with, second_after_gap, joined, forbidden_at, forbidden_within, is_forbidden_key,
}

-- No code unit, or one that does not end a line.
abbrev pub IsGap : List ℕ → Type 0
IsGap [] = Unit
IsGap (c ∷ []) = (c ≢ 0x0a) × (c ≢ 0x0d) × (c ≢ 0x2028) × (c ≢ 0x2029)
IsGap (c ∷ d ∷ s) = ⊥

-- Two words with a gap between them.
abbrev pub IsPair : (first second : String) → List ℕ → Type 0
IsPair first second w = (g : List ℕ) × IsGap g × (w ≡ codes first ++ g ++ codes second)

abbrev pub IsWord : String → List ℕ → Type 0
IsWord word w = w ≡ codes word

-- What a key may not hold.
abbrev pub IsSecret : List ℕ → Type 0
IsSecret w =
    IsPair "private" "key" w
    ⊎ (IsWord "seed" w
        ⊎ (IsWord "mnemonic" w
            ⊎ (IsWord "secret" w
                ⊎ (IsWord "signature" w
                    ⊎ (IsPair "signed" "payload" w
                        ⊎ (IsPair "signing" "payload" w
                            ⊎ (IsPair "action" "bytes" w
                                ⊎ (IsWord "preimage" w ⊎ IsPair "exchange" "body" w))))))))

-- A text begins with one that has a property.
abbrev pub IsFront : (List ℕ → Type 0) → List ℕ → Type 0
IsFront P s = (w : List ℕ) × (after : List ℕ) × (s ≡ w ++ after) × P w

-- One that has a property occurs in a text.
abbrev pub IsWithin : (List ℕ → Type 0) → List ℕ → Type 0
IsWithin P s =
    (before : List ℕ) × (w : List ℕ) × (after : List ℕ) × (s ≡ before ++ w ++ after) × P w

-- A secret occurs in the key, in capital or small letters.
unfoldable pub IsForbidden : String → Type 0
IsForbidden key = IsWithin IsSecret (map to_lower (utf16_units (codes key)))

starts_with_iff : (s p : List ℕ) → (starts_with s p ≡ true) ↔ ((after : List ℕ) × (s ≡ p ++ after))
unfolding starts_with
starts_with_iff s [] = (λ e. (s, refl), λ e. refl)
starts_with_iff [] (p ∷ ps) = (λ e. cc, λ (after, e). cc)
starts_with_iff (c ∷ s) (p ∷ ps) =
    let rest = starts_with_iff s ps in
    (
      λ e.
          let (after, same) = rest.0 (ground (arith, e)) in
          let head : c ≡ p = ground (arith, e) in (after, cc (same, head)),
      λ (after, e).
          let tail : s ≡ ps ++ after = cc (e) in
          let head : c ≡ p = cc (e) in
          let found : starts_with s ps ≡ true = rest.1 (after, tail) in
          rw (found) (ground (arith, head)),
    )

IsWord-iff :
    (word : String) (s : List ℕ) → (starts_with s (codes word) ≡ true) ↔ IsFront (IsWord word) s
IsWord-iff word s =
    let start = starts_with_iff s (codes word) in
    (
      λ e. let (after, same) = start.0 e in (codes word, after, same, refl),
      λ (w, after, same, is). start.1 (after, same ∙ ap (λ t. t ++ after) is),
    )

is_dot_iff : (c : ℕ) → (is_dot c ≡ true) ↔ IsGap (c ∷ [])
is_dot_iff c = (λ e. ground (arith, e), λ h. ground (arith, h))

-- A text begins with a gap and a word, or with a word, a gap and a word.
IsGapped : (first second s : List ℕ) → Type 0
IsGapped first second s =
    (g : List ℕ) × (after : List ℕ) × (s ≡ (first ++ g ++ second) ++ after) × IsGap g

gap_found : (second s : List ℕ) → second_after_gap second s ≡ true → IsGapped [] second s
unfolding second_after_gap IsGapped
gap_found second [] e = let (after, same) = (starts_with_iff [] second).0 e in ([], after, same, tt)
gap_found second (c ∷ s) e = elim (Bool-cases (starts_with (c ∷ s) second)) [
  | inl now ↦ let (after, same) = (starts_with_iff (c ∷ s) second).0 now in ([], after, same, tt)
  | inr later ↦
      let (after, same) = (starts_with_iff s second).0 (ground (arith, e, later)) in
      (c ∷ [], after, ap (λ t. c ∷ t) same, (is_dot_iff c).0 (ground (arith, e, later)))
]

gap_finds :
    (second s g after : List ℕ)
    → s ≡ (g ++ second) ++ after
    → IsGap g
    → second_after_gap second s ≡ true
unfolding second_after_gap
gap_finds second [] [] after e h = (starts_with_iff [] second).1 (after, e)
gap_finds second (c ∷ s) [] after e h =
    let now = (starts_with_iff (c ∷ s) second).1 (after, e) in rw now refl
gap_finds second [] (d ∷ []) after e h = cc
gap_finds second (c ∷ s) (d ∷ []) after e h =
    let tail : s ≡ second ++ after = cc (e) in
    let head : d ≡ c = cc (e) in
    let later = (starts_with_iff s second).1 (after, tail) in
    let dot = (is_dot_iff c).1 (subst (λ x. IsGap (x ∷ [])) head h) in ground (arith, later, dot)
gap_finds second s (d ∷ d' ∷ g) after e h = absurd h

joined_iff : (first second s : List ℕ) → (joined first second s ≡ true) ↔ IsGapped first second s
unfolding joined IsGapped
joined_iff [] second s =
    (λ e. gap_found second s e, λ (g, after, same, h). gap_finds second s g after same h)
joined_iff (p ∷ ps) second [] = (λ e. cc, λ (g, after, same, h). cc)
joined_iff (p ∷ ps) second (c ∷ s) =
    let rest = joined_iff ps second s in
    (
      λ e.
          let (g, after, same, h) = rest.0 (ground (arith, e)) in
          let head : c ≡ p = ground (arith, e) in (g, after, cc (same, head), h),
      λ (g, after, e, h).
          let tail : s ≡ (ps ++ g ++ second) ++ after = cc (e) in
          let head : c ≡ p = cc (e) in
          let found : joined ps second s ≡ true = rest.1 (g, after, tail, h) in
          rw found (ground (arith, head)),
    )

IsPair-iff :
    (first second : String) (s : List ℕ)
    → (joined (codes first) (codes second) s ≡ true) ↔ IsFront (IsPair first second) s
unfolding IsGapped
IsPair-iff first second s =
    let found = joined_iff (codes first) (codes second) s in
    (
      λ e. let (g, after, same, h) = found.0 e in (_, after, same, (g, h, refl)),
      λ (w, after, same, (g, h, is)). found.1 (g, after, same ∙ ap (λ t. t ++ after) is, h),
    )

or_IsFront :
    (a b : Bool) (P Q : List ℕ → Type 0) (s : List ℕ)
    → (a ≡ true) ↔ IsFront P s
    → (b ≡ true) ↔ IsFront Q s
    → ((a || b) ≡ true) ↔ IsFront (λ w. P w ⊎ Q w) s
or_IsFront true b P Q s p q =
    (λ _. let (w, after, same, h) = p.0 refl in (w, after, same, inl h), λ _. refl)
or_IsFront false b P Q s p q = (
  λ e. let (w, after, same, h) = q.0 e in (w, after, same, inr h),
  λ (w, after, same, h). elim h [
    | inl l ↦ cc (p.1 (w, after, same, l))
    | inr r ↦ q.1 (w, after, same, r)
  ],
)

forbidden_at_iff : (s : List ℕ) → (forbidden_at s ≡ true) ↔ IsFront IsSecret s
unfolding forbidden_at
forbidden_at_iff s = or_IsFront _ _ _ _ s (IsPair-iff "private" "key" s) (
    or_IsFront _ _ _ _ s (IsWord-iff "seed" s) (
      or_IsFront _ _ _ _ s (IsWord-iff "mnemonic" s) (
        or_IsFront _ _ _ _ s (IsWord-iff "secret" s) (
          or_IsFront _ _ _ _ s (IsWord-iff "signature" s) (
            or_IsFront _ _ _ _ s (IsPair-iff "signed" "payload" s) (
              or_IsFront _ _ _ _ s (IsPair-iff "signing" "payload" s) (
                or_IsFront _ _ _ _ s (IsPair-iff "action" "bytes" s) (
                  or_IsFront _ _ _ _ s (IsWord-iff "preimage" s)
                    (IsPair-iff "exchange" "body" s)))))))))

none_at_end : forbidden_at [] ≡ false
unfolding forbidden_at joined starts_with second_after_gap
none_at_end = refl

or_second : (a b : Bool) → b ≡ true → (a || b) ≡ true
or_second a b h = ground (arith, h)

IsWithin-iff : (s : List ℕ) → (forbidden_within s ≡ true) ↔ IsWithin IsSecret s
unfolding forbidden_within
IsWithin-iff [] = (
  λ e. cc,
  λ (before, w, after, same, h).
      elim before as (λ b. [] ≡ b ++ w ++ after → false ≡ true) [
        | [] ↦ λ e. sym none_at_end ∙ (forbidden_at_iff []).1 (w, after, e, h)
        | c ∷ b ↦ λ e. cc
      ]
        same,
)
IsWithin-iff (c ∷ s) =
    let rest = IsWithin-iff s in
    let here = forbidden_at_iff (c ∷ s) in
    (
      λ e. elim (Bool-cases (forbidden_at (c ∷ s))) [
        | inl now ↦ let (w, after, same, h) = here.0 now in ([], w, after, same, h)
        | inr later ↦
            let (before, w, after, same, h) = rest.0 (ground (arith, e, later)) in
            (c ∷ before, w, after, ap (λ t. c ∷ t) same, h)
      ],
      λ (before, w, after, same, h).
          elim before as (λ b. c ∷ s ≡ b ++ w ++ after → forbidden_within (c ∷ s) ≡ true) [
            | [] ↦ λ e. rw (here.1 (w, after, e, h)) refl
            | d ∷ b ↦ λ e.
                let tail : s ≡ b ++ w ++ after = cc (e) in
                let later = rest.1 (b, w, after, tail, h) in
                or_second (forbidden_at (c ∷ s)) _ later
          ]
            same,
    )

-- The keys that the pattern finds are the forbidden ones.
pub is_forbidden_key_iff : (key : String) → (is_forbidden_key key ≡ true) ↔ IsForbidden key
unfolding is_forbidden_key IsForbidden
is_forbidden_key_iff key = IsWithin-iff (map to_lower (utf16_units (codes key)))

-- No secret occurs in the key.
unfoldable pub IsAllowed : String → Type 0
IsAllowed key = ¬ IsForbidden key

pub is_forbidden_key-IsAllowed : (key : String) → (is_forbidden_key key ≡ false) ↔ IsAllowed key
unfolding IsAllowed
is_forbidden_key-IsAllowed key = (
  λ e. λ h. absurd_of e ((is_forbidden_key_iff key).1 h),
  λ n. elim (Bool-cases (is_forbidden_key key)) [
    | inl found ↦ absurd (n ((is_forbidden_key_iff key).0 found))
    | inr none ↦ none
  ],
)
  where
    absurd_of : {b : Bool} → b ≡ false → b ≡ true → ⊥
    absurd_of e h = cc
