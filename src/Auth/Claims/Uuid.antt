-- ===== src/Auth/Claims/Uuid.antt =====
-- What a UUID of version 4 is, by its groups of characters, and that UUID_V4_REGEX of
-- backend/src/modules/auth/utils/parse-refresh-token-claims.ts matches these texts.
use kori.Common.{
  ◌≡◌, refl, ◌∙◌, ap, Bool, true, ℕ, zero, suc, ◌≤◌, List, [], ◌∷◌, ◌++◌, arith, ◌⊎◌, inl, inr, All,
  Bool-cases,
}
use kori.Common.Text.{Text, length}
use kori.Auth.Claims.{is_hex, is_dash, is_four, is_variant, matches, is_uuid_v4, is_between}

-- A digit, or a letter from a to f of either case.
pub IsHexDigit : ℕ → Type 0
IsHexDigit c = ((48 ≤ c) × (c ≤ 57)) ⊎ (((97 ≤ c) × (c ≤ 102)) ⊎ ((65 ≤ c) × (c ≤ 70)))

-- One of 8, 9, a and b, of either case.
pub IsVariant : ℕ → Type 0
IsVariant c = (c ≡ 56) ⊎ ((c ≡ 57) ⊎ ((c ≡ 97) ⊎ ((c ≡ 98) ⊎ ((c ≡ 65) ⊎ (c ≡ 66)))))

pub record IsHexGroup (n : ℕ) (t : Text) : Type 0 where
  pub long : length t ≡ n
  pub digits : All IsHexDigit t

-- Five groups of 8, 4, 4, 4 and 12 hexadecimal digits with dashes between them, of which the third
-- starts with 4 and the fourth with a variant.
pub record IsUuidV4 (t : Text) : Type 0 where
  pub time_low : Text
  pub time_mid : Text
  pub time_high : Text
  pub variant : ℕ
  pub clock : Text
  pub node : Text
  pub groups :
      t
      ≡ time_low
        ++ (45 ∷ (time_mid ++ (45 ∷ 52 ∷ (time_high ++ (45 ∷ variant ∷ (clock ++ (45 ∷ node)))))))
  pub low : IsHexGroup 8 time_low
  pub mid : IsHexGroup 4 time_mid
  pub high : IsHexGroup 3 time_high
  pub is_variant : IsVariant variant
  pub seq : IsHexGroup 3 clock
  pub end : IsHexGroup 12 node

abbrev hexes : ℕ → List (ℕ → Bool)
hexes zero = []
hexes (suc n) = is_hex ∷ hexes n

-- What follows each group in the regular expression.
abbrev node_part : List (ℕ → Bool)
node_part = is_dash ∷ hexes 12

abbrev clock_part : List (ℕ → Bool)
clock_part = is_dash ∷ is_variant ∷ (hexes 3 ++ node_part)

abbrev high_part : List (ℕ → Bool)
high_part = is_dash ∷ is_four ∷ (hexes 3 ++ clock_part)

abbrev mid_part : List (ℕ → Bool)
mid_part = is_dash ∷ (hexes 4 ++ high_part)

split :
    (ps qs : List (ℕ → Bool)) (t : Text)
    → matches (ps ++ qs) t ≡ true
    → (a b : Text) × (t ≡ a ++ b) × (matches ps a ≡ true) × (matches qs b ≡ true)
unfolding matches
split [] qs t h = ([], t, refl, refl, h)
split (p ∷ ps) qs [] h = absurd (cc)
split (p ∷ ps) qs (c ∷ t) h =
    let (a, b, parts, left, right) = split ps qs t (ground arith) in
    (c ∷ a, b, ap (λ x. c ∷ x) parts, ground arith, right)

join :
    (ps qs : List (ℕ → Bool)) (a b : Text)
    → matches ps a ≡ true
    → matches qs b ≡ true
    → matches (ps ++ qs) (a ++ b) ≡ true
unfolding matches
join [] qs [] b left right = right
join [] qs (c ∷ a) b left right = absurd (cc)
join (p ∷ ps) qs [] b left right = absurd (cc)
join (p ∷ ps) qs (c ∷ a) b left right = ground (arith, join ps qs a b)

one :
    (p : ℕ → Bool) (qs : List (ℕ → Bool)) (t : Text)
    → matches (p ∷ qs) t ≡ true
    → (c : ℕ) × (u : Text) × (t ≡ c ∷ u) × (p c ≡ true) × (matches qs u ≡ true)
unfolding matches
one p qs [] h = absurd (cc)
one p qs (c ∷ t) h = (c, t, refl, ground arith, ground arith)

hex_digit : (c : ℕ) → is_hex c ≡ true → IsHexDigit c
unfolding IsHexDigit
hex_digit c h = elim (Bool-cases (is_between 48 57 c)) [
  | inl digit ↦ inl (ground arith, ground arith)
  | inr other ↦ elim (Bool-cases (is_between 97 102 c)) [
    | inl small ↦ inr (inl (ground arith, ground arith))
    | inr capital ↦ inr (inr (ground arith, ground arith))
  ]
]

hex_back : (c : ℕ) → IsHexDigit c → is_hex c ≡ true
unfolding IsHexDigit
hex_back c (inl (a, b)) = ground arith
hex_back c (inr (inl (a, b))) = ground arith
hex_back c (inr (inr (a, b))) = ground arith

variant_of : (c : ℕ) → is_variant c ≡ true → IsVariant c
unfolding IsVariant
variant_of c h = ground arith

variant_back : (c : ℕ) → IsVariant c → is_variant c ≡ true
unfolding IsVariant
variant_back c h = ground arith

group : (n : ℕ) (t : Text) → matches (hexes n) t ≡ true → IsHexGroup n t
unfolding matches
group zero [] h = record { long = refl; digits = tt }
group zero (c ∷ t) h = absurd (cc)
group (suc n) [] h = absurd (cc)
group (suc n) (c ∷ t) h =
    let rest = group n t (ground arith) in
    record { long = ap suc rest.long; digits = (hex_digit c (ground arith), rest.digits) }

group_back : (n : ℕ) (t : Text) → IsHexGroup n t → matches (hexes n) t ≡ true
unfolding matches
group_back zero [] g = refl
group_back zero (c ∷ t) g = absurd (omega (arith, g.long))
group_back (suc n) [] g = absurd (omega (arith, g.long))
group_back (suc n) (c ∷ t) g = ground (
  arith,
  hex_back c g.digits.0,
  group_back n t (record { long = omega (arith, g.long); digits = g.digits.1 }),
)

dash : (c : ℕ) → is_dash c ≡ true → c ≡ 45
dash c h = ground arith

four : (c : ℕ) → is_four c ≡ true → c ≡ 52
four c h = ground arith

pub uuid-IsUuidV4 : (t : Text) → is_uuid_v4 t ≡ true → IsUuidV4 t
unfolding is_uuid_v4
uuid-IsUuidV4 t h =
    let (low, t₁, e₁, m₁, r₁) = split (hexes 8) mid_part t h in
    let (d₁, t₂, e₂, m₂, r₂) = one is_dash (hexes 4 ++ high_part) t₁ r₁ in
    let (mid, t₃, e₃, m₃, r₃) = split (hexes 4) high_part t₂ r₂ in
    let (d₂, t₄, e₄, m₄, r₄) = one is_dash (is_four ∷ (hexes 3 ++ clock_part)) t₃ r₃ in
    let (v, t₅, e₅, m₅, r₅) = one is_four (hexes 3 ++ clock_part) t₄ r₄ in
    let (high, t₆, e₆, m₆, r₆) = split (hexes 3) clock_part t₅ r₅ in
    let (d₃, t₇, e₇, m₇, r₇) = one is_dash (is_variant ∷ (hexes 3 ++ node_part)) t₆ r₆ in
    let (w, t₈, e₈, m₈, r₈) = one is_variant (hexes 3 ++ node_part) t₇ r₇ in
    let (clock, t₉, e₉, m₉, r₉) = split (hexes 3) node_part t₈ r₈ in
    let (d₄, node, e, m, r) = one is_dash (hexes 12) t₉ r₉ in
    record {
      time_low = low;
      time_mid = mid;
      time_high = high;
      variant = w;
      clock = clock;
      node = node;
      groups =
          e₁
          ∙ ap (λ x. low ++ x)
              (e₂
                ∙ dashed d₁ m₂ (
                    e₃
                    ∙ ap (λ x. mid ++ x)
                        (e₄
                          ∙ dashed d₂ m₄ (
                              e₅
                              ∙ version v m₅ (
                                  e₆
                                  ∙ ap (λ x. high ++ x)
                                      (e₇
                                        ∙ dashed d₃ m₇ (
                                            e₈
                                            ∙ ap (λ x. w ∷ x)
                                                (e₉
                                                  ∙ ap (λ x. clock ++ x)
                                                      (e ∙ dashed d₄ m refl)))))))));
      low = group 8 low m₁;
      mid = group 4 mid m₃;
      high = group 3 high m₆;
      is_variant = variant_of w m₈;
      seq = group 3 clock m₉;
      end = group 12 node r;
    }
  where
    dashed : (c : ℕ) {x y : Text} → is_dash c ≡ true → x ≡ y → c ∷ x ≡ 45 ∷ y
    dashed c {x} m h = ap (λ k. k ∷ x) (dash c m) ∙ ap (λ z. 45 ∷ z) h

    version : (c : ℕ) {x y : Text} → is_four c ≡ true → x ≡ y → c ∷ x ≡ 52 ∷ y
    version c {x} m h = ap (λ k. k ∷ x) (four c m) ∙ ap (λ z. 52 ∷ z) h

pub is_uuid-back : (t : Text) → IsUuidV4 t → is_uuid_v4 t ≡ true
unfolding is_uuid_v4
is_uuid-back t u =
    ap is_uuid_v4 u.groups
    ∙ join (hexes 8) mid_part u.time_low _ (group_back 8 u.time_low u.low) (
        join (hexes 4) high_part u.time_mid _ (group_back 4 u.time_mid u.mid) (
          join (hexes 3) clock_part u.time_high _ (group_back 3 u.time_high u.high) (
            with_variant u.variant (u.clock ++ (45 ∷ u.node)) (variant_back u.variant u.is_variant)
              (join (hexes 3) node_part u.clock (45 ∷ u.node) (group_back 3 u.clock u.seq)
                (group_back 12 u.node u.end)))))
  where
    with_variant :
        (c : ℕ) (rest : Text)
        → is_variant c ≡ true
        → matches (hexes 3 ++ node_part) rest ≡ true
        → matches clock_part (45 ∷ c ∷ rest) ≡ true
    with_variant c rest v h = rw (v, h)
