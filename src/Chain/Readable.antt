-- ===== src/Chain/Readable.antt =====
-- What `serialize_core` of storage/evidence_chain.py writes can be read back: two rows that are
-- written alike have the same values.
use linux_xai_security_assis.Base.{
  ℕ, ◌+◌, ◌-◌, ◌*◌, ◌/◌, ◌%◌, ◌<◌, ◌≤◌, ◌≡◌, ◌≢◌, ◌⊎◌, inl, inr, refl, sym, ap, ◌∙◌, ◌&&◌, true,
  false, Option, none, some, List, [], ◌∷◌, ◌++◌, map, arith, Text, codes, All, ltb, leb, ◌==◌,
  ==_iff, if◌then◌else◌, Bool-cases,
}
use mathlib.Core.List.{append_assoc}
use linux_xai_security_assis.Chain.Json.{
  Value, null, number, text, hex_digit, escape_unit, escape_char, escape, quoted, dump_value,
  dump_pair, dump_more, dumps,
}
use linux_xai_security_assis.Chain.{Row, get, pairs, serialize_core}

-- A Unicode character, which no surrogate is.
abbrev pub IsScalar : ℕ → Type 0
IsScalar c = ((c < 55296) ⊎ (57343 < c)) × (c < 1114112)

-- What a column holds: texts of characters, and literals that are neither texts nor `null`.
abbrev pub IsStorable : Value → Type 0
IsStorable null = Unit
IsStorable (number literal) = (literal ≢ codes "null") × All (λ c. (c ≢ 93) × (c ≢ 34)) literal
IsStorable (text t) = All IsScalar t

-- The first character of an escaped text and what stands after it.
abbrev unhex : ℕ → ℕ
unhex d = if ltb d 58 then d - 48 else d - 87

abbrev Read : Type 0
Read = Option (ℕ × Text)

four : Text → Read
four (a ∷ b ∷ c ∷ d ∷ x) = some (unhex a * 4096 + unhex b * 256 + unhex c * 16 + unhex d, x)
four t = none

abbrev paired : ℕ → Read → Read
paired u none = none
paired u (some (v, x)) = some (65536 + (u - 55296) * 1024 + (v - 56320), x)

low : ℕ → Text → Read
unfolding four
low u (p ∷ q ∷ x) = paired u (four x)
low u t = none

abbrev surrogate : Read → Read
surrogate none = none
surrogate (some (u, x)) = if leb 55296 u && ltb u 56320 then low u x else some (u, x)

after_backslash : Text → Read
unfolding four low
after_backslash [] = none
after_backslash (k ∷ x) =
    if k == 117
    then surrogate (four x)
    else if k == 110
    then some (10, x)
    else if k == 114
    then some (13, x)
    else if k == 116
    then some (9, x)
    else if k == 102
    then some (12, x)
    else if k == 98
    then some (8, x)
    else some (k, x)

first : Text → Read
unfolding after_backslash
first [] = none
first (c ∷ x) = if c == 34 then none else if c == 92 then after_backslash x else some (c, x)

unhex-hex_digit : (d : ℕ) → d < 16 → unhex (hex_digit d) ≡ d
unfolding hex_digit
unhex-hex_digit d h = ground arith

four-digits :
    (c : ℕ) → c < 65536 → c / 4096 % 16 * 4096 + c / 256 % 16 * 256 + c / 16 % 16 * 16 + c % 16 ≡ c
four-digits c h = omega arith

four-escape_unit :
    (c : ℕ) (x : Text)
    → c < 65536
    → after_backslash (
        117
        ∷ hex_digit (c / 4096 % 16)
        ∷ hex_digit (c / 256 % 16)
        ∷ hex_digit (c / 16 % 16)
        ∷ hex_digit (c % 16)
        ∷ x)
      ≡ surrogate (some (c, x))
unfolding after_backslash four
four-escape_unit c x h =
    rw
      (
        unhex-hex_digit (c / 4096 % 16) (omega arith),
        unhex-hex_digit (c / 256 % 16) (omega arith),
        unhex-hex_digit (c / 16 % 16) (omega arith),
        unhex-hex_digit (c % 16) (omega arith),
        four-digits c h,
      )
      refl

low-escape_unit :
    (u v : ℕ) (x : Text)
    → v < 65536
    → low u (escape_unit v ++ x) ≡ some (65536 + (u - 55296) * 1024 + (v - 56320), x)
unfolding low four escape_unit
low-escape_unit u v x h =
    rw
      (
        unhex-hex_digit (v / 4096 % 16) (omega arith),
        unhex-hex_digit (v / 256 % 16) (omega arith),
        unhex-hex_digit (v / 16 % 16) (omega arith),
        unhex-hex_digit (v % 16) (omega arith),
        four-digits v h,
      )
      refl

none≢some {ℓ} : {A : Type ℓ} {a : A} → none ≡ some a → ⊥
none≢some h = cc h

-- A character above U+FFFF.
two_units :
    (c : ℕ) (x : Text)
    → 65536 ≤ c
    → c < 1114112
    → first (
        (escape_unit (55296 + (c - 65536) / 1024) ++ escape_unit (56320 + (c - 65536) % 1024)) ++ x)
      ≡ some (c, x)
unfolding first escape_unit
two_units c x low_end high_end =
    let u = 55296 + (c - 65536) / 1024 in
    let v = 56320 + (c - 65536) % 1024 in
    let high : (leb 55296 u && ltb u 56320) ≡ true = ground arith in
    let second : surrogate (some (u, escape_unit v ++ x))
        ≡ some (65536 + (u - 55296) * 1024 + (v - 56320), x) =
      rw high (low-escape_unit u v x (omega arith)) in
    let whole : 65536 + (u - 55296) * 1024 + (v - 56320) ≡ c = omega arith in
    four-escape_unit u (escape_unit v ++ x) (omega arith)
    ∙ second
    ∙ ap (λ (n : ℕ). some (n, x)) whole

-- What the decoder makes of an escaped character.
first-escape_char : (c : ℕ) (x : Text) → IsScalar c → first (escape_char c ++ x) ≡ some (c, x)
unfolding first escape_char after_backslash
first-escape_char c x h = elim (Bool-cases (c == 34)) [
  | inl quote ↦ rw quote (ap (λ n. some (n, x)) (sym ((==_iff c 34).0 quote)))
  | inr other ↦ elim (Bool-cases (c == 92)) [
    | inl slash ↦ rw (other, slash) (ap (λ n. some (n, x)) (sym ((==_iff c 92).0 slash)))
    | inr plain ↦ elim (Bool-cases (c == 10)) [
      | inl is ↦ rw (other, plain, is) (ap (λ n. some (n, x)) (sym ((==_iff c 10).0 is)))
      | inr not_10 ↦ elim (Bool-cases (c == 13)) [
        | inl is ↦ rw (other, plain, not_10, is) (ap (λ n. some (n, x)) (sym ((==_iff c 13).0 is)))
        | inr not_13 ↦ elim (Bool-cases (c == 9)) [
          | inl is ↦
              rw (other, plain, not_10, not_13, is)
                (ap (λ n. some (n, x)) (sym ((==_iff c 9).0 is)))
          | inr not_9 ↦ elim (Bool-cases (c == 12)) [
            | inl is ↦
                rw (other, plain, not_10, not_13, not_9, is)
                  (ap (λ n. some (n, x)) (sym ((==_iff c 12).0 is)))
            | inr not_12 ↦ elim (Bool-cases (c == 8)) [
              | inl is ↦
                  rw (other, plain, not_10, not_13, not_9, not_12, is)
                    (ap (λ n. some (n, x)) (sym ((==_iff c 8).0 is)))
              | inr not_8 ↦ elim (Bool-cases (leb 32 c && leb c 126)) [
                | inl printed ↦
                    rw (other, plain, not_10, not_13, not_9, not_12, not_8, printed)
                      (rw (other, plain) refl)
                | inr hidden ↦ elim (Bool-cases (ltb c 65536)) [
                  | inl small ↦
                      let below : c < 65536 = ground (arith, small) in
                      let lone : (leb 55296 c && ltb c 56320) ≡ false = ground (arith, h.0) in
                      rw (other, plain, not_10, not_13, not_9, not_12, not_8, hidden, small)
                        (four-escape_unit c x below ∙ (rw lone refl))
                  | inr large ↦
                      rw (other, plain, not_10, not_13, not_9, not_12, not_8, hidden, large)
                        (two_units c x (ground (arith, large)) h.1)
                ]
              ]
            ]
          ]
        ]
      ]
    ]
  ]
]

-- The pairs that a text begins and ends with.
escape-injective :
    (s t x y : Text)
    → All IsScalar s
    → All IsScalar t
    → escape s ++ (34 ∷ x) ≡ escape t ++ (34 ∷ y)
    → (s ≡ t) × (x ≡ y)
unfolding escape first
escape-injective [] [] x y hs ht e = (refl, cc)
escape-injective [] (d ∷ t) x y hs ht e =
    let there = first-escape_char d (escape t ++ (34 ∷ y)) ht.0 in
    absurd (none≢some (ap first (e ∙ append_assoc (escape_char d) (escape t) (34 ∷ y)) ∙ there))
escape-injective (c ∷ s) [] x y hs ht e =
    let here = first-escape_char c (escape s ++ (34 ∷ x)) hs.0 in
    absurd (
      none≢some
        (sym (ap first (sym (append_assoc (escape_char c) (escape s) (34 ∷ x)) ∙ e)) ∙ here))
escape-injective (c ∷ s) (d ∷ t) x y hs ht e =
    let here = first-escape_char c (escape s ++ (34 ∷ x)) hs.0 in
    let there = first-escape_char d (escape t ++ (34 ∷ y)) ht.0 in
    let both : some (c, escape s ++ (34 ∷ x)) ≡ some (d, escape t ++ (34 ∷ y)) =
      sym here
      ∙ ap first (
          sym (append_assoc (escape_char c) (escape s) (34 ∷ x))
          ∙ e
          ∙ append_assoc (escape_char d) (escape t) (34 ∷ y))
      ∙ there in
    let heads : c ≡ d = cc both in
    let tails : escape s ++ (34 ∷ x) ≡ escape t ++ (34 ∷ y) = cc both in
    let (same, rest) = escape-injective s t x y hs.1 ht.1 tails in (cc (heads, same), rest)

heads_of : {c d : ℕ} {x y : Text} → ◌≡◌ {A = Text} (c ∷ x) (d ∷ y) → c ≡ d
heads_of e = cc e

tails_of : {c d : ℕ} {x y : Text} → ◌≡◌ {A = Text} (c ∷ x) (d ∷ y) → x ≡ y
tails_of e = cc e

quoted-injective :
    (s t x y : Text)
    → All IsScalar s
    → All IsScalar t
    → quoted s ++ x ≡ quoted t ++ y
    → (s ≡ t) × (x ≡ y)
unfolding quoted
quoted-injective s t x y hs ht e =
    let tails : (escape s ++ (34 ∷ [])) ++ x ≡ (escape t ++ (34 ∷ [])) ++ y = cc e in
    escape-injective s t x y hs ht
      (sym (append_assoc (escape s) (34 ∷ []) x) ∙ tails ∙ append_assoc (escape t) (34 ∷ []) y)

abbrev IsInside : ℕ → Type 0
IsInside c = (c ≢ 93) × (c ≢ 34)

-- What stands before the first bracket.
split_at_bracket :
    (p q x y : Text)
    → All IsInside p
    → All IsInside q
    → p ++ (93 ∷ x) ≡ q ++ (93 ∷ y)
    → (p ≡ q) × (x ≡ y)
split_at_bracket [] [] x y hp hq e = (refl, cc)
split_at_bracket [] (d ∷ q) x y hp hq e = absurd (hq.0.0 (cc))
split_at_bracket (c ∷ p) [] x y hp hq e = absurd (hp.0.0 (cc))
split_at_bracket (c ∷ p) (d ∷ q) x y hp hq e =
    let tails : p ++ (93 ∷ x) ≡ q ++ (93 ∷ y) = cc in
    let heads : c ≡ d = cc in
    let (same, rest) = split_at_bracket p q x y hp.1 hq.1 tails in (cc, rest)

null-IsInside : All IsInside (codes "null")
null-IsInside = (
  ((λ e. absurd (omega arith)), λ e. absurd (omega arith)),
  (
    ((λ e. absurd (omega arith)), λ e. absurd (omega arith)),
    (
      ((λ e. absurd (omega arith)), λ e. absurd (omega arith)),
      (((λ e. absurd (omega arith)), λ e. absurd (omega arith)), tt),
    ),
  ),
)

-- No literal begins as a text does.
no_quote : (literal x : Text) (rest : Text) → All IsInside literal → literal ++ (93 ∷ x) ≢ 34 ∷ rest
no_quote [] x rest h e = absurd (omega (arith, heads_of e))
no_quote (c ∷ literal) x rest h e = h.0.1 (heads_of e)

-- A value is determined by what is written, up to its bracket.
dump_value-injective :
    (v w : Value) (x y : Text)
    → IsStorable v
    → IsStorable w
    → dump_value v ++ (93 ∷ x) ≡ dump_value w ++ (93 ∷ y)
    → (v ≡ w) × (x ≡ y)
unfolding dump_value quoted
dump_value-injective null null x y hv hw e =
    (refl, (split_at_bracket (codes "null") (codes "null") x y null-IsInside null-IsInside e).1)
dump_value-injective null (number l) x y hv hw e =
    absurd (hw.0 (sym (split_at_bracket (codes "null") l x y null-IsInside hw.1 e).0))
dump_value-injective (number l) null x y hv hw e =
    absurd (hv.0 (split_at_bracket l (codes "null") x y hv.1 null-IsInside e).0)
dump_value-injective (number l) (number m) x y hv hw e =
    let (same, rest) = split_at_bracket l m x y hv.1 hw.1 e in (ap number same, rest)
dump_value-injective null (text t) x y hv hw e =
    absurd (no_quote (codes "null") x _ null-IsInside e)
dump_value-injective (text s) null x y hv hw e =
    absurd (no_quote (codes "null") y _ null-IsInside (sym e))
dump_value-injective (number l) (text t) x y hv hw e = absurd (no_quote l x _ hv.1 e)
dump_value-injective (text s) (number m) x y hv hw e = absurd (no_quote m y _ hw.1 (sym e))
dump_value-injective (text s) (text t) x y hv hw e =
    let (same, rest) = quoted-injective s t (93 ∷ x) (93 ∷ y) hv hw e in
    (ap text same, tails_of rest)

cancel_left : (p x y : Text) → p ++ x ≡ p ++ y → x ≡ y
cancel_left [] x y e = e
cancel_left (c ∷ p) x y e = cancel_left p x y (tails_of e)

-- The rows hold what SQLite stores, in the columns that the chain covers.
abbrev pub HoldsStorable : List Text → Row → Type 0
HoldsStorable columns row = All (λ column. IsStorable (get row.fields column)) columns

-- The values in the columns.
abbrev pub values : List Text → Row → List Value
values columns row = map (get row.fields) columns

pair-injective :
    (name : Text) (v w : Value) (x y : Text)
    → IsStorable v
    → IsStorable w
    → dump_pair (name, v) ++ x ≡ dump_pair (name, w) ++ y
    → (v ≡ w) × (x ≡ y)
unfolding dump_pair
pair-injective name v w x y hv hw e =
    let opened : (quoted name ++ (44 ∷ (dump_value v ++ (93 ∷ [])))) ++ x
        ≡ (quoted name ++ (44 ∷ (dump_value w ++ (93 ∷ [])))) ++ y =
      tails_of e in
    let named =
      cancel_left (quoted name) ((44 ∷ (dump_value v ++ (93 ∷ []))) ++ x)
        ((44 ∷ (dump_value w ++ (93 ∷ []))) ++ y)
        (sym (append_assoc (quoted name) (44 ∷ (dump_value v ++ (93 ∷ []))) x)
          ∙ opened
          ∙ append_assoc (quoted name) (44 ∷ (dump_value w ++ (93 ∷ []))) y) in
    let valued : (dump_value v ++ (93 ∷ [])) ++ x ≡ (dump_value w ++ (93 ∷ [])) ++ y =
      tails_of named in
    dump_value-injective v w x y hv hw (
      sym (append_assoc (dump_value v) (93 ∷ []) x)
      ∙ valued
      ∙ append_assoc (dump_value w) (93 ∷ []) y)

more-injective :
    (columns : List Text) (f g : List (Text × Value)) (x y : Text)
    → All (λ column. IsStorable (get f column)) columns
    → All (λ column. IsStorable (get g column)) columns
    → dump_more (pairs columns f) ++ x ≡ dump_more (pairs columns g) ++ y
    → map (get f) columns ≡ map (get g) columns
unfolding dump_more pairs
more-injective [] f g x y hf hg e = refl
more-injective (name ∷ columns) f g x y hf hg e =
    let rest = dump_more (pairs columns f) in
    let other = dump_more (pairs columns g) in
    let opened : (dump_pair (name, get f name) ++ rest) ++ x
        ≡ (dump_pair (name, get g name) ++ other) ++ y =
      tails_of e in
    let (same, tails) =
      pair-injective name (get f name) (get g name) (rest ++ x) (other ++ y) hf.0 hg.0 (
        sym (append_assoc (dump_pair (name, get f name)) rest x)
        ∙ opened
        ∙ append_assoc (dump_pair (name, get g name)) other y) in
    let values = more-injective columns f g x y hf.1 hg.1 tails in cc (same, values)

-- Rows that are serialized alike have the same values in every covered column.
pub serialize_core-injective :
    (columns : List Text) (a b : Row)
    → HoldsStorable columns a
    → HoldsStorable columns b
    → serialize_core columns a ≡ serialize_core columns b
    → values columns a ≡ values columns b
unfolding serialize_core dumps pairs
serialize_core-injective [] a b ha hb e = refl
serialize_core-injective (name ∷ columns) a b ha hb e =
    let rest = dump_more (pairs columns a.fields) ++ (93 ∷ []) in
    let other = dump_more (pairs columns b.fields) ++ (93 ∷ []) in
    let (same, tails) =
      pair-injective name (get a.fields name) (get b.fields name) rest other ha.0 hb.0
        (tails_of e) in
    let more = more-injective columns a.fields b.fields (93 ∷ []) (93 ∷ []) ha.1 hb.1 tails in
    cc (same, more)
