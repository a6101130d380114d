-- ===== src/Chain/Json.antt =====
-- What storage/evidence_chain.py uses of Python's `json.dumps(…, separators=(",", ":"),
-- ensure_ascii=True)`: an array of `[name, value]` pairs. SQLite stores NULL, numbers and texts; a
-- number is given by the literal that `json` writes for it, since there are no floats here.
use linux_xai_security_assis.Base.{
  ℕ, ◌+◌, ◌-◌, ◌/◌, ◌%◌, ◌≡◌, refl, ◌&&◌, List, [], ◌∷◌, ◌++◌, Text, codes, ltb, leb, ◌==◌,
  if◌then◌else◌,
}

pub data Value : Type 0 where
  null : Value
  number text : Text → Value

unfoldable pub hex_digit : ℕ → ℕ
hex_digit d = if ltb d 10 then 48 + d else 87 + d

-- `\uXXXX`
unfoldable pub escape_unit : ℕ → Text
unfolding hex_digit
escape_unit c =
    codes "\\u"
    ++ (hex_digit (c / 4096 % 16)
        ∷ hex_digit (c / 256 % 16)
        ∷ hex_digit (c / 16 % 16)
        ∷ hex_digit (c % 16)
        ∷ [])

-- A code point above U+FFFF is written as two surrogates.
unfoldable pub escape_char : ℕ → Text
unfolding escape_unit
escape_char c =
    if c == 34
    then codes "\\\""
    else if c == 92
    then codes "\\\\"
    else if c == 10
    then codes "\\n"
    else if c == 13
    then codes "\\r"
    else if c == 9
    then codes "\\t"
    else if c == 12
    then codes "\\f"
    else if c == 8
    then codes "\\b"
    else if leb 32 c && leb c 126
    then c ∷ []
    else if ltb c 65536
    then escape_unit c
    else escape_unit (55296 + (c - 65536) / 1024) ++ escape_unit (56320 + (c - 65536) % 1024)

unfoldable pub escape : Text → Text
unfolding escape_char
escape [] = []
escape (c ∷ cs) = escape_char c ++ escape cs

unfoldable pub quoted : Text → Text
unfolding escape
quoted t = 34 ∷ (escape t ++ (34 ∷ []))

unfoldable pub dump_value : Value → Text
unfolding quoted
dump_value null = codes "null"
dump_value (number literal) = literal
dump_value (text t) = quoted t

unfoldable pub dump_pair : Text × Value → Text
unfolding dump_value
dump_pair (name, value) = 91 ∷ (quoted name ++ (44 ∷ (dump_value value ++ (93 ∷ []))))

unfoldable pub dump_more : List (Text × Value) → Text
unfolding dump_pair
dump_more [] = []
dump_more (p ∷ ps) = 44 ∷ (dump_pair p ++ dump_more ps)

unfoldable pub dumps : List (Text × Value) → Text
unfolding dump_more
dumps [] = codes "[]"
dumps (p ∷ ps) = 91 ∷ (dump_pair p ++ (dump_more ps ++ (93 ∷ [])))

dump_member : Text × Value → Text
unfolding dump_value
dump_member (name, value) = quoted name ++ (58 ∷ dump_value value)

dump_members : List (Text × Value) → Text
unfolding dump_member
dump_members [] = []
dump_members (p ∷ ps) = 44 ∷ (dump_member p ++ dump_members ps)

dump_elements : List Text → Text
unfolding quoted
dump_elements [] = []
dump_elements (t ∷ ts) = codes ", " ++ (quoted t ++ dump_elements ts)

-- `json.dumps` of a list of texts, with the separators that it has by default.
unfoldable pub dumps_texts : List Text → Text
unfolding dump_elements
dumps_texts [] = codes "[]"
dumps_texts (t ∷ ts) = 91 ∷ (quoted t ++ (dump_elements ts ++ (93 ∷ [])))

-- The object of a mapping, whose keys the caller gives in order, as `sort_keys` makes it.
unfoldable pub dumps_object : List (Text × Value) → Text
unfolding dump_members
dumps_object [] = codes "{}"
dumps_object (p ∷ ps) = 123 ∷ (dump_member p ++ (dump_members ps ++ (125 ∷ [])))

dumps_object_runs :
    dumps_object ((codes "a", text (codes "x")) ∷ (codes "b", number (codes "3.0")) ∷ [])
    ≡ codes "{\"a\":\"x\",\"b\":3.0}"
unfolding dumps_object
dumps_object_runs = refl

dumps_runs :
    dumps ((codes "id", number (codes "7")) ∷ (codes "a\"", text (codes "x\n")) ∷ [])
    ≡ codes "[[\"id\",7],[\"a\\\"\",\"x\\n\"]]"
unfolding dumps
dumps_runs = refl
