-- ===== src/Connection/Tokens.antt =====
-- MADB_Tokenize of driver/ma_connection.cpp, and MADB_SetAttributes over it. A token is the list of bytes
-- from its begin to the end of the whole text, with its size.
pub mod Laws
use mariadb_connector_odbc.Base.{
  ℕ, zero, suc, ◌+◌, ◌-◌, Bool, true, false, not, ◌&&◌, ◌||◌, Option, none, some, List, [], ◌∷◌,
  ◌++◌, ltb, ◌==◌, if◌then◌else◌, Bytes, codes, length, take, drop,
}
use mariadb_connector_odbc.Text.{ltrim}

abbrev pub one_of : Bytes → ℕ → Bool
one_of [] c = false
one_of (s ∷ ss) c = s == c || one_of ss c

-- `strpbrk`: the bytes from the first one that is in the set.
unfoldable pub strpbrk : Bytes → Bytes → Option Bytes
strpbrk [] set = none
strpbrk (c ∷ cs) set = if one_of set c then some (c ∷ cs) else strpbrk cs set

pub record Token : Type 0 where
  pub arr : Bytes
  pub size : ℕ

abbrev pub tail_of : Bytes → Bytes
tail_of [] = []
tail_of (_ ∷ cs) = cs

-- The rest after the loop: `current < end`.
abbrev pub last_token : Bytes → List Token
last_token [] = []
last_token (c ∷ cs) = record { arr = c ∷ cs; size = length (c ∷ cs) } ∷ []

-- The loop of MADB_Tokenize; its fuel is the length of the text and one more.
unfoldable pub tokens_from : ℕ → Bytes → Bytes → List Token
tokens_from zero separators current = []
tokens_from (suc fuel) separators current = elim (strpbrk current separators) [
  | none ↦ last_token current
  | some next ↦
      record { arr = current; size = length current - length next }
      ∷ tokens_from fuel separators (tail_of next)
]

-- MADB_Tokenize
unfoldable pub tokenize : Bytes → Bytes → List Token
unfolding tokens_from strpbrk
tokenize text separators = tokens_from (suc (length text)) separators text

-- The bytes of a token.
abbrev pub token_text : Token → Bytes
token_text t = take t.size t.arr

abbrev pub with_attribute :
    Option (Bytes × Bytes) → Bool × List (Bytes × Bytes) → Bool × List (Bytes × Bytes)
with_attribute none r = (true, r.1)
with_attribute (some a) r = (r.0, a ∷ r.1)

-- `rtrim` and `trim` of the class SQLString are the server library's.
module _ (rtrim trim : Bytes → Bytes) where
  -- What MADB_SetAttributes does for a token: the name and the value that it hands over, or `none` where
  -- it notes a failure. AttrKeyValueSeparators are = and :.
  unfoldable pub attribute_of : Token → Option (Bytes × Bytes)
  unfolding strpbrk ltrim
  attribute_of t =
      let key = ltrim t.arr in
      elim (strpbrk key (codes "=:")) [
        | none ↦ none
        | some value ↦
            let offset = length t.arr - length value in
            if ltb t.size offset
            then none
            else some (
              rtrim (take (length key - length value) key),
              trim (take (t.size - offset - 1) (tail_of value)),
            )
      ]

  -- The loop of MADB_SetAttributes: whether a token was no pair, and the pairs that are handed over after
  -- the two of the driver. AttrPairSeparators is the comma.
  unfoldable pub attributes_of : List Token → Bool × List (Bytes × Bytes)
  unfolding attribute_of
  attributes_of [] = (false, [])
  attributes_of (t ∷ ts) = with_attribute (attribute_of t) (attributes_of ts)

  unfoldable pub set_attributes : Bytes → Bool × List (Bytes × Bytes)
  unfolding attributes_of tokenize
  set_attributes text = attributes_of (tokenize text (codes ","))
