-- ===== src/Bind/ParamData/Pieces.antt =====
-- A value that is given in pieces.
use mariadb_connector_odbc.Base.{
  ◌+◌, ◌%◌, ◌^◌, ◌<◌, ◌≡◌, refl, sym, ap, ◌∙◌, Bool, false, some, List, [], ◌∷◌, ◌++◌, arith, Bytes,
  length, take_all, length-append, append_assoc, append-nil,
}
use mariadb_connector_odbc.Base.Int.{ℤ, pos}
use mariadb_connector_odbc.Bind.ParamData.{Putting, put_success, put_data, put_pieces}

abbrev pub concat : List Bytes → Bytes
concat [] = []
concat (p ∷ ps) = p ++ concat ps

-- What the code relies on of sendLongData for one parameter: it does not fail, and the library has
-- afterwards what it had and the bytes behind it.
pub record Appends {S : Type 0} (send : S → ℤ → Bytes → Bool × S) (param : ℤ) (value : S → Bytes)
    : Type 0 where
  pub accepts : (s : S) (b : Bytes) → (send s param b).0 ≡ false
  pub appended : (s : S) (b : Bytes) → value (send s param b).1 ≡ value s ++ b

module _ {S : Type 0} (send : S → ℤ → Bytes → Bool × S) (param : ℤ) (value : S → Bytes)
    (law : Appends send param value) where
  put_piece :
      (piece : Bytes) (s : Putting S)
      → put_data send param (some piece) (pos (length piece)) s ≡ (
        put_success,
        record s {
          server = (send s.server param piece).1;
          internal_length = (s.internal_length + length piece) % 2 ^ 64;
        },
      )
  unfolding put_data
  put_piece piece s =
      rw (take_all (length piece) piece (omega arith), law.accepts s.server piece) refl

  -- The pieces of a value that MADB_StmtPutData is given with their lengths reach the library one behind
  -- the other and as a whole, every call succeeds, and InternalLength grows by the length of the value,
  -- where that is a number of 64 bits. The library does not fail.
  pub put_pieces-concat :
      (pieces : List Bytes) (s : Putting S)
      → s.internal_length + length (concat pieces) < 2 ^ 64
      → ((put_pieces send param pieces s).0 ≡ put_success)
        × (value (put_pieces send param pieces s).1.server ≡ value s.server ++ concat pieces)
        × ((put_pieces send param pieces s).1.internal_length
            ≡ s.internal_length + length (concat pieces))
  unfolding put_pieces
  put_pieces-concat [] s h = (refl, sym (append-nil (value s.server)), omega arith)
  put_pieces-concat (piece ∷ pieces) s h =
      let whole = length-append piece (concat pieces) in
      let kept : (s.internal_length + length piece) % 2 ^ 64 ≡ s.internal_length + length piece =
        omega (arith, h, whole) in
      let (ok, sent, counted) =
        put_pieces-concat pieces
          (record s {
            server = (send s.server param piece).1;
            internal_length = (s.internal_length + length piece) % 2 ^ 64;
          })
          (omega (arith, kept, h, whole)) in
      rw (put_piece piece s) (
        ok,
        sent
            ∙ ap (λ b. b ++ concat pieces) (law.appended s.server piece)
            ∙ append_assoc (value s.server) piece (concat pieces),
        omega (arith, counted, kept, whole),
      )
