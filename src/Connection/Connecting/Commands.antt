-- ===== src/Connection/Connecting/Commands.antt =====
-- The commands that a connection begins with.
use mariadb_connector_odbc.Base.{
  ℕ, ◌≡◌, refl, Bool, true, false, Option, none, some, List, [], ◌∷◌, ◌++◌, map, if◌then◌else◌,
  Bytes, codes, join, append_assoc, append-nil,
}
use mariadb_connector_odbc.Connection.Connecting.{
  init_command_option, is_blank, init_options, auto_is_null_command, autocommit_command,
}

abbrev pub isolation_command : Option Bytes → List Bytes
isolation_command none = []
isolation_command (some name) = (codes "SET SESSION TRANSACTION ISOLATION LEVEL " ++ name) ∷ []

-- The commands in the order in which they are to run.
abbrev pub commands : Bytes → Bool → ℕ → Option Bytes → List Bytes
commands command auto_is_null auto_commit isolation =
    (if is_blank command then [] else command ∷ [])
    ++ auto_is_null_command auto_is_null
      ∷ autocommit_command auto_commit
      ∷ isolation_command isolation

-- A connection begins with the same commands in the same order, whether several statements are allowed, when they are
-- one text with semicolons between them, or not, when each is an option of its own.
pub init_options-eq-commands :
    (multi : Bool) (command : Bytes) (auto_is_null : Bool) (auto_commit : ℕ)
    (isolation : Option Bytes)
    → init_options multi command auto_is_null auto_commit isolation ≡ (
        if multi
        then init_command_option
            (join (codes ";") (commands command auto_is_null auto_commit isolation))
          ∷ []
        else map init_command_option (commands command auto_is_null auto_commit isolation))
unfolding init_options
init_options-eq-commands false [] n c none = refl
init_options-eq-commands false [] n c (some i) = refl
init_options-eq-commands false (b ∷ bs) n c none = refl
init_options-eq-commands false (b ∷ bs) n c (some i) = refl
init_options-eq-commands true [] true c none = simp (append_assoc, append-nil)
init_options-eq-commands true [] true c (some i) = simp (append_assoc, append-nil)
init_options-eq-commands true [] false c none = simp (append_assoc, append-nil)
init_options-eq-commands true [] false c (some i) = simp (append_assoc, append-nil)
init_options-eq-commands true (b ∷ bs) n c none = simp (append_assoc, append-nil)
init_options-eq-commands true (b ∷ bs) n c (some i) = simp (append_assoc, append-nil)
