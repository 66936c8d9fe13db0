-- ===== src/Authz/Parse/Lexer.antt =====
-- The lexemes of a schema of relations: `read_lexemes` of
-- crates/saffui-core/src/authz/relations/schema.rs, over the characters of the source. A word is read
-- a character at a time: it ends where the characters of a word do.
use Prim.Native.Char.{Char, code}
use saffui.Base.{
  ℕ, ◌+◌, String, Bool, false, ◌&&◌, ◌||◌, Option, none, some, List, [], ◌∷◌, ◌++◌, number_keys,
  ◌==◌, if◌then◌else◌, find, contains,
}
use saffui.Base.Text.{in_range, is_ascii_alphanumeric}
use saffui.Names.{is_unshowable}
use saffui.Authz.Compile.{cannot_be_shown, no_meaning, SchemaFault}
use saffui.Authz.Parse.{name, mark, Lexeme}

abbrev pub chars : String → List Char
chars String.[] = []
chars (String.◌∷◌ c s) = c ∷ chars s

abbrev text_of : List Char → String
text_of [] = String.[]
text_of (c ∷ cs) = String.◌∷◌ c (text_of cs)

abbrev starts : ℕ → List Char → Bool
starts n [] = false
starts n (c ∷ cs) = code c == n

abbrev put_first : Char → List (List Char) → List (List Char)
put_first c [] = (c ∷ []) ∷ []
put_first c (l ∷ ls) = (c ∷ l) ∷ ls

-- `str::lines`: a line ends with a line feed, and a carriage return before it is no part of it.
unfoldable pub lines : List Char → List (List Char)
lines [] = []
lines (c ∷ cs) =
    let rest = lines cs in
    if code c == 10
    then [] ∷ rest
    else if code c == 13 && starts 10 cs
    then rest
    else put_first c rest

-- `char::is_whitespace`
abbrev pub is_whitespace : ℕ → Bool
is_whitespace c =
    in_range 9 13 c
    || contains (0x20 ∷ 0x85 ∷ 0xa0 ∷ 0x1680 ∷ []) c
    || in_range 0x2000 0x200a c
    || contains (0x2028 ∷ 0x2029 ∷ 0x202f ∷ 0x205f ∷ 0x3000 ∷ []) c

abbrev pub is_mark_code : ℕ → Bool
is_mark_code c =
    contains (b'{' ∷ b'}' ∷ b'(' ∷ b')' ∷ b':' ∷ b'|' ∷ b'#' ∷ b'+' ∷ b'&' ∷ b'=' ∷ []) c

abbrev pub is_word_code : ℕ → Bool
is_word_code c = is_ascii_alphanumeric c || c == b'_'

-- What comes before a comment.
unfoldable pub code_of : List Char → List Char
code_of [] = []
code_of (c ∷ cs) =
    let rest = code_of cs in if code c == b'/' && starts b'/' cs then [] else c ∷ rest

pub data Scanned : Type 0 where
  scanned : List Lexeme → Scanned
  unread : SchemaFault → Scanned

abbrev onto : Lexeme → Scanned → Scanned
onto lexeme (scanned lexemes) = scanned (lexeme ∷ lexemes)
onto lexeme (unread fault) = unread fault

-- The word that was read so far, before what follows it.
abbrev after_word : ℕ → List Char → Scanned → Scanned
after_word line [] rest = rest
after_word line (c ∷ cs) rest = onto (record { token = name (text_of (c ∷ cs)); line = line }) rest

unfoldable pub scan_line : ℕ → List Char → List Char → Scanned
scan_line line word [] = after_word line word (scanned [])
scan_line line word (c ∷ cs) =
    let longer = scan_line line (word ++ c ∷ []) cs in
    let rest = scan_line line [] cs in
    if is_whitespace (code c)
    then after_word line word rest
    else if is_mark_code (code c)
    then after_word line word (onto (record { token = mark (code c); line = line }) rest)
    else if is_word_code (code c)
    then longer
    else unread (record { line = line; message = no_meaning (code c) })

abbrev append_scanned : List Lexeme → Scanned → Scanned
append_scanned lexemes (scanned more) = scanned (lexemes ++ more)
append_scanned lexemes (unread fault) = unread fault

abbrev then_lines : Scanned → Scanned → Scanned
then_lines (scanned lexemes) rest = append_scanned lexemes rest
then_lines (unread fault) rest = unread fault

abbrev scan_shown : Option Char → ℕ → List Char → Scanned → Scanned
scan_shown (some c) line text rest =
    unread (record { line = line; message = cannot_be_shown (code c) })
scan_shown none line text rest = then_lines (scan_line line [] (code_of text)) rest

unfoldable pub scan_lines : ℕ → List (List Char) → Scanned
unfolding scan_line code_of is_unshowable
scan_lines line [] = scanned []
scan_lines line (text ∷ rest) =
    scan_shown (find (λ c. is_unshowable (code c)) text) line text (scan_lines (line + 1) rest)

unfoldable pub read_lexemes : String → Scanned
unfolding scan_lines lines
read_lexemes source = scan_lines 1 (lines (chars source))
