-- ===== src/Dsl/Syntax/Parsed.antt =====
-- What a parser of brane-dsl/src/parser gives, and `tag_token!` of its parser.rs.
use brane.Prelude.{List, [], ◌∷◌, ◌==◌, if◌then◌else◌}
use brane.Dsl.Syntax.Token.{Token, discriminant}

-- A parser's `IResult`, less the contents of its errors, or a panic of a closure, or the end of the
-- fuel. No parser of the program gives `Incomplete` on a whole token list.
pub data ParsedOf (T A : Type 0) : Type 0 where
  done : List T → A → ParsedOf T A
  error failure panic spent : ParsedOf T A

abbrev pub ParserOf : Type 0 → Type 0 → Type 0
ParserOf T A = List T → ParsedOf T A

-- over the tokens of a script
abbrev pub Parsed : Type 0 → Type 0
Parsed A = ParsedOf Token A

abbrev pub Parser : Type 0 → Type 0
Parser A = List Token → Parsed A

-- the `?` operator
unfoldable pub then' : {T A B : Type 0} → ParsedOf T A → (List T → A → ParsedOf T B) → ParsedOf T B
then' (done r x) k = k r x
then' error k = error
then' failure k = failure
then' panic k = panic
then' spent k = spent

-- `tag_token!(Token::$variant)`, where the variant is that of the first token given
unfoldable pub tag_token : Token → Parser Token
unfolding discriminant
tag_token variant [] = error
tag_token variant (t ∷ i) = if discriminant t == discriminant variant then done i t else error
