-- ===== src/Dsl/Syntax/Token.antt =====
-- `Token` of brane-dsl/src/scanner/tokens.rs. A token has the text of its span where the parser reads it.
use brane.Prelude.{
  ℕ, ◌^◌, Bool, true, false, Option, none, some, String, [], ◌∷◌, Outcome, ok, ltb, leb, ◌==◌,
  if◌then◌else◌,
}
use brane.Prelude.Int.{ℤ, pos, sub_ℕ}
use brane.Prelude.Codes.{codes}
use brane.Version.Text.{Text, ParseIntError, parse_digits, text_eq}

pub data Token : Type 0 where
  and break class continue else' for function if import let' new on or parallel return unit while
        dot colon comma left_brace left_bracket left_paren right_brace right_bracket right_paren
        semicolon assign equal greater greater_or_equal less less_or_equal minus not' not_equal plus
        slash star none' :
      Token
  boolean integer real sem_ver string ident : String → Token

-- `std::mem::discriminant`, what `if let Token::$variant(_)` compares
unfoldable pub discriminant : Token → ℕ
discriminant Token.and = 0
discriminant Token.break = 1
discriminant Token.class = 2
discriminant Token.continue = 3
discriminant Token.else' = 4
discriminant Token.for = 5
discriminant Token.function = 6
discriminant Token.if = 7
discriminant Token.import = 8
discriminant Token.let' = 9
discriminant Token.new = 10
discriminant Token.on = 11
discriminant Token.or = 12
discriminant Token.parallel = 13
discriminant Token.return = 14
discriminant Token.unit = 15
discriminant Token.while = 16
discriminant Token.dot = 17
discriminant Token.colon = 18
discriminant Token.comma = 19
discriminant Token.left_brace = 20
discriminant Token.left_bracket = 21
discriminant Token.left_paren = 22
discriminant Token.right_brace = 23
discriminant Token.right_bracket = 24
discriminant Token.right_paren = 25
discriminant Token.semicolon = 26
discriminant Token.assign = 27
discriminant Token.equal = 28
discriminant Token.greater = 29
discriminant Token.greater_or_equal = 30
discriminant Token.less = 31
discriminant Token.less_or_equal = 32
discriminant Token.minus = 33
discriminant Token.not' = 34
discriminant Token.not_equal = 35
discriminant Token.plus = 36
discriminant Token.slash = 37
discriminant Token.star = 38
discriminant Token.none' = 39
discriminant (Token.boolean _) = 40
discriminant (Token.integer _) = 41
discriminant (Token.real _) = 42
discriminant (Token.sem_ver _) = 43
discriminant (Token.string _) = 44
discriminant (Token.ident _) = 45

-- `i64::from_str` of the standard library
unfoldable pub i64_positive : Outcome ParseIntError ℕ → Option ℤ
i64_positive (ok n) = if ltb n (2 ^ 63) then some (pos n) else none
i64_positive _ = none

unfoldable pub i64_negative : Outcome ParseIntError ℕ → Option ℤ
i64_negative (ok n) = if leb n (2 ^ 63) then some (sub_ℕ 0 n) else none
i64_negative _ = none

unfoldable pub parse_i64 : Text → Option ℤ
unfolding i64_positive i64_negative
parse_i64 [] = none
parse_i64 (c ∷ []) = i64_positive (parse_digits 0 (c ∷ []))
parse_i64 (c ∷ d ∷ cs) =
    if c == b'+'
    then i64_positive (parse_digits 0 (d ∷ cs))
    else if c == b'-'
    then i64_negative (parse_digits 0 (d ∷ cs))
    else i64_positive (parse_digits 0 (c ∷ d ∷ cs))

-- Of these, `none` is a panic: an `unwrap`, or `unreachable!()`.
unfoldable pub as_bool : Token → Option Bool
as_bool (Token.boolean span) =
    if text_eq (codes span) (codes "true")
    then some true
    else if text_eq (codes span) (codes "false")
    then some false
    else none
as_bool _ = none

unfoldable pub as_i64 : Token → Option ℤ
unfolding parse_i64
as_i64 (Token.integer span) = parse_i64 (codes span)
as_i64 _ = none

-- `f64::from_str` is a parameter; it gives the bits of the number.
unfoldable pub as_f64 : (String → Option ℕ) → Token → Option ℕ
as_f64 f64_from_str (Token.real span) = f64_from_str span
as_f64 f64_from_str _ = none

unfoldable pub as_string : Token → Option String
as_string (Token.string span) = some span
as_string (Token.ident span) = some span
as_string (Token.sem_ver span) = some span
as_string _ = none
