-- ===== src/Dsl/Scanner/Scan.antt =====
-- brane-dsl/src/scanner/scanner.rs, literal.rs and comments.rs
use Prim.Native.Char.{Char}
use brane.Prelude.{Bool, true, false, Option, some, String, List, [], ◌∷◌, if◌then◌else◌}
use brane.Prelude.Codes.{of_chars}
use brane.Dsl.Syntax.Token.{Token}
use brane.Dsl.Syntax.Parsed.{done, then'}
use brane.Dsl.Syntax.Nom.{NomOf}
use brane.Dsl.Scanner.Characters.{Span, Scanner, Characters}

-- `is_none` of brane-dsl/src/scanner/tokens.rs
unfoldable pub is_none : Token → Bool
is_none Token.none' = true
is_none _ = false

-- `t.retain(|t| !t.is_none())`
unfoldable pub retain : List Token → List Token
retain [] = []
retain (t ∷ ts) = if is_none t then retain ts else t ∷ retain ts

-- The alternatives of `keyword`, `operator` and `punctuation`, in their order
abbrev pub keywords : List (String × Token)
keywords =
    ("break", Token.break)
    ∷ ("class", Token.class)
    ∷ ("continue", Token.continue)
    ∷ ("else", Token.else')
    ∷ ("for", Token.for)
    ∷ ("func", Token.function)
    ∷ ("if", Token.if)
    ∷ ("import", Token.import)
    ∷ ("let", Token.let')
    ∷ ("new", Token.new)
    ∷ ("on", Token.on)
    ∷ ("parallel", Token.parallel)
    ∷ ("return", Token.return)
    ∷ ("unit", Token.unit)
    ∷ ("while", Token.while)
    ∷ []

abbrev pub operators : List (String × Token)
operators =
    (":=", Token.assign)
    ∷ ("==", Token.equal)
    ∷ (">=", Token.greater_or_equal)
    ∷ ("<=", Token.less_or_equal)
    ∷ ("!=", Token.not_equal)
    ∷ ("!", Token.not')
    ∷ ("&", Token.and)
    ∷ ("*", Token.star)
    ∷ ("+", Token.plus)
    ∷ ("-", Token.minus)
    ∷ ("/", Token.slash)
    ∷ ("<", Token.less)
    ∷ (">", Token.greater)
    ∷ ("|", Token.or)
    ∷ []

abbrev pub punctuations : List (String × Token)
punctuations =
    ("(", Token.left_paren)
    ∷ (")", Token.right_paren)
    ∷ (",", Token.comma)
    ∷ (".", Token.dot)
    ∷ (":", Token.colon)
    ∷ (";", Token.semicolon)
    ∷ ("[", Token.left_bracket)
    ∷ ("]", Token.right_bracket)
    ∷ ("{", Token.left_brace)
    ∷ ("}", Token.right_brace)
    ∷ []

module _ (nom : NomOf Char) (cs : Characters) where
  unfoldable pub ws0 : {A : Type 0} → Scanner A → Scanner A
  ws0 f = nom.delimited cs.multispace0 f cs.multispace0

  -- `comb::map(bc::tag(word), Token::$variant)` for each of the alternatives
  unfoldable pub word_tags : List (String × Token) → List (Scanner Token)
  word_tags [] = []
  word_tags ((word, token) ∷ rest) = nom.map (cs.tag word) (λ _. some token) ∷ word_tags rest

  unfoldable pub keyword : Scanner Token
  keyword = ws0 (nom.alt (word_tags keywords))

  unfoldable pub operator : Scanner Token
  operator = ws0 (nom.alt (word_tags operators))

  unfoldable pub punctuation : Scanner Token
  punctuation = ws0 (nom.alt (word_tags punctuations))

  unfoldable pub identifier : Scanner Token
  identifier = ws0 (
      nom.map
        (cs.recognize (
          nom.pair (nom.alt (cs.alpha1 ∷ cs.tag "_" ∷ []))
            (nom.many0 (nom.alt (cs.alphanumeric1 ∷ cs.tag "_" ∷ [])))))
        (λ span. some (Token.ident (of_chars span))))

  unfoldable pub single_line_comment : Scanner Token
  single_line_comment = cs.value Token.none' (nom.pair (cs.tag "//") (cs.is_not "\n\r"))

  unfoldable pub multi_line_comment : Scanner Token
  multi_line_comment =
      cs.value Token.none'
        (nom.pair (cs.tag "/*") (nom.cut (nom.pair (cs.take_until "*/") (cs.tag "*/"))))

  -- `comments::parse`
  unfoldable pub comment : Scanner Token
  comment = nom.alt (single_line_comment ∷ multi_line_comment ∷ [])

  unfoldable pub boolean : Scanner Span
  boolean = nom.alt (cs.tag "true" ∷ cs.tag "false" ∷ [])

  unfoldable pub integer : Scanner Span
  integer =
      cs.recognize (cs.many1 (nom.terminated (cs.one_of "0123456789") (nom.many0 (cs.char "_"))))

  unfoldable pub semver : Scanner Span
  semver = cs.recognize (
      nom.tuple (cs.many1 (cs.one_of "0123456789"))
        (nom.delimited (cs.char ".") (cs.many1 (cs.one_of "0123456789")) (cs.char "."))
        (cs.many1 (cs.one_of "0123456789")))

  unfoldable pub string : Scanner Span
  string = nom.context "string" (
      nom.preceded (cs.char "\"") (
        nom.cut
          (nom.terminated (cs.escaped (cs.is_not "\"") "\\" (cs.one_of "\"n\\")) (cs.char "\""))))

  abbrev exponent_sign : Scanner (Option Span)
  exponent_sign = nom.opt (cs.one_of "+-")

  -- A tuple of five is a pair with a pair behind it.
  unfoldable pub real : Scanner Span
  real = nom.alt (
      cs.recognize (
        nom.tuple (cs.char ".") integer
          (nom.opt (nom.tuple (cs.one_of "eE") exponent_sign integer)))
      ∷ cs.recognize (
          nom.pair integer (
            nom.pair (nom.opt (nom.preceded (cs.char ".") integer))
              (nom.tuple (cs.one_of "eE") exponent_sign integer)))
      ∷ cs.recognize (nom.tuple integer (cs.char ".") (nom.opt integer))
      ∷ [])

  -- `literal::parse`
  unfoldable pub literal : Scanner Token
  literal = nom.alt (
      nom.map semver (λ span. some (Token.sem_ver (of_chars span)))
      ∷ nom.map real (λ span. some (Token.real (of_chars span)))
      ∷ nom.map integer (λ span. some (Token.integer (of_chars span)))
      ∷ nom.map boolean (λ span. some (Token.boolean (of_chars span)))
      ∷ nom.map string (λ span. some (Token.string (of_chars span)))
      ∷ [])

  unfoldable pub scan_token : Scanner Token
  scan_token = nom.alt (comment ∷ keyword ∷ operator ∷ punctuation ∷ literal ∷ identifier ∷ [])

  unfoldable pub scan_tokens : Scanner (List Token)
  unfolding retain
  scan_tokens input =
      then' (nom.all_consuming (nom.many0 scan_token) input) (λ s t. done s (retain t))
