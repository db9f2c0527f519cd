-- ===== src/Checker.antt =====
-- libalca/checker.c: which operands an operator may have.
pub mod Operators
use alca.Base.{Bool, true, false, ◌&&◌, ◌||◌, List, [], ◌∷◌}
use alca.Syntax
use alca.Syntax.{TokenType, same_type}

abbrev pub is_bool : TokenType → Bool
is_bool t = same_type t Syntax.true_kw || same_type t Syntax.false_kw

-- whether the operator takes the types, and the type of the result
unfoldable pub valid_operation : TokenType → TokenType → TokenType → Bool × TokenType
valid_operation t₁ t₂ Syntax.plus = (same_type t₁ Syntax.number, t₁)
valid_operation t₁ t₂ Syntax.minus = (same_type t₁ Syntax.number, t₁)
valid_operation t₁ t₂ Syntax.div = (same_type t₁ Syntax.number, t₁)
valid_operation t₁ t₂ Syntax.mult = (same_type t₁ Syntax.number, t₁)
valid_operation t₁ t₂ Syntax.shr = (same_type t₁ Syntax.number, t₁)
valid_operation t₁ t₂ Syntax.shl = (same_type t₁ Syntax.number, t₁)
valid_operation t₁ t₂ Syntax.bitand = (same_type t₁ Syntax.number, t₁)
valid_operation t₁ t₂ Syntax.bitxor = (same_type t₁ Syntax.number, t₁)
valid_operation t₁ t₂ Syntax.bitnot = (same_type t₁ Syntax.number, t₁)
valid_operation t₁ t₂ Syntax.pipe = (same_type t₁ Syntax.number, t₁)
valid_operation t₁ t₂ Syntax.modulo = (same_type t₁ Syntax.number, t₁)
valid_operation t₁ t₂ Syntax.greater = (same_type t₁ Syntax.number, Syntax.true_kw)
valid_operation t₁ t₂ Syntax.greater_equal = (same_type t₁ Syntax.number, Syntax.true_kw)
valid_operation t₁ t₂ Syntax.less = (same_type t₁ Syntax.number, Syntax.true_kw)
valid_operation t₁ t₂ Syntax.less_equal = (same_type t₁ Syntax.number, Syntax.true_kw)
valid_operation t₁ t₂ Syntax.and_kw = (is_bool t₁, t₁)
valid_operation t₁ t₂ Syntax.or_kw = (is_bool t₁, t₁)
valid_operation t₁ t₂ Syntax.not_kw = (is_bool t₁, t₁)
valid_operation t₁ t₂ Syntax.bang = (is_bool t₁, t₁)
valid_operation t₁ t₂ Syntax.bang_equal =
    (is_bool t₁ || (same_type t₁ Syntax.number || same_type t₁ Syntax.string), Syntax.true_kw)
valid_operation t₁ t₂ Syntax.equal_equal =
    (is_bool t₁ || (same_type t₁ Syntax.number || same_type t₁ Syntax.string), Syntax.true_kw)
valid_operation t₁ t₂ Syntax.contains = (same_type t₁ Syntax.string, Syntax.true_kw)
valid_operation t₁ t₂ Syntax.icontains = (same_type t₁ Syntax.string, Syntax.true_kw)
valid_operation t₁ t₂ Syntax.startswith = (same_type t₁ Syntax.string, Syntax.true_kw)
valid_operation t₁ t₂ Syntax.istartswith = (same_type t₁ Syntax.string, Syntax.true_kw)
valid_operation t₁ t₂ Syntax.endswith = (same_type t₁ Syntax.string, Syntax.true_kw)
valid_operation t₁ t₂ Syntax.iendswith = (same_type t₁ Syntax.string, Syntax.true_kw)
valid_operation t₁ t₂ Syntax.iequals = (same_type t₁ Syntax.string, Syntax.true_kw)
valid_operation t₁ t₂ Syntax.matches =
    (same_type t₁ Syntax.string && same_type t₂ Syntax.regex, Syntax.true_kw)
valid_operation t₁ t₂ Syntax.hash = (same_type t₁ Syntax.string, Syntax.number)
valid_operation t₁ t₂ _ = (false, t₁)

-- the test in `resolve_type` for the two sides of a binary operator
unfoldable pub is_compatible : TokenType → TokenType → Bool
is_compatible t₁ t₂ =
    same_type t₁ t₂
    || ((same_type t₁ Syntax.true_kw && same_type t₂ Syntax.false_kw)
        || ((same_type t₂ Syntax.true_kw && same_type t₁ Syntax.false_kw)
            || (same_type t₁ Syntax.string && same_type t₂ Syntax.regex)))
