-- ===== src/Tests/Types.antt =====
-- The checker's operators at concrete values.
use alca.Base.{refl, [], ◌∷◌}
use alca.Syntax
use alca.Context.{word, str}
use alca.Semantics.Operators.{binary_meaning, unary_meaning}
use alca.Checker.{valid_operation, is_compatible}
use alca.Checker.Operators.{HasAnswer, valid_operation-HasAnswer, unary-HasAnswer}

valid_operation-HasAnswer_example :
    HasAnswer Syntax.less
      (valid_operation Syntax.number Syntax.number Syntax.less).1
      (binary_meaning Syntax.less Syntax.number (word 3) (word 5))
unfolding valid_operation is_compatible
valid_operation-HasAnswer_example =
    valid_operation-HasAnswer Syntax.less Syntax.number Syntax.number (word 3) (word 5) refl refl
      refl tt tt

unary-HasAnswer_example :
    HasAnswer Syntax.hash
      (valid_operation Syntax.string Syntax.eof Syntax.hash).1
      (unary_meaning Syntax.hash (str (97 ∷ 98 ∷ [])))
unfolding valid_operation
unary-HasAnswer_example =
    unary-HasAnswer Syntax.hash Syntax.string (str (97 ∷ 98 ∷ [])) refl refl tt
