-- ===== src/Tests/Flow.antt =====
-- Runs of the checks of control flow of src/SemanticAnalyzer.cpp, and their theorem at a concrete
-- input.
use simp.Base.{◌≡◌, ◌↔◌, refl, true, false}
use simp.Ast.Expressions.{start_of_file}
use simp.Ast.Statements.{
  StatementKind, statement, Statements, end, next, no_handlers, blank, simple,
}
use simp.Flow.FallThrough.{all_fall_through, contains_super_call, contains_return}
use simp.Flow.Paths.{AllComplete}
use simp.Flow.Completion.{all_fall_through_iff}

abbrev leave : Statements
leave = next (simple (blank StatementKind.return start_of_file)) end

-- Both ways of the `if` return.
abbrev both_return : Statements
both_return =
    next
      (statement (record (blank StatementKind.if start_of_file) { has_alternate = true }) leave
        leave end no_handlers)
      end

-- The `if` without an alternate may be skipped.
abbrev one_returns : Statements
one_returns = next (statement (blank StatementKind.if start_of_file) leave end end no_handlers) end

falling :
    (all_fall_through both_return ≡ false)
    × (all_fall_through one_returns ≡ true)
    × (contains_return one_returns ≡ true)
unfolding all_fall_through contains_return
falling = (refl, refl, refl)

super_call :
    contains_super_call (
      statement
        (blank StatementKind.block start_of_file)
        (next (simple (blank StatementKind.super_constructor_call start_of_file)) end)
        end
        end
        no_handlers)
    ≡ true
unfolding contains_super_call
super_call = refl

all_fall_through_iff_example : (all_fall_through one_returns ≡ true) ↔ AllComplete one_returns
all_fall_through_iff_example = all_fall_through_iff one_returns
