-- ===== src/Flow/Paths.antt =====
-- The paths by which statements may complete.
use simp.Base.{true, false, ◌≡◌}
use simp.Ast.Statements.{
  StatementKind, StatementAttributes, Statement, statement, Statements, end, next, Handlers,
  handler, HandlerAttributes,
}

-- A kind whose statements may complete whatever stands inside: a loop may not run at all.
pub data IsPlain : StatementKind → Type 0 where
  declaration : IsPlain StatementKind.declaration
  assignment : IsPlain StatementKind.assignment
  print : IsPlain StatementKind.print
  while : IsPlain StatementKind.while
  do_while : IsPlain StatementKind.do_while
  expression : IsPlain StatementKind.expression
  super_constructor_call : IsPlain StatementKind.super_constructor_call
  for_each : IsPlain StatementKind.for_each
  inline_c : IsPlain StatementKind.inline_c

-- The statement, each of the statements in turn, or one of the handlers may complete.
mutual
  pub data MayComplete : Statement → Type 0 where
    plain :
        {a : StatementAttributes} {body alternate cleanup : Statements} {hs : Handlers}
        → IsPlain a.kind
        → MayComplete (statement a body alternate cleanup hs)
    block :
        {a : StatementAttributes} {body alternate cleanup : Statements} {hs : Handlers}
        → a.kind ≡ StatementKind.block
        → AllComplete body
        → MayComplete (statement a body alternate cleanup hs)
    taken :
        {a : StatementAttributes} {body alternate cleanup : Statements} {hs : Handlers}
        → a.kind ≡ StatementKind.if
        → AllComplete body
        → MayComplete (statement a body alternate cleanup hs)
    skipped :
        {a : StatementAttributes} {body alternate cleanup : Statements} {hs : Handlers}
        → a.kind ≡ StatementKind.if
        → a.has_alternate ≡ false
        → MayComplete (statement a body alternate cleanup hs)
    otherwise :
        {a : StatementAttributes} {body alternate cleanup : Statements} {hs : Handlers}
        → a.kind ≡ StatementKind.if
        → AllComplete alternate
        → MayComplete (statement a body alternate cleanup hs)
    tried :
        {a : StatementAttributes} {body alternate cleanup : Statements} {hs : Handlers}
        → a.kind ≡ StatementKind.try
        → (a.has_cleanup ≡ true → AllComplete cleanup)
        → AllComplete body
        → MayComplete (statement a body alternate cleanup hs)
    caught :
        {a : StatementAttributes} {body alternate cleanup : Statements} {hs : Handlers}
        → a.kind ≡ StatementKind.try
        → (a.has_cleanup ≡ true → AllComplete cleanup)
        → HandlerCompletes hs
        → MayComplete (statement a body alternate cleanup hs)

  pub data AllComplete : Statements → Type 0 where
    done : AllComplete end
    then_next :
        {s : Statement} {ss : Statements} → MayComplete s → AllComplete ss → AllComplete (next s ss)

  pub data HandlerCompletes : Handlers → Type 0 where
    here :
        {a : HandlerAttributes} {body : Statements} {hs : Handlers}
        → AllComplete body
        → HandlerCompletes (handler a body hs)
    later :
        {a : HandlerAttributes} {body : Statements} {hs : Handlers}
        → HandlerCompletes hs
        → HandlerCompletes (handler a body hs)
