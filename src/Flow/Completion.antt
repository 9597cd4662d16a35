-- ===== src/Flow/Completion.antt =====
-- About `canFallThrough` of src/SemanticAnalyzer.cpp and the paths by which statements complete.
use simp.Base.{
  Bool, true, false, not, ◌&&◌, ◌||◌, ◌≡◌, subst, sym, ◌↔◌, ◌⊎◌, inl, inr, refl, Bool-cases,
  if◌then◌else◌,
}
use simp.Ast.Statements.{
  StatementKind, StatementAttributes, Statement, statement, Statements, end, next, Handlers,
  no_handlers, handler,
}
use simp.Flow.Paths.{
  IsPlain, declaration, assignment, print, while, do_while, expression, super_constructor_call,
  for_each, inline_c, MayComplete, plain, block, taken, skipped, otherwise, tried, caught,
  AllComplete, done, then_next, HandlerCompletes, here, later,
}
use simp.Flow.FallThrough.{falls, can_fall_through, all_fall_through, any_falls_through}

or-inl : (a b : Bool) → a ≡ true → a || b ≡ true
or-inl a b e = rw e refl

or-inr : (a b : Bool) → b ≡ true → a || b ≡ true
or-inr true b e = refl
or-inr false b e = e

plain-falls :
    (k : StatementKind) (a : StatementAttributes) (b e c h : Bool)
    → IsPlain k
    → falls k a b e c h ≡ true
plain-falls k a b e c h declaration = refl
plain-falls k a b e c h assignment = refl
plain-falls k a b e c h print = refl
plain-falls k a b e c h while = refl
plain-falls k a b e c h do_while = refl
plain-falls k a b e c h expression = refl
plain-falls k a b e c h super_constructor_call = refl
plain-falls k a b e c h for_each = refl
plain-falls k a b e c h inline_c = refl

cleanup-passes :
    (has c r : Bool)
    → (has ≡ true → c ≡ true)
    → r ≡ true
    → (if has && not c then false else r) ≡ true
cleanup-passes false c r h e = e
cleanup-passes true true r h e = e
cleanup-passes true false r h e = absurd (cc (h refl))

mutual
  unfolding can_fall_through

  completes-falls : (s : Statement) → MayComplete s → can_fall_through s ≡ true
  completes-falls (statement a body alternate cleanup hs) (plain p) = plain-falls a.kind a _ _ _ _ p
  completes-falls (statement a body alternate cleanup hs) (block k b) = rw k (all-falls body b)
  completes-falls (statement a body alternate cleanup hs) (taken k b) =
      rw (k, all-falls body b) refl
  completes-falls (statement a body alternate cleanup hs) (skipped k e) =
      rw (k, e) (or-inr (all_fall_through body) true refl)
  completes-falls (statement a body alternate cleanup hs) (otherwise k b) =
      rw k
        (or-inr (all_fall_through body) _ (or-inr (not a.has_alternate) _ (all-falls alternate b)))
  completes-falls (statement a body alternate cleanup hs) (tried k c b) = rw k (
      cleanup-passes a.has_cleanup (all_fall_through cleanup) _ (λ e. all-falls cleanup (c e))
        (or-inl (all_fall_through body) _ (all-falls body b)))
  completes-falls (statement a body alternate cleanup hs) (caught k c h) = rw k (
      cleanup-passes a.has_cleanup (all_fall_through cleanup) _ (λ e. all-falls cleanup (c e))
        (or-inr (all_fall_through body) _ (handler-falls hs h)))

  all-falls : (ss : Statements) → AllComplete ss → all_fall_through ss ≡ true
  all-falls end done = refl
  all-falls (next s ss) (then_next h k) = rw (completes-falls s h) (all-falls ss k)

  handler-falls : (hs : Handlers) → HandlerCompletes hs → any_falls_through hs ≡ true
  handler-falls no_handlers h = elim h [ ]
  handler-falls (handler a body hs) (here h) = or-inl (all_fall_through body) _ (all-falls body h)
  handler-falls (handler a body hs) (later h) =
      or-inr (all_fall_through body) _ (handler-falls hs h)

or-cases : (a b : Bool) → a || b ≡ true → (a ≡ true) ⊎ (b ≡ true)
or-cases true b e = inl refl
or-cases false b e = inr e

not-true : (a : Bool) → not a ≡ true → a ≡ false
not-true true e = absurd (cc e)
not-true false e = refl

cleanup-cases :
    (has c r : Bool)
    → (if has && not c then false else r) ≡ true
    → (has ≡ true → c ≡ true) × (r ≡ true)
cleanup-cases false c r e = (λ no_cleanup. absurd (cc no_cleanup), e)
cleanup-cases true true r e = (λ _. refl, e)
cleanup-cases true false r e = absurd (cc e)

-- By the kind, where the answers for the parts are right.
kind-completes :
    (k : StatementKind) (a : StatementAttributes) (body alternate cleanup : Statements)
    (hs : Handlers) (b e c h : Bool)
    → a.kind ≡ k
    → (b ≡ true → AllComplete body)
    → (e ≡ true → AllComplete alternate)
    → (c ≡ true → AllComplete cleanup)
    → (h ≡ true → HandlerCompletes hs)
    → falls k a b e c h ≡ true
    → MayComplete (statement a body alternate cleanup hs)
kind-completes StatementKind.return a body alternate cleanup hs b e c h q fb fe fc fh t =
    absurd (cc t)
kind-completes StatementKind.raise a body alternate cleanup hs b e c h q fb fe fc fh t =
    absurd (cc t)
kind-completes StatementKind.break a body alternate cleanup hs b e c h q fb fe fc fh t =
    absurd (cc t)
kind-completes StatementKind.continue a body alternate cleanup hs b e c h q fb fe fc fh t =
    absurd (cc t)
kind-completes StatementKind.block a body alternate cleanup hs b e c h q fb fe fc fh t =
    block q (fb t)
kind-completes StatementKind.if a body alternate cleanup hs b e c h q fb fe fc fh t =
    elim (or-cases b _ t) [
      | inl t' ↦ taken q (fb t')
      | inr t' ↦ elim (or-cases (not a.has_alternate) e t') [
        | inl n ↦ skipped q (not-true a.has_alternate n)
        | inr u ↦ otherwise q (fe u)
      ]
    ]
kind-completes StatementKind.try a body alternate cleanup hs b e c h q fb fe fc fh t =
    let (k, r) = cleanup-cases a.has_cleanup c (b || h) t in
    elim (or-cases b h r) [
      | inl u ↦ tried q (λ n. fc (k n)) (fb u)
      | inr u ↦ caught q (λ n. fc (k n)) (fh u)
    ]
kind-completes StatementKind.declaration a body alternate cleanup hs b e c h q fb fe fc fh t =
    plain (subst IsPlain (sym q) declaration)
kind-completes StatementKind.assignment a body alternate cleanup hs b e c h q fb fe fc fh t =
    plain (subst IsPlain (sym q) assignment)
kind-completes StatementKind.print a body alternate cleanup hs b e c h q fb fe fc fh t =
    plain (subst IsPlain (sym q) print)
kind-completes StatementKind.while a body alternate cleanup hs b e c h q fb fe fc fh t =
    plain (subst IsPlain (sym q) while)
kind-completes StatementKind.do_while a body alternate cleanup hs b e c h q fb fe fc fh t =
    plain (subst IsPlain (sym q) do_while)
kind-completes StatementKind.expression a body alternate cleanup hs b e c h q fb fe fc fh t =
    plain (subst IsPlain (sym q) expression)
kind-completes StatementKind.super_constructor_call a body alternate cleanup hs b e c h q fb fe fc
      fh t =
    plain (subst IsPlain (sym q) super_constructor_call)
kind-completes StatementKind.for_each a body alternate cleanup hs b e c h q fb fe fc fh t =
    plain (subst IsPlain (sym q) for_each)
kind-completes StatementKind.inline_c a body alternate cleanup hs b e c h q fb fe fc fh t =
    plain (subst IsPlain (sym q) inline_c)

mutual
  unfolding can_fall_through

  falls-completes : (s : Statement) → can_fall_through s ≡ true → MayComplete s
  falls-completes (statement a body alternate cleanup hs) e =
      kind-completes a.kind a body alternate cleanup hs (all_fall_through body)
        (all_fall_through alternate) (all_fall_through cleanup) (any_falls_through hs) refl
        (falls-all body) (falls-all alternate) (falls-all cleanup) (falls-handler hs) e

  falls-all : (ss : Statements) → all_fall_through ss ≡ true → AllComplete ss
  falls-all end e = done
  falls-all (next s ss) e = elim (Bool-cases (can_fall_through s)) [
    | inl t ↦ then_next (falls-completes s t) (falls-all ss (rw t at e))
    | inr t ↦ absurd (cc (rw t at e))
  ]

  falls-handler : (hs : Handlers) → any_falls_through hs ≡ true → HandlerCompletes hs
  falls-handler no_handlers e = absurd (cc e)
  falls-handler (handler a body hs) e = elim (or-cases (all_fall_through body) _ e) [
    | inl t ↦ here (falls-all body t)
    | inr t ↦ later (falls-handler hs t)
  ]

-- `canFallThrough` holds of statements exactly when each of them may complete: by the paths through
-- blocks, through an `if` that takes its body, its alternate or, without one, neither, and through a
-- `try` whose body or a handler completes and whose cleanup, if there is one, completes.
pub all_fall_through_iff : (ss : Statements) → (all_fall_through ss ≡ true) ↔ AllComplete ss
all_fall_through_iff ss = (falls-all ss, all-falls ss)
