-- ===== src/Flow/FallThrough.antt =====
-- `canFallThrough`, `containsSuperCall` and `containsReturn` of src/SemanticAnalyzer.cpp.
use simp.Base.{Bool, true, false, not, ◌&&◌, ◌||◌, if◌then◌else◌}
use simp.Ast.Statements.{
  StatementKind, StatementAttributes, Statement, statement, Statements, end, next, Handlers,
  no_handlers, handler,
}

-- The `switch`, with the answers for the body, the alternate, the cleanup and the handlers.
abbrev pub falls :
    StatementKind → StatementAttributes → (body alternate cleanup handlers : Bool) → Bool
falls StatementKind.return a b e c h = false
falls StatementKind.raise a b e c h = false
falls StatementKind.break a b e c h = false
falls StatementKind.continue a b e c h = false
falls StatementKind.block a b e c h = b
falls StatementKind.if a b e c h = b || (not a.has_alternate || e)
falls StatementKind.try a b e c h = if a.has_cleanup && not c then false else b || h
falls _ a b e c h = true

unfoldable mutual
  pub can_fall_through : Statement → Bool
  can_fall_through (statement a body alternate cleanup handlers) =
      falls a.kind a (all_fall_through body) (all_fall_through alternate) (all_fall_through cleanup)
        (any_falls_through handlers)

  pub all_fall_through : Statements → Bool
  all_fall_through end = true
  all_fall_through (next s ss) =
      let rest = all_fall_through ss in if not (can_fall_through s) then false else rest

  pub any_falls_through : Handlers → Bool
  any_falls_through no_handlers = false
  any_falls_through (handler a body hs) = all_fall_through body || any_falls_through hs

abbrev is_super_call : StatementKind → Bool
is_super_call StatementKind.super_constructor_call = true
is_super_call _ = false

abbrev is_return : StatementKind → Bool
is_return StatementKind.return = true
is_return _ = false

unfoldable mutual
  pub contains_super_call : Statement → Bool
  contains_super_call (statement a body alternate cleanup handlers) =
      is_super_call a.kind
      || (any_super_call body
          || (any_super_call alternate || (handlers_super_call handlers || any_super_call cleanup)))

  any_super_call : Statements → Bool
  any_super_call end = false
  any_super_call (next s ss) = contains_super_call s || any_super_call ss

  handlers_super_call : Handlers → Bool
  handlers_super_call no_handlers = false
  handlers_super_call (handler a body hs) = any_super_call body || handlers_super_call hs

unfoldable mutual
  pub contains_return : Statements → Bool
  contains_return end = false
  contains_return (next s ss) = returns_within s || contains_return ss

  returns_within : Statement → Bool
  returns_within (statement a body alternate cleanup handlers) =
      is_return a.kind
      || (contains_return body
          || (contains_return alternate || (contains_return cleanup || handlers_return handlers)))

  handlers_return : Handlers → Bool
  handlers_return no_handlers = false
  handlers_return (handler a body hs) = contains_return body || handlers_return hs
