-- ===== src/Lexer/Kinds.antt =====
-- The order of `TokenType` in include/cwhip/Token.hpp, by which its values are compared.
use simp.Base.{ℕ, Bool, ◌==◌}
use simp.Lexer.Token.{TokenType}

abbrev pub index : TokenType → ℕ
index TokenType.end_of_file = 0
index TokenType.identifier = 1
index TokenType.integer = 2
index TokenType.unsigned_integer = 3
index TokenType.float = 4
index TokenType.string = 5
index TokenType.start_keyword = 6
index TokenType.int = 7
index TokenType.bool = 8
index TokenType.float_type = 9
index TokenType.unsigned = 10
index TokenType.strg_type = 11
index TokenType.list_type = 12
index TokenType.dict_type = 13
index TokenType.buffer_type = 14
index TokenType.handle_type = 15
index TokenType.any_type = 16
index TokenType.type_type = 17
index TokenType.callback_type = 18
index TokenType.class_keyword = 19
index TokenType.namespace_keyword = 20
index TokenType.include_keyword = 21
index TokenType.inline_keyword = 22
index TokenType.inline_body = 23
index TokenType.import_keyword = 24
index TokenType.as_keyword = 25
index TokenType.public_keyword = 26
index TokenType.protected_keyword = 27
index TokenType.private_keyword = 28
index TokenType.virtual_keyword = 29
index TokenType.super_keyword = 30
index TokenType.null_keyword = 31
index TokenType.true_keyword = 32
index TokenType.false_keyword = 33
index TokenType.return_keyword = 34
index TokenType.void_keyword = 35
index TokenType.if_keyword = 36
index TokenType.else_keyword = 37
index TokenType.while_keyword = 38
index TokenType.do_keyword = 39
index TokenType.for_keyword = 40
index TokenType.in_keyword = 41
index TokenType.is_keyword = 42
index TokenType.break_keyword = 43
index TokenType.continue_keyword = 44
index TokenType.and_keyword = 45
index TokenType.or_keyword = 46
index TokenType.print_keyword = 47
index TokenType.raise_keyword = 48
index TokenType.try_keyword = 49
index TokenType.except_keyword = 50
index TokenType.finally_keyword = 51
index TokenType.from_keyword = 52
index TokenType.left_brace = 53
index TokenType.right_brace = 54
index TokenType.left_paren = 55
index TokenType.right_paren = 56
index TokenType.left_bracket = 57
index TokenType.right_bracket = 58
index TokenType.comma = 59
index TokenType.dot = 60
index TokenType.colon = 61
index TokenType.newline = 62
index TokenType.plus = 63
index TokenType.minus = 64
index TokenType.star = 65
index TokenType.slash = 66
index TokenType.percent = 67
index TokenType.plus_equal = 68
index TokenType.minus_equal = 69
index TokenType.star_equal = 70
index TokenType.slash_equal = 71
index TokenType.percent_equal = 72
index TokenType.bang = 73
index TokenType.and_and = 74
index TokenType.or_or = 75
index TokenType.equal = 76
index TokenType.equal_equal = 77
index TokenType.bang_equal = 78
index TokenType.less = 79
index TokenType.less_equal = 80
index TokenType.greater = 81
index TokenType.greater_equal = 82

-- `==` of two kinds.
abbrev pub same_type : TokenType → TokenType → Bool
same_type a b = index a == index b
