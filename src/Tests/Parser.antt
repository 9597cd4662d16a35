-- ===== src/Tests/Parser.antt =====
-- Runs of src/Parser.cpp, and its theorems at concrete inputs.
use simp.Base.{
  ℕ, ◌≢◌, ◌≤◌, false, true, String, Bytes, codes, equal, List, [], ◌∷◌, ◌++◌, ◌≡◌, refl, Outcome,
  ok, arith,
}
use simp.Base.Decimal.{decimal, decimal_loop}
use simp.Lexer.Token.{TokenType, Token, end_of_file}
use simp.Lexer.Chars.{is_identifier_part, lower_ascii}
use simp.Lexer.Cursor.{step, push_loop}
use simp.Lexer.Tokenize.{tokenize}
use simp.Parser.State.{Parser, ParserState, Reply, parsed, failed, stuck}
use simp.Parser.Rules.{Reads}
use simp.Parser.Verdict.{Yields}
use simp.Ast.Expressions.{
  start_of_file, ExpressionKind, Attributes, Expression, node, absent, present, nil, plain,
}
use simp.Ast.Clone.{clone_expression, clone_expression_same}
use simp.Parser.Total.{run_parser, start_state, parse_program-ne-stuck, parse_module-ne-stuck}
use simp.Parser.StatementSteps.{block-Reads}
use simp.Parser.DepthBounds.{height}
use simp.Parser.Heights.{height-parse_expression}
use simp.Parser.FormatIndices.{IsValidated, validate_format_string-IsValidated}
use simp.Parser.State.{
  pure, ◌>>=◌, branch, current, advance, error, out_of_fuel, error_here, error_found, if_match,
  consume, skip_newlines, guarded, lift,
}
use simp.Parser.Types.{
  dotted, parse_qualified_identifier, if_word, parse_type_test_name, type_list, callback_tail,
  type_path, parse_type, add_parameter, parameter_list, parse_parameters,
}
use simp.Parser.Depth.{validate_expression_depth}
use simp.Parser.Format.{
  is_placeholder_name, split_colon, read_width, is_invalid, read_spec, read_placeholder, outside,
}
use simp.Parser.FormatArguments.{
  index_of, check_used, find_arguments, place_arguments, validate_format_string,
}
use simp.Parser.Nodes.{is_format}
use simp.Parser.Primary.{
  if_type_name, expression_list, closed_list, pair_list, parse_type_of, parse_cast,
  parse_parenthesized, parse_map, parse_elements, parse_typed, parse_simple, parse_primary,
}
use simp.Parser.Postfix.{
  previous, parse_argument_name, parse_format_arguments, parse_slice, parse_access,
  parse_object_cast, parse_member, finish_format, format_of, parse_format, call_node, parse_call,
  parse_postfix,
}
use simp.Parser.Expressions.{
  binary_loop, parse_unary, parse_multiplication, parse_addition, parse_relation, relational_loop,
  parse_relational, parse_comparison, parse_not, parse_and, parse_or, parse_expression,
}
use simp.Parser.Simple.{
  after_dotted, starts_declaration, parse_constructor, parse_initializer, parse_declaration,
  assignment_statement, parse_assignment, finish_call, parse_expression_statement, parse_return,
  parse_raise, parse_super_constructor_call, parse_print_format, parse_print, parse_loop_control,
}
use simp.Parser.Inline.{
  defer, capture_path, parse_capture, capture_list, parse_captures, parse_inline_c, parse_captured,
}
use simp.Parser.Statements.{
  parse_binding, parse_if, parse_while, parse_do_while, parse_for_each, parse_handler, handler_loop,
  parse_cleanup, parse_try, parse_inner_block, parse_keyword_statement, parse_statement,
  parse_block,
}
use simp.Parser.Loops.{
  take_pending, block_loop, parse_block_of, parse_condition, loop_statement, parse_variables,
}
use simp.Parser.Methods.{
  current_namespace, parse_method, leaf_name, member_path, parse_definition_body, check_member,
  parse_out_of_line_method_definition,
}
use simp.Parser.Classes.{
  parse_field, check_method_name, parse_typed_member, is_destructor, parse_destructor, is_enum,
  parse_member_declaration, member_loop, parse_class,
}
use simp.Parser.Members.{
  is_enum_keyword, modifier_loop, add_base, base_list, add_enum_member, enum_loop, start_enum,
  parse_enum_members, add_method, add_field, destructor_of,
}
use simp.Parser.Programs.{
  import_of, parse_import, add_import, add_class, add_definition, add_namespace, set_namespace,
  parse_declared, parse_defined, namespace_member, namespace_loop, parse_namespace, program_member,
  program_loop, started, check_end, parse_start, parse_program, module_member, module_loop,
  parse_module,
}
use simp.Parser.Lookahead.{skip_callback, starts_out_of_line_definition}
use simp.Ast.Expressions.{push}
use simp.Ast.Statements.{append, add_handler}
use simp.Ast.DumpStatements.{indent, dump_expression, dump_statement}
use simp.Ast.Dump.{dump_ast}
use simp.Lexer.Token.{token_type_name}

abbrev on_tokens : {A : Type 0} → (ℕ → Parser A) → Outcome (List Token) → Reply A
on_tokens p (ok ts) = run_parser p ts
on_tokens p _ = stuck

abbrev on_text : {A : Type 0} → (ℕ → Parser A) → String → Reply A
on_text p text = on_tokens p (tokenize (codes text) (codes "a.cw"))

abbrev shown : {A : Type 0} → (A → Bytes) → Reply A → Bytes
shown f (parsed e s) = f e
shown f (failed l m) = m
shown f stuck = codes "stuck"

precedence :
    shown (λ e. dump_expression e 0) (on_text parse_expression "a + 2 * f(b, -1).x == c[1:] || !d")
    ≡ codes
        "Binary [||]\n  Binary [==]\n    Binary [+]\n      Identifier [a]\n      Binary [*]\n        Integer [2]\n        Member [x]\n          ConstructorCall [f]\n            Identifier [b]\n            Unary [-]\n              Integer [1]\n    Slice\n      Identifier [c]\n      Integer [1]\n      Integer [0]\n      Integer [1]\n  Unary [!]\n    Identifier [d]\n"
unfolding tokenize push_loop step is_identifier_part equal decimal decimal_loop lower_ascii pure
    ◌>>=◌ branch current advance error out_of_fuel error_here error_found if_match consume
    skip_newlines guarded lift dotted parse_qualified_identifier if_word parse_type_test_name
    type_list callback_tail type_path parse_type add_parameter parameter_list parse_parameters
    validate_expression_depth is_placeholder_name split_colon read_width is_invalid read_spec
    read_placeholder outside index_of check_used find_arguments place_arguments
    validate_format_string is_format if_type_name expression_list closed_list pair_list
    parse_type_of parse_cast parse_parenthesized parse_map parse_elements parse_typed parse_simple
    parse_primary previous parse_argument_name parse_format_arguments parse_slice parse_access
    parse_object_cast parse_member finish_format format_of parse_format call_node parse_call
    parse_postfix binary_loop parse_unary parse_multiplication parse_addition parse_relation
    relational_loop parse_relational parse_comparison parse_not parse_and parse_or parse_expression
    defer capture_path parse_capture capture_list parse_captures parse_inline_c parse_captured
    after_dotted starts_declaration parse_constructor parse_initializer parse_declaration
    assignment_statement parse_assignment finish_call parse_expression_statement parse_return
    parse_raise parse_super_constructor_call parse_print_format parse_print parse_loop_control
    take_pending block_loop parse_block_of parse_condition loop_statement parse_variables
    parse_binding parse_if parse_while parse_do_while parse_for_each parse_handler handler_loop
    parse_cleanup parse_try parse_inner_block parse_keyword_statement parse_statement parse_block
    current_namespace parse_method leaf_name member_path parse_definition_body check_member
    parse_out_of_line_method_definition is_enum_keyword modifier_loop add_base base_list
    add_enum_member enum_loop start_enum parse_enum_members add_method add_field destructor_of
    parse_field check_method_name parse_typed_member is_destructor parse_destructor is_enum
    parse_member_declaration member_loop parse_class skip_callback starts_out_of_line_definition
    import_of parse_import add_import add_class add_definition add_namespace set_namespace
    parse_declared parse_defined namespace_member namespace_loop parse_namespace program_member
    program_loop started check_end parse_start parse_program module_member module_loop parse_module
    push append add_handler indent dump_expression dump_statement dump_ast token_type_name
precedence = refl

whole_program :
    shown dump_ast (
      on_text
        (λ f. parse_program f true)
        "import io as files\nnamespace app {\nclass Point : public Shape, virtual private Base {\n    enum { RED = 1, GREEN }\n    protected:\n    int x\n    Point(int a) { x = a }\n    destroy {}\n}\napp.Point Point.copy(int a, list b) from \"copy\"\n}\nstart {\n    app.Point p(1)\n    if (p.x is int) { p.move(1) } else { raise () }\n    for (k, v in items) { print(\"{:04x}\", v) }\n    try { return } except (Error) as e { x += 1 } finally {}\n}\n")
    ≡ codes
        "Program\n  Import [io as files]\n  Namespace [app]\n  Out-of-line method [Point.app.Point copy(int a, list b) from \"copy\"]\n  Class [Point : public Shape, private virtual Base]\n    Field [int x]\n    Enum member [RED]\n    Enum member [GREEN]\n    Constructor [void Point]\n      Assignment\n        Identifier [x]\n        Identifier [a]\n    Method [void destroy]\n  Declaration [app.Point p]\n    ConstructorCall [app.Point]\n      Integer [1]\n  If\n    TypeTest [int]\n      Member [x]\n        Identifier [p]\n    Expression statement\n      Call\n        Member [move]\n          Identifier [p]\n        Integer [1]\n    Else\n      Raise\n  For each [k, v]\n    Identifier [items]\n    Print\n      FormatString [{:04x}]\n        Identifier [v]\n  Try\n    Return\n    Except [Error] as [e]\n      Assignment [+=]\n        Identifier [x]\n        Integer [1]\n    Finally\n"
unfolding tokenize push_loop step is_identifier_part equal decimal decimal_loop lower_ascii pure
    ◌>>=◌ branch current advance error out_of_fuel error_here error_found if_match consume
    skip_newlines guarded lift dotted parse_qualified_identifier if_word parse_type_test_name
    type_list callback_tail type_path parse_type add_parameter parameter_list parse_parameters
    validate_expression_depth is_placeholder_name split_colon read_width is_invalid read_spec
    read_placeholder outside index_of check_used find_arguments place_arguments
    validate_format_string is_format if_type_name expression_list closed_list pair_list
    parse_type_of parse_cast parse_parenthesized parse_map parse_elements parse_typed parse_simple
    parse_primary previous parse_argument_name parse_format_arguments parse_slice parse_access
    parse_object_cast parse_member finish_format format_of parse_format call_node parse_call
    parse_postfix binary_loop parse_unary parse_multiplication parse_addition parse_relation
    relational_loop parse_relational parse_comparison parse_not parse_and parse_or parse_expression
    defer capture_path parse_capture capture_list parse_captures parse_inline_c parse_captured
    after_dotted starts_declaration parse_constructor parse_initializer parse_declaration
    assignment_statement parse_assignment finish_call parse_expression_statement parse_return
    parse_raise parse_super_constructor_call parse_print_format parse_print parse_loop_control
    take_pending block_loop parse_block_of parse_condition loop_statement parse_variables
    parse_binding parse_if parse_while parse_do_while parse_for_each parse_handler handler_loop
    parse_cleanup parse_try parse_inner_block parse_keyword_statement parse_statement parse_block
    current_namespace parse_method leaf_name member_path parse_definition_body check_member
    parse_out_of_line_method_definition is_enum_keyword modifier_loop add_base base_list
    add_enum_member enum_loop start_enum parse_enum_members add_method add_field destructor_of
    parse_field check_method_name parse_typed_member is_destructor parse_destructor is_enum
    parse_member_declaration member_loop parse_class skip_callback starts_out_of_line_definition
    import_of parse_import add_import add_class add_definition add_namespace set_namespace
    parse_declared parse_defined namespace_member namespace_loop parse_namespace program_member
    program_loop started check_end parse_start parse_program module_member module_loop parse_module
    push append add_handler indent dump_expression dump_statement dump_ast token_type_name
whole_program = refl

missing_brace :
    shown dump_ast (on_text (λ f. parse_program f true) "start { print(1)")
    ≡ codes "expected '}', found end of file"
unfolding tokenize push_loop step is_identifier_part equal decimal decimal_loop lower_ascii pure
    ◌>>=◌ branch current advance error out_of_fuel error_here error_found if_match consume
    skip_newlines guarded lift dotted parse_qualified_identifier if_word parse_type_test_name
    type_list callback_tail type_path parse_type add_parameter parameter_list parse_parameters
    validate_expression_depth is_placeholder_name split_colon read_width is_invalid read_spec
    read_placeholder outside index_of check_used find_arguments place_arguments
    validate_format_string is_format if_type_name expression_list closed_list pair_list
    parse_type_of parse_cast parse_parenthesized parse_map parse_elements parse_typed parse_simple
    parse_primary previous parse_argument_name parse_format_arguments parse_slice parse_access
    parse_object_cast parse_member finish_format format_of parse_format call_node parse_call
    parse_postfix binary_loop parse_unary parse_multiplication parse_addition parse_relation
    relational_loop parse_relational parse_comparison parse_not parse_and parse_or parse_expression
    defer capture_path parse_capture capture_list parse_captures parse_inline_c parse_captured
    after_dotted starts_declaration parse_constructor parse_initializer parse_declaration
    assignment_statement parse_assignment finish_call parse_expression_statement parse_return
    parse_raise parse_super_constructor_call parse_print_format parse_print parse_loop_control
    take_pending block_loop parse_block_of parse_condition loop_statement parse_variables
    parse_binding parse_if parse_while parse_do_while parse_for_each parse_handler handler_loop
    parse_cleanup parse_try parse_inner_block parse_keyword_statement parse_statement parse_block
    current_namespace parse_method leaf_name member_path parse_definition_body check_member
    parse_out_of_line_method_definition is_enum_keyword modifier_loop add_base base_list
    add_enum_member enum_loop start_enum parse_enum_members add_method add_field destructor_of
    parse_field check_method_name parse_typed_member is_destructor parse_destructor is_enum
    parse_member_declaration member_loop parse_class skip_callback starts_out_of_line_definition
    import_of parse_import add_import add_class add_definition add_namespace set_namespace
    parse_declared parse_defined namespace_member namespace_loop parse_namespace program_member
    program_loop started check_end parse_start parse_program module_member module_loop parse_module
    push append add_handler indent dump_expression dump_statement dump_ast token_type_name
missing_brace = refl

mixed_names :
    shown (λ e. dump_expression e 0) (on_text parse_expression "format(\"{} {a}\", 1, a = 2)")
    ≡ codes "named and positional placeholders cannot be mixed"
unfolding tokenize push_loop step is_identifier_part equal decimal decimal_loop lower_ascii pure
    ◌>>=◌ branch current advance error out_of_fuel error_here error_found if_match consume
    skip_newlines guarded lift dotted parse_qualified_identifier if_word parse_type_test_name
    type_list callback_tail type_path parse_type add_parameter parameter_list parse_parameters
    validate_expression_depth is_placeholder_name split_colon read_width is_invalid read_spec
    read_placeholder outside index_of check_used find_arguments place_arguments
    validate_format_string is_format if_type_name expression_list closed_list pair_list
    parse_type_of parse_cast parse_parenthesized parse_map parse_elements parse_typed parse_simple
    parse_primary previous parse_argument_name parse_format_arguments parse_slice parse_access
    parse_object_cast parse_member finish_format format_of parse_format call_node parse_call
    parse_postfix binary_loop parse_unary parse_multiplication parse_addition parse_relation
    relational_loop parse_relational parse_comparison parse_not parse_and parse_or parse_expression
    defer capture_path parse_capture capture_list parse_captures parse_inline_c parse_captured
    after_dotted starts_declaration parse_constructor parse_initializer parse_declaration
    assignment_statement parse_assignment finish_call parse_expression_statement parse_return
    parse_raise parse_super_constructor_call parse_print_format parse_print parse_loop_control
    take_pending block_loop parse_block_of parse_condition loop_statement parse_variables
    parse_binding parse_if parse_while parse_do_while parse_for_each parse_handler handler_loop
    parse_cleanup parse_try parse_inner_block parse_keyword_statement parse_statement parse_block
    current_namespace parse_method leaf_name member_path parse_definition_body check_member
    parse_out_of_line_method_definition is_enum_keyword modifier_loop add_base base_list
    add_enum_member enum_loop start_enum parse_enum_members add_method add_field destructor_of
    parse_field check_method_name parse_typed_member is_destructor parse_destructor is_enum
    parse_member_declaration member_loop parse_class skip_callback starts_out_of_line_definition
    import_of parse_import add_import add_class add_definition add_namespace set_namespace
    parse_declared parse_defined namespace_member namespace_loop parse_namespace program_member
    program_loop started check_end parse_start parse_program module_member module_loop parse_module
    push append add_handler indent dump_expression dump_statement dump_ast token_type_name
mixed_names = refl

callback_member :
    shown (λ t. t) (on_text (λ f. parse_type f true) "callback<void(int, a.B, callback<int()>)>")
    ≡ codes "callback<void(int,a.B,callback<int()>)>"
unfolding tokenize push_loop step is_identifier_part equal decimal decimal_loop lower_ascii pure
    ◌>>=◌ branch current advance error out_of_fuel error_here error_found if_match consume
    skip_newlines guarded lift dotted parse_qualified_identifier if_word parse_type_test_name
    type_list callback_tail type_path parse_type add_parameter parameter_list parse_parameters
    validate_expression_depth is_placeholder_name split_colon read_width is_invalid read_spec
    read_placeholder outside index_of check_used find_arguments place_arguments
    validate_format_string is_format if_type_name expression_list closed_list pair_list
    parse_type_of parse_cast parse_parenthesized parse_map parse_elements parse_typed parse_simple
    parse_primary previous parse_argument_name parse_format_arguments parse_slice parse_access
    parse_object_cast parse_member finish_format format_of parse_format call_node parse_call
    parse_postfix binary_loop parse_unary parse_multiplication parse_addition parse_relation
    relational_loop parse_relational parse_comparison parse_not parse_and parse_or parse_expression
    defer capture_path parse_capture capture_list parse_captures parse_inline_c parse_captured
    after_dotted starts_declaration parse_constructor parse_initializer parse_declaration
    assignment_statement parse_assignment finish_call parse_expression_statement parse_return
    parse_raise parse_super_constructor_call parse_print_format parse_print parse_loop_control
    take_pending block_loop parse_block_of parse_condition loop_statement parse_variables
    parse_binding parse_if parse_while parse_do_while parse_for_each parse_handler handler_loop
    parse_cleanup parse_try parse_inner_block parse_keyword_statement parse_statement parse_block
    current_namespace parse_method leaf_name member_path parse_definition_body check_member
    parse_out_of_line_method_definition is_enum_keyword modifier_loop add_base base_list
    add_enum_member enum_loop start_enum parse_enum_members add_method add_field destructor_of
    parse_field check_method_name parse_typed_member is_destructor parse_destructor is_enum
    parse_member_declaration member_loop parse_class skip_callback starts_out_of_line_definition
    import_of parse_import add_import add_class add_definition add_namespace set_namespace
    parse_declared parse_defined namespace_member namespace_loop parse_namespace program_member
    program_loop started check_end parse_start parse_program module_member module_loop parse_module
    push append add_handler indent dump_expression dump_statement dump_ast token_type_name
callback_member = refl

abbrev token : TokenType → String → Token
token k text = record {
  type_of = k;
  text = codes text;
  location = start_of_file;
  formatted_string = false;
}

abbrev last : Token
last = token end_of_file ""

-- `start {}`
abbrev empty_program : List Token
empty_program =
    token TokenType.start_keyword "start"
    ∷ token TokenType.left_brace "{"
    ∷ token TokenType.right_brace "}"
    ∷ []

parse_program-ne-stuck_example :
    run_parser (λ f. parse_program f true) (empty_program ++ last ∷ []) ≢ stuck
parse_program-ne-stuck_example = parse_program-ne-stuck true empty_program last refl

-- `namespace a {}`
abbrev one_namespace : List Token
one_namespace =
    token TokenType.namespace_keyword "namespace"
    ∷ token TokenType.identifier "a"
    ∷ token TokenType.left_brace "{"
    ∷ token TokenType.right_brace "}"
    ∷ []

parse_module-ne-stuck_example : run_parser parse_module (one_namespace ++ last ∷ []) ≢ stuck
parse_module-ne-stuck_example = parse_module-ne-stuck one_namespace last refl

-- `{ break }`
abbrev in_block : ParserState
in_block =
    start_state (token TokenType.left_brace "{")
      (token TokenType.break_keyword "break" ∷ token TokenType.right_brace "}" ∷ last ∷ [])

block-Reads_example : Reads 1 in_block (parse_block 9 in_block)
block-Reads_example = block-Reads 9 in_block refl (omega arith)

-- `-1`
abbrev negative : ParserState
negative = start_state (token TokenType.minus "-") (token TokenType.integer "1" ∷ last ∷ [])

abbrev one_node : Expression
one_node = node (plain ExpressionKind.integer start_of_file (codes "1")) absent absent nil

abbrev negative_node : Expression
negative_node =
    node (plain ExpressionKind.unary start_of_file (codes "-")) (present one_node) absent nil

abbrev at_end : ParserState
at_end = record negative { previous = token TokenType.integer "1"; current = last; rest = [] }

parse_negative : parse_expression 5 negative ≡ parsed negative_node at_end
unfolding tokenize push_loop step is_identifier_part equal decimal decimal_loop lower_ascii pure
    ◌>>=◌ branch current advance error out_of_fuel error_here error_found if_match consume
    skip_newlines guarded lift dotted parse_qualified_identifier if_word parse_type_test_name
    type_list callback_tail type_path parse_type add_parameter parameter_list parse_parameters
    validate_expression_depth is_placeholder_name split_colon read_width is_invalid read_spec
    read_placeholder outside index_of check_used find_arguments place_arguments
    validate_format_string is_format if_type_name expression_list closed_list pair_list
    parse_type_of parse_cast parse_parenthesized parse_map parse_elements parse_typed parse_simple
    parse_primary previous parse_argument_name parse_format_arguments parse_slice parse_access
    parse_object_cast parse_member finish_format format_of parse_format call_node parse_call
    parse_postfix binary_loop parse_unary parse_multiplication parse_addition parse_relation
    relational_loop parse_relational parse_comparison parse_not parse_and parse_or parse_expression
    defer capture_path parse_capture capture_list parse_captures parse_inline_c parse_captured
    after_dotted starts_declaration parse_constructor parse_initializer parse_declaration
    assignment_statement parse_assignment finish_call parse_expression_statement parse_return
    parse_raise parse_super_constructor_call parse_print_format parse_print parse_loop_control
    take_pending block_loop parse_block_of parse_condition loop_statement parse_variables
    parse_binding parse_if parse_while parse_do_while parse_for_each parse_handler handler_loop
    parse_cleanup parse_try parse_inner_block parse_keyword_statement parse_statement parse_block
    current_namespace parse_method leaf_name member_path parse_definition_body check_member
    parse_out_of_line_method_definition is_enum_keyword modifier_loop add_base base_list
    add_enum_member enum_loop start_enum parse_enum_members add_method add_field destructor_of
    parse_field check_method_name parse_typed_member is_destructor parse_destructor is_enum
    parse_member_declaration member_loop parse_class skip_callback starts_out_of_line_definition
    import_of parse_import add_import add_class add_definition add_namespace set_namespace
    parse_declared parse_defined namespace_member namespace_loop parse_namespace program_member
    program_loop started check_end parse_start parse_program module_member module_loop parse_module
    push append add_handler indent dump_expression dump_statement dump_ast token_type_name
parse_negative = refl

height-parse_expression_example : height negative_node ≤ 128
height-parse_expression_example =
    height-parse_expression 5 negative at_end negative_node parse_negative

-- `"{a:>8}"` with one argument of that name
abbrev template : Attributes
template = record (plain ExpressionKind.format_string start_of_file (codes "{a:>8}")) {
  argument_names = codes "a" ∷ [];
  argument_name_locations = start_of_file ∷ [];
}

validate_format_string-IsValidated_example :
    Yields (IsValidated 1) (validate_format_string template 1)
validate_format_string-IsValidated_example =
    validate_format_string-IsValidated template 1 refl refl refl

clone_expression_same_example : clone_expression negative_node ≡ negative_node
clone_expression_same_example = clone_expression_same negative_node
