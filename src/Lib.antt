-- ===== src/Lib.antt =====
-- The NightScript compiler (compiler/src): its arena, its lexer, its parser, its syntax tree, its
-- semantic analysis of declarations and bodies, and its type checker.
--
-- The compiler runs in stages. `lexer_tokenize` turns a source into tokens, the parser makes a tree of
-- them, `sema_analyze` enters the declarations of the tree in tables, validates them and goes through the
-- bodies of functions and the imports, and `typeck_check` goes through the bodies again: it gives every
-- expression a type, with the tables of sema to look names up in. The stages share the token kinds
-- and the tree. The first error ends a stage, save that the parser goes on behind an error and
-- then gives no tree, that the errors of all imports are reported, and that the checker goes on behind an error
-- in an expression, up to the end of the statement.
--
-- Files:
--   Token              lexer/token.h and token.c: TokenKind, Token, token_kind_name
--   Lexer/Tables       lexer/lexer.c: KEYWORDS, ident_or_keyword and the one- and two-byte tokens
--   Lexer/Cursor       peek, peek_next, advance, is_at_end; TokenList and list_push
--   Lexer/Skip         skip_whitespace_and_comments, with its nested block comments
--   Lexer/Literals     words and numbers;  Lexer/Strings  strings, characters, lex_escape
--   Lexer/Scan         lexer_tokenize: one token, the loop, the end token
--   Lexer/Moves, Positions, Growth, Comments, Numbers, Quoting and the modules Progress, Total and
--                      Names  the theorems on these
--   Ast                parser/ast.h: Node, its union, NodeList
--   Parser/State       parser/parser.c: the state, match, expect, intern and the loops over tokens
--   Parser/TypeNames, Matches, Literals, Expressions, Statements, Functions, Ui, Declarations
--                      the parse_* functions of these parts; Declarations/Records the structs and enums
--   Parser/Knots, Program  the recursion between the parts, and parser_parse
--   Parser/Reads, Gives, Expressions/Precedence, and the modules Total, Source, Operands, Operators, Spelling and AtEnd
--                      the theorems on these
--   Arena              common/arena.c: arena_alloc, arena_strdup;  Arena/Spans  the theorems
--   Sema/Analyzer      sema/sema.c: the tables of Analyzer, find_named_decl, register_global_name
--   Sema/TypeNames     type_name_has_form, split_top_level_comma, validate_type_name, validate_type
--   Sema/Register      register_function_like, register_struct_decl and the like, validate_fields,
--                      validate_enum_variants;  Sema/Register/Impl  register_impl_decl
--   Sema/Declare       the passes of sema_analyze over the declarations
--   Sema/Symbols       sema's scopes, enum_has_variant, analyze_match_pattern and the lookups of analyze_expr
--   Sema/Bodies        analyze_expr;  Statements  analyze_stmt, analyze_block, analyze_function_body, the passes
--                      over bodies;  Loops, Enclosing  the theorems
--   Sema/Imports       path_dirname, path_join, import_path_exists;  Paths  what the paths are;
--                      Sema/Analysis  sema_analyze;  Accepted  the theorem
--   Sema/Register/Tables, Members, Sema/TypeNames/Parts, Splits, Sema/Declare/Invariants, Consistency
--                      the theorems
--   Typeck/Types       typeck/typeck.c: Type, type_equals, is_assignable, is_castable, widen_literal,
--                      format_type, type_from_ast;  Equality, Casts, Names  the theorems
--   Typeck/Scope       scope_new, scope_define, scope_resolve
--   Typeck/Visibility  find_named_node, require_decl_visible, ensure_type_visible and
--                      ensure_resolved_type_visible;  Access  the theorems
--   Typeck/Check       typeck_error and the state of a check;  Context  Checker and the lookups;  Runs, Answers
--                      the rules that the theorems use
--   Typeck/Exprs       check_expr: Constructors  check_contextual_constructor, check_call_arguments,
--                      check_receiver, check_try_expr;  Operators, Names, Fields, Methods, Calls, Literals  its
--                      cases;  Matches  check_match_expr, get_match_binding_types;  Walk  the cases along the tree
--   Typeck/Bodies      check_stmt, check_block;  Functions  check_function, typeck_check
--   Typeck/Exprs/Constructors/Arguments, Operators/Typing, Fields/Access, Matches/Covering, Exhaustive,
--   Walk/Named, Parts, NameParts, CallParts, MatchParts, Total, Typing, Typed, Typeck/Bodies/Total and
--   Typeck/Bodies/Functions/Constants, Total, Passes, Accepted  the theorems
--   Base               lists over the native numbers, Boolean tests, text, C integers
--   Witnesses          the theorems at concrete inputs, and tests
--
-- State. A pointer into the source is the bytes from it to the terminator; a token keeps its offset,
-- length, line and column. A C string is the list of its bytes. A table of sema is the list of its
-- entries in the order in which they were entered, and an error is a value with its position. A chain
-- of scopes is a list, the innermost first. A check that changes nothing gives the error that it
-- reports, or none. The parser keeps the tokens from its position on and the one before; a read behind the
-- array of tokens, or behind a buffer, is a fault; a write behind a block of the arena is lost. The check of an expression is a function of the errors
-- before it, and goes on behind an error, with the error type; each case is a function of the checks of the
-- parts, which may run, run twice or not run, as in the code. The address of a declaration is a parameter.
-- Integer literals are unsigned words of 64 bits that wrap around.
--
-- Fuel. The loop over tokens has one unit for each byte and one more; each round passes a byte. The
-- skipping of blanks has as much. The check of a type name has its length and one more, and each call
-- is on a shorter part. The digits of a number have one unit more than the number. The parser
-- has one unit for each token and one more, for the calls of its parts on what is nested in them and again for
-- each loop: a call and a round pass a token. These are proved to be enough. The
-- checker enters the value of an untyped constant wherever it is named: its fuel is the number of values that
-- may be entered one inside the other, which is proved to be enough where the constants rank, and never is
-- for a constant that is defined by itself. All other loops are structural.
--
-- Not modelled: the import graph and the project files of main.c, and the code generator, which are large
-- and build on what is here; the tree's printer, file access and the linker, which are input and output; the
-- freeing of memory; and failing allocations, with the messages for them. The growth of the token array is
-- modelled, its count and its capacity as patterns of 32 bits, that of the tables of sema is not: the
-- positions, lines and columns of the lexer and the lengths of tables, `int` in the code, are numbers
-- without a bound, so that what happens past 2 ^ 31 of them is not shown. A floating literal is its text, since strtod is not read.
pub mod Base
pub mod Token
pub mod Ast
pub mod Arena
pub mod Lexer
pub mod Parser
pub mod Typeck
pub mod Sema
mod Witnesses
