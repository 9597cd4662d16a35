-- ===== src/Lexer/Diagnostics.antt =====
-- `formatDiagnostic` of src/Diagnostic.cpp.
use simp.Base.{◌∷◌, ◌++◌, Bytes, codes, SourceLocation}
use simp.Base.Decimal.{decimal}

unfoldable pub format_diagnostic : SourceLocation → Bytes → Bytes
format_diagnostic location message =
    location.file
    ++ b':' ∷ decimal location.line
    ++ b':' ∷ decimal location.column
    ++ codes ": error: "
    ++ message
