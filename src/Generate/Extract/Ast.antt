-- ===== src/Generate/Extract/Ast.antt =====
-- The part of Go's package `go/ast` that backend/pkg/generate/collector_ast.go and collector_enum.go
-- read. A nil comment group is an empty one: both read as no text.
use go_http_mqtt_boilerplate.Prelude.{Option, List, Text}

-- `other_expr` is any other node, a struct or an interface type for one.
pub data Expr : Type 0 where
  ident : Text → Expr
  star : Expr → Expr
  array_type : Expr → Expr
  map_type : (key element : Expr) → Expr
  selector : Expr → Text → Expr
  other_expr : Expr

-- the lines of a comment group, as `Comment.Text` gives them
abbrev pub CommentGroup : Type 0
CommentGroup = List Text

-- `tag` is the literal with its quotes.
pub record Field : Type 0 where
  pub names : List Text
  pub type : Expr
  pub tag : Option Text
  pub doc : CommentGroup

pub data TypeExpr : Type 0 where
  struct_type : List Field → TypeExpr
  plain_type : Expr → TypeExpr

pub record TypeSpec : Type 0 where
  pub name : Text
  pub type : TypeExpr
  pub doc : Option CommentGroup

pub data LiteralKind : Type 0 where
  int_literal string_literal other_literal : LiteralKind

-- a value of a constant: a basic literal, or any other expression
pub data ConstValue : Type 0 where
  basic_lit : LiteralKind → Text → ConstValue
  no_literal : ConstValue

pub record ValueSpec : Type 0 where
  pub names : List Text
  pub type : Option Expr
  pub values : List ConstValue
  pub doc : Option CommentGroup
  pub comment : Option CommentGroup

pub data Decl : Type 0 where
  type_decl : List TypeSpec → Option CommentGroup → Decl
  const_decl : List ValueSpec → Decl
  other_decl : Decl

pub record ImportSpec : Type 0 where
  pub path : Text
  pub name : Option Text

pub record File : Type 0 where
  pub imports : List ImportSpec
  pub decls : List Decl
