-- ===== src/Prelude/Texts.antt =====
-- Go strings as lists of code points, and the functions of the package `strings` that the program
-- calls, at the one-character arguments that it gives them.
mod Defs
mod Split
unfoldable pub use Defs.{
  Text, codes, text_eq, text_eq_inst, contains, count, has_prefix, has_suffix, trim_suffix,
  trim_prefix, split, join,
}
pub use Defs.{text_eq_iff}
pub use Split.{
  Lacks, split-ne-nil, split-All-Lacks, join-split, split_lacking, split-append, split-join,
}
