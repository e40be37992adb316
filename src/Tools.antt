-- ===== src/Tools.antt =====
-- tools/: the command lines. What argparse makes of an argument list is the input; standard input and
-- the files are a parameter. Notes on standard error are not modelled.
pub mod Input
pub mod Sm2cvt
pub mod Gmcvt
