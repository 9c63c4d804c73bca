-- ===== src/Libc.antt =====
-- The functions of the C library and the conversions of the processor that the parser calls: they
-- are parameters of the model. Texts are lists of bytes, a double its eight bytes in memory.
use lynx_lwm2m.Base.{ℕ, Bool, List, ℤ, Run}
use lynx_lwm2m.Model.{Value}

pub record Libc : Type 0 where
  -- given the memory from the address on; a fault where it is read beyond its end
  pub atof : List ℕ → Run (List ℕ)
  -- `(float) atof(...)`, a float being its bit pattern
  pub atof_float : List ℕ → ℕ
  -- the text at `message` after `strtok(message, ":")`, which ends it at a separator
  -- (the memory from there on), a fault where it is read beyond its end
  pub strtok_link : List ℕ → Run (List ℕ)
  -- the double that four bytes of a float in memory convert to
  pub float_to_double : List ℕ → List ℕ
  -- what an uninitialised union holds
  pub garbage : Value
  -- `%f`, and `%.3f` on a float
  pub print_double : List ℕ → List ℕ
  pub print_float : ℕ → List ℕ
  -- `f < n` and `n < f` for a float and an int or a double, and `f < g` for two floats
  pub float_lt_int : ℕ → ℤ → Bool
  pub int_lt_float : ℤ → ℕ → Bool
  pub float_lt_double : ℕ → List ℕ → Bool
  pub double_lt_float : List ℕ → ℕ → Bool
  pub float_lt : ℕ → ℕ → Bool
  -- the absolute value of `(float) (a - b)`
  pub double_step : List ℕ → List ℕ → ℕ
