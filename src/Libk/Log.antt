-- ===== src/Libk/Log.antt =====
-- fckrnl/libk/serial and fckrnl/libk/assert.c: texts on the serial port. The formatter is not the
-- kernel's own code: it is a function from a format and its arguments to bytes.
pub mod Said
pub mod Status
use Prim.Native.String.{String}
use fusioncore.Base.{
  ℕ, zero, suc, Bool, ◌&&◌, List, [], ◌∷◌, ltb, ◌==◌, if◌then◌else◌, length, get_or,
}
use fusioncore.Asm.{Device, Io, done, halt, fault, spinning, pure, ◌>>=◌, ◌>>◌}
use fusioncore.Dd.Com.{com1, com_send_string}

-- An argument of a format: a number, a string of the program or the bytes of a buffer.
pub data Arg : Type 0 where
  num : ℕ → Arg
  lit : String → Arg
  chars : List ℕ → Arg

abbrev pub Formatter : Type 0
Formatter = String → List Arg → List ℕ

-- The colour codes, "\e[0;31m" and so on.
abbrev pub term_black : List ℕ
term_black = 27 ∷ 91 ∷ 48 ∷ 59 ∷ 51 ∷ 48 ∷ 109 ∷ []

abbrev pub term_red : List ℕ
term_red = 27 ∷ 91 ∷ 48 ∷ 59 ∷ 51 ∷ 49 ∷ 109 ∷ []

abbrev pub term_green : List ℕ
term_green = 27 ∷ 91 ∷ 48 ∷ 59 ∷ 51 ∷ 50 ∷ 109 ∷ []

abbrev pub term_yellow : List ℕ
term_yellow = 27 ∷ 91 ∷ 48 ∷ 59 ∷ 51 ∷ 51 ∷ 109 ∷ []

abbrev pub term_blue : List ℕ
term_blue = 27 ∷ 91 ∷ 48 ∷ 59 ∷ 51 ∷ 52 ∷ 109 ∷ []

abbrev pub term_purple : List ℕ
term_purple = 27 ∷ 91 ∷ 48 ∷ 59 ∷ 51 ∷ 53 ∷ 109 ∷ []

abbrev pub term_cyan : List ℕ
term_cyan = 27 ∷ 91 ∷ 48 ∷ 59 ∷ 51 ∷ 54 ∷ 109 ∷ []

abbrev pub term_white : List ℕ
term_white = 27 ∷ 91 ∷ 48 ∷ 59 ∷ 51 ∷ 55 ∷ 109 ∷ []

abbrev pub term_color_reset : List ℕ
term_color_reset = 27 ∷ 91 ∷ 48 ∷ 109 ∷ []

-- `log_status_t`
pub data LogStatus : Type 0 where
  info warning panic success fail : LogStatus

-- The size of `dbg_buf` and of `log_buf`.
abbrev pub buf_size : ℕ
buf_size = 5120

-- The bytes of a buffer up to the 0 that ends the string.
abbrev pub c_string : List ℕ → List ℕ
c_string [] = []
c_string (b ∷ bs) = if b == 0 then [] else b ∷ c_string bs

-- The bytes at 0 and 1 of a string, whose end is a 0.
abbrev pub is_col_code : List ℕ → Bool
is_col_code col_code = get_or col_code 0 0 == 27 && get_or col_code 1 0 == 91

-- `polls` bounds each wait for the port.
module _ (dev : Device) (format : Formatter) (polls : ℕ) where
  -- `vsnprintf` into a buffer of the kernel. The size that it is given is no limit, so a text that
  -- does not fit with its 0 is written behind the buffer.
  unfoldable pub vsnprintf : String → List Arg → Io (List ℕ)
  vsnprintf fmt args t =
      let text = format fmt args in
      if ltb (length text) buf_size then done (c_string text) t else fault

  unfoldable pub debug : String → List Arg → Io (Unit {0})
  debug fmt args = do dbg_buf ← vsnprintf fmt args; com_send_string dev polls com1 dbg_buf

  -- `debug_set_col`, from what a failed assertion does.
  unfoldable pub set_col : Io (Unit {0}) → List ℕ → Io (Unit {0})
  set_col failed col_code = do
    if is_col_code col_code then pure tt else failed
    com_send_string dev polls com1 col_code

  -- `file` is `__FILE__` of debug.c. Setting a colour can fail an assertion, which logs and sets
  -- a colour: `depth` bounds how often.
  unfoldable pub log_impl : String → ℕ → String → ℕ → LogStatus → String → List Arg → Io (Unit {0})
  log_impl debug_c zero file line_nr status fmt args = λ _. spinning
  log_impl debug_c (suc depth) file line_nr status fmt args =
      let debug_set_col = set_col (
        log_impl debug_c depth debug_c 21 panic "Assert failed at: %s:%d with %s as the condition\n"
          (lit debug_c ∷ num 21 ∷ lit "col_code[0] == '\\e' && col_code[1] == '['" ∷ [])) in
      do
        log_buf ← vsnprintf fmt args
        elim status [
          | info ↦ do
            debug_set_col term_cyan
            debug "[INFO]    | %s:%d -> %s" (lit file ∷ num line_nr ∷ chars log_buf ∷ [])
          | warning ↦ do
            debug_set_col term_yellow
            debug "[WARNING] | %s:%d -> %s" (lit file ∷ num line_nr ∷ chars log_buf ∷ [])
          | panic ↦ do
            debug_set_col term_red
            debug "[PANIC]   | %s:%d -> %s" (lit file ∷ num line_nr ∷ chars log_buf ∷ [])
            halt
          | success ↦ do
            debug_set_col term_green
            debug "[ * ]\t| %s:%d -> %s" (lit file ∷ num line_nr ∷ chars log_buf ∷ [])
          | fail ↦ do
            debug_set_col term_purple
            debug "[ ! ]\t| %s:%d -> %s" (lit file ∷ num line_nr ∷ chars log_buf ∷ [])
        ]
        debug_set_col term_color_reset

  -- `__assert`
  unfoldable pub assert : String → ℕ → String → ℕ → Bool → String → Io (Unit {0})
  assert debug_c depth file line_nr cond cond_str =
      if cond
      then pure tt
      else log_impl debug_c depth file line_nr panic
          "Assert failed at: %s:%d with %s as the condition\n"
          (lit file ∷ num line_nr ∷ lit cond_str ∷ [])

  unfoldable pub debug_set_col : String → ℕ → List ℕ → Io (Unit {0})
  debug_set_col debug_c depth col_code = do
    assert debug_c depth debug_c 21 (is_col_code col_code)
        "col_code[0] == '\\e' && col_code[1] == '['"
    com_send_string dev polls com1 col_code
