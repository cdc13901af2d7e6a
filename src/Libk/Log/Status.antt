-- ===== src/Libk/Log/Status.antt =====
-- `log_impl` and `__assert`: what a log entry puts out, and which status stops the processor.
use Prim.Native.String.{String}
use fusioncore.Base.{ℕ, suc, ◌<◌, ◌≡◌, refl, true, List, [], ◌∷◌, ◌++◌, length, subst, sym}
use fusioncore.Asm.{Trace, Device, Io, halt, ◌>>◌, ◌>>=◌}
use fusioncore.Dd.Com.{com1}
use fusioncore.Dd.Com.Sent.{ReadyWithin}
use fusioncore.Libk.Log.{
  Arg, num, lit, chars, Formatter, term_red, term_green, term_yellow, term_purple, term_cyan,
  term_color_reset, LogStatus, info, warning, panic, success, fail, buf_size, c_string, is_col_code,
  vsnprintf, debug, set_col, log_impl, assert, debug_set_col,
}
use fusioncore.Libk.Log.Said.{
  Piece, colour, text, Says, Halts, ◌then_says◌, ◌then_halts◌, Halts-before, halt-Halts, debug-Says,
  vsnprintf-short, set_col-Says,
}

-- The colour and the format of a status.
abbrev pub colour_of : LogStatus → List ℕ
colour_of info = term_cyan
colour_of warning = term_yellow
colour_of panic = term_red
colour_of success = term_green
colour_of fail = term_purple

abbrev pub format_of : LogStatus → String
format_of info = "[INFO]    | %s:%d -> %s"
format_of warning = "[WARNING] | %s:%d -> %s"
format_of panic = "[PANIC]   | %s:%d -> %s"
format_of success = "[ * ]\t| %s:%d -> %s"
format_of fail = "[ ! ]\t| %s:%d -> %s"

-- A log entry: the colour, and the place with the text.
abbrev pub entry : LogStatus → String → ℕ → List ℕ → List Piece
entry status file line_nr message =
    colour (colour_of status)
    ∷ text (format_of status) (lit file ∷ num line_nr ∷ chars (c_string message) ∷ [])
    ∷ []

module _ (dev : Device) (format : Formatter) (polls : ℕ)
    (ready : (t : Trace) → ReadyWithin dev com1 polls t) where
  -- All statuses but PANIC return with the colour reset; PANIC stops the processor.
  abbrev pub Logs : LogStatus → List Piece → Io (Unit {0}) → Type 0
  Logs info ps c = Says format (ps ++ colour term_color_reset ∷ []) c
  Logs warning ps c = Says format (ps ++ colour term_color_reset ∷ []) c
  Logs panic ps c = Halts format ps c
  Logs success ps c = Says format (ps ++ colour term_color_reset ∷ []) c
  Logs fail ps c = Says format (ps ++ colour term_color_reset ∷ []) c

  abbrev message : String → List Arg → List ℕ
  message fmt args = c_string (format fmt args)

  module _ (failed : Io (Unit {0})) (fmt : String) (args : List Arg)
      (fits : length (format fmt args) < buf_size) (col_code : List ℕ)
      (ok : is_col_code col_code ≡ true) where
    shown : Says format (colour col_code ∷ []) (set_col dev format polls failed col_code)
    shown = set_col-Says dev format polls ready failed col_code ok

    put : Says format (text fmt args ∷ []) (debug dev format polls fmt args)
    put = debug-Says dev format polls ready fmt args fits

    coloured : Says format (colour col_code ∷ text fmt args ∷ colour term_color_reset ∷ []) (
        (set_col dev format polls failed col_code >> debug dev format polls fmt args)
        >> set_col dev format polls failed term_color_reset)
    coloured =
        (shown then_says put)
        then_says set_col-Says dev format polls ready failed term_color_reset refl

    stopped : Halts format (colour col_code ∷ text fmt args ∷ []) (
        (set_col dev format polls failed col_code
          >> (debug dev format polls fmt args >> halt {A = Unit {0}}))
        >> set_col dev format polls failed term_color_reset)
    stopped = Halts-before _ (shown then_halts put then_halts halt-Halts)

  -- The text of the entry is in its buffer first.
  texted :
      (status : LogStatus) (file : String) (line_nr : ℕ) (fmt : String) (args : List Arg)
      → length (format fmt args) < buf_size
      → (k : List ℕ → Io (Unit {0}))
      → Logs status (entry status file line_nr (format fmt args)) (k (message fmt args))
      → Logs status
          (entry status file line_nr (format fmt args))
          (vsnprintf dev format polls fmt args >>= k)
  texted status file line_nr fmt args short k =
      subst (Logs status _) (sym (vsnprintf-short dev format polls fmt args short k))

  -- If the serial port is ready again within the polls and the two texts fit their buffers, an
  -- entry of each status puts out the colour of the status, the place and the text, and then resets
  -- the colour and returns, but for PANIC, which stops the processor; nothing is written to another
  -- port.
  pub log_impl-Logs :
      (debug_c file : String) (depth line_nr : ℕ) (status : LogStatus) (fmt : String)
      (args : List Arg)
      → length (format fmt args) < buf_size
      → length (
          format
            (format_of status)
            (lit file ∷ num line_nr ∷ chars (c_string (format fmt args)) ∷ []))
        < buf_size
      → Logs status
          (entry status file line_nr (format fmt args))
          (log_impl dev format polls debug_c (suc depth) file line_nr status fmt args)
  unfolding log_impl
  log_impl-Logs debug_c file depth line_nr info fmt args short fits =
      texted info file line_nr fmt args short _ (coloured _ _ _ fits term_cyan refl)
  log_impl-Logs debug_c file depth line_nr warning fmt args short fits =
      texted warning file line_nr fmt args short _ (coloured _ _ _ fits term_yellow refl)
  log_impl-Logs debug_c file depth line_nr panic fmt args short fits =
      texted panic file line_nr fmt args short _ (stopped _ _ _ fits term_red refl)
  log_impl-Logs debug_c file depth line_nr success fmt args short fits =
      texted success file line_nr fmt args short _ (coloured _ _ _ fits term_green refl)
  log_impl-Logs debug_c file depth line_nr fail fmt args short fits =
      texted fail file line_nr fmt args short _ (coloured _ _ _ fits term_purple refl)

  -- Setting a colour puts out its code.
  pub debug_set_col-Says :
      (debug_c : String) (depth : ℕ) (col_code : List ℕ)
      → is_col_code col_code ≡ true
      → Says format (colour col_code ∷ []) (debug_set_col dev format polls debug_c depth col_code)
  unfolding debug_set_col assert set_col
  debug_set_col-Says debug_c depth col_code ok = set_col-Says dev format polls ready _ col_code ok
