-- ===== src/Libk/Log/Said.antt =====
-- What the texts and colours of the kernel's reports put out on the first serial port, if the port
-- is ready again after a bounded number of polls.
use Prim.Native.String.{String}
use fusioncore.Base.{
  ℕ, ◌<◌, ◌≡◌, ◌≢◌, refl, sym, ap, ◌∙◌, true, List, [], ◌∷◌, ◌++◌, map, length, lt→ltb, if-true,
  fun_ext, u8,
}
use mathlib.Core.List.{append_assoc, append-nil}
use fusioncore.Asm.{Trace, Device, Io, done, halted, halt, pure, ◌>>=◌, ◌>>◌, and_then}
use fusioncore.Dd.Com.{com1, com_send_string}
use fusioncore.Dd.Com.Sent.{sent, ReadyWithin, com_send_string-SentString, SentString}
use fusioncore.Libk.Log.{Arg, Formatter, c_string, is_col_code, buf_size, vsnprintf, debug, set_col}

-- A colour code, or a format with its arguments.
pub data Piece : Type 0 where
  colour : List ℕ → Piece
  text : String → List Arg → Piece

module _ (format : Formatter) where
  -- The bytes of a report.
  abbrev pub said : List Piece → List ℕ
  said [] = []
  said (colour col_code ∷ ps) = map u8 col_code ++ said ps
  said (text fmt args ∷ ps) = map u8 (c_string (format fmt args)) ++ said ps

  -- Each text fits into the buffers, and each colour is one.
  abbrev pub AllFit : List Piece → Type 0
  AllFit [] = Unit {0}
  AllFit (colour col_code ∷ ps) = (is_col_code col_code ≡ true) × AllFit ps
  AllFit (text fmt args ∷ ps) = (length (format fmt args) < buf_size) × AllFit ps

  -- The command returns and has put out the report.
  pub record Says (ps : List Piece) (c : Io (Unit {0})) : Type 0 where
    pub after : Trace → Trace
    pub returns : (t : Trace) → c t ≡ done tt (after t)
    pub puts : (t : Trace) → sent com1 (after t) ≡ sent com1 t ++ said ps
    pub only : (t : Trace) (port : ℕ) → port ≢ com1 → sent port (after t) ≡ sent port t

  -- The command stops the processor and has put out the report.
  pub record Halts {A : Type 0} (ps : List Piece) (c : Io A) : Type 0 where
    pub after : Trace → Trace
    pub stops : (t : Trace) → c t ≡ halted (after t)
    pub puts : (t : Trace) → sent com1 (after t) ≡ sent com1 t ++ said ps
    pub only : (t : Trace) (port : ℕ) → port ≢ com1 → sent port (after t) ≡ sent port t

  -- The command returns `a` and has put out the report, and nothing on another port.
  pub record Returns {A : Type 0} (ps : List Piece) (a : A) (c : Io A) : Type 0 where
    pub after : Trace → Trace
    pub returns : (t : Trace) → c t ≡ done a (after t)
    pub puts : (t : Trace) → sent com1 (after t) ≡ sent com1 t ++ said ps
    pub only : (t : Trace) (port : ℕ) → port ≢ com1 → sent port (after t) ≡ sent port t

  said-append : (ps qs : List Piece) → said (ps ++ qs) ≡ said ps ++ said qs
  said-append [] qs = refl
  said-append (colour col_code ∷ ps) qs =
      ap (λ l. map u8 col_code ++ l) (said-append ps qs)
      ∙ sym (append_assoc (map u8 col_code) (said ps) (said qs))
  said-append (text fmt args ∷ ps) qs =
      ap (λ l. map u8 (c_string (format fmt args)) ++ l) (said-append ps qs)
      ∙ sym (append_assoc (map u8 (c_string (format fmt args))) (said ps) (said qs))

  -- Reports one after the other.
  said_twice :
      (ps qs : List Piece) (s0 : List ℕ) {s1 s2 : List ℕ}
      → s1 ≡ s0 ++ said ps
      → s2 ≡ s1 ++ said qs
      → s2 ≡ s0 ++ said (ps ++ qs)
  said_twice ps qs s0 e e' =
      e'
      ∙ ap (λ l. l ++ said qs) e
      ∙ append_assoc s0 (said ps) (said qs)
      ∙ ap (λ l. s0 ++ l) (sym (said-append ps qs))

module _ {format : Formatter} where
  infixr 5 ◌then_says◌ ◌then_halts◌
  pub ◌then_says◌ :
      {ps qs : List Piece} {c d : Io (Unit {0})}
      → Says format ps c
      → Says format qs d
      → Says format (ps ++ qs) (c >> d)
  ◌then_says◌ {ps} {qs} {c} {d} h k = record {
    after = λ t. k.after (h.after t);
    returns = λ t. ap (λ o. and_then o (λ _. d)) (h.returns t) ∙ k.returns (h.after t);
    puts = λ t. said_twice format ps qs (sent com1 t) (h.puts t) (k.puts (h.after t));
    only = λ t port ne. k.only (h.after t) port ne ∙ h.only t port ne;
  }

  pub ◌then_halts◌ :
      {A : Type 0} {ps qs : List Piece} {c : Io (Unit {0})} {d : Io A}
      → Says format ps c
      → Halts format qs d
      → Halts format (ps ++ qs) (c >> d)
  ◌then_halts◌ {A} {ps} {qs} {c} {d} h k = record {
    after = λ t. k.after (h.after t);
    stops = λ t. ap (λ o. and_then o (λ _. d)) (h.returns t) ∙ k.stops (h.after t);
    puts = λ t. said_twice format ps qs (sent com1 t) (h.puts t) (k.puts (h.after t));
    only = λ t port ne. k.only (h.after t) port ne ∙ h.only t port ne;
  }

  -- What comes behind a halt is not reached.
  pub Halts-before :
      {A B : Type 0} {ps : List Piece} {c : Io A} (d : Io B)
      → Halts format ps c
      → Halts format ps (c >> d)
  Halts-before d h = record {
    after = h.after;
    stops = λ t. ap (λ o. and_then o (λ _. d)) (h.stops t);
    puts = h.puts;
    only = h.only;
  }

  pub then-Returns :
      {A : Type 0} {ps : List Piece} {c : Io (Unit {0})} (a : A)
      → Says format ps c
      → Returns format ps a (c >> pure a)
  then-Returns a h = record {
    after = h.after;
    returns = λ t. ap (λ o. and_then o (λ _. pure a)) (h.returns t);
    puts = h.puts;
    only = h.only;
  }

  pub halt-Halts : {A : Type 0} → Halts format {A = A} [] halt
  halt-Halts = record {
    after = λ t. t;
    stops = λ t. refl;
    puts = λ t. sym (append-nil (sent com1 t));
    only = λ t port ne. refl;
  }

module _ (dev : Device) (format : Formatter) (polls : ℕ) where
  -- A text that fits into the buffer is there, with nothing put out.
  pub vsnprintf-short :
      {A : Type 0} (fmt : String) (args : List Arg)
      → length (format fmt args) < buf_size
      → (k : List ℕ → Io A)
      → (vsnprintf dev format polls fmt args >>= k) ≡ k (c_string (format fmt args))
  unfolding vsnprintf
  vsnprintf-short fmt args short k =
      fun_ext λ t. ap (λ o. and_then o k) (if-true _ _ _ (lt→ltb _ _ short))

  module _ (ready : (t : Trace) → ReadyWithin dev com1 polls t) where
    string_sent :
        (str : List ℕ) (t : Trace)
        → SentString dev com1 str t (com_send_string dev polls com1 str t)
    string_sent str t = com_send_string-SentString dev com1 polls ready str t

    pub debug-Says :
        (fmt : String) (args : List Arg)
        → length (format fmt args) < buf_size
        → Says format (text fmt args ∷ []) (debug dev format polls fmt args)
    unfolding debug vsnprintf
    debug-Says fmt args fits = record {
      after = λ t. (string_sent (c_string (format fmt args)) t).after;
      returns = λ t. rw (lt→ltb _ _ fits) ((string_sent (c_string (format fmt args)) t).returns);
      puts = λ t.
          (string_sent (c_string (format fmt args)) t).adds
          ∙ ap (λ l. sent com1 t ++ l) (sym (append-nil _));
      only = λ t. (string_sent (c_string (format fmt args)) t).only;
    }

    pub set_col-Says :
        (failed : Io (Unit {0})) (col_code : List ℕ)
        → is_col_code col_code ≡ true
        → Says format (colour col_code ∷ []) (set_col dev format polls failed col_code)
    unfolding set_col
    set_col-Says failed col_code ok = record {
      after = λ t. (string_sent col_code t).after;
      returns = λ t. rw ok ((string_sent col_code t).returns);
      puts = λ t. (string_sent col_code t).adds ∙ ap (λ l. sent com1 t ++ l) (sym (append-nil _));
      only = λ t. (string_sent col_code t).only;
    }
