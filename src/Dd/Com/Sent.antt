-- ===== src/Dd/Com/Sent.antt =====
-- What goes out on a serial port, with a device that is ready after a bounded number of polls.
use fusioncore.Base.{
  ℕ, zero, suc, ◌+◌, bit_and, ◌≡◌, refl, sym, ap, ◌∙◌, ◌⊎◌, inl, inr, Bool, true, false, not, List,
  [], ◌∷◌, ◌++◌, map, arith, ◌==◌, if◌then◌else◌, u8, Bool-cases, ◌≢◌, if-false, ==_ne,
}
use mathlib.Core.List.{append_assoc, append-nil}
use fusioncore.Asm.{wrote, was_read, Trace, Device, Out, done}
use fusioncore.Dd.Com.{com_is_transmit_empty, com_send_char, com_send_string}

-- The bytes written to a port, oldest first.
unfoldable pub sent : ℕ → Trace → List ℕ
sent port [] = []
sent port (was_read p ∷ t) = sent port t
sent port (wrote p v ∷ t) = if p == port then v ∷ sent port t else sent port t

sent-append : (port : ℕ) (t u : Trace) → sent port (t ++ u) ≡ sent port t ++ sent port u
unfolding sent
sent-append port [] u = refl
sent-append port (was_read p ∷ t) u = sent-append port t u
sent-append port (wrote p v ∷ t) u = elim (Bool-cases (p == port)) [
  | inl e ↦ rw (e, sent-append port t u) refl
  | inr n ↦ rw (n, sent-append port t u) refl
]

module _ (dev : Device) (port : ℕ) where
  -- Bit 5 of the line status register is set.
  abbrev pub is_ready : Trace → Bool
  is_ready t = not (bit_and (u8 (dev t (port + 5))) 0x20 == 0)

  abbrev pub polled : Trace → Trace
  polled t = t ++ was_read (port + 5) ∷ []

  -- One of the next `n` polls finds the port ready.
  abbrev pub ReadyWithin : ℕ → Trace → Type 0
  ReadyWithin zero t = ⊥
  ReadyWithin (suc n) t = (is_ready t ≡ true) ⊎ ReadyWithin n (polled t)

  -- A byte was put out, with nothing but polls before it.
  record SentByte (c : ℕ) (t : Trace) (r : Out (Unit {0})) : Type 0 where
    after : Trace
    returns : r ≡ done tt after
    adds : sent port after ≡ sent port t ++ u8 c ∷ []
    only : (other : ℕ) → other ≢ port → sent other after ≡ sent other t

  sent-polled : (p : ℕ) (t : Trace) → sent p (polled t) ≡ sent p t
  unfolding sent
  sent-polled p t = sent-append p t (was_read (port + 5) ∷ []) ∙ append-nil (sent p t)

  sent-elsewhere :
      (other v : ℕ) (t : Trace) → other ≢ port → sent other (t ++ wrote port v ∷ []) ≡ sent other t
  unfolding sent
  sent-elsewhere other v t ne =
      sent-append other t (wrote port v ∷ []) ∙ ap (λ l. sent other t ++ l) none_new ∙ append-nil _
    where
      none_new : (if port == other then v ∷ [] else []) ≡ []
      none_new = if-false _ _ _ (==_ne port other (λ e. ne (sym e)))

  sent-wrote : (t : Trace) (v : ℕ) → sent port (t ++ wrote port v ∷ []) ≡ sent port t ++ v ∷ []
  unfolding sent
  sent-wrote t v = sent-append port t (wrote port v ∷ []) ∙ ap (λ l. sent port t ++ l) one
    where
      one : (if port == port then v ∷ [] else []) ≡ v ∷ []
      one = ground arith

  send_char-SentByte :
      (fuel c : ℕ) (t : Trace) → ReadyWithin fuel t → SentByte c t (com_send_char dev fuel port c t)
  unfolding com_send_char com_is_transmit_empty
  send_char-SentByte zero c t h = elim h [ ]
  send_char-SentByte (suc fuel) c t h = elim (Bool-cases (is_ready t)) [
    | inl ready ↦ rw ready (record {
      after = polled t ++ wrote port (u8 c) ∷ [];
      returns = refl;
      adds = sent-wrote (polled t) (u8 c) ∙ ap (λ l. l ++ u8 c ∷ []) (sent-polled port t);
      only = λ other ne. sent-elsewhere other (u8 c) (polled t) ne ∙ sent-polled other t;
    })
    | inr busy ↦
        let rest = send_char-SentByte fuel c (polled t) (later h busy) in
        rw busy (record {
          after = rest.after;
          returns = rest.returns;
          adds = rest.adds ∙ ap (λ l. l ++ u8 c ∷ []) (sent-polled port t);
          only = λ other ne. rest.only other ne ∙ sent-polled other t;
        })
  ]
    where
      later :
          (is_ready t ≡ true) ⊎ ReadyWithin fuel (polled t)
          → is_ready t ≡ false
          → ReadyWithin fuel (polled t)
      later (inl r) b = cc
      later (inr r) b = r

  -- The string was put out, with nothing but polls between its characters.
  pub record SentString (str : List ℕ) (t : Trace) (r : Out (Unit {0})) : Type 0 where
    pub after : Trace
    pub returns : r ≡ done tt after
    pub adds : sent port after ≡ sent port t ++ map u8 str
    pub only : (other : ℕ) → other ≢ port → sent other after ≡ sent other t

  pub com_send_string-SentString :
      (fuel : ℕ)
      → ((t : Trace) → ReadyWithin fuel t)
      → (str : List ℕ) (t : Trace) → SentString str t (com_send_string dev fuel port str t)
  unfolding com_send_string
  com_send_string-SentString fuel h [] t = record {
    after = t;
    returns = refl;
    adds = sym (append-nil (sent port t));
    only = λ other ne. refl;
  }
  com_send_string-SentString fuel h (c ∷ str) t =
      let one = send_char-SentByte fuel c t (h t) in
      let rest = com_send_string-SentString fuel h str one.after in
      record {
        after = rest.after;
        returns = rw one.returns rest.returns;
        adds =
            rest.adds
            ∙ ap (λ l. l ++ map u8 str) one.adds
            ∙ append_assoc (sent port t) (u8 c ∷ []) (map u8 str);
        only = λ other ne. rest.only other ne ∙ one.only other ne;
      }

  -- If the port is always ready again within as many polls as the fuel, com_send_string returns and
  -- has put out the string whole and in order, and has written to no other port.
  pub com_send_string-sent :
      (fuel : ℕ)
      → ((t : Trace) → ReadyWithin fuel t)
      → (str : List ℕ) (t : Trace)
      → (t' : Trace) × (com_send_string dev fuel port str t ≡ done tt t')
        × (sent port t' ≡ sent port t ++ map u8 str)
        × ((other : ℕ) → other ≢ port → sent other t' ≡ sent other t)
  com_send_string-sent fuel h str t =
      let s = com_send_string-SentString fuel h str t in (s.after, s.returns, s.adds, s.only)
