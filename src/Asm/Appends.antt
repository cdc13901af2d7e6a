-- ===== src/Asm/Appends.antt =====
-- A driver's accesses come behind those that were there before it ran.
use mathlib.Core.Bool.{false≢true}
use mathlib.Core.List.{append_assoc, append-nil}
use fusioncore.Base.{
  ℕ, ◌≡◌, refl, sym, ap, ◌∙◌, Bool, true, false, List, [], ◌∷◌, ◌++◌, if◌then◌else◌, u32,
}
use fusioncore.Asm.{
  Access, Trace, Device, Out, Io, wrote, was_read, done, halted, fault, spinning, pure, halt, ◌>>=◌,
  and_then, write_reg32, read_reg32,
}

-- `t'` starts with `t`, and what comes behind is of the kind `P`.
pub record Starts (P : List Access → Type 0) (t t' : Trace) : Type 0 where
  pub behind : Trace
  pub splits : t' ≡ t ++ behind
  pub kind : P behind

-- A kind of sequences that may be empty and come one behind the other.
pub record IsClosed (P : List Access → Type 0) : Type 0 where
  pub nil : P []
  pub app : (a b : List Access) → P a → P b → P (a ++ b)

module _ {P : List Access → Type 0} (closed : IsClosed P) where
  pub Starts-trans : {t t1 t2 : Trace} → Starts P t t1 → Starts P t1 t2 → Starts P t t2
  Starts-trans {t} s s' = record {
    behind = s.behind ++ s'.behind;
    splits = s'.splits ∙ ap (λ a. a ++ s'.behind) s.splits ∙ append_assoc t s.behind s'.behind;
    kind = closed.app s.behind s'.behind s.kind s'.kind;
  }

  pub Starts-refl : (t : Trace) → Starts P t t
  Starts-refl t = record { behind = []; splits = sym (append-nil t); kind = closed.nil }

-- Whenever the command returns it has only added to the trace, accesses of the kind `P`.
abbrev pub Appends : {A : Type 0} → (List Access → Type 0) → Io A → Type 0
Appends {A} P c = (t t' : Trace) (a : A) → c t ≡ done a t' → Starts P t t'

module _ {A : Type 0} where
  abbrev trace_of : Out A → Trace → Trace
  trace_of (done a t) other = t
  trace_of (halted t) other = other
  trace_of fault other = other
  trace_of spinning other = other

  abbrev pub is_done : Out A → Bool
  is_done (done a t) = true
  is_done (halted t) = false
  is_done fault = false
  is_done spinning = false

  pub done-trace : {a b : A} {t t' : Trace} → ◌≡◌ {A = Out A} (done a t) (done b t') → t ≡ t'
  done-trace {t = t} h = ap (λ o. trace_of o t) h

module _ (P : List Access → Type 0) (closed : IsClosed P) {A : Type 0} where
  pub pure-Appends : (a : A) → Appends P (pure a)
  pure-Appends a t t' b h = record {
    behind = [];
    splits = sym (done-trace h) ∙ sym (append-nil t);
    kind = closed.nil;
  }

  pub halt-Appends : Appends P (halt {A = A})
  halt-Appends t t' a h = absurd (false≢true (ap is_done h))

  pub fault-Appends : Appends {A = A} P λ t. fault
  fault-Appends t t' a h = absurd (false≢true (ap is_done h))

  pub if-Appends :
      (b : Bool) (c d : Io A) → Appends P c → Appends P d → Appends P (if b then c else d)
  if-Appends true c d p q = p
  if-Appends false c d p q = q

module _ {A B : Type 0} where
  -- What a command that is followed by another has returned.
  pub bound_out :
      (o : Out A) (k : A → Io B) (t' : Trace) (b : B)
      → and_then o k ≡ done b t'
      → (a : A) × (t1 : Trace) × (o ≡ done a t1) × (k a t1 ≡ done b t')
  bound_out (done a t) k t' b h = (a, t, refl, h)
  bound_out (halted t) k t' b h = absurd (false≢true (ap is_done h))
  bound_out fault k t' b h = absurd (false≢true (ap is_done h))
  bound_out spinning k t' b h = absurd (false≢true (ap is_done h))

  pub bind-Appends :
      (P : List Access → Type 0) (closed : IsClosed P) (c : Io A) (k : A → Io B)
      → Appends P c
      → ((a : A) → Appends P (k a))
      → Appends P (c >>= k)
  bind-Appends P closed c k first rest t t' b h =
      let (a, t1, ran, ran') = bound_out (c t) k t' b h in
      Starts-trans closed (first t t1 a ran) (rest a t1 t' b ran')

pub write-Appends :
    (P : List Access → Type 0) (addr val : ℕ)
    → P (wrote addr (u32 val) ∷ [])
    → Appends P (write_reg32 addr val)
write-Appends P addr val p t t' a h = record {
  behind = wrote addr (u32 val) ∷ [];
  splits = sym (done-trace h);
  kind = p;
}

pub read-Appends :
    (P : List Access → Type 0) (dev : Device) (addr : ℕ)
    → P (was_read addr ∷ [])
    → Appends P (read_reg32 dev addr)
read-Appends P dev addr p t t' a h = record {
  behind = was_read addr ∷ [];
  splits = sym (done-trace h);
  kind = p;
}
